-- ===== src/Abi/Support/Datatypes.antt =====
-- The stubs with a fixed number of arguments of targets/m68k-amigaos/include/inline/datatypes_protos.h and the
-- `libcall` pragmas of targets/m68k-amigaos/ndk/include_h/pragmas/datatypes_pragmas.h.
use amiga_dev.Common.{[], ◌∷◌}
use amiga_dev.Abi.{d, a, Stub, stub, in_order, Pragma, pragma, Table}

-- `ObtainDataTypeA` to `GetDTString`.
unfoldable pub datatypes_stubs : Table Stub
datatypes_stubs =
    ("ObtainDataTypeA", stub 36 (in_order (d 0 ∷ a 0 ∷ a 1 ∷ [])))
    ∷ ("ReleaseDataType", stub 42 (in_order (a 0 ∷ [])))
    ∷ ("NewDTObjectA", stub 48 (in_order (d 0 ∷ a 0 ∷ [])))
    ∷ ("DisposeDTObject", stub 54 (in_order (a 0 ∷ [])))
    ∷ ("SetDTAttrsA", stub 60 (in_order (a 0 ∷ a 1 ∷ a 2 ∷ a 3 ∷ [])))
    ∷ ("GetDTAttrsA", stub 66 (in_order (a 0 ∷ a 2 ∷ [])))
    ∷ ("AddDTObject", stub 72 (in_order (a 0 ∷ a 1 ∷ a 2 ∷ d 0 ∷ [])))
    ∷ ("RefreshDTObjectA", stub 78 (in_order (a 0 ∷ a 1 ∷ a 2 ∷ a 3 ∷ [])))
    ∷ ("DoAsyncLayout", stub 84 (in_order (a 0 ∷ a 1 ∷ [])))
    ∷ ("DoDTMethodA", stub 90 (in_order (a 0 ∷ a 1 ∷ a 2 ∷ a 3 ∷ [])))
    ∷ ("RemoveDTObject", stub 96 (in_order (a 0 ∷ a 1 ∷ [])))
    ∷ ("GetDTMethods", stub 102 (in_order (a 0 ∷ [])))
    ∷ ("GetDTTriggerMethods", stub 108 (in_order (a 0 ∷ [])))
    ∷ ("PrintDTObjectA", stub 114 (in_order (a 0 ∷ a 1 ∷ a 2 ∷ a 3 ∷ [])))
    ∷ ("ObtainDTDrawInfoA", stub 120 (in_order (a 0 ∷ a 1 ∷ [])))
    ∷ (
      "DrawDTObjectA",
      stub 126 (in_order (a 0 ∷ a 1 ∷ d 0 ∷ d 1 ∷ d 2 ∷ d 3 ∷ d 4 ∷ d 5 ∷ a 2 ∷ [])),
    )
    ∷ ("ReleaseDTDrawInfo", stub 132 (in_order (a 0 ∷ a 1 ∷ [])))
    ∷ ("GetDTString", stub 138 (in_order (d 0 ∷ [])))
    ∷ []

-- `ObtainDataTypeA` to `GetDTString`.
unfoldable pub datatypes_pragmas : Table Pragma
datatypes_pragmas =
    ("ObtainDataTypeA", pragma 0x24 0x98003)
    ∷ ("ReleaseDataType", pragma 0x2a 0x801)
    ∷ ("NewDTObjectA", pragma 0x30 0x8002)
    ∷ ("DisposeDTObject", pragma 0x36 0x801)
    ∷ ("SetDTAttrsA", pragma 0x3c 0xBA9804)
    ∷ ("GetDTAttrsA", pragma 0x42 0xA802)
    ∷ ("AddDTObject", pragma 0x48 0x0A9804)
    ∷ ("RefreshDTObjectA", pragma 0x4e 0xBA9804)
    ∷ ("DoAsyncLayout", pragma 0x54 0x9802)
    ∷ ("DoDTMethodA", pragma 0x5a 0xBA9804)
    ∷ ("RemoveDTObject", pragma 0x60 0x9802)
    ∷ ("GetDTMethods", pragma 0x66 0x801)
    ∷ ("GetDTTriggerMethods", pragma 0x6c 0x801)
    ∷ ("PrintDTObjectA", pragma 0x72 0xBA9804)
    ∷ ("ObtainDTDrawInfoA", pragma 0x78 0x9802)
    ∷ ("DrawDTObjectA", pragma 0x7e 0xA5432109809)
    ∷ ("ReleaseDTDrawInfo", pragma 0x84 0x9802)
    ∷ ("GetDTString", pragma 0x8a 0x001)
    ∷ []
