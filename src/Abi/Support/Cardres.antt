-- ===== src/Abi/Support/Cardres.antt =====
-- The stubs with a fixed number of arguments of targets/m68k-amigaos/include/inline/cardres_protos.h and the
-- `libcall` pragmas of targets/m68k-amigaos/ndk/include_h/pragmas/cardres_pragmas.h.
use amiga_dev.Common.{[], ◌∷◌}
use amiga_dev.Abi.{d, a, Stub, stub, in_order, Pragma, pragma, Table}

-- `OwnCard` to `CardInterface`.
unfoldable pub cardres_stubs : Table Stub
cardres_stubs =
    ("OwnCard", stub 6 (in_order (a 1 ∷ [])))
    ∷ ("ReleaseCard", stub 12 (in_order (a 1 ∷ d 0 ∷ [])))
    ∷ ("GetCardMap", stub 18 [])
    ∷ ("BeginCardAccess", stub 24 (in_order (a 1 ∷ [])))
    ∷ ("EndCardAccess", stub 30 (in_order (a 1 ∷ [])))
    ∷ ("ReadCardStatus", stub 36 [])
    ∷ ("CardResetRemove", stub 42 (in_order (a 1 ∷ d 0 ∷ [])))
    ∷ ("CardMiscControl", stub 48 (in_order (a 1 ∷ d 1 ∷ [])))
    ∷ ("CardAccessSpeed", stub 54 (in_order (a 1 ∷ d 0 ∷ [])))
    ∷ ("CardProgramVoltage", stub 60 (in_order (a 1 ∷ d 0 ∷ [])))
    ∷ ("CardResetCard", stub 66 (in_order (a 1 ∷ [])))
    ∷ ("CopyTuple", stub 72 (in_order (a 1 ∷ a 0 ∷ d 1 ∷ d 0 ∷ [])))
    ∷ ("DeviceTuple", stub 78 (in_order (a 0 ∷ a 1 ∷ [])))
    ∷ ("IfAmigaXIP", stub 84 (in_order (a 2 ∷ [])))
    ∷ ("CardForceChange", stub 90 [])
    ∷ ("CardChangeCount", stub 96 [])
    ∷ ("CardInterface", stub 102 [])
    ∷ []

-- `OwnCard` to `CardInterface`.
unfoldable pub cardres_pragmas : Table Pragma
cardres_pragmas =
    ("OwnCard", pragma 0x6 0x901)
    ∷ ("ReleaseCard", pragma 0xc 0x0902)
    ∷ ("GetCardMap", pragma 0x12 0x00)
    ∷ ("BeginCardAccess", pragma 0x18 0x901)
    ∷ ("EndCardAccess", pragma 0x1e 0x901)
    ∷ ("ReadCardStatus", pragma 0x24 0x00)
    ∷ ("CardResetRemove", pragma 0x2a 0x0902)
    ∷ ("CardMiscControl", pragma 0x30 0x1902)
    ∷ ("CardAccessSpeed", pragma 0x36 0x0902)
    ∷ ("CardProgramVoltage", pragma 0x3c 0x0902)
    ∷ ("CardResetCard", pragma 0x42 0x901)
    ∷ ("CopyTuple", pragma 0x48 0x018904)
    ∷ ("DeviceTuple", pragma 0x4e 0x9802)
    ∷ ("IfAmigaXIP", pragma 0x54 0xA01)
    ∷ ("CardForceChange", pragma 0x5a 0x00)
    ∷ ("CardChangeCount", pragma 0x60 0x00)
    ∷ ("CardInterface", pragma 0x66 0x00)
    ∷ []
