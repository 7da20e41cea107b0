-- ===== src/Abi/Support/Commodities.antt =====
-- The stubs with a fixed number of arguments of targets/m68k-amigaos/include/inline/commodities_protos.h and the
-- `libcall` pragmas of targets/m68k-amigaos/ndk/include_h/pragmas/commodities_pragmas.h.
use amiga_dev.Common.{[], ◌∷◌}
use amiga_dev.Abi.{d, a, Stub, stub, in_order, Pragma, pragma, Table}

-- `CreateCxObj` to `MatchIX`.
unfoldable pub commodities_stubs : Table Stub
commodities_stubs =
    ("CreateCxObj", stub 30 (in_order (d 0 ∷ a 0 ∷ a 1 ∷ [])))
    ∷ ("CxBroker", stub 36 (in_order (a 0 ∷ d 0 ∷ [])))
    ∷ ("ActivateCxObj", stub 42 (in_order (a 0 ∷ d 0 ∷ [])))
    ∷ ("DeleteCxObj", stub 48 (in_order (a 0 ∷ [])))
    ∷ ("DeleteCxObjAll", stub 54 (in_order (a 0 ∷ [])))
    ∷ ("CxObjType", stub 60 (in_order (a 0 ∷ [])))
    ∷ ("CxObjError", stub 66 (in_order (a 0 ∷ [])))
    ∷ ("ClearCxObjError", stub 72 (in_order (a 0 ∷ [])))
    ∷ ("SetCxObjPri", stub 78 (in_order (a 0 ∷ d 0 ∷ [])))
    ∷ ("AttachCxObj", stub 84 (in_order (a 0 ∷ a 1 ∷ [])))
    ∷ ("EnqueueCxObj", stub 90 (in_order (a 0 ∷ a 1 ∷ [])))
    ∷ ("InsertCxObj", stub 96 (in_order (a 0 ∷ a 1 ∷ a 2 ∷ [])))
    ∷ ("RemoveCxObj", stub 102 (in_order (a 0 ∷ [])))
    ∷ ("SetTranslate", stub 114 (in_order (a 0 ∷ a 1 ∷ [])))
    ∷ ("SetFilter", stub 120 (in_order (a 0 ∷ a 1 ∷ [])))
    ∷ ("SetFilterIX", stub 126 (in_order (a 0 ∷ a 1 ∷ [])))
    ∷ ("ParseIX", stub 132 (in_order (a 0 ∷ a 1 ∷ [])))
    ∷ ("CxMsgType", stub 138 (in_order (a 0 ∷ [])))
    ∷ ("CxMsgData", stub 144 (in_order (a 0 ∷ [])))
    ∷ ("CxMsgID", stub 150 (in_order (a 0 ∷ [])))
    ∷ ("DivertCxMsg", stub 156 (in_order (a 0 ∷ a 1 ∷ a 2 ∷ [])))
    ∷ ("RouteCxMsg", stub 162 (in_order (a 0 ∷ a 1 ∷ [])))
    ∷ ("DisposeCxMsg", stub 168 (in_order (a 0 ∷ [])))
    ∷ ("InvertKeyMap", stub 174 (in_order (d 0 ∷ a 0 ∷ a 1 ∷ [])))
    ∷ ("AddIEvents", stub 180 (in_order (a 0 ∷ [])))
    ∷ ("MatchIX", stub 204 (in_order (a 0 ∷ a 1 ∷ [])))
    ∷ []

-- `CreateCxObj` to `MatchIX`.
unfoldable pub commodities_pragmas : Table Pragma
commodities_pragmas =
    ("CreateCxObj", pragma 0x1e 0x98003)
    ∷ ("CxBroker", pragma 0x24 0x0802)
    ∷ ("ActivateCxObj", pragma 0x2a 0x0802)
    ∷ ("DeleteCxObj", pragma 0x30 0x801)
    ∷ ("DeleteCxObjAll", pragma 0x36 0x801)
    ∷ ("CxObjType", pragma 0x3c 0x801)
    ∷ ("CxObjError", pragma 0x42 0x801)
    ∷ ("ClearCxObjError", pragma 0x48 0x801)
    ∷ ("SetCxObjPri", pragma 0x4e 0x0802)
    ∷ ("AttachCxObj", pragma 0x54 0x9802)
    ∷ ("EnqueueCxObj", pragma 0x5a 0x9802)
    ∷ ("InsertCxObj", pragma 0x60 0xA9803)
    ∷ ("RemoveCxObj", pragma 0x66 0x801)
    ∷ ("SetTranslate", pragma 0x72 0x9802)
    ∷ ("SetFilter", pragma 0x78 0x9802)
    ∷ ("SetFilterIX", pragma 0x7e 0x9802)
    ∷ ("ParseIX", pragma 0x84 0x9802)
    ∷ ("CxMsgType", pragma 0x8a 0x801)
    ∷ ("CxMsgData", pragma 0x90 0x801)
    ∷ ("CxMsgID", pragma 0x96 0x801)
    ∷ ("DivertCxMsg", pragma 0x9c 0xA9803)
    ∷ ("RouteCxMsg", pragma 0xa2 0x9802)
    ∷ ("DisposeCxMsg", pragma 0xa8 0x801)
    ∷ ("InvertKeyMap", pragma 0xae 0x98003)
    ∷ ("AddIEvents", pragma 0xb4 0x801)
    ∷ ("MatchIX", pragma 0xcc 0x9802)
    ∷ []
