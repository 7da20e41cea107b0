-- ===== src/Abi/Support/Amigaguide.antt =====
-- The stubs with a fixed number of arguments of targets/m68k-amigaos/include/inline/amigaguide_protos.h and the
-- `libcall` pragmas of targets/m68k-amigaos/ndk/include_h/pragmas/amigaguide_pragmas.h.
use amiga_dev.Common.{[], ◌∷◌}
use amiga_dev.Abi.{d, a, Stub, stub, in_order, Pragma, pragma, Table}

-- `LockAmigaGuideBase` to `GetAmigaGuideString`.
unfoldable pub amigaguide_stubs : Table Stub
amigaguide_stubs =
    ("LockAmigaGuideBase", stub 36 (in_order (a 0 ∷ [])))
    ∷ ("UnlockAmigaGuideBase", stub 42 (in_order (d 0 ∷ [])))
    ∷ ("OpenAmigaGuideA", stub 54 (in_order (a 0 ∷ a 1 ∷ [])))
    ∷ ("OpenAmigaGuideAsyncA", stub 60 (in_order (a 0 ∷ d 0 ∷ [])))
    ∷ ("CloseAmigaGuide", stub 66 (in_order (a 0 ∷ [])))
    ∷ ("AmigaGuideSignal", stub 72 (in_order (a 0 ∷ [])))
    ∷ ("GetAmigaGuideMsg", stub 78 (in_order (a 0 ∷ [])))
    ∷ ("ReplyAmigaGuideMsg", stub 84 (in_order (a 0 ∷ [])))
    ∷ ("SetAmigaGuideContextA", stub 90 (in_order (a 0 ∷ d 0 ∷ d 1 ∷ [])))
    ∷ ("SendAmigaGuideContextA", stub 96 (in_order (a 0 ∷ d 0 ∷ [])))
    ∷ ("SendAmigaGuideCmdA", stub 102 (in_order (a 0 ∷ d 0 ∷ d 1 ∷ [])))
    ∷ ("SetAmigaGuideAttrsA", stub 108 (in_order (a 0 ∷ a 1 ∷ [])))
    ∷ ("GetAmigaGuideAttr", stub 114 (in_order (d 0 ∷ a 0 ∷ a 1 ∷ [])))
    ∷ ("LoadXRef", stub 126 (in_order (a 0 ∷ a 1 ∷ [])))
    ∷ ("ExpungeXRef", stub 132 [])
    ∷ ("AddAmigaGuideHostA", stub 138 (in_order (a 0 ∷ d 0 ∷ a 1 ∷ [])))
    ∷ ("RemoveAmigaGuideHostA", stub 144 (in_order (a 0 ∷ a 1 ∷ [])))
    ∷ ("GetAmigaGuideString", stub 210 (in_order (d 0 ∷ [])))
    ∷ []

-- `LockAmigaGuideBase` to `GetAmigaGuideString`.
unfoldable pub amigaguide_pragmas : Table Pragma
amigaguide_pragmas =
    ("LockAmigaGuideBase", pragma 0x24 0x801)
    ∷ ("UnlockAmigaGuideBase", pragma 0x2a 0x001)
    ∷ ("OpenAmigaGuideA", pragma 0x36 0x9802)
    ∷ ("OpenAmigaGuideAsyncA", pragma 0x3c 0x0802)
    ∷ ("CloseAmigaGuide", pragma 0x42 0x801)
    ∷ ("AmigaGuideSignal", pragma 0x48 0x801)
    ∷ ("GetAmigaGuideMsg", pragma 0x4e 0x801)
    ∷ ("ReplyAmigaGuideMsg", pragma 0x54 0x801)
    ∷ ("SetAmigaGuideContextA", pragma 0x5a 0x10803)
    ∷ ("SendAmigaGuideContextA", pragma 0x60 0x0802)
    ∷ ("SendAmigaGuideCmdA", pragma 0x66 0x10803)
    ∷ ("SetAmigaGuideAttrsA", pragma 0x6c 0x9802)
    ∷ ("GetAmigaGuideAttr", pragma 0x72 0x98003)
    ∷ ("LoadXRef", pragma 0x7e 0x9802)
    ∷ ("ExpungeXRef", pragma 0x84 0x00)
    ∷ ("AddAmigaGuideHostA", pragma 0x8a 0x90803)
    ∷ ("RemoveAmigaGuideHostA", pragma 0x90 0x9802)
    ∷ ("GetAmigaGuideString", pragma 0xd2 0x001)
    ∷ []
