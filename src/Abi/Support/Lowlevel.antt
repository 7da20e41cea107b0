-- ===== src/Abi/Support/Lowlevel.antt =====
-- The stubs with a fixed number of arguments of targets/m68k-amigaos/include/inline/lowlevel_protos.h and the
-- `libcall` pragmas of targets/m68k-amigaos/ndk/include_h/pragmas/lowlevel_pragmas.h.
use amiga_dev.Common.{[], ◌∷◌}
use amiga_dev.Abi.{d, a, Stub, stub, in_order, Pragma, pragma, Table}

-- `ReadJoyPort` to `SetJoyPortAttrsA`.
unfoldable pub lowlevel_stubs : Table Stub
lowlevel_stubs =
    ("ReadJoyPort", stub 30 (in_order (d 0 ∷ [])))
    ∷ ("GetLanguageSelection", stub 36 [])
    ∷ ("GetKey", stub 48 [])
    ∷ ("QueryKeys", stub 54 (in_order (a 0 ∷ d 1 ∷ [])))
    ∷ ("AddKBInt", stub 60 (in_order (a 0 ∷ a 1 ∷ [])))
    ∷ ("RemKBInt", stub 66 (in_order (a 1 ∷ [])))
    ∷ ("SystemControlA", stub 72 (in_order (a 1 ∷ [])))
    ∷ ("AddTimerInt", stub 78 (in_order (a 0 ∷ a 1 ∷ [])))
    ∷ ("RemTimerInt", stub 84 (in_order (a 1 ∷ [])))
    ∷ ("StopTimerInt", stub 90 (in_order (a 1 ∷ [])))
    ∷ ("StartTimerInt", stub 96 (in_order (a 1 ∷ d 0 ∷ d 1 ∷ [])))
    ∷ ("ElapsedTime", stub 102 (in_order (a 0 ∷ [])))
    ∷ ("AddVBlankInt", stub 108 (in_order (a 0 ∷ a 1 ∷ [])))
    ∷ ("RemVBlankInt", stub 114 (in_order (a 1 ∷ [])))
    ∷ ("SetJoyPortAttrsA", stub 132 (in_order (d 0 ∷ a 1 ∷ [])))
    ∷ []

-- `ReadJoyPort` to `SetJoyPortAttrsA`.
unfoldable pub lowlevel_pragmas : Table Pragma
lowlevel_pragmas =
    ("ReadJoyPort", pragma 0x1e 0x001)
    ∷ ("GetLanguageSelection", pragma 0x24 0x00)
    ∷ ("GetKey", pragma 0x30 0x00)
    ∷ ("QueryKeys", pragma 0x36 0x1802)
    ∷ ("AddKBInt", pragma 0x3c 0x9802)
    ∷ ("RemKBInt", pragma 0x42 0x901)
    ∷ ("SystemControlA", pragma 0x48 0x901)
    ∷ ("AddTimerInt", pragma 0x4e 0x9802)
    ∷ ("RemTimerInt", pragma 0x54 0x901)
    ∷ ("StopTimerInt", pragma 0x5a 0x901)
    ∷ ("StartTimerInt", pragma 0x60 0x10903)
    ∷ ("ElapsedTime", pragma 0x66 0x801)
    ∷ ("AddVBlankInt", pragma 0x6c 0x9802)
    ∷ ("RemVBlankInt", pragma 0x72 0x901)
    ∷ ("SetJoyPortAttrsA", pragma 0x84 0x9002)
    ∷ []
