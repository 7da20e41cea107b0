-- ===== src/Abi/Support/Battclock.antt =====
-- The stubs with a fixed number of arguments of targets/m68k-amigaos/include/inline/battclock_protos.h and the
-- `libcall` pragmas of targets/m68k-amigaos/ndk/include_h/pragmas/battclock_pragmas.h.
use amiga_dev.Common.{[], ◌∷◌}
use amiga_dev.Abi.{d, Stub, stub, in_order, Pragma, pragma, Table}

-- `ResetBattClock` to `WriteBattClock`.
unfoldable pub battclock_stubs : Table Stub
battclock_stubs =
    ("ResetBattClock", stub 6 [])
    ∷ ("ReadBattClock", stub 12 [])
    ∷ ("WriteBattClock", stub 18 (in_order (d 0 ∷ [])))
    ∷ []

-- `ResetBattClock` to `WriteBattClock`.
unfoldable pub battclock_pragmas : Table Pragma
battclock_pragmas =
    ("ResetBattClock", pragma 0x6 0x00)
    ∷ ("ReadBattClock", pragma 0xc 0x00)
    ∷ ("WriteBattClock", pragma 0x12 0x001)
    ∷ []
