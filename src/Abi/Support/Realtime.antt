-- ===== src/Abi/Support/Realtime.antt =====
-- The stubs with a fixed number of arguments of targets/m68k-amigaos/include/inline/realtime_protos.h and the
-- `libcall` pragmas of targets/m68k-amigaos/ndk/include_h/pragmas/realtime_pragmas.h.
use amiga_dev.Common.{[], ◌∷◌}
use amiga_dev.Abi.{d, a, Stub, stub, in_order, Pragma, pragma, Table}

-- `LockRealTime` to `GetPlayerAttrsA`.
unfoldable pub realtime_stubs : Table Stub
realtime_stubs =
    ("LockRealTime", stub 30 (in_order (d 0 ∷ [])))
    ∷ ("UnlockRealTime", stub 36 (in_order (a 0 ∷ [])))
    ∷ ("CreatePlayerA", stub 42 (in_order (a 0 ∷ [])))
    ∷ ("DeletePlayer", stub 48 (in_order (a 0 ∷ [])))
    ∷ ("SetPlayerAttrsA", stub 54 (in_order (a 0 ∷ a 1 ∷ [])))
    ∷ ("SetConductorState", stub 60 (in_order (a 0 ∷ d 0 ∷ d 1 ∷ [])))
    ∷ ("ExternalSync", stub 66 (in_order (a 0 ∷ d 0 ∷ d 1 ∷ [])))
    ∷ ("NextConductor", stub 72 (in_order (a 0 ∷ [])))
    ∷ ("FindConductor", stub 78 (in_order (a 0 ∷ [])))
    ∷ ("GetPlayerAttrsA", stub 84 (in_order (a 0 ∷ a 1 ∷ [])))
    ∷ []

-- `LockRealTime` to `GetPlayerAttrsA`.
unfoldable pub realtime_pragmas : Table Pragma
realtime_pragmas =
    ("LockRealTime", pragma 0x1e 0x001)
    ∷ ("UnlockRealTime", pragma 0x24 0x801)
    ∷ ("CreatePlayerA", pragma 0x2a 0x801)
    ∷ ("DeletePlayer", pragma 0x30 0x801)
    ∷ ("SetPlayerAttrsA", pragma 0x36 0x9802)
    ∷ ("SetConductorState", pragma 0x3c 0x10803)
    ∷ ("ExternalSync", pragma 0x42 0x10803)
    ∷ ("NextConductor", pragma 0x48 0x801)
    ∷ ("FindConductor", pragma 0x4e 0x801)
    ∷ ("GetPlayerAttrsA", pragma 0x54 0x9802)
    ∷ []
