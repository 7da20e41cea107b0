-- ===== src/Abi/Support/Nonvolatile.antt =====
-- The stubs with a fixed number of arguments of targets/m68k-amigaos/include/inline/nonvolatile_protos.h and the
-- `libcall` pragmas of targets/m68k-amigaos/ndk/include_h/pragmas/nonvolatile_pragmas.h.
use amiga_dev.Common.{[], ◌∷◌}
use amiga_dev.Abi.{d, a, Stub, stub, in_order, Pragma, pragma, Table}

-- `GetCopyNV` to `SetNVProtection`.
unfoldable pub nonvolatile_stubs : Table Stub
nonvolatile_stubs =
    ("GetCopyNV", stub 30 (in_order (a 0 ∷ a 1 ∷ d 1 ∷ [])))
    ∷ ("FreeNVData", stub 36 (in_order (a 0 ∷ [])))
    ∷ ("StoreNV", stub 42 (in_order (a 0 ∷ a 1 ∷ a 2 ∷ d 0 ∷ d 1 ∷ [])))
    ∷ ("DeleteNV", stub 48 (in_order (a 0 ∷ a 1 ∷ d 1 ∷ [])))
    ∷ ("GetNVInfo", stub 54 (in_order (d 1 ∷ [])))
    ∷ ("GetNVList", stub 60 (in_order (a 0 ∷ d 1 ∷ [])))
    ∷ ("SetNVProtection", stub 66 (in_order (a 0 ∷ a 1 ∷ d 2 ∷ d 1 ∷ [])))
    ∷ []

-- `GetCopyNV` to `SetNVProtection`.
unfoldable pub nonvolatile_pragmas : Table Pragma
nonvolatile_pragmas =
    ("GetCopyNV", pragma 0x1e 0x19803)
    ∷ ("FreeNVData", pragma 0x24 0x801)
    ∷ ("StoreNV", pragma 0x2a 0x10A9805)
    ∷ ("DeleteNV", pragma 0x30 0x19803)
    ∷ ("GetNVInfo", pragma 0x36 0x101)
    ∷ ("GetNVList", pragma 0x3c 0x1802)
    ∷ ("SetNVProtection", pragma 0x42 0x129804)
    ∷ []
