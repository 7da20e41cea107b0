-- ===== src/Abi/Support/Keymap.antt =====
-- The stubs with a fixed number of arguments of targets/m68k-amigaos/include/inline/keymap_protos.h and the
-- `libcall` pragmas of targets/m68k-amigaos/ndk/include_h/pragmas/keymap_pragmas.h.
use amiga_dev.Common.{[], ◌∷◌}
use amiga_dev.Abi.{d, a, Stub, stub, in_order, Pragma, pragma, Table}

-- `SetKeyMapDefault` to `MapANSI`.
unfoldable pub keymap_stubs : Table Stub
keymap_stubs =
    ("SetKeyMapDefault", stub 30 (in_order (a 0 ∷ [])))
    ∷ ("AskKeyMapDefault", stub 36 [])
    ∷ ("MapRawKey", stub 42 (in_order (a 0 ∷ a 1 ∷ d 1 ∷ a 2 ∷ [])))
    ∷ ("MapANSI", stub 48 (in_order (a 0 ∷ d 0 ∷ a 1 ∷ d 1 ∷ a 2 ∷ [])))
    ∷ []

-- `SetKeyMapDefault` to `MapANSI`.
unfoldable pub keymap_pragmas : Table Pragma
keymap_pragmas =
    ("SetKeyMapDefault", pragma 0x1e 0x801)
    ∷ ("AskKeyMapDefault", pragma 0x24 0x00)
    ∷ ("MapRawKey", pragma 0x2a 0xA19804)
    ∷ ("MapANSI", pragma 0x30 0xA190805)
    ∷ []
