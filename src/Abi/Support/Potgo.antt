-- ===== src/Abi/Support/Potgo.antt =====
-- The stubs with a fixed number of arguments of targets/m68k-amigaos/include/inline/potgo_protos.h and the
-- `libcall` pragmas of targets/m68k-amigaos/ndk/include_h/pragmas/potgo_pragmas.h.
use amiga_dev.Common.{[], ◌∷◌}
use amiga_dev.Abi.{d, Stub, stub, in_order, Pragma, pragma, Table}

-- `AllocPotBits` to `WritePotgo`.
unfoldable pub potgo_stubs : Table Stub
potgo_stubs =
    ("AllocPotBits", stub 6 (in_order (d 0 ∷ [])))
    ∷ ("FreePotBits", stub 12 (in_order (d 0 ∷ [])))
    ∷ ("WritePotgo", stub 18 (in_order (d 0 ∷ d 1 ∷ [])))
    ∷ []

-- `AllocPotBits` to `WritePotgo`.
unfoldable pub potgo_pragmas : Table Pragma
potgo_pragmas =
    ("AllocPotBits", pragma 0x6 0x001)
    ∷ ("FreePotBits", pragma 0xc 0x001)
    ∷ ("WritePotgo", pragma 0x12 0x1002)
    ∷ []
