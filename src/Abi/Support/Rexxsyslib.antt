-- ===== src/Abi/Support/Rexxsyslib.antt =====
-- The stubs with a fixed number of arguments of targets/m68k-amigaos/include/inline/rexxsyslib_protos.h and the
-- `libcall` pragmas of targets/m68k-amigaos/ndk/include_h/pragmas/rexxsyslib_pragmas.h.
use amiga_dev.Common.{[], ◌∷◌}
use amiga_dev.Abi.{d, a, Stub, stub, in_order, Pragma, pragma, Table}

-- `CreateArgstring` to `UnlockRexxBase`.
unfoldable pub rexxsyslib_stubs : Table Stub
rexxsyslib_stubs =
    ("CreateArgstring", stub 126 (in_order (a 0 ∷ d 0 ∷ [])))
    ∷ ("DeleteArgstring", stub 132 (in_order (a 0 ∷ [])))
    ∷ ("LengthArgstring", stub 138 (in_order (a 0 ∷ [])))
    ∷ ("CreateRexxMsg", stub 144 (in_order (a 0 ∷ a 1 ∷ d 0 ∷ [])))
    ∷ ("DeleteRexxMsg", stub 150 (in_order (a 0 ∷ [])))
    ∷ ("ClearRexxMsg", stub 156 (in_order (a 0 ∷ d 0 ∷ [])))
    ∷ ("FillRexxMsg", stub 162 (in_order (a 0 ∷ d 0 ∷ d 1 ∷ [])))
    ∷ ("IsRexxMsg", stub 168 (in_order (a 0 ∷ [])))
    ∷ ("LockRexxBase", stub 450 (in_order (d 0 ∷ [])))
    ∷ ("UnlockRexxBase", stub 456 (in_order (d 0 ∷ [])))
    ∷ []

-- `CreateArgstring` to `UnlockRexxBase`.
unfoldable pub rexxsyslib_pragmas : Table Pragma
rexxsyslib_pragmas =
    ("CreateArgstring", pragma 0x7e 0x0802)
    ∷ ("DeleteArgstring", pragma 0x84 0x801)
    ∷ ("LengthArgstring", pragma 0x8a 0x801)
    ∷ ("CreateRexxMsg", pragma 0x90 0x09803)
    ∷ ("DeleteRexxMsg", pragma 0x96 0x801)
    ∷ ("ClearRexxMsg", pragma 0x9c 0x0802)
    ∷ ("FillRexxMsg", pragma 0xa2 0x10803)
    ∷ ("IsRexxMsg", pragma 0xa8 0x801)
    ∷ ("LockRexxBase", pragma 0x1c2 0x001)
    ∷ ("UnlockRexxBase", pragma 0x1c8 0x001)
    ∷ []
