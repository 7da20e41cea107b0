-- ===== src/Layout/Asm.antt =====
-- The structure macros of targets/m68k-amigaos/ndk/include_i/exec/types.i, and `BPTR` and `BSTR` of
-- dos/dos.i beside it.
use Prim.Native.String.{String}
use amiga_dev.Common.{◌>>=◌, ℕ, ◌+◌, ◌*◌, bit_and, Option, some, List, [], ◌∷◌}
use amiga_dev.Abi.{Table, find}

-- The macros that define a field of a fixed size.
pub data Macro : Type 0 where
  fptr bool byte ubyte word uword short ushort long ulong float double aptr cptr rptr bptr bstr :
      Macro

abbrev pub bytes_of : Macro → ℕ
bytes_of bool = 2
bytes_of byte = 1
bytes_of ubyte = 1
bytes_of word = 2
bytes_of uword = 2
bytes_of short = 2
bytes_of ushort = 2
bytes_of rptr = 2
bytes_of double = 8
bytes_of _ = 4

pub data Expr : Type 0 where
  num : ℕ → Expr
  sym : String → Expr
  plus times : Expr → Expr → Expr

pub data Directive : Type 0 where
  structure : String → Expr → Directive
  field : Macro → String → Directive
  struct : String → Expr → Directive
  label : String → Directive
  alignword alignlong : Directive

abbrev pub Symbols : Type 0
Symbols = Table ℕ

unfoldable pub eval : Symbols → Expr → Option ℕ
eval syms (num n) = some n
eval syms (sym x) = find x syms
eval syms (plus a b) = do x ← eval syms a; y ← eval syms b; some (x + y)
eval syms (times a b) = do x ← eval syms a; y ← eval syms b; some (x * y)

-- The symbols, newest first, that lines define from the value of `SOFFSET` on; `none` where a
-- symbol is not defined.
unfoldable pub assemble : ℕ → Symbols → List Directive → Option Symbols
assemble soffset syms [] = some syms
assemble soffset syms (structure x e ∷ ds) = do v ← eval syms e; assemble v ((x, 0) ∷ syms) ds
assemble soffset syms (field m x ∷ ds) = assemble (soffset + bytes_of m) ((x, soffset) ∷ syms) ds
assemble soffset syms (struct x e ∷ ds) = do
  v ← eval syms e
  assemble (soffset + v) ((x, soffset) ∷ syms) ds
assemble soffset syms (label x ∷ ds) = assemble soffset ((x, soffset) ∷ syms) ds
assemble soffset syms (alignword ∷ ds) = assemble (bit_and (soffset + 1) 0xfffffffe) syms ds
assemble soffset syms (alignlong ∷ ds) = assemble (bit_and (soffset + 3) 0xfffffffc) syms ds
