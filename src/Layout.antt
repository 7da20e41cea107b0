-- ===== src/Layout.antt =====
-- Structures of ndk/include_h (under targets/m68k-amigaos) as C lays them out on the 68000, and the
-- same structures as the macros of ndk/include_i/exec/types.i lay them out.
pub mod Asm
pub mod Agree
pub mod Exec
pub mod Devices
pub mod Graphics
pub mod Intuition
mod Tests
use Prim.Native.String.{String}
use amiga_dev.Common.{ℕ, zero, suc, ◌+◌, ◌-◌, ◌*◌, ◌/◌, List, [], ◌∷◌, leb, if◌then◌else◌}

-- Of a C type only its size and its alignment matter.
pub record CType : Type 0 where
  pub size : ℕ
  pub align : ℕ

-- The types of exec/types.h by their width: `BYTE` and `UBYTE` are `int8`, `WORD`, `UWORD` and `BOOL`
-- are `int16`, `LONG`, `ULONG` and `FLOAT` are `int32`. Nothing is aligned to more than a word.
abbrev pub int8 : CType
int8 = record { size = 1; align = 1 }

abbrev pub int16 : CType
int16 = record { size = 2; align = 2 }

abbrev pub int32 : CType
int32 = record { size = 4; align = 2 }

abbrev pub float64 : CType
float64 = record { size = 8; align = 2 }

-- Pointers to data and to functions.
abbrev pub ptr : CType
ptr = record { size = 4; align = 2 }

abbrev pub array : ℕ → CType → CType
array n t = record { size = n * t.size; align = t.align }

abbrev pub Fields : Type 0
Fields = List (String × CType)

abbrev pub round_up : ℕ → ℕ → ℕ
round_up n k = (n + k - 1) / k * k

abbrev larger : ℕ → ℕ → ℕ
larger x y = if leb x y then y else x

-- The offset of each field when the first is placed at the first fitting one from `o` on.
unfoldable pub place : ℕ → Fields → List (String × ℕ)
place o [] = []
place o ((n, t) ∷ fs) = let p = round_up o t.align in (n, p) ∷ place (p + t.size) fs

unfoldable pub end_of : ℕ → Fields → ℕ
end_of o [] = o
end_of o ((n, t) ∷ fs) = end_of (round_up o t.align + t.size) fs

unfoldable pub align_of : Fields → ℕ
align_of [] = 1
align_of ((n, t) ∷ fs) = larger t.align (align_of fs)

unfoldable pub struct_of : Fields → CType
struct_of fs = record { size = round_up (end_of 0 fs) (align_of fs); align = align_of fs }

-- A union starts each member at 0.
unfoldable pub widest : Fields → ℕ
widest [] = 0
widest ((n, t) ∷ fs) = larger t.size (widest fs)

unfoldable pub union_of : Fields → CType
union_of fs = record { size = round_up (widest fs) (align_of fs); align = align_of fs }
