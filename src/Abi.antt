-- ===== src/Abi.antt =====
-- Calls of AmigaOS libraries: the inline stubs of targets/m68k-amigaos/netinclude/inline and
-- include/inline, and the pragmas of netinclude/pragmas and ndk/include_h/pragmas.
pub mod Decode
pub mod Agree
pub mod Slots
pub mod Socket
pub mod Dos
pub mod Exec
pub mod Graphics
pub mod Intuition
pub mod Support
mod Tests
use text.Mathlib.Text.{◌==◌ as str_eq}
use Prim.Native.String.{String}
use amiga_dev.Common.{
  ℕ, zero, suc, ◌+◌, ◌-◌, ◌*◌, ◌/◌, ◌%◌, Bool, true, false, Option, none, some, List, [], ◌∷◌, map,
  ltb, ◌==◌, ◌&&◌, if◌then◌else◌,
}

-- A data or address register by its number.
pub data Reg : Type 0 where
  d a : ℕ → Reg

-- What a stub puts into a register: one of its own arguments, or a constant.
pub data Arg : Type 0 where
  par lit : ℕ → Arg

-- A stub loads registers and jumps to the vector `offset` bytes below the library base.
pub record Stub : Type 0 where
  pub offset : ℕ
  pub loads : List (Reg × Arg)

abbrev pub stub : ℕ → List (Reg × Arg) → Stub
stub off binds = record { offset = off; loads = binds }

abbrev number_from : ℕ → List Reg → List (Reg × Arg)
number_from k [] = []
number_from k (r ∷ rs) = (r, par k) ∷ number_from (suc k) rs

-- The loads of the arguments in their order.
abbrev pub in_order : List Reg → List (Reg × Arg)
in_order rs = number_from 0 rs

-- `#pragma libcall BASE NAME OFFSET MAGIC`. The hexadecimal digits of the magic number are, from
-- the last to the first, the number of arguments, the result's register and the arguments' ones.
pub record Pragma : Type 0 where
  pub offset : ℕ
  pub magic : ℕ

abbrev pub pragma : ℕ → ℕ → Pragma
pragma off m = record { offset = off; magic = m }

abbrev pub reg_of : ℕ → Reg
reg_of k = if ltb k 8 then d k else a (k - 8)

-- So many hexadecimal digits, the last first, as registers.
abbrev pub regs_of : ℕ → ℕ → List Reg
regs_of zero m = []
regs_of (suc n) m = reg_of (m % 16) ∷ regs_of n (m / 16)

pub count_of : ℕ → ℕ
count_of m = m % 16

pub result_of : ℕ → Reg
result_of m = reg_of (m / 16 % 16)

pub args_of : ℕ → List Reg
unfolding count_of
args_of m = regs_of (count_of m) (m / 256)

-- What the processor sees at the entry of the library's function.
pub record Entry : Type 0 where
  pub address : ℕ
  pub loaded : List (Reg × ℕ)

abbrev pub argument : List ℕ → Arg → ℕ
argument args (lit k) = k
argument [] (par k) = 0
argument (x ∷ args) (par zero) = x
argument (x ∷ args) (par (suc k)) = argument args (par k)

abbrev load_all : List (Reg × Arg) → List ℕ → List (Reg × ℕ)
load_all [] args = []
load_all ((r, x) ∷ binds) args = (r, argument args x) ∷ load_all binds args

pub enter : ℕ → List (Reg × Arg) → ℕ → List ℕ → Entry
enter off binds base args = record { address = base - off; loaded = load_all binds args }

pub enter_stub : Stub → ℕ → List ℕ → Entry
enter_stub s base args = enter s.offset s.loads base args

-- The registers beyond the arguments given are loaded with 0 here as in a stub.
pub enter_pragma : Pragma → ℕ → List ℕ → Entry
enter_pragma p base args = enter p.offset (in_order (args_of p.magic)) base args

-- A table of named entries, searched from its front.
abbrev pub Table : Type 0 → Type 0
Table A = List (String × A)

unfoldable pub find : {A : Type 0} → String → Table A → Option A
find k [] = none
find k ((j, v) ∷ t) = if str_eq j k then some v else find k t
