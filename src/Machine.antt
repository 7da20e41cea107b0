-- ===== src/Machine.antt =====
-- The part of the 68000 that the inline assembly of targets/m68k-amigaos/include/string.h uses.
pub mod Run
use amiga_dev.Common.{
  ◌>>=◌, ℕ, ◌+◌, ◌-◌, ◌*◌, ◌/◌, ◌%◌, ◌^◌, ◌<◌, ◌≡◌, arith, Bool, true, not, Option, none, some, ltb,
  leb, ◌==◌, if◌then◌else◌,
}

pub data DReg : Type 0 where
  d0 d1 d2 : DReg

pub data AReg : Type 0 where
  a0 a1 : AReg

pub data Size : Type 0 where
  byte word long : Size

-- Effective addresses: `dN`, `aN`, `(aN)`, `(aN)+`, `-(aN)`, `#k` and `k(aN)`.
pub data Operand : Type 0 where
  dn : DReg → Operand
  an : AReg → Operand
  ind post pre : AReg → Operand
  imm : ℕ → Operand
  disp : ℕ → AReg → Operand

-- `lo` is the same condition as `cs`.
pub data Cond : Type 0 where
  ra eq ne lo cc pl mi : Cond

-- A displacement from `*`, the address behind the branch's first word.
pub data Disp : Type 0 where
  fwd back : ℕ → Disp

-- `move_any` is the move of the 68020, which takes words and longs at any address. `cmp_a ea aN` is
-- `cmp.l ea,aN`, `clr_l aN` is `clr.l (aN)`, `addq_mem k aN` is `addq.l #k,(aN)`, and
-- `movem dN aN aM` is `movem.l dN/aN,(aM)`.
pub data Instr : Type 0 where
  move : Size → Operand → Operand → Instr
  moveq : ℕ → DReg → Instr
  tst : Size → Operand → Instr
  cmp sub and_to : Size → Operand → DReg → Instr
  subq addq : Size → ℕ → DReg → Instr
  subq_a addq_a : ℕ → AReg → Instr
  not_l : DReg → Instr
  lsl_w lsl_l lsr_l : ℕ → DReg → Instr
  swap : DReg → Instr
  b : Cond → Disp → Instr
  dbf : DReg → Disp → Instr
  move_any : Size → Operand → Operand → Instr
  cmp_a : Operand → AReg → Instr
  clr_l : AReg → Instr
  addq_mem : ℕ → AReg → Instr
  exg : DReg → AReg → Instr
  movem : DReg → AReg → AReg → Instr

-- Memory gives each address its byte.
abbrev pub Memory : Type 0
Memory = ℕ → ℕ

abbrev pub update : Memory → ℕ → ℕ → Memory
update m p v q = if q == p then v else m q

-- The registers, the flags zero, negative and carry, and the memory. No branch reads overflow.
pub record Cpu : Type 0 where
  pub rd0 : ℕ
  pub rd1 : ℕ
  pub rd2 : ℕ
  pub ra0 : ℕ
  pub ra1 : ℕ
  pub z : Bool
  pub n : Bool
  pub c : Bool
  pub mem : Memory

abbrev pub modulus : Size → ℕ
modulus byte = 2 ^ 8
modulus word = 2 ^ 16
modulus long = 2 ^ 32

abbrev pub half : Size → ℕ
half byte = 2 ^ 7
half word = 2 ^ 15
half long = 2 ^ 31

abbrev pub bytes : Size → ℕ
bytes byte = 1
bytes word = 2
bytes long = 4

abbrev pub get_d : DReg → Cpu → ℕ
get_d d0 s = s.rd0
get_d d1 s = s.rd1
get_d d2 s = s.rd2

abbrev pub set_d : DReg → ℕ → Cpu → Cpu
set_d d0 v s = record s { rd0 = v }
set_d d1 v s = record s { rd1 = v }
set_d d2 v s = record s { rd2 = v }

abbrev pub get_a : AReg → Cpu → ℕ
get_a a0 s = s.ra0
get_a a1 s = s.ra1

abbrev pub set_a : AReg → ℕ → Cpu → Cpu
set_a a0 v s = record s { ra0 = v }
set_a a1 v s = record s { ra1 = v }

-- A write of a size leaves the upper part of a data register alone.
abbrev pub merge : Size → ℕ → ℕ → ℕ
merge byte old v = old / 2 ^ 8 * 2 ^ 8 + v % 2 ^ 8
merge word old v = old / 2 ^ 16 * 2 ^ 16 + v % 2 ^ 16
merge long old v = v % 2 ^ 32

abbrev pub wrap : ℕ → ℕ
wrap a = a % 2 ^ 32

-- Big-endian reads and writes; a word or long at an odd address is an address error.
abbrev pub read_mem : Size → ℕ → Memory → Option ℕ
read_mem byte a m = some (m a)
read_mem word a m = if a % 2 == 0 then some (m a * 2 ^ 8 + m (wrap (a + 1))) else none
read_mem long a m =
    if a % 2 == 0
    then some
        (m a * 2 ^ 24 + m (wrap (a + 1)) * 2 ^ 16 + m (wrap (a + 2)) * 2 ^ 8 + m (wrap (a + 3)))
    else none

abbrev pub write_mem : Size → ℕ → ℕ → Memory → Option Memory
write_mem byte a v m = some (update m a (v % 2 ^ 8))
write_mem word a v m =
    if a % 2 == 0
    then some (update (update m a (v / 2 ^ 8 % 2 ^ 8)) (wrap (a + 1)) (v % 2 ^ 8))
    else none
write_mem long a v m =
    if a % 2 == 0
    then some (
        update
          (update (update (update m a (v / 2 ^ 24 % 2 ^ 8)) (wrap (a + 1)) (v / 2 ^ 16 % 2 ^ 8))
            (wrap (a + 2)) (v / 2 ^ 8 % 2 ^ 8))
          (wrap (a + 3)) (v % 2 ^ 8))
    else none

abbrev pub down : ℕ → Size → ℕ
down a sz = wrap (a + 2 ^ 32 - bytes sz)

-- The value of an operand, and the state after its increment or decrement.
abbrev pub read : Size → Operand → Cpu → Option (ℕ × Cpu)
read sz (dn r) s = some (get_d r s % modulus sz, s)
read sz (an r) s = some (get_a r s % modulus sz, s)
read sz (ind r) s = do v ← read_mem sz (get_a r s) s.mem; some (v, s)
read sz (post r) s = do
  v ← read_mem sz (get_a r s) s.mem
  some (v, set_a r (wrap (get_a r s + bytes sz)) s)
read sz (pre r) s = do
  v ← read_mem sz (down (get_a r s) sz) s.mem
  some (v, set_a r (down (get_a r s) sz) s)
read sz (imm k) s = some (k, s)
read sz (disp k r) s = do v ← read_mem sz (wrap (get_a r s + k)) s.mem; some (v, s)

abbrev pub write : Size → Operand → ℕ → Cpu → Option Cpu
write sz (dn r) v s = some (set_d r (merge sz (get_d r s) v) s)
write sz (an r) v s = some (set_a r v s)
write sz (ind r) v s = do m ← write_mem sz (get_a r s) v s.mem; some (record s { mem = m })
write sz (post r) v s = do
  m ← write_mem sz (get_a r s) v s.mem
  some (set_a r (wrap (get_a r s + bytes sz)) (record s { mem = m }))
write sz (pre r) v s = do
  m ← write_mem sz (down (get_a r s) sz) v s.mem
  some (set_a r (down (get_a r s) sz) (record s { mem = m }))
write sz (imm k) v s = none
write sz (disp k r) v s = do
  m ← write_mem sz (wrap (get_a r s + k)) v s.mem
  some (record s { mem = m })

-- Reads and writes of the 68020.
abbrev pub read_any_mem : Size → ℕ → Memory → ℕ
read_any_mem byte a m = m a
read_any_mem word a m = m a * 2 ^ 8 + m (wrap (a + 1))
read_any_mem long a m =
    m a * 2 ^ 24 + m (wrap (a + 1)) * 2 ^ 16 + m (wrap (a + 2)) * 2 ^ 8 + m (wrap (a + 3))

abbrev pub write_any_mem : Size → ℕ → ℕ → Memory → Memory
write_any_mem byte a v m = update m a (v % 2 ^ 8)
write_any_mem word a v m = update (update m a (v / 2 ^ 8 % 2 ^ 8)) (wrap (a + 1)) (v % 2 ^ 8)
write_any_mem long a v m =
    update
      (update (update (update m a (v / 2 ^ 24 % 2 ^ 8)) (wrap (a + 1)) (v / 2 ^ 16 % 2 ^ 8))
        (wrap (a + 2)) (v / 2 ^ 8 % 2 ^ 8))
      (wrap (a + 3)) (v % 2 ^ 8)

abbrev pub read_any : Size → Operand → Cpu → ℕ × Cpu
read_any sz (dn r) s = (get_d r s % modulus sz, s)
read_any sz (an r) s = (get_a r s % modulus sz, s)
read_any sz (ind r) s = (read_any_mem sz (get_a r s) s.mem, s)
read_any sz (post r) s =
    (read_any_mem sz (get_a r s) s.mem, set_a r (wrap (get_a r s + bytes sz)) s)
read_any sz (pre r) s =
    (read_any_mem sz (down (get_a r s) sz) s.mem, set_a r (down (get_a r s) sz) s)
read_any sz (imm k) s = (k, s)
read_any sz (disp k r) s = (read_any_mem sz (wrap (get_a r s + k)) s.mem, s)

abbrev pub write_any : Size → Operand → ℕ → Cpu → Cpu
write_any sz (dn r) v s = set_d r (merge sz (get_d r s) v) s
write_any sz (an r) v s = set_a r v s
write_any sz (ind r) v s = record s { mem = write_any_mem sz (get_a r s) v s.mem }
write_any sz (post r) v s =
    set_a r (wrap (get_a r s + bytes sz)) (record s { mem = write_any_mem sz (get_a r s) v s.mem })
write_any sz (pre r) v s =
    set_a r (down (get_a r s) sz)
      (record s { mem = write_any_mem sz (down (get_a r s) sz) v s.mem })
write_any sz (imm k) v s = s
write_any sz (disp k r) v s = record s { mem = write_any_mem sz (wrap (get_a r s + k)) v s.mem }

abbrev pub flags : Size → Bool → ℕ → Cpu → Cpu
flags sz borrow v s = record s { z = v == 0; n = leb (half sz) v; c = borrow }

-- `x - y` in a size, and its borrow.
abbrev pub minus : Size → ℕ → ℕ → ℕ
minus sz x y = (x + modulus sz - y) % modulus sz

abbrev pub subtract : Size → ℕ → DReg → Cpu → Cpu
subtract sz v r s =
    let x = get_d r s % modulus sz in
    let y = minus sz x v in flags sz (ltb x v) y (set_d r (merge sz (get_d r s) y) s)

abbrev pub add : Size → ℕ → DReg → Cpu → Cpu
add sz v r s =
    let x = get_d r s % modulus sz in
    let y = (x + v) % modulus sz in
    flags sz (leb (modulus sz) (x + v)) y (set_d r (merge sz (get_d r s) y) s)

abbrev pub holds : Cond → Cpu → Bool
holds ra s = true
holds eq s = s.z
holds ne s = not s.z
holds lo s = s.c
holds cc s = not s.c
holds pl s = not s.n
holds mi s = s.n

abbrev pub target : ℕ → Disp → ℕ
target pc (fwd k) = pc + 2 + k
target pc (back k) = pc + 2 - k

-- The length of an instruction in bytes.
abbrev pub ext_size : Size → Operand → ℕ
ext_size long (imm k) = 4
ext_size sz (imm k) = 2
ext_size sz (disp k r) = 2
ext_size sz o = 0

abbrev pub size_of : Instr → ℕ
size_of (move sz src dst) = 2 + ext_size sz src + ext_size sz dst
size_of (move_any sz src dst) = 2 + ext_size sz src + ext_size sz dst
size_of (cmp sz src r) = 2 + ext_size sz src
size_of (sub sz src r) = 2 + ext_size sz src
size_of (and_to sz src r) = 2 + ext_size sz src
size_of (cmp_a src r) = 2 + ext_size long src
size_of (movem r q p) = 4
size_of (dbf r t) = 4
size_of i = 2

pub wrap-eq_of_lt : (a : ℕ) → a < 2 ^ 32 → wrap a ≡ a
wrap-eq_of_lt a h = omega arith
