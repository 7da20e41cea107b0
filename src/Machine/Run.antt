-- ===== src/Machine/Run.antt =====
-- Execution of a code sequence of the 68000 subset, and what it means that it returns.
use amiga_dev.Common.{
  ◌>>=◌, ℕ, zero, suc, ◌+◌, ◌-◌, ◌*◌, ◌/◌, ◌%◌, ◌^◌, ◌≡◌, bit_and, false, Option, none, some, List,
  [], ◌∷◌, ltb, leb, ◌==◌, if◌then◌else◌,
}
use amiga_dev.Machine.{
  Size, word, long, Operand, an, Instr, move, moveq, tst, cmp, sub, and_to, subq, addq, subq_a,
  addq_a, not_l, lsl_w, lsl_l, lsr_l, move_any, read_any, write_any, cmp_a, clr_l, addq_mem, exg,
  movem, ind, disp, swap, b, dbf, Cpu, modulus, get_d, set_d, get_a, set_a, merge, wrap, read,
  write, flags, minus, subtract, add, holds, target, size_of,
}

-- A move to an address register leaves the flags alone.
abbrev pub move_flags : Operand → Size → ℕ → Cpu → Cpu
move_flags (an r) sz v s = s
move_flags _ sz v s = flags sz false v s

-- One instruction at `pc`: the next `pc` and state, or `none` on an address error.
abbrev pub exec : Instr → ℕ → Cpu → Option (ℕ × Cpu)
exec (move sz src dst) pc s = do
  (v, s) ← read sz src s
  s ← write sz dst v s
  some (pc + size_of (move sz src dst), move_flags dst sz v s)
exec (move_any sz src dst) pc s =
    let (v, t) = read_any sz src s in
    some (pc + size_of (move_any sz src dst), move_flags dst sz v (write_any sz dst v t))
exec (moveq k r) pc s = some (pc + 2, flags long false k (set_d r k s))
exec (tst sz src) pc s = do (v, s) ← read sz src s; some (pc + 2, flags sz false v s)
exec (cmp sz src r) pc s = do
  (v, s) ← read sz src s
  let x = get_d r s % modulus sz
  some (pc + size_of (cmp sz src r), flags sz (ltb x v) (minus sz x v) s)
exec (sub sz src r) pc s = do
  (v, s) ← read sz src s
  some (pc + size_of (sub sz src r), subtract sz v r s)
exec (and_to sz src r) pc s = do
  (v, s) ← read sz src s
  let y = bit_and v (get_d r s % modulus sz)
  some (pc + size_of (and_to sz src r), flags sz false y (set_d r (merge sz (get_d r s) y) s))
exec (subq sz k r) pc s = some (pc + 2, subtract sz k r s)
exec (addq sz k r) pc s = some (pc + 2, add sz k r s)
exec (subq_a k r) pc s = some (pc + 2, set_a r (wrap (get_a r s + 2 ^ 32 - k)) s)
exec (addq_a k r) pc s = some (pc + 2, set_a r (wrap (get_a r s + k)) s)
exec (not_l r) pc s =
    let y = 2 ^ 32 - 1 - get_d r s in some (pc + 2, flags long false y (set_d r y s))
exec (lsl_w k r) pc s =
    let x = get_d r s % 2 ^ 16 * 2 ^ k in
    let y = x % 2 ^ 16 in
    some (pc + 2, flags word (x / 2 ^ 16 % 2 == 1) y (set_d r (merge word (get_d r s) y) s))
exec (lsl_l k r) pc s =
    let x = get_d r s * 2 ^ k in
    let y = x % 2 ^ 32 in some (pc + 2, flags long (x / 2 ^ 32 % 2 == 1) y (set_d r y s))
exec (lsr_l k r) pc s =
    let x = get_d r s in
    let y = x / 2 ^ k in some (pc + 2, flags long (x / 2 ^ (k - 1) % 2 == 1) y (set_d r y s))
exec (swap r) pc s =
    let y = get_d r s % 2 ^ 16 * 2 ^ 16 + get_d r s / 2 ^ 16 in
    some (pc + 2, flags long false y (set_d r y s))
exec (cmp_a src r) pc s = do
  (v, s) ← read long src s
  let x = get_a r s
  some (pc + size_of (cmp_a src r), flags long (ltb x v) (minus long x v) s)
exec (clr_l r) pc s = do s ← write long (ind r) 0 s; some (pc + 2, flags long false 0 s)
exec (addq_mem k r) pc s = do
  (v, s) ← read long (ind r) s
  let y = wrap (v + k)
  s ← write long (ind r) y s
  some (pc + 2, flags long (leb (2 ^ 32) (v + k)) y s)
exec (exg r q) pc s = some (pc + 2, set_a q (get_d r s) (set_d r (get_a q s) s))
exec (movem r q p) pc s = do
  s ← write long (ind p) (get_d r s) s
  s ← write long (disp 4 p) (get_a q s) s
  some (pc + 4, s)
exec (b k t) pc s = if holds k s then some (target pc t, s) else some (pc + 2, s)
exec (dbf r t) pc s =
    let y = minus word (get_d r s % 2 ^ 16) 1 in
    let s' = set_d r (merge word (get_d r s) y) s in
    if y == 2 ^ 16 - 1 then some (pc + 4, s') else some (target pc t, s')

pub data Fetch : Type 0 where
  found : Instr → Fetch
  finished nowhere : Fetch

-- The instruction at an offset of the code; `finished` is the end of it.
abbrev pub fetch : List Instr → ℕ → Fetch
fetch [] pc = if pc == 0 then finished else nowhere
fetch (i ∷ code) pc =
    if pc == 0 then found i else if ltb pc (size_of i) then nowhere else fetch code (pc - size_of i)

pub data Outcome : Type 0 where
  done : Cpu → Outcome
  fault out_of_fuel : Outcome

-- At most so many instructions from `pc`.
unfoldable pub run : List Instr → ℕ → ℕ → Cpu → Outcome
run code zero pc s = out_of_fuel
run code (suc fuel) pc s = elim (fetch code pc) [
  | finished ↦ done s
  | nowhere ↦ fault
  | found i ↦ elim (exec i pc s) [ none ↦ fault | some (pc', s') ↦ run code fuel pc' s' ]
]

-- From `pc` the code reaches its end with no fault, in a state that satisfies `P`.
abbrev pub Returns : List Instr → ℕ → Cpu → (Cpu → Type 0) → Type 0
Returns code pc s P = (fuel : ℕ) × (s' : Cpu) × (run code fuel pc s ≡ done s') × P s'

-- The state in which a run has ended; the start where it has not.
abbrev pub final : Cpu → Outcome → Cpu
final s (done t) = t
final s fault = s
final s out_of_fuel = s

-- The state behind an instruction that is no branch; the state itself on an address error.
abbrev pub after : Instr → Cpu → Cpu
after i s = elim (exec i 0 s) [ none ↦ s | some (pc, t) ↦ t ]
