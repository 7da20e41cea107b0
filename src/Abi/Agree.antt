-- ===== src/Abi/Agree.antt =====
-- The check that a table of stubs and a table of pragmas make the same calls.
use text.Mathlib.Text.{◌==◌ as str_eq}
use text.Mathlib.TextEquality.{eq_iff}
use Prim.Native.String.{String}
use amiga_dev.Common.{
  ℕ, ◌≡◌, refl, Bool, true, false, Option, none, some, List, [], ◌∷◌, ◌++◌, ◌⊎◌, arith, ◌==◌, ==→eq,
  ◌&&◌, &&-true, Bool-cases, inl, inr, ap,
}
use amiga_dev.Abi.{
  Reg, d, a, Arg, par, lit, Stub, Pragma, Table, find, enter_stub, enter_pragma, in_order, args_of,
}

same_reg : Reg → Reg → Bool
same_reg (d j) (d k) = j == k
same_reg (a j) (a k) = j == k
same_reg (d j) (a k) = false
same_reg (a j) (d k) = false

same_arg : Arg → Arg → Bool
same_arg (par j) (par k) = j == k
same_arg (lit j) (lit k) = j == k
same_arg (par j) (lit k) = false
same_arg (lit j) (par k) = false

same_loads : List (Reg × Arg) → List (Reg × Arg) → Bool
unfolding same_reg same_arg
same_loads [] [] = true
same_loads [] (y ∷ ys) = false
same_loads (x ∷ xs) [] = false
same_loads ((r, x) ∷ xs) ((q, y) ∷ ys) = same_reg r q && (same_arg x y && same_loads xs ys)

same_reg_sound : (r q : Reg) → same_reg r q ≡ true → r ≡ q
unfolding same_reg
same_reg_sound (d j) (d k) h = ap d (==→eq j k h)
same_reg_sound (a j) (a k) h = ap a (==→eq j k h)
same_reg_sound (d j) (a k) h = cc
same_reg_sound (a j) (d k) h = cc

same_arg_sound : (x y : Arg) → same_arg x y ≡ true → x ≡ y
unfolding same_arg
same_arg_sound (par j) (par k) h = ap par (==→eq j k h)
same_arg_sound (lit j) (lit k) h = ap lit (==→eq j k h)
same_arg_sound (par j) (lit k) h = cc
same_arg_sound (lit j) (par k) h = cc

same_loads_sound : (xs ys : List (Reg × Arg)) → same_loads xs ys ≡ true → xs ≡ ys
unfolding same_loads
same_loads_sound [] [] h = refl
same_loads_sound [] (y ∷ ys) h = cc
same_loads_sound (x ∷ xs) [] h = cc
same_loads_sound ((r, x) ∷ xs) ((q, y) ∷ ys) h =
    let (hr, h') = &&-true (same_reg r q) _ h in
    let (hx, hs) = &&-true (same_arg x y) _ h' in
    rw (same_reg_sound r q hr, same_arg_sound x y hx, same_loads_sound xs ys hs)

same_call : Stub → Option Pragma → Bool
unfolding same_loads args_of
same_call s none = false
same_call s (some p) = (s.offset == p.offset) && same_loads s.loads (in_order (args_of p.magic))

unfoldable pub agree : Table Stub → Table Pragma → Bool
unfolding same_call find
agree [] ps = true
agree ((k, s) ∷ t) ps = same_call s (find k ps) && agree t ps

-- A stub and the pragma of its name, entered with the same arguments.
pub record SameCall (s : Stub) (found : Option Pragma) : Type 0 where
  pub pragma : Pragma
  pub is_found : found ≡ some pragma
  pub entries : (base : ℕ) (args : List ℕ) → enter_stub s base args ≡ enter_pragma pragma base args

same_call_sound : (s : Stub) (o : Option Pragma) → same_call s o ≡ true → SameCall s o
unfolding same_call enter_stub enter_pragma
same_call_sound s none h = cc
same_call_sound s (some p) h =
    let (ho, hl) = &&-true (s.offset == p.offset) _ h in
    let off = ==→eq s.offset p.offset ho in
    let loads = same_loads_sound s.loads (in_order (args_of p.magic)) hl in
    record { pragma = p; is_found = refl; entries = λ base args. cc }

pub agree_sound :
    (t : Table Stub) (ps : Table Pragma) (k : String) (s : Stub)
    → agree t ps ≡ true
    → find k t ≡ some s
    → SameCall s (find k ps)
unfolding agree find
agree_sound [] ps k s h e = cc
agree_sound ((j, v) ∷ t) ps k s h e =
    let (hv, ht) = &&-true (same_call v (find j ps)) _ h in
    elim (Bool-cases (str_eq j k)) [
      | inl hit ↦
          let same : v ≡ s = ground arith in
          let name = (eq_iff j k).0 hit in rw (← same, ← name) (same_call_sound v (find j ps) hv)
      | inr miss ↦ agree_sound t ps k s ht (ground arith)
    ]

pub find-append :
    {A : Type 0} (k : String) (t u : Table A) (v : A)
    → find k (t ++ u) ≡ some v
    → (find k t ≡ some v) ⊎ (find k u ≡ some v)
unfolding find
find-append k [] u v h = inr h
find-append k ((j, w) ∷ t) u v h = elim (Bool-cases (str_eq j k)) [
  | inl hit ↦ inl (rw hit (rw hit at h))
  | inr miss ↦ rw miss (find-append k t u v (rw miss at h))
]

pub find-single :
    {A : Type 0} (j k : String) (w v : A) → find k ((j, w) ∷ []) ≡ some v → (j ≡ k) × (w ≡ v)
unfolding find
find-single j k w v h = elim (Bool-cases (str_eq j k)) [
  | inl hit ↦ let e = rw hit at h in ((eq_iff j k).0 hit, cc)
  | inr miss ↦ cc (rw miss at h)
]
