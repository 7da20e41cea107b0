-- ===== src/ExecLists/RemTail.antt =====
-- `REMTAIL`.
use mathlib.Core.Path.{subst}
use amiga_dev.Common.{
  ℕ, suc, ◌+◌, ◌%◌, ◌^◌, ◌<◌, ◌≡◌, List, [], ◌∷◌, ◌++◌, arith, inl, inr, ◌∙◌, ◌⊎◌, refl, ap, false,
}
use amiga_dev.Machine.{Cpu, flags, long}
use amiga_dev.Machine.Run.{run, Returns}
use amiga_dev.StringAsm.Copies.{four, longword}
use amiga_dev.ExecLists.{remtail_code}
use amiga_dev.ExecLists.Words.{longword-four, longword-four-Apart}
use amiga_dev.ExecLists.Links.{
  Keeps, Distinct, Links, last, SameBut, Apart-sym, Keeps-around, Distinct-middle, Links-middle,
  Links-around,
}
use amiga_dev.ExecLists.Changes.{Distinct-delete}
use amiga_dev.ExecLists.Shape.{
  IsList, Untouched, ArePlaces-delete, append_assoc, IsList-delete, last-IsNode,
}

-- The steps of `REMTAIL`.
remtail_none :
    (h : ℕ) (s : Cpu) {P : Cpu → Type 0}
    → h % 2 ≡ 0
    → h + 12 < 2 ^ 32
    → s.ra0 ≡ h
    → longword s.mem (h + 4 + 4) ≡ h
    → longword s.mem (h + 4) ≡ 0
    → P (flags long false 0 (record s { rd0 = 0; ra1 = h }))
    → Returns remtail_code 0 s P
unfolding run
remtail_none h s even fits e own zero p =
    (4, flags long false 0 (record s { rd0 = 0; ra1 = h }), ground arith, p)

remtail_first :
    (h n a : ℕ) (s : Cpu) {P : Cpu → Type 0}
    → h % 2 ≡ 0
    → h + 12 < 2 ^ 32
    → s.ra0 ≡ h
    → n % 2 ≡ 0
    → n + 8 < 2 ^ 32
    → longword s.mem (h + 4 + 4) ≡ n
    → longword s.mem (n + 4) ≡ a
    → 0 < a
    → a < 2 ^ 32
    → Returns remtail_code 14
        (flags long false a (record s { rd0 = a; ra1 = n; mem = four s.mem (h + 4 + 4) a }))
        P
    → Returns remtail_code 0 s P
unfolding run
remtail_first h n a s even fits e even' fits' final_node before pos small (f, t, r, p) =
    (suc (suc (suc (suc f))), t, ground arith, p)

remtail_link :
    (h a : ℕ) (s : Cpu) {P : Cpu → Type 0}
    → s.ra0 ≡ h
    → h < 2 ^ 32
    → s.rd0 ≡ a
    → a % 2 ≡ 0
    → a + 8 < 2 ^ 32
    → Returns remtail_code 18
        (flags long false h (record s { rd0 = s.ra1; ra1 = a; mem = four s.mem a h }))
        P
    → Returns remtail_code 14 s P
unfolding run
remtail_link h a s e small e' even fits (f, t, r, p) = (suc (suc f), t, ground arith, p)

remtail_last :
    (h a : ℕ) (s : Cpu) {P : Cpu → Type 0}
    → h + 12 < 2 ^ 32
    → s.ra1 ≡ a
    → a % 2 ≡ 0
    → a + 8 < 2 ^ 32
    → longword s.mem a ≡ h
    → P (flags long false (h + 4) (record s { mem = four s.mem a (h + 4) }))
    → Returns remtail_code 18 s P
unfolding run
remtail_last h a s fits e even fits' read p =
    (2, flags long false (h + 4) (record s { mem = four s.mem a (h + 4) }), ground arith, p)

-- The last node, or 0 for none, and the nodes before it.
unfoldable pub before_last : List ℕ → List ℕ
before_last [] = []
before_last (n ∷ ns) = elim ns [ [] ↦ [] | x ∷ xs ↦ n ∷ before_last ns ]

-- The list is empty, or has a last node.
unsnoc :
    (xs : List ℕ)
    → (xs ≡ [])
      ⊎ ((pre : List ℕ) × (n : ℕ) × (xs ≡ pre ++ n ∷ []) × (last 0 xs ≡ n) × (before_last xs ≡ pre))
unfolding before_last last
unsnoc [] = inl refl
unsnoc (x ∷ []) = inr ([], x, refl, refl, refl)
unsnoc (x ∷ y ∷ ys) = elim (unsnoc (y ∷ ys)) [
  | inl none_left ↦ cc
  | inr (pre, n, split, end, before) ↦
      inr (x ∷ pre, n, ap (λ ns. x ∷ ns) split, end, ap (λ ns. x ∷ ns) before)
]

removed :
    (h n : ℕ) (pre : List ℕ) (s : Cpu)
    → IsList s.mem h (pre ++ n ∷ [])
    → s.ra0 ≡ h
    → Returns remtail_code 0 s
        (λ t. (t.rd0 ≡ n) × IsList t.mem h pre × Untouched h (pre ++ n ∷ []) s.mem t.mem)
removed h n pre s l e =
    let header = l.header in
    let (place, places, places') = ArePlaces-delete pre n [] l.places in
    let split = append_assoc pre (n ∷ []) ((h + 4) ∷ []) in
    let a = last h pre in
    let node = last-IsNode h pre header places in
    let (l0, l1, l2, l3) =
      Links-around s.mem h pre n (h + 4) [] (subst (Links s.mem h) split l.links) in
    let distinct = subst (Distinct h) split l.distinct in
    let ab = Distinct-middle h pre (h + 4) [] (Distinct-delete n h pre (h + 4) [] distinct) in
    let m1 = four s.mem (h + 4 + 4) a in
    let m2 = four m1 a h in
    let m' = four m2 a (h + 4) in
    let same : SameBut a (h + 4 + 4) a (h + 4 + 4) s.mem m' = λ x kp kq kp' kq'.
      longword-four-Apart m2 a (h + 4) x kp
      ∙ longword-four-Apart m1 a h x kp
      ∙ longword-four-Apart s.mem (h + 4 + 4) a x kq in
    let at = longword-four m2 a (h + 4) (omega arith) in
    let at' =
      longword-four-Apart m2 a (h + 4) (h + 4 + 4) (Apart-sym ab)
      ∙ longword-four-Apart m1 a h (h + 4 + 4) (Apart-sym ab)
      ∙ longword-four s.mem (h + 4 + 4) a (omega arith) in
    let u = flags long false a (record s { rd0 = a; ra1 = n; mem = m1 }) in
    remtail_first h n a s (omega arith) (omega arith) e (omega arith) (omega arith) l3 l1
      (omega arith) (omega arith)
      (remtail_link h a u e (omega arith) refl (omega arith) (omega arith) (
        remtail_last h a (flags long false h (record u { rd0 = n; ra1 = a; mem = m2 }))
          (omega arith) refl (omega arith) (omega arith) (longword-four m1 a h (omega arith))
          (
            refl,
            IsList-delete s.mem m' h n pre (h + 4) [] (pre ++ n ∷ []) pre split refl l same at at'
                places,
            λ x kx.
                let (x0, x1, x2, x3) =
                  Keeps-around x h pre n (h + 4) [] (subst (Keeps x h) split kx) in
                same x x0 x3 x0 x3,
          )))

-- `REMTAIL` takes out the last node of the list and has it as the result, or 0 for an empty list,
-- which it leaves alone; no longword apart from the links changes.
pub remtail-IsList :
    (h : ℕ) (xs : List ℕ) (s : Cpu)
    → IsList s.mem h xs
    → s.ra0 ≡ h
    → Returns remtail_code 0 s
        (λ t. (t.rd0 ≡ last 0 xs) × IsList t.mem h (before_last xs) × Untouched h xs s.mem t.mem)
unfolding last before_last
remtail-IsList h xs s l e = elim (unsnoc xs) [
  | inr (pre, n, split, end, before) ↦
      rw (end, before) (rw split (removed h n pre s (subst (IsList s.mem h) split l) e))
  | inl none_left ↦
      let header = l.header in
      let empty = subst (IsList s.mem h) none_left l in
      let (l0, l1) = Links-middle s.mem h [] (h + 4) [] empty.links in
      rw none_left
        (remtail_none h s (omega arith) (omega arith) e l1 l.tail_zero (refl, empty, λ x kx. refl))
]
