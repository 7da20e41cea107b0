-- ===== src/ExecLists/Remove.antt =====
-- `REMOVE`.
use mathlib.Core.Path.{subst}
use amiga_dev.Common.{ℕ, suc, ◌+◌, ◌%◌, ◌^◌, ◌<◌, ◌≡◌, List, ◌∷◌, ◌++◌, arith, refl, false}
use amiga_dev.Machine.{Cpu, flags, long}
use amiga_dev.Machine.Run.{run, Returns}
use amiga_dev.StringAsm.Copies.{longword}
use amiga_dev.ExecLists.{remove_code}
use amiga_dev.ExecLists.Links.{
  Keeps, Distinct, Links, last, Keeps-around, Distinct-middle, Links-around,
}
use amiga_dev.ExecLists.Changes.{Distinct-delete}
use amiga_dev.ExecLists.Shape.{
  IsList, Untouched, twos, twos-SameBut, twos_read, ArePlaces-delete, around, IsList-delete,
  last-IsNode,
}

-- The steps of `REMOVE`.
remove_first :
    (n a b : ℕ) (s : Cpu) {P : Cpu → Type 0}
    → n % 2 ≡ 0
    → n + 8 < 2 ^ 32
    → s.ra1 ≡ n
    → longword s.mem n ≡ b
    → longword s.mem (n + 4) ≡ a
    → Returns remove_code 4 (record s { ra0 = b; ra1 = a }) P
    → Returns remove_code 0 s P
unfolding run
remove_first n a b s even fits e next before (f, t, r, p) = (suc (suc f), t, ground arith, p)

remove_last :
    (a b : ℕ) (s : Cpu) {P : Cpu → Type 0}
    → a % 2 ≡ 0
    → a + 4 < 2 ^ 32
    → b % 2 ≡ 0
    → b + 8 < 2 ^ 32
    → s.ra0 ≡ b
    → s.ra1 ≡ a
    → P (flags long false a (record s { mem = twos s.mem a b (b + 4) a }))
    → Returns remove_code 4 s P
unfolding run
remove_last a b s even fits even' fits' e e' p =
    (3, flags long false a (record s { mem = twos s.mem a b (b + 4) a }), ground arith, p)

-- `REMOVE` takes a node out of whatever list it is in, wherever it stands there, and changes no
-- longword apart from the links of the list.
pub remove-IsList :
    (h n : ℕ) (before rest : List ℕ) (s : Cpu)
    → IsList s.mem h (before ++ n ∷ rest)
    → s.ra1 ≡ n
    → Returns remove_code 0 s
        (λ t. IsList t.mem h (before ++ rest) × Untouched h (before ++ n ∷ rest) s.mem t.mem)
remove-IsList h n before rest s l e =
    let header = l.header in
    let (place, places, places') = ArePlaces-delete before n rest l.places in
    let (b, post, split, split', node) = around h before n rest header l.places in
    let a = last h before in
    let node' = last-IsNode h before header places in
    let (l0, l1, l2, l3) =
      Links-around s.mem h before n b post (subst (Links s.mem h) split l.links) in
    let distinct = subst (Distinct h) split l.distinct in
    let ab = Distinct-middle h before b post (Distinct-delete n h before b post distinct) in
    let m' = twos s.mem a b (b + 4) a in
    let (r0, r1) = twos_read s.mem a b (b + 4) a ab (omega arith) (omega arith) in
    let same = twos-SameBut s.mem a b (b + 4) a in
    remove_first n a b s (omega arith) (omega arith) e l2 l1 (
      remove_last a b (record s { ra0 = b; ra1 = a }) (omega arith) (omega arith) (omega arith)
        (omega arith) refl refl
        (
          IsList-delete s.mem m' h n before b post (before ++ n ∷ rest) (before ++ rest) split
              split' l same r0 r1 places',
          λ x kx.
              let (x0, x1, x2, x3) =
                Keeps-around x h before n b post (subst (Keeps x h) split kx) in
              same x x0 x3 x0 x3,
        ))
