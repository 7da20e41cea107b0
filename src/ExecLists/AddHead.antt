-- ===== src/ExecLists/AddHead.antt =====
-- `ADDHEAD`.
use mathlib.Core.Path.{subst}
use amiga_dev.Common.{ℕ, suc, ◌+◌, ◌%◌, ◌^◌, ◌<◌, ◌≡◌, List, [], ◌∷◌, arith, refl, ap, false}
use amiga_dev.Machine.{Cpu, Memory, flags, long}
use amiga_dev.Machine.Run.{run, Returns}
use amiga_dev.StringAsm.Copies.{four, longword}
use amiga_dev.ExecLists.{addhead_code}
use amiga_dev.ExecLists.Links.{Keeps, Distinct, Links, last, Apart-sym}
use amiga_dev.ExecLists.Shape.{
  ArePlaces, IsList, IsNew, fours, fours-SameBut, fours_read, IsList-insert, front, Untouched,
}

-- The steps of `ADDHEAD`.
addhead_first :
    (h n b : ℕ) (s : Cpu) {P : Cpu → Type 0}
    → h % 2 ≡ 0
    → h + 4 < 2 ^ 32
    → s.ra0 ≡ h
    → s.ra1 ≡ n
    → n < 2 ^ 32
    → b < 2 ^ 32
    → longword s.mem h ≡ b
    → Returns addhead_code 4 (flags long false n (record s { rd0 = b; mem = four s.mem h n })) P
    → Returns addhead_code 0 s P
unfolding run
addhead_first h n b s even fits e e' small small' first (f, t, r, p) =
    (suc (suc f), t, ground arith, p)

addhead_node :
    (n : ℕ) (s : Cpu) {P : Cpu → Type 0}
    → n % 2 ≡ 0
    → n + 8 < 2 ^ 32
    → s.ra1 ≡ n
    → Returns addhead_code 8 (record s { mem = four (four s.mem n s.rd0) (n + 4) s.ra0 }) P
    → Returns addhead_code 4 s P
unfolding run
addhead_node n s even fits e (f, t, r, p) = (suc f, t, ground arith, p)

abbrev fours_node : Memory → ℕ → ℕ → ℕ → ℕ → Memory
fours_node m h n b a = four (four (four m h n) n b) (n + 4) a

addhead_last :
    (n b : ℕ) (s : Cpu) {P : Cpu → Type 0}
    → b % 2 ≡ 0
    → b + 8 < 2 ^ 32
    → s.rd0 ≡ b
    → s.ra1 ≡ n
    → n < 2 ^ 32
    → P (flags long false n (record s { ra0 = b; mem = four s.mem (b + 4) n }))
    → Returns addhead_code 8 s P
unfolding run
addhead_last n b s even fits e e' small p =
    (3, flags long false n (record s { ra0 = b; mem = four s.mem (b + 4) n }), ground arith, p)

-- `ADDHEAD` puts a node that overlaps with no link of the list in front of the list's nodes, and
-- changes no longword apart from the links.
pub addhead-IsList :
    (h n : ℕ) (xs : List ℕ) (s : Cpu)
    → IsList s.mem h xs
    → IsNew n h xs
    → s.ra0 ≡ h
    → s.ra1 ≡ n
    → Returns addhead_code 0 s (λ t. IsList t.mem h (n ∷ xs) × Untouched h (n ∷ xs) s.mem t.mem)
unfolding Keeps Distinct Links last ArePlaces
addhead-IsList h n xs s l new e e' =
    let (place, (kn, kn'), t0, t1) = new in
    let places = l.places in
    let header = l.header in
    let (b, post, split, node) = front h xs header places in
    let (l0, l1, links) = subst (Links s.mem h) split l.links in
    let (hb, kh, kb, d) = subst (Distinct h) split l.distinct in
    let (n0, n1, n2) = subst (Keeps n h) split kn in
    let (n0', n1', n2') = subst (Keeps (n + 4) h) split kn' in
    let m' = fours s.mem h n n b (n + 4) h (b + 4) n in
    let (r0, r1, r2, r3) =
      fours_read s.mem h n n b (n + 4) h (b + 4) n (Apart-sym n0) (Apart-sym n0') hb (omega arith)
        n1 n1' (omega arith) (omega arith) (omega arith) (omega arith) in
    let same = fours-SameBut s.mem h n n b (n + 4) h (b + 4) n in
    addhead_first h n b s (omega arith) (omega arith) e e' (omega arith) (omega arith) l0 (
      addhead_node n (flags long false n (record s { rd0 = b; mem = four s.mem h n })) (omega arith)
        (omega arith) e'
        (addhead_last n b
          (flags long false n (record s { rd0 = b; mem = fours_node s.mem h n b s.ra0 }))
          (omega arith) (omega arith) refl e' (omega arith)
          (rw e (
            (
              IsList-insert s.mem m' h n [] b post xs (n ∷ xs) split (ap (λ ns. n ∷ ns) split) l new
                  (λ x w y z v. same x w z v y) (r0, r2, r1, r3) (place, places),
              λ x kx.
                  let (x0, x1, kx') = kx in
                  let (x2, x3, kx'') = subst (Keeps x n) split kx' in same x x0 x2 x1 x3,
            )))))
