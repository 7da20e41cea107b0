-- ===== src/ExecLists/AddTail.antt =====
-- `ADDTAIL`.
use mathlib.Core.Path.{subst}
use amiga_dev.Common.{ℕ, suc, ◌+◌, ◌%◌, ◌^◌, ◌<◌, ◌≡◌, List, [], ◌∷◌, ◌++◌, arith, refl, false}
use amiga_dev.Machine.{Cpu, flags, long}
use amiga_dev.Machine.Run.{run, Returns}
use amiga_dev.StringAsm.Copies.{four, longword}
use amiga_dev.ExecLists.{addtail_code}
use amiga_dev.ExecLists.Links.{
  Keeps, last, Apart-sym, Keeps-middle, Keeps-around, Distinct-middle, Links-middle,
}
use amiga_dev.ExecLists.Shape.{
  ArePlaces, IsList, IsNew, fours, fours-SameBut, fours_read, IsList-insert, Untouched,
  ArePlaces-append, append_assoc, last-IsNode,
}

-- The steps of `ADDTAIL`.
addtail_first :
    (h n a : ℕ) (s : Cpu) {P : Cpu → Type 0}
    → h % 2 ≡ 0
    → h + 12 < 2 ^ 32
    → s.ra0 ≡ h
    → s.ra1 ≡ n
    → n < 2 ^ 32
    → a < 2 ^ 32
    → longword s.mem (h + 4 + 4) ≡ a
    → Returns addtail_code 10
        (flags long false n (record s { rd0 = a; ra0 = h + 4; mem = four s.mem (h + 4 + 4) n }))
        P
    → Returns addtail_code 0 s P
unfolding run
addtail_first h n a s even fits e e' small small' last_node (f, t, r, p) =
    (suc (suc (suc f)), t, ground arith, p)

addtail_node :
    (n : ℕ) (s : Cpu) {P : Cpu → Type 0}
    → n % 2 ≡ 0
    → n + 8 < 2 ^ 32
    → s.ra1 ≡ n
    → Returns addtail_code 16
        (record s { rd0 = s.ra0; ra0 = s.rd0; mem = four (four s.mem n s.ra0) (n + 4) s.rd0 })
        P
    → Returns addtail_code 10 s P
unfolding run
addtail_node n s even fits e (f, t, r, p) = (suc (suc f), t, ground arith, p)

addtail_last :
    (n a : ℕ) (s : Cpu) {P : Cpu → Type 0}
    → a % 2 ≡ 0
    → a + 4 < 2 ^ 32
    → s.ra0 ≡ a
    → s.ra1 ≡ n
    → n < 2 ^ 32
    → P (flags long false n (record s { mem = four s.mem a n }))
    → Returns addtail_code 16 s P
unfolding run
addtail_last n a s even fits e e' small p =
    (2, flags long false n (record s { mem = four s.mem a n }), ground arith, p)

-- `ADDTAIL` puts a node that overlaps with no link of the list behind the list's nodes, and changes
-- no longword apart from the links.
pub addtail-IsList :
    (h n : ℕ) (xs : List ℕ) (s : Cpu)
    → IsList s.mem h xs
    → IsNew n h xs
    → s.ra0 ≡ h
    → s.ra1 ≡ n
    → Returns addtail_code 0 s
        (λ t. IsList t.mem h (xs ++ n ∷ []) × Untouched h (xs ++ n ∷ []) s.mem t.mem)
unfolding ArePlaces
addtail-IsList h n xs s l new e e' =
    let (place, (kn, kn'), t0, t1) = new in
    let header = l.header in
    let a = last h xs in
    let node = last-IsNode h xs header l.places in
    let (l0, l1) = Links-middle s.mem h xs (h + 4) [] l.links in
    let ab = Distinct-middle h xs (h + 4) [] l.distinct in
    let (n0, n1) = Keeps-middle n h xs (h + 4) [] kn in
    let (n0', n1') = Keeps-middle (n + 4) h xs (h + 4) [] kn' in
    let m' = fours s.mem (h + 4 + 4) n n (h + 4) (n + 4) a a n in
    let (r0, r1, r2, r3) =
      fours_read s.mem (h + 4 + 4) n n (h + 4) (n + 4) a a n (Apart-sym n1) (Apart-sym n1')
        (Apart-sym ab) (omega arith) n0 n0' (omega arith) (omega arith) (omega arith)
        (omega arith) in
    let same = fours-SameBut s.mem (h + 4 + 4) n n (h + 4) (n + 4) a a n in
    let split = append_assoc xs (n ∷ []) ((h + 4) ∷ []) in
    let u =
      flags long false n (record s { rd0 = a; ra0 = h + 4; mem = four s.mem (h + 4 + 4) n }) in
    addtail_first h n a s (omega arith) (omega arith) e e' (omega arith) (omega arith) l1 (
      addtail_node n u (omega arith) (omega arith) e' (
        addtail_last n a
          (record u { rd0 = h + 4; ra0 = a; mem = four (four u.mem n (h + 4)) (n + 4) a })
          (omega arith) (omega arith) refl e' (omega arith)
          (
            IsList-insert s.mem m' h n xs (h + 4) [] xs (xs ++ n ∷ []) refl split l new
                (λ x w y z v. same x y z v w) (r3, r2, r1, r0)
                (ArePlaces-append xs (n ∷ []) l.places (place, tt)),
            λ x kx.
                let (x0, x1, x2, x3) =
                  Keeps-around x h xs n (h + 4) [] (subst (Keeps x h) split kx) in
                same x x3 x2 x1 x0,
          )))
