-- ===== src/ExecLists/RemHead.antt =====
-- `REMHEAD`.
use mathlib.Core.Path.{subst}
use amiga_dev.Common.{ℕ, suc, ◌+◌, ◌%◌, ◌^◌, ◌<◌, ◌≡◌, List, [], ◌∷◌, arith, refl, false}
use amiga_dev.Machine.{Cpu, flags, long}
use amiga_dev.Machine.Run.{run, Returns}
use amiga_dev.StringAsm.Copies.{four, longword}
use amiga_dev.ExecLists.{remhead_code}
use amiga_dev.ExecLists.Links.{
  Keeps, Distinct, Links, last, Keeps-around, Distinct-middle, Links-middle, Links-around,
}
use amiga_dev.ExecLists.Changes.{Distinct-delete}
use amiga_dev.ExecLists.Shape.{
  ArePlaces, IsList, Untouched, twos, twos-SameBut, twos_read, around, IsList-delete,
}

-- The steps of `REMHEAD`.
remhead_none :
    (h b : ℕ) (s : Cpu) {P : Cpu → Type 0}
    → h % 2 ≡ 0
    → h + 12 < 2 ^ 32
    → s.ra0 ≡ h
    → b % 2 ≡ 0
    → b + 8 < 2 ^ 32
    → longword s.mem h ≡ b
    → longword s.mem b ≡ 0
    → P (flags long false 0 (record s { rd0 = 0; ra1 = b }))
    → Returns remhead_code 0 s P
unfolding run
remhead_none h b s even fits e even' fits' first zero p =
    (4, flags long false 0 (record s { rd0 = 0; ra1 = b }), ground arith, p)

remhead_first :
    (h n b : ℕ) (s : Cpu) {P : Cpu → Type 0}
    → h % 2 ≡ 0
    → h + 12 < 2 ^ 32
    → s.ra0 ≡ h
    → n % 2 ≡ 0
    → n + 8 < 2 ^ 32
    → longword s.mem h ≡ n
    → longword s.mem n ≡ b
    → 0 < b
    → b < 2 ^ 32
    → Returns remhead_code 8
        (flags long false b (record s { rd0 = b; ra1 = n; mem = four s.mem h b }))
        P
    → Returns remhead_code 0 s P
unfolding run
remhead_first h n b s even fits e even' fits' first next pos small (f, t, r, p) =
    (suc (suc (suc (suc f))), t, ground arith, p)

remhead_last :
    (h b : ℕ) (s : Cpu) {P : Cpu → Type 0}
    → s.ra0 ≡ h
    → h < 2 ^ 32
    → s.rd0 ≡ b
    → b % 2 ≡ 0
    → b + 8 < 2 ^ 32
    → P (flags long false h (record s { rd0 = s.ra1; ra1 = b; mem = four s.mem (b + 4) h }))
    → Returns remhead_code 8 s P
unfolding run
remhead_last h b s e small e' even fits p = (
  3,
  flags long false h (record s { rd0 = s.ra1; ra1 = b; mem = four s.mem (b + 4) h }),
  ground arith,
  p,
)

-- The first node, or 0 for none, and the nodes behind it.
unfoldable pub first_node : List ℕ → ℕ
first_node [] = 0
first_node (n ∷ ns) = n

unfoldable pub behind_first : List ℕ → List ℕ
behind_first [] = []
behind_first (n ∷ ns) = ns

-- `REMHEAD` takes out the first node of the list and has it as the result, or 0 for an empty list,
-- which it leaves alone; no longword apart from the links changes.
pub remhead-IsList :
    (h : ℕ) (xs : List ℕ) (s : Cpu)
    → IsList s.mem h xs
    → s.ra0 ≡ h
    → Returns remhead_code 0 s (λ t.
      (t.rd0 ≡ first_node xs) × IsList t.mem h (behind_first xs) × Untouched h xs s.mem t.mem)
unfolding first_node behind_first ArePlaces last
remhead-IsList h [] s l e =
    let header = l.header in
    let zero_word = l.tail_zero in
    let (l0, l1) = Links-middle s.mem h [] (h + 4) [] l.links in
    remhead_none h (h + 4) s (omega arith) (omega arith) e (omega arith) (omega arith) l0 zero_word
      (refl, l, λ x kx. refl)
remhead-IsList h (n ∷ rest) s l e =
    let header = l.header in
    let (place, places) = l.places in
    let (b, post, split, split', node) = around h [] n rest header l.places in
    let (l0, l1, l2, l3) = Links-around s.mem h [] n b post (subst (Links s.mem h) split l.links) in
    let distinct = subst (Distinct h) split l.distinct in
    let hb = Distinct-middle h [] b post (Distinct-delete n h [] b post distinct) in
    let (r0, r1) = twos_read s.mem h b (b + 4) h hb (omega arith) (omega arith) in
    let same = twos-SameBut s.mem h b (b + 4) h in
    remhead_first h n b s (omega arith) (omega arith) e (omega arith) (omega arith) l0 l2
      (omega arith) (omega arith)
      (remhead_last h b (flags long false b (record s { rd0 = b; ra1 = n; mem = four s.mem h b })) e
        (omega arith) refl (omega arith) (omega arith)
        (
          refl,
          IsList-delete s.mem (twos s.mem h b (b + 4) h) h n [] b post (n ∷ rest) rest split split'
              l same r0 r1 places,
          λ x kx.
              let (x0, x1, x2, x3) = Keeps-around x h [] n b post (subst (Keeps x h) split kx) in
              same x x0 x3 x0 x3,
        ))
