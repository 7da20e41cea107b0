-- ===== src/ExecLists/Empty.antt =====
-- `NEWLIST`, `TSTLIST` and `IsListEmpty`.
use amiga_dev.Common.{
  ℕ, suc, ◌+◌, ◌%◌, ◌^◌, ◌<◌, ◌≡◌, List, [], ◌∷◌, arith, ◌∙◌, Bool, refl, ap, ◌==◌, true, false,
  ltb,
}
use amiga_dev.Machine.{Cpu, Memory, flags, long, minus}
use amiga_dev.Machine.Run.{run, Returns}
use amiga_dev.StringAsm.Copies.{four, longword}
use amiga_dev.ExecLists.{newlist_code, tstlist_code, is_list_empty}
use amiga_dev.ExecLists.Words.{longword-four, longword-four-Apart}
use amiga_dev.ExecLists.Links.{Keeps, Distinct, Links, last, Keeps-middle, Links-middle}
use amiga_dev.ExecLists.Shape.{IsPlace, ArePlaces, IsList, last-IsNode}

-- The steps of `NEWLIST`.
newlist_first :
    (h : ℕ) (s : Cpu) {P : Cpu → Type 0}
    → h % 2 ≡ 0
    → h + 12 < 2 ^ 32
    → s.ra0 ≡ h
    → Returns newlist_code 6
        (flags long false h (record s { ra0 = h + 4; mem = four s.mem (h + 4 + 4) h }))
        P
    → Returns newlist_code 0 s P
unfolding run
newlist_first h s even fits e (f, t, r, p) = (suc (suc f), t, ground arith, p)

newlist_clear :
    (a : ℕ) (s : Cpu) {P : Cpu → Type 0}
    → a % 2 ≡ 0
    → a + 8 < 2 ^ 32
    → s.ra0 ≡ a
    → Returns newlist_code 8 (flags long false 0 (record s { mem = four s.mem a 0 })) P
    → Returns newlist_code 6 s P
unfolding run
newlist_clear a s even fits e (f, t, r, p) = (suc f, t, ground arith, p)

newlist_last :
    (h : ℕ) (s : Cpu) {P : Cpu → Type 0}
    → h % 2 ≡ 0
    → h + 12 < 2 ^ 32
    → s.ra0 ≡ h + 4
    → P (flags long false (h + 4) (record s { ra0 = h; mem = four s.mem h (h + 4) }))
    → Returns newlist_code 8 s P
unfolding run
newlist_last h s even fits e p = (
  2,
  flags long false (h + 4) (record s { ra0 = h; mem = four s.mem h (h + 4) }),
  ground arith,
  p,
)

-- `NEWLIST` makes the header at any place an empty list, whatever the memory holds.
pub newlist-IsList :
    (h : ℕ) (s : Cpu) → IsPlace h → s.ra0 ≡ h → Returns newlist_code 0 s (λ t. IsList t.mem h [])
unfolding Keeps Distinct Links ArePlaces
newlist-IsList h s header e =
    let m1 = four s.mem (h + 4 + 4) h in
    let m2 = four m1 (h + 4) 0 in
    let m' = four m2 h (h + 4) in
    let u = flags long false h (record s { ra0 = h + 4; mem = m1 }) in
    let own : longword m' (h + 4 + 4) ≡ h =
      longword-four-Apart m2 h (h + 4) (h + 4 + 4) (omega arith)
      ∙ longword-four-Apart m1 (h + 4) 0 (h + 4 + 4) (omega arith)
      ∙ longword-four s.mem (h + 4 + 4) h (omega arith) in
    newlist_first h s (omega arith) (omega arith) e (
      newlist_clear (h + 4) u (omega arith) (omega arith) refl (
        newlist_last h (flags long false 0 (record u { mem = m2 })) (omega arith) (omega arith) refl
          (record {
            links = (longword-four m2 h (h + 4) (omega arith), own, tt);
            distinct = (omega arith, tt, tt, tt);
            tail_zero =
                longword-four-Apart m2 h (h + 4) (h + 4) (omega arith)
                ∙ longword-four m1 (h + 4) 0 (omega arith);
            tail_kept = (omega arith, omega arith, tt);
            places = tt;
            header = header;
          })))

unfoldable pub is_empty : List ℕ → Bool
is_empty [] = true
is_empty (n ∷ ns) = false

-- The node before the tail node is the header in an empty list only.
tail_pred :
    (h : ℕ) (xs : List ℕ) (m : Memory) → IsList m h xs → (longword m (h + 8) == h) ≡ is_empty xs
unfolding is_empty last Keeps Distinct
tail_pred h [] m l = let (l0, l1) = Links-middle m h [] (h + 4) [] l.links in ground arith
tail_pred h (x ∷ xs) m l =
    let (l0, l1) = Links-middle m h (x ∷ xs) (h + 4) [] l.links in
    let (e, kept, k', d) = l.distinct in
    let (a0, a1) = Keeps-middle h x xs (h + 4) [] kept in ground arith

-- `IsListEmpty` tells whether the list has no node.
pub is_list_empty-is_empty :
    (h : ℕ) (xs : List ℕ) (m : Memory) → IsList m h xs → is_list_empty m h ≡ is_empty xs
is_list_empty-is_empty h xs m l = tail_pred h xs m l

tstlist_runs :
    (h v : ℕ) (s : Cpu) {P : Cpu → Type 0}
    → h % 2 ≡ 0
    → h + 12 < 2 ^ 32
    → s.ra0 ≡ h
    → longword s.mem (h + 8) ≡ v
    → P (flags long (ltb h v) (minus long h v) s)
    → Returns tstlist_code 0 s P
unfolding run
tstlist_runs h v s even fits e read p =
    (2, flags long (ltb h v) (minus long h v) s, ground arith, p)

minus_zero : (h v : ℕ) → h < 2 ^ 32 → v < 2 ^ 32 → (minus long h v == 0) ≡ (v == h)
minus_zero h v fits fits' = ground arith

-- `TSTLIST` sets the flag zero if the list has no node, and clears it if there is one.
pub tstlist-is_empty :
    (h : ℕ) (xs : List ℕ) (s : Cpu)
    → IsList s.mem h xs
    → s.ra0 ≡ h
    → Returns tstlist_code 0 s (λ t. (t.z ≡ is_empty xs) × (t.mem ≡ s.mem))
tstlist-is_empty h xs s l e =
    let header = l.header in
    let (l0, l1) = Links-middle s.mem h xs (h + 4) [] l.links in
    let node = last-IsNode h xs header l.places in
    let tail : h + 8 ≡ h + 4 + 4 = omega arith in
    let read : longword s.mem (h + 8) ≡ last h xs = ap (longword s.mem) tail ∙ l1 in
    let small : longword s.mem (h + 8) < 2 ^ 32 = omega arith in
    tstlist_runs h (longword s.mem (h + 8)) s (omega arith) (omega arith) e refl
      (minus_zero h (longword s.mem (h + 8)) (omega arith) small ∙ tail_pred h xs s.mem l, refl)
