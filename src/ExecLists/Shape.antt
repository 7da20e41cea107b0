-- ===== src/ExecLists/Shape.antt =====
-- What a list in memory is, how it is changed, and where its ends are.
use mathlib.Core.Path.{subst}
use amiga_dev.Common.{ℕ, ◌+◌, ◌%◌, ◌^◌, ◌<◌, ◌≡◌, List, [], ◌∷◌, ◌++◌, arith, ◌∙◌, refl, sym, ap}
use amiga_dev.Machine.{Memory}
use amiga_dev.StringAsm.Copies.{four, longword}
use amiga_dev.ExecLists.Words.{Apart, longword-four, longword-four-Apart}
use amiga_dev.ExecLists.Links.{Keeps, Distinct, Links, last, SameBut, Apart-sym, Keeps-middle}
use amiga_dev.ExecLists.Changes.{
  Fresh, Between, Keeps-insert, Keeps-delete, Distinct-insert, Distinct-delete, Links-insert,
  Links-delete,
}

-- Where a node or a list header may be.
abbrev pub IsPlace : ℕ → Type 0
IsPlace a = (a % 2 ≡ 0) × (0 < a) × (a + 12 < 2 ^ 32)

unfoldable pub ArePlaces : List ℕ → Type 0
ArePlaces [] = Unit
ArePlaces (n ∷ ns) = IsPlace n × ArePlaces ns

-- The list with its header at `h` has the nodes `xs`: from the header forwards, and from the tail
-- node at `h + 4`, which is part of the header, backwards. The word at `h + 4` is 0 and no link.
pub record IsList (m : Memory) (h : ℕ) (xs : List ℕ) : Type 0 where
  pub links : Links m h (xs ++ (h + 4) ∷ [])
  pub distinct : Distinct h (xs ++ (h + 4) ∷ [])
  pub tail_zero : longword m (h + 4) ≡ 0
  pub tail_kept : Keeps (h + 4) h (xs ++ (h + 4) ∷ [])
  pub places : ArePlaces xs
  pub header : IsPlace h

-- A node that may be put in the list: it overlaps with no link of it.
abbrev pub IsNew : ℕ → ℕ → List ℕ → Type 0
IsNew n h xs = IsPlace n × Fresh n h (xs ++ (h + 4) ∷ []) × Apart n (h + 4) × Apart (n + 4) (h + 4)

-- Four longwords written one after another.
abbrev pub fours : Memory → ℕ → ℕ → ℕ → ℕ → ℕ → ℕ → ℕ → ℕ → Memory
fours m p u q v r w s x = four (four (four (four m p u) q v) r w) s x

pub fours-SameBut : (m : Memory) (p u q v r w s x : ℕ) → SameBut p q r s m (fours m p u q v r w s x)
fours-SameBut m p u q v r w s x y kp kq kr ks =
    longword-four-Apart (four (four (four m p u) q v) r w) s x y ks
    ∙ longword-four-Apart (four (four m p u) q v) r w y kr
    ∙ longword-four-Apart (four m p u) q v y kq
    ∙ longword-four-Apart m p u y kp

-- Read back, when they share no byte.
pub fours_read :
    (m : Memory) (p u q v r w s x : ℕ)
    → Apart p q
    → Apart p r
    → Apart p s
    → Apart q r
    → Apart q s
    → Apart r s
    → u < 2 ^ 32
    → v < 2 ^ 32
    → w < 2 ^ 32
    → x < 2 ^ 32
    → let m' = fours m p u q v r w s x in
      (longword m' p ≡ u) × (longword m' q ≡ v) × (longword m' r ≡ w) × (longword m' s ≡ x)
fours_read m p u q v r w s x pq pr ps qr qs rs us vs ws xs =
    let m1 = four m p u in
    let m2 = four m1 q v in
    let m3 = four m2 r w in
    (
      longword-four-Apart m3 s x p ps
          ∙ longword-four-Apart m2 r w p pr
          ∙ longword-four-Apart m1 q v p pq
          ∙ longword-four m p u us,
      longword-four-Apart m3 s x q qs ∙ longword-four-Apart m2 r w q qr ∙ longword-four m1 q v vs,
      longword-four-Apart m3 s x r rs ∙ longword-four m2 r w ws,
      longword-four m3 s x xs,
    )

-- A list with its node list written in another way.
IsList-from :
    (m : Memory) (h : ℕ) (xs ns : List ℕ)
    → xs ++ (h + 4) ∷ [] ≡ ns
    → Links m h ns
    → Distinct h ns
    → longword m (h + 4) ≡ 0
    → Keeps (h + 4) h ns
    → ArePlaces xs
    → IsPlace h
    → IsList m h xs
IsList-from m h xs ns e links distinct zero kept places header = record {
  links = subst (Links m h) (sym e) links;
  distinct = subst (Distinct h) (sym e) distinct;
  tail_zero = zero;
  tail_kept = subst (Keeps (h + 4) h) (sym e) kept;
  places = places;
  header = header;
}

pub IsList-insert :
    (m m' : Memory) (h n : ℕ) (pre : List ℕ) (b : ℕ) (post xs xs' : List ℕ)
    → xs ++ (h + 4) ∷ [] ≡ pre ++ b ∷ post
    → xs' ++ (h + 4) ∷ [] ≡ pre ++ n ∷ b ∷ post
    → IsList m h xs
    → IsNew n h xs
    → SameBut (last h pre) (b + 4) n (n + 4) m m'
    → Between m' (last h pre) n b
    → ArePlaces xs'
    → IsList m' h xs'
IsList-insert m m' h n pre b post xs xs' e e' l (place, fresh, t0, t1) same at places =
    let fresh' = subst (Fresh n h) e fresh in
    let distinct = subst (Distinct h) e l.distinct in
    let kept = subst (Keeps (h + 4) h) e l.tail_kept in
    let (k0, k1) = Keeps-middle (h + 4) h pre b post kept in
    IsList-from m' h xs' (pre ++ n ∷ b ∷ post) e'
      (Links-insert n h pre b post m m' fresh' distinct same at (subst (Links m h) e l.links))
      (Distinct-insert n h pre b post fresh' distinct)
      (same (h + 4) k0 k1 (Apart-sym t0) (Apart-sym t1) ∙ l.tail_zero)
      (Keeps-insert (h + 4) n h pre b post (Apart-sym t0) (Apart-sym t1) kept) places l.header

pub IsList-delete :
    (m m' : Memory) (h n : ℕ) (pre : List ℕ) (b : ℕ) (post xs xs' : List ℕ)
    → xs ++ (h + 4) ∷ [] ≡ pre ++ n ∷ b ∷ post
    → xs' ++ (h + 4) ∷ [] ≡ pre ++ b ∷ post
    → IsList m h xs
    → SameBut (last h pre) (b + 4) (last h pre) (b + 4) m m'
    → longword m' (last h pre) ≡ b
    → longword m' (b + 4) ≡ last h pre
    → ArePlaces xs'
    → IsList m' h xs'
IsList-delete m m' h n pre b post xs xs' e e' l same at at' places =
    let distinct = subst (Distinct h) e l.distinct in
    let kept = Keeps-delete (h + 4) n h pre b post (subst (Keeps (h + 4) h) e l.tail_kept) in
    let (k0, k1) = Keeps-middle (h + 4) h pre b post kept in
    IsList-from m' h xs' (pre ++ b ∷ post) e'
      (Links-delete n h pre b post m m' distinct same at at' (subst (Links m h) e l.links))
      (Distinct-delete n h pre b post distinct) (same (h + 4) k0 k1 k0 k1 ∙ l.tail_zero) kept places
      l.header

-- Even, and with room for a node behind it.
abbrev pub IsNode : ℕ → Type 0
IsNode a = (a % 2 ≡ 0) × (0 < a) × (a + 8 < 2 ^ 32)

-- The first node, which in an empty list is the tail node of the header.
pub front :
    (h : ℕ) (xs : List ℕ)
    → IsPlace h
    → ArePlaces xs
    → (b : ℕ) × (post : List ℕ) × (xs ++ (h + 4) ∷ [] ≡ b ∷ post) × IsNode b
unfolding ArePlaces
front h [] header places = (h + 4, [], refl, omega arith)
front h (x ∷ xs) header (place, places) = (x, xs ++ (h + 4) ∷ [], refl, omega arith)

-- The last node, which in an empty list is the header.
pub last-IsNode : (h : ℕ) (xs : List ℕ) → IsPlace h → ArePlaces xs → IsNode (last h xs)
unfolding ArePlaces last
last-IsNode h [] header places = omega arith
last-IsNode h (x ∷ xs) header (place, places) = last-IsNode x xs place places

pub ArePlaces-append : (xs ys : List ℕ) → ArePlaces xs → ArePlaces ys → ArePlaces (xs ++ ys)
unfolding ArePlaces
ArePlaces-append [] ys p q = q
ArePlaces-append (x ∷ xs) ys (place, p) q = (place, ArePlaces-append xs ys p q)

-- No longword changes that is apart from the links of a list.
abbrev pub Untouched : ℕ → List ℕ → Memory → Memory → Type 0
Untouched h xs m m' = (x : ℕ) → Keeps x h (xs ++ (h + 4) ∷ []) → longword m' x ≡ longword m x

-- Two longwords written one after the other.
abbrev pub twos : Memory → ℕ → ℕ → ℕ → ℕ → Memory
twos m p u q v = four (four m p u) q v

pub twos-SameBut : (m : Memory) (p u q v : ℕ) → SameBut p q p q m (twos m p u q v)
twos-SameBut m p u q v y kp kq kp' kq' =
    longword-four-Apart (four m p u) q v y kq ∙ longword-four-Apart m p u y kp

pub twos_read :
    (m : Memory) (p u q v : ℕ)
    → Apart p q
    → u < 2 ^ 32
    → v < 2 ^ 32
    → (longword (twos m p u q v) p ≡ u) × (longword (twos m p u q v) q ≡ v)
twos_read m p u q v pq us vs = (
  longword-four-Apart (four m p u) q v p pq ∙ longword-four m p u us,
  longword-four (four m p u) q v vs,
)

pub ArePlaces-delete :
    (pre : List ℕ) (n : ℕ) (post : List ℕ)
    → ArePlaces (pre ++ n ∷ post)
    → IsPlace n × ArePlaces pre × ArePlaces (pre ++ post)
unfolding ArePlaces
ArePlaces-delete [] n post (place, places) = (place, tt, places)
ArePlaces-delete (x ∷ pre) n post (place, places) =
    let (here, before, after) = ArePlaces-delete pre n post places in
    (here, (place, before), (place, after))

pub append_assoc : (xs ys zs : List ℕ) → (xs ++ ys) ++ zs ≡ xs ++ (ys ++ zs)
append_assoc [] ys zs = refl
append_assoc (x ∷ xs) ys zs = ap (λ ns. x ∷ ns) (append_assoc xs ys zs)

-- A node of a list with what stands around it.
pub around :
    (h : ℕ) (pre : List ℕ) (n : ℕ) (rest : List ℕ)
    → IsPlace h
    → ArePlaces (pre ++ n ∷ rest)
    → (b : ℕ) × (post : List ℕ) × ((pre ++ n ∷ rest) ++ (h + 4) ∷ [] ≡ pre ++ n ∷ b ∷ post)
      × ((pre ++ rest) ++ (h + 4) ∷ [] ≡ pre ++ b ∷ post)
      × IsNode b
unfolding ArePlaces
around h [] n rest header (place, places) =
    let (b, post, split, node) = front h rest header places in
    (b, post, ap (λ ns. n ∷ ns) split, split, node)
around h (x ∷ pre) n rest header (place, places) =
    let (b, post, split, split', node) = around h pre n rest header places in
    (b, post, ap (λ ns. x ∷ ns) split, ap (λ ns. x ∷ ns) split', node)
