-- ===== src/Abi/Slots.antt =====
-- The vectors of a library: six bytes each, in the order of the table.
use amiga_dev.Common.{
  ℕ, zero, suc, ◌+◌, ◌%◌, ◌≤◌, ◌<◌, ◌≡◌, Bool, true, some, List, [], ◌∷◌, arith, leb, leb→le, ◌==◌,
  ==→eq, ◌&&◌, &&-true, get_elem?,
}
use amiga_dev.Abi.{Table}

-- Each offset is at least the next free one and a multiple of six.
unfoldable pub ascending : ℕ → List ℕ → Bool
ascending lo [] = true
ascending lo (o ∷ os) = leb lo o && ((o % 6 == 0) && ascending (o + 6) os)

-- The offsets of a table of stubs or of pragmas.
unfoldable pub offsets_by : {A : Type 0} → (A → ℕ) → Table A → List ℕ
offsets_by f [] = []
offsets_by f ((k, v) ∷ t) = f v ∷ offsets_by f t

-- The offset that a table gives at a place.
abbrev pub IsAt : List ℕ → ℕ → ℕ → Type 0
IsAt os i o = get_elem? os i ≡ some o

ascending_above :
    (os : List ℕ) (lo i o : ℕ) → ascending lo os ≡ true → IsAt os i o → (lo ≤ o) × (o % 6 ≡ 0)
unfolding ascending
ascending_above [] lo i o h e = cc
ascending_above (x ∷ os) lo zero o h e = ground arith
ascending_above (x ∷ os) lo (suc i) o h e =
    let (hx, h') = &&-true (leb lo x) _ h in
    let (h6, hs) = &&-true (x % 6 == 0) _ h' in
    let rest = ascending_above os (x + 6) i o hs e in
    let above = leb→le lo x hx in (omega arith, rest.1)

-- The vectors of two functions do not overlap: each takes six bytes.
pub vectors_apart :
    (os : List ℕ) (lo i j o o' : ℕ)
    → ascending lo os ≡ true
    → i < j
    → IsAt os i o
    → IsAt os j o'
    → (o + 6 ≤ o') × (o % 6 ≡ 0) × (o' % 6 ≡ 0)
unfolding ascending
vectors_apart [] lo i j o o' h lt e e' = cc
vectors_apart (x ∷ os) lo i zero o o' h lt e e' = absurd (omega arith)
vectors_apart (x ∷ os) lo zero (suc j) o o' h lt e e' =
    let (hx, h') = &&-true (leb lo x) _ h in
    let (h6, hs) = &&-true (x % 6 == 0) _ h' in
    let rest = ascending_above os (x + 6) j o' hs e' in
    let same : x ≡ o = ground arith in
    let six = ==→eq (x % 6) 0 h6 in (omega arith, ground arith, rest.1)
vectors_apart (x ∷ os) lo (suc i) (suc j) o o' h lt e e' =
    let (hx, h') = &&-true (leb lo x) _ h in
    let (h6, hs) = &&-true (x % 6 == 0) _ h' in
    vectors_apart os (x + 6) i j o o' hs (omega arith) e e'
