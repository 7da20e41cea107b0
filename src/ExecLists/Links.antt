-- ===== src/ExecLists/Links.antt =====
-- A doubly linked list in memory: the nodes `c ∷ ns`, each of which but the last has the address of
-- the next in its first longword, and each of which but the first has that of the one before in its
-- second. Both are the node's links.
use amiga_dev.Common.{ℕ, ◌+◌, ◌≡◌, List, [], ◌∷◌, ◌++◌, arith, ◌∙◌}
use amiga_dev.Machine.{Memory}
use amiga_dev.StringAsm.Copies.{longword}
use amiga_dev.ExecLists.Words.{Apart}

-- The longword at `p` is none of the links.
unfoldable pub Keeps : ℕ → ℕ → List ℕ → Type 0
Keeps p c [] = Unit
Keeps p c (n ∷ ns) = Apart p c × Apart p (n + 4) × Keeps p n ns

-- No two of the links share a byte.
unfoldable pub Distinct : ℕ → List ℕ → Type 0
Distinct c [] = Unit
Distinct c (n ∷ ns) = Apart c (n + 4) × Keeps c n ns × Keeps (n + 4) n ns × Distinct n ns

unfoldable pub Links : Memory → ℕ → List ℕ → Type 0
Links m c [] = Unit
Links m c (n ∷ ns) = (longword m c ≡ n) × (longword m (n + 4) ≡ c) × Links m n ns

-- The node before the rest of the list.
unfoldable pub last : ℕ → List ℕ → ℕ
last c [] = c
last c (n ∷ ns) = last n ns

-- Between `a` and `n` in one memory, and nothing else changed but the longwords at `p`, `q`, `r`
-- and `s`.
abbrev pub SameBut : ℕ → ℕ → ℕ → ℕ → Memory → Memory → Type 0
SameBut p q r s m m' =
    (x : ℕ) → Apart x p → Apart x q → Apart x r → Apart x s → longword m' x ≡ longword m x

pub Apart-sym : {p q : ℕ} → Apart p q → Apart q p
Apart-sym apart = omega arith

pub Links-kept :
    (p q r s c : ℕ) (ns : List ℕ) (m m' : Memory)
    → SameBut p q r s m m'
    → Keeps p c ns
    → Keeps q c ns
    → Keeps r c ns
    → Keeps s c ns
    → Links m c ns
    → Links m' c ns
unfolding Keeps Links
Links-kept p q r s c [] m m' same kp kq kr ks links = tt
Links-kept p q r s c (n ∷ ns) m m' same (p0, p1, kp) (q0, q1, kq) (r0, r1, kr) (s0, s1, ks)
      (l0, l1, links) =
    (
      same c (Apart-sym p0) (Apart-sym q0) (Apart-sym r0) (Apart-sym s0) ∙ l0,
      same (n + 4) (Apart-sym p1) (Apart-sym q1) (Apart-sym r1) (Apart-sym s1) ∙ l1,
      Links-kept p q r s n ns m m' same kp kq kr ks links,
    )

-- What keeps all links keeps those in the middle.
pub Keeps-middle :
    (p c : ℕ) (pre : List ℕ) (b : ℕ) (post : List ℕ)
    → Keeps p c (pre ++ b ∷ post)
    → Apart p (last c pre) × Apart p (b + 4)
unfolding Keeps last
Keeps-middle p c [] b post (p0, p1, k) = (p0, p1)
Keeps-middle p c (d ∷ pre) b post (p0, p1, k) = Keeps-middle p d pre b post k

pub Links-middle :
    (m : Memory) (c : ℕ) (pre : List ℕ) (b : ℕ) (post : List ℕ)
    → Links m c (pre ++ b ∷ post)
    → (longword m (last c pre) ≡ b) × (longword m (b + 4) ≡ last c pre)
unfolding Links last
Links-middle m c [] b post (l0, l1, links) = (l0, l1)
Links-middle m c (d ∷ pre) b post (l0, l1, links) = Links-middle m d pre b post links

pub Keeps-around :
    (p c : ℕ) (pre : List ℕ) (n b : ℕ) (post : List ℕ)
    → Keeps p c (pre ++ n ∷ b ∷ post)
    → Apart p (last c pre) × Apart p (n + 4) × Apart p n × Apart p (b + 4)
unfolding Keeps last
Keeps-around p c [] n b post (p0, p1, (p2, p3, k)) = (p0, p1, p2, p3)
Keeps-around p c (d ∷ pre) n b post (p0, p1, k) = Keeps-around p d pre n b post k

pub Distinct-middle :
    (c : ℕ) (pre : List ℕ) (b : ℕ) (post : List ℕ)
    → Distinct c (pre ++ b ∷ post)
    → Apart (last c pre) (b + 4)
unfolding Distinct last
Distinct-middle c [] b post (e, kc, kb, d) = e
Distinct-middle c (x ∷ pre) b post (e, kc, kx, d) = Distinct-middle x pre b post d

pub Links-around :
    (m : Memory) (c : ℕ) (pre : List ℕ) (n b : ℕ) (post : List ℕ)
    → Links m c (pre ++ n ∷ b ∷ post)
    → (longword m (last c pre) ≡ n)
      × (longword m (n + 4) ≡ last c pre)
      × (longword m n ≡ b)
      × (longword m (b + 4) ≡ n)
unfolding Links last
Links-around m c [] n b post (l0, l1, (l2, l3, links)) = (l0, l1, l2, l3)
Links-around m c (d ∷ pre) n b post (l0, l1, links) = Links-around m d pre n b post links
