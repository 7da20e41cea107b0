-- ===== src/ExecLists/Changes.antt =====
-- A node linked in between two others, and a node taken out.
use amiga_dev.Common.{ℕ, ◌+◌, ◌≡◌, List, [], ◌∷◌, ◌++◌, arith, ◌∙◌}
use amiga_dev.Machine.{Memory}
use amiga_dev.StringAsm.Copies.{longword}
use amiga_dev.ExecLists.Words.{Apart}
use amiga_dev.ExecLists.Links.{
  Keeps, Distinct, Links, last, SameBut, Apart-sym, Links-kept, Keeps-middle,
}

pub Keeps-insert :
    (p n c : ℕ) (pre : List ℕ) (b : ℕ) (post : List ℕ)
    → Apart p n
    → Apart p (n + 4)
    → Keeps p c (pre ++ b ∷ post)
    → Keeps p c (pre ++ n ∷ b ∷ post)
unfolding Keeps
Keeps-insert p n c [] b post a0 a1 (p0, p1, k) = (p0, a1, (a0, p1, k))
Keeps-insert p n c (d ∷ pre) b post a0 a1 (p0, p1, k) =
    (p0, p1, Keeps-insert p n d pre b post a0 a1 k)

pub Keeps-delete :
    (p n c : ℕ) (pre : List ℕ) (b : ℕ) (post : List ℕ)
    → Keeps p c (pre ++ n ∷ b ∷ post)
    → Keeps p c (pre ++ b ∷ post)
unfolding Keeps
Keeps-delete p n c [] b post (p0, p1, (q0, q1, k)) = (p0, q1, k)
Keeps-delete p n c (d ∷ pre) b post (p0, p1, k) = (p0, p1, Keeps-delete p n d pre b post k)

-- The node's links are none of those of the list.
abbrev pub Fresh : ℕ → ℕ → List ℕ → Type 0
Fresh n c ns = Keeps n c ns × Keeps (n + 4) c ns

pub Distinct-insert :
    (n c : ℕ) (pre : List ℕ) (b : ℕ) (post : List ℕ)
    → Fresh n c (pre ++ b ∷ post)
    → Distinct c (pre ++ b ∷ post)
    → Distinct c (pre ++ n ∷ b ∷ post)
unfolding Keeps Distinct
Distinct-insert n c [] b post ((n0, n1, kn), (n2, n3, kn')) (e, kc, kb, d) =
    let own : Apart (n + 4) n = omega arith in
    (Apart-sym n2, (Apart-sym n0, e, kc), (own, n3, kn'), (n1, kn, kb, d))
Distinct-insert n c (x ∷ pre) b post ((n0, n1, kn), (n2, n3, kn')) (e, kc, kx, d) = (
  e,
  Keeps-insert c n x pre b post (Apart-sym n0) (Apart-sym n2) kc,
  Keeps-insert (x + 4) n x pre b post (Apart-sym n1) (Apart-sym n3) kx,
  Distinct-insert n x pre b post (kn, kn') d,
)

pub Distinct-delete :
    (n c : ℕ) (pre : List ℕ) (b : ℕ) (post : List ℕ)
    → Distinct c (pre ++ n ∷ b ∷ post)
    → Distinct c (pre ++ b ∷ post)
unfolding Keeps Distinct
Distinct-delete n c [] b post (e, (c0, c1, kc), kn, (e', kn', kb, d)) = (c1, kc, kb, d)
Distinct-delete n c (x ∷ pre) b post (e, kc, kx, d) = (
  e,
  Keeps-delete c n x pre b post kc,
  Keeps-delete (x + 4) n x pre b post kx,
  Distinct-delete n x pre b post d,
)

-- The four links of a node between two others.
abbrev pub Between : Memory → ℕ → ℕ → ℕ → Type 0
Between m a n b =
    (longword m a ≡ n) × (longword m (n + 4) ≡ a) × (longword m n ≡ b) × (longword m (b + 4) ≡ n)

pub Links-insert :
    (n c : ℕ) (pre : List ℕ) (b : ℕ) (post : List ℕ) (m m' : Memory)
    → Fresh n c (pre ++ b ∷ post)
    → Distinct c (pre ++ b ∷ post)
    → SameBut (last c pre) (b + 4) n (n + 4) m m'
    → Between m' (last c pre) n b
    → Links m c (pre ++ b ∷ post)
    → Links m' c (pre ++ n ∷ b ∷ post)
unfolding Keeps Distinct Links last
Links-insert n c [] b post m m' ((n0, n1, kn), (n2, n3, kn')) (e, kc, kb, d) same (w, x, y, z)
      (l0, l1, links) =
    (w, x, (y, z, Links-kept c (b + 4) n (n + 4) b post m m' same kc kb kn kn' links))
Links-insert n c (x ∷ pre) b post m m' ((n0, n1, kn), (n2, n3, kn')) (e, kc, kx, d) same at
      (l0, l1, links) =
    let (c0, c1) = Keeps-middle c x pre b post kc in
    let (x0, x1) = Keeps-middle (x + 4) x pre b post kx in
    (
      same c c0 c1 (Apart-sym n0) (Apart-sym n2) ∙ l0,
      same (x + 4) x0 x1 (Apart-sym n1) (Apart-sym n3) ∙ l1,
      Links-insert n x pre b post m m' (kn, kn') d same at links,
    )

pub Links-delete :
    (n c : ℕ) (pre : List ℕ) (b : ℕ) (post : List ℕ) (m m' : Memory)
    → Distinct c (pre ++ n ∷ b ∷ post)
    → SameBut (last c pre) (b + 4) (last c pre) (b + 4) m m'
    → longword m' (last c pre) ≡ b
    → longword m' (b + 4) ≡ last c pre
    → Links m c (pre ++ n ∷ b ∷ post)
    → Links m' c (pre ++ b ∷ post)
unfolding Keeps Distinct Links last
Links-delete n c [] b post m m' (e, (c0, c1, kc), kn, (e', kn', kb, d)) same w x
      (l0, l1, (l2, l3, links)) =
    (w, x, Links-kept c (b + 4) c (b + 4) b post m m' same kc kb kc kb links)
Links-delete n c (x ∷ pre) b post m m' (e, kc, kx, d) same w y (l0, l1, links) =
    let (c0, c1) = Keeps-middle c x pre b post (Keeps-delete c n x pre b post kc) in
    let (x0, x1) = Keeps-middle (x + 4) x pre b post (Keeps-delete (x + 4) n x pre b post kx) in
    (
      same c c0 c1 c0 c1 ∙ l0,
      same (x + 4) x0 x1 x0 x1 ∙ l1,
      Links-delete n x pre b post m m' d same w y links,
    )
