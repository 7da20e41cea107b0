-- ===== src/Rstat/Chain.antt =====
-- The chain of interfaces in the kernel, and the two loops of rstat_proc.c over it.
use amiga_dev.Common.{
  ℕ, suc, ◌+◌, ◌%◌, ◌^◌, ◌<◌, ◌≡◌, refl, ◌∙◌, ap, arith, true, false, some, List, [], ◌∷◌, length,
  ◌==◌,
}
use amiga_dev.Rstat.{
  Kernel, Ifnet, Words, ok, add32, add_counters, sum_interfaces, count_interfaces,
}

-- From `off` the kernel's chain of interfaces is this list.
abbrev pub Chain : Kernel → ℕ → List Ifnet → Type 0
Chain k off [] = off ≡ 0
Chain k off (f ∷ l) =
    ((off == 0) ≡ false) × (k.seeks off ≡ true) × (k.ifnet_at off ≡ some f) × Chain k f.if_next l

abbrev pub total : (Ifnet → ℕ) → List Ifnet → ℕ
total g [] = 0
total g (f ∷ l) = g f + total g l

-- The words behind the loop over a list of interfaces.
abbrev pub tally : List Ifnet → Words → Words
tally [] w = w
tally (f ∷ l) w = tally l (add_counters w f)

pub sum_interfaces-tally :
    (k : Kernel) (l : List Ifnet) (off : ℕ) (w : Words)
    → Chain k off l
    → sum_interfaces k (length l) off w ≡ ok (tally l w)
unfolding sum_interfaces
sum_interfaces-tally k [] off w h = refl
sum_interfaces-tally k (f ∷ l) off w (p, q, r, h) =
    rw (p, q, r) (sum_interfaces-tally k l f.if_next (add_counters w f) h)

pub count_interfaces-length :
    (k : Kernel) (l : List Ifnet) (off n : ℕ)
    → Chain k off l
    → n + length l < 2 ^ 32
    → count_interfaces k (suc (length l)) off n ≡ ok (n + length l)
unfolding count_interfaces
count_interfaces-length k [] off n h small = rw h (ap ok (omega arith))
count_interfaces-length k (f ∷ l) off n (p, q, r, h) small =
    let one : add32 n 1 ≡ n + 1 = omega arith in
    rw (p, q, r, one)
      (count_interfaces-length k l f.if_next (n + 1) h (omega arith) ∙ ap ok (omega arith))

-- A word that the loop does not write.
pub tally-same :
    (p : ℕ)
    → ((w : Words) (f : Ifnet) → add_counters w f p ≡ w p)
    → (l : List Ifnet) (w : Words) → tally l w p ≡ w p
tally-same p keeps [] w = refl
tally-same p keeps (f ∷ l) w = tally-same p keeps l (add_counters w f) ∙ keeps w f

-- A word to which the loop adds a counter of each interface.
pub tally-total :
    (p : ℕ) (g : Ifnet → ℕ)
    → ((w : Words) (f : Ifnet) → add_counters w f p ≡ add32 (w p) (g f))
    → (l : List Ifnet) (w : Words) → w p < 2 ^ 32
    → tally l w p ≡ add32 (w p) (total g l)
tally-total p g adds [] w small = omega arith
tally-total p g adds (f ∷ l) w small =
    let e = adds w f in tally-total p g adds l (add_counters w f) (omega arith) ∙ omega arith

-- The same for a word that has been cleared.
pub tally-cleared :
    (p : ℕ) (g : Ifnet → ℕ)
    → ((w : Words) (f : Ifnet) → add_counters w f p ≡ add32 (w p) (g f))
    → (l : List Ifnet) (w : Words) → w p ≡ 0
    → tally l w p ≡ total g l % 2 ^ 32
tally-cleared p g adds l w none_yet =
    tally-total p g adds l w (omega arith)
    ∙ ap (λ (x : ℕ). (x + total g l) % 2 ^ 32) none_yet
    ∙ omega arith
