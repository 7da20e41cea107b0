-- ===== src/Rstat/Disk.antt =====
-- `havedisk` of rstat_proc.c.
use mathlib.Core.Path.{subst}
use amiga_dev.Common.{
  ℕ, ◌+◌, ◌*◌, ◌/◌, ◌%◌, ◌^◌, ◌<◌, ◌≡◌, ◌↔◌, ◌⊎◌, inl, inr, refl, sym, ap, ◌∙◌, arith, true, false,
  some, Option, ◌==◌, if◌then◌else◌, Bool-cases, ==→eq,
}
use amiga_dev.Rstat.{
  x_dkxfer, Four, Kernel, Service, cant_read, ok, open_kmem, read_at, havedisk,
  rstatproc_havedisk_3, ready, add32,
}
use amiga_dev.Rstat.Outcomes.{ok_injective, bind_ok, read_value}
use amiga_dev.Rstat.Opened.{open_kmem_ok}

abbrev pub transfers : Four → ℕ
transfers x = x.w0 + x.w1 + x.w2 + x.w3

-- What the answer says of the transfers of the four drives: 0 for a multiple of 2^32, and 1 for any
-- other number.
abbrev pub Tells : ℕ → ℕ → Type 0
Tells n r =
    ((r ≡ 0) × ((q : ℕ) × (n ≡ q * 2 ^ 32)))
    ⊎ ((r ≡ 1) × ((q : ℕ) × (m : ℕ) × (n ≡ q * 2 ^ 32 + m) × (0 < m) × (m < 2 ^ 32)))

-- `t` is the service behind the request, `u` the one that is ready for it, and `x` the counts of the
-- drives in the kernel.
pub record Answers (k : Kernel) (woken : Option Kernel) (fuel : ℕ) (s : Service) (r : ℕ)
    (t : Service) : Type 0 where
  pub u : Service
  pub is_ready : ready k woken fuel s ≡ ok u
  pub found : (k.n_value x_dkxfer == 0) ≡ false
  pub opens : k.opens ≡ true
  pub seeks : k.seeks (k.n_value x_dkxfer) ≡ true
  pub x : Four
  pub counts : k.four_at (k.n_value x_dkxfer) ≡ some x
  pub tells : Tells (transfers x) r
  pub behind : t ≡ record u { nl = k.n_value; opened = u.opened + 1; have = r }

abbrev answer : ℕ → ℕ
answer n = if n == 0 then 0 else 1

summed : (x : Four) → add32 (add32 (add32 (add32 0 x.w0) x.w1) x.w2) x.w3 ≡ transfers x % 2 ^ 32
summed x = omega arith

answer-Tells : (n : ℕ) → Tells n (answer (n % 2 ^ 32))
answer-Tells n = elim (Bool-cases (n % 2 ^ 32 == 0)) [
  | inl whole ↦
      let e = ==→eq (n % 2 ^ 32) 0 whole in rw whole (inl (refl, (n / 2 ^ 32, omega arith)))
  | inr part ↦
      let low : 0 < n % 2 ^ 32 = ground arith in
      rw part (inr (refl, (n / 2 ^ 32, n % 2 ^ 32, omega arith, low, omega arith)))
]

Tells-answer : (n r : ℕ) → Tells n r → answer (n % 2 ^ 32) ≡ r
Tells-answer n r (inl (e, (q, whole))) = let rem : n % 2 ^ 32 ≡ 0 = omega arith in ground arith
Tells-answer n r (inr (e, (q, m, part, pos, small))) =
    let rem : n % 2 ^ 32 ≡ m = omega arith in ground arith

havedisk_ok :
    (k : Kernel) (u v : Service) (r : ℕ)
    → havedisk k u ≡ ok (r, v)
    → ((k.n_value x_dkxfer == 0) ≡ false)
      × (k.opens ≡ true)
      × (k.seeks (k.n_value x_dkxfer) ≡ true)
      × ((x : Four) × (k.four_at (k.n_value x_dkxfer) ≡ some x)
          × (r ≡ answer (transfers x % 2 ^ 32)))
      × (v ≡ record u { nl = k.n_value; opened = u.opened + 1 })
unfolding havedisk
havedisk_ok k u v r h =
    let (s1, r1, h1) = bind_ok (open_kmem k x_dkxfer u) _ (r, v) h in
    let (found, opens, e) = open_kmem_ok k x_dkxfer u s1 r1 in
    let (x, r2, h2) =
      bind_ok (read_at k (s1.nl x_dkxfer) (cant_read x_dkxfer) (k.four_at (s1.nl x_dkxfer))) _
        (r, v) h1 in
    let (seeks, counts) =
      read_value k (s1.nl x_dkxfer) (cant_read x_dkxfer) (k.four_at (s1.nl x_dkxfer)) x r2 in
    let same = ok_injective _ (r, v) h2 in
    let at_symbol : s1.nl x_dkxfer ≡ k.n_value x_dkxfer =
      ap (λ (y : Service). y.nl x_dkxfer) (sym e) in
    (
      found,
      opens,
      rw at_symbol at seeks,
      (x, rw at_symbol at counts, sym (ap (λ p. p.0) same) ∙ ap answer (summed x)),
      sym (ap (λ p. p.1) same) ∙ sym e,
    )

asked :
    (k : Kernel) (woken : Option Kernel) (fuel : ℕ) (s : Service) (r : ℕ) (t : Service)
    → rstatproc_havedisk_3 k woken fuel s ≡ ok (r, t)
    → Answers k woken fuel s r t
unfolding rstatproc_havedisk_3
asked k woken fuel s r t h =
    let (u, is_ready, h1) = bind_ok (ready k woken fuel s) _ (r, t) h in
    let ((r', v), r2, h2) = bind_ok (havedisk k u) _ (r, t) h1 in
    let (found, opens, seeks, (x, counts, value), e) = havedisk_ok k u v r' r2 in
    let same = ok_injective _ (r, t) h2 in
    let result : r' ≡ r = ap (λ p. p.0) same in
    record {
      u = u;
      is_ready = is_ready;
      found = found;
      opens = opens;
      seeks = seeks;
      x = x;
      counts = counts;
      tells = subst (Tells (transfers x)) (sym value ∙ result) (answer-Tells (transfers x));
      behind = sym (ap (λ p. p.1) same) ∙ rw (e, result) refl;
    }

answered :
    (k : Kernel) (woken : Option Kernel) (fuel : ℕ) (s : Service) (r : ℕ) (t : Service)
    → Answers k woken fuel s r t
    → rstatproc_havedisk_3 k woken fuel s ≡ ok (r, t)
unfolding rstatproc_havedisk_3 havedisk
answered k woken fuel s r t a =
    let value = Tells-answer (transfers a.x) r a.tells in
    rw (a.is_ready, a.found, a.opens, a.seeks, a.counts, summed a.x, value, a.behind) refl

-- Whatever the kernel and the service, the request returns the answer `r` and leaves the service `t`
-- if and only if: the service can be made ready as for every request, the kernel has the symbol,
-- /dev/kmem opens and the drives' counts can be read; `r` is 0 if the transfers of the four drives add
-- up to a multiple of 2^32, and 1 if not; and `t` is the ready service with that answer, the addresses
-- of the symbols and one more descriptor of /dev/kmem open.
pub rstatproc_havedisk_3-Answers :
    (k : Kernel) (woken : Option Kernel) (fuel : ℕ) (s : Service) (r : ℕ) (t : Service)
    → (rstatproc_havedisk_3 k woken fuel s ≡ ok (r, t)) ↔ Answers k woken fuel s r t
rstatproc_havedisk_3-Answers k woken fuel s r t =
    (asked k woken fuel s r t, answered k woken fuel s r t)
