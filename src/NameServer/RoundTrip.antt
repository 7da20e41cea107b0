-- ===== src/NameServer/RoundTrip.antt =====
-- Numbers written to a message by the macros of nameser.h are read back.
use amiga_dev.Common.{ℕ, ◌+◌, ◌*◌, ◌/◌, ◌%◌, ◌^◌, ◌<◌, ◌≡◌, ◌≢◌, refl, ◌∙◌, ap, arith, bit_or}
use amiga_dev.NameServer.{Memory, shift_left, get_short, get_long, put_short, put_long}
use amiga_dev.NameServer.Bits.{bit_or-add}

-- `(x << 8) | b`
shift-or : (x b : ℕ) → x < 2 ^ 24 → b < 256 → bit_or (shift_left x) b ≡ x * 256 + b
shift-or x b hx hb =
    let whole : shift_left x ≡ x * 256 = omega arith in
    rw whole (bit_or-add (x * 256) b (omega arith) hb)

get_short-sum :
    (m : Memory) (cp : ℕ)
    → m cp < 256
    → m (cp + 1) < 256
    → get_short m cp ≡ (m cp * 256 + m (cp + 1), cp + 2)
unfolding get_short
get_short-sum m cp h0 h1 = rw (shift-or (m cp) (m (cp + 1)) (omega arith) h1) refl

get_long-sum :
    (m : Memory) (cp : ℕ)
    → m cp < 256
    → m (cp + 1) < 256
    → m (cp + 2) < 256
    → m (cp + 3) < 256
    → get_long m cp ≡ (((m cp * 256 + m (cp + 1)) * 256 + m (cp + 2)) * 256 + m (cp + 3), cp + 4)
unfolding get_long
get_long-sum m cp h0 h1 h2 h3 =
    let a = m cp * 256 + m (cp + 1) in
    let b = a * 256 + m (cp + 2) in
    rw
      (
        shift-or (m cp) (m (cp + 1)) (omega arith) h1,
        shift-or a (m (cp + 2)) (omega arith) h2,
        shift-or b (m (cp + 3)) (omega arith) h3,
      )
      refl

-- A 16-bit number written by `PUTSHORT` is read back by `GETSHORT`, which advances the pointer as
-- far as the writing did; no byte but the two has changed.
pub get_short-put_short :
    (m : Memory) (s cp : ℕ)
    → s < 2 ^ 16
    → (get_short (put_short m s cp).0 cp ≡ (s, (put_short m s cp).1))
      × ((q : ℕ) → q ≢ cp → q ≢ cp + 1 → (put_short m s cp).0 q ≡ m q)
unfolding put_short
get_short-put_short m s cp h =
    let m' = (put_short m s cp).0 in
    let b0 : m' cp ≡ s / 256 % 256 = ground arith in
    let b1 : m' (cp + 1) ≡ s % 256 = ground arith in
    let sum : m' cp * 256 + m' (cp + 1) ≡ s = omega arith in
    (
      get_short-sum m' cp (omega arith) (omega arith) ∙ ap (λ (x : ℕ). (x, cp + 2)) sum,
      λ q n0 n1. ground arith,
    )

-- A 32-bit number written by `PUTLONG` is read back by `GETLONG`, which advances the pointer as far
-- as the writing did; no byte but the four has changed.
pub get_long-put_long :
    (m : Memory) (l cp : ℕ)
    → l < 2 ^ 32
    → (get_long (put_long m l cp).0 cp ≡ (l, (put_long m l cp).1))
      × ((q : ℕ) → q ≢ cp → q ≢ cp + 1 → q ≢ cp + 2 → q ≢ cp + 3 → (put_long m l cp).0 q ≡ m q)
unfolding put_long
get_long-put_long m l cp h =
    let m' = (put_long m l cp).0 in
    let b0 : m' cp ≡ l / 256 / 256 / 256 % 256 = ground arith in
    let b1 : m' (cp + 1) ≡ l / 256 / 256 % 256 = ground arith in
    let b2 : m' (cp + 2) ≡ l / 256 % 256 = ground arith in
    let b3 : m' (cp + 3) ≡ l % 256 = ground arith in
    let sum : ((m' cp * 256 + m' (cp + 1)) * 256 + m' (cp + 2)) * 256 + m' (cp + 3) ≡ l =
      omega arith in
    (
      get_long-sum m' cp (omega arith) (omega arith) (omega arith) (omega arith)
          ∙ ap (λ (x : ℕ). (x, cp + 4)) sum,
      λ q n0 n1 n2 n3. ground arith,
    )
