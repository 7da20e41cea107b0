-- ===== src/NameServer/Tests.antt =====
-- Numbers in a message at address 10: the theorems at concrete inputs, and a run.
use amiga_dev.Common.{ℕ, ◌+◌, ◌≡◌, ◌≢◌, refl, arith}
use amiga_dev.NameServer.{Memory, put_short, put_long, get_short, get_long}
use amiga_dev.NameServer.RoundTrip.{get_short-put_short, get_long-put_long}

abbrev blank : Memory
blank p = 255

get_short-put_short_example :
    (get_short (put_short blank 0x1234 10).0 10 ≡ (0x1234, (put_short blank 0x1234 10).1))
    × ((q : ℕ) → q ≢ 10 → q ≢ 10 + 1 → (put_short blank 0x1234 10).0 q ≡ 255)
get_short-put_short_example = get_short-put_short blank 0x1234 10 (omega arith)

get_long-put_long_example :
    (get_long (put_long blank 0x12345678 10).0 10 ≡ (0x12345678, (put_long blank 0x12345678 10).1))
    × ((q : ℕ)
        → q ≢ 10
        → q ≢ 10 + 1
        → q ≢ 10 + 2
        → q ≢ 10 + 3
        → (put_long blank 0x12345678 10).0 q ≡ 255)
get_long-put_long_example = get_long-put_long blank 0x12345678 10 (omega arith)

put_long_runs : (put_long blank 0x12345678 10).0 12 ≡ 0x56
unfolding put_long
put_long_runs = refl
