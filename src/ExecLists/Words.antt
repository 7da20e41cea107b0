-- ===== src/ExecLists/Words.antt =====
-- Longwords written and read back.
use amiga_dev.Common.{ℕ, ◌+◌, ◌*◌, ◌/◌, ◌%◌, ◌^◌, ◌≤◌, ◌<◌, ◌≡◌, ◌⊎◌, arith}
use amiga_dev.Machine.{Memory, update}
use amiga_dev.StringAsm.Copies.{four, longword}

-- The two longwords share no byte.
abbrev pub Apart : ℕ → ℕ → Type 0
Apart p q = (p + 4 ≤ q) ⊎ (q + 4 ≤ p)

four_read :
    (w x y z : ℕ) (m : Memory) (p : ℕ)
    → longword (update (update (update (update m p w) (p + 1) x) (p + 2) y) (p + 3) z) p
      ≡ w * 2 ^ 24 + x * 2 ^ 16 + y * 2 ^ 8 + z
four_read w x y z m p = ground arith

pub longword-four : (m : Memory) (p v : ℕ) → v < 2 ^ 32 → longword (four m p v) p ≡ v
longword-four m p v small =
    let e =
      four_read (v / 2 ^ 24 % 2 ^ 8) (v / 2 ^ 16 % 2 ^ 8) (v / 2 ^ 8 % 2 ^ 8) (v % 2 ^ 8) m p in
    rw e (omega arith)

four_skipped :
    (w x y z : ℕ) (m : Memory) (p q : ℕ)
    → Apart q p
    → longword (update (update (update (update m p w) (p + 1) x) (p + 2) y) (p + 3) z) q
      ≡ longword m q
four_skipped w x y z m p q apart = ground arith

pub longword-four-Apart :
    (m : Memory) (p v q : ℕ) → Apart q p → longword (four m p v) q ≡ longword m q
longword-four-Apart m p v q apart =
    four_skipped (v / 2 ^ 24 % 2 ^ 8) (v / 2 ^ 16 % 2 ^ 8) (v / 2 ^ 8 % 2 ^ 8) (v % 2 ^ 8) m p q
      apart
