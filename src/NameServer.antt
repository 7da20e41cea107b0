-- ===== src/NameServer.antt =====
-- The macros of targets/m68k-amigaos/netinclude/arpa/nameser.h that read and write numbers in a
-- message, over a memory of bytes and a pointer into it.
pub mod Bits
pub mod RoundTrip
mod Tests
use amiga_dev.Common.{ℕ, suc, ◌+◌, ◌*◌, ◌/◌, ◌%◌, ◌^◌, bit_or, ◌==◌, if◌then◌else◌}

abbrev pub Memory : Type 0
Memory = ℕ → ℕ

-- A store to a `u_char`.
abbrev pub put : Memory → ℕ → ℕ → Memory
put m p v q = if q == p then v % 2 ^ 8 else m q

-- `x << 8` of a 32-bit number.
abbrev pub shift_left : ℕ → ℕ
shift_left x = x * 2 ^ 8 % 2 ^ 32

-- `GETSHORT(s, cp)`: the number and the advanced pointer.
unfoldable pub get_short : Memory → ℕ → ℕ × ℕ
get_short m cp = let s = shift_left (m cp) in (bit_or s (m (cp + 1)), cp + 2)

-- `GETLONG(l, cp)`
unfoldable pub get_long : Memory → ℕ → ℕ × ℕ
get_long m cp =
    let l = shift_left (m cp) in
    let l = shift_left (bit_or l (m (cp + 1))) in
    let l = shift_left (bit_or l (m (cp + 2))) in (bit_or l (m (cp + 3)), cp + 4)

-- `PUTSHORT(s, cp)`: the memory and the advanced pointer.
unfoldable pub put_short : Memory → ℕ → ℕ → Memory × ℕ
put_short m s cp = (put (put m cp (s / 2 ^ 8)) (cp + 1) s, cp + 2)

-- `PUTLONG(l, cp)`, of a 32-bit `l`.
unfoldable pub put_long : Memory → ℕ → ℕ → Memory × ℕ
put_long m l cp =
    let m = put m (cp + 3) l in
    let l = l / 2 ^ 8 in
    let m = put m (cp + 2) l in
    let l = l / 2 ^ 8 in let m = put m (cp + 1) l in (put m cp (l / 2 ^ 8), cp + 4)
