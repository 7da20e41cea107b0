-- ===== src/Abi/Decode.antt =====
-- Every list of up to fifteen registers has a magic number that decodes to it.
use amiga_dev.Common.{ℕ, ◌+◌, ◌*◌, ◌/◌, ◌%◌, ◌<◌, ◌≡◌, refl, List, [], ◌∷◌, All, length, arith}
use amiga_dev.Abi.{Reg, d, a, reg_of, regs_of, count_of, result_of, args_of}

abbrev pub IsReg : Reg → Type 0
IsReg (d k) = k < 8
IsReg (a k) = k < 8

abbrev pub digit : Reg → ℕ
digit (d k) = k
digit (a k) = k + 8

abbrev pub digits_of : List Reg → ℕ
digits_of [] = 0
digits_of (r ∷ rs) = digit r + 16 * digits_of rs

-- The magic number of a call with these arguments and this result.
abbrev pub magic_of : List Reg → Reg → ℕ
magic_of rs r = (digits_of rs * 16 + digit r) * 16 + length rs

reg_of-digit : (r : Reg) → IsReg r → reg_of (digit r) ≡ r
reg_of-digit (d k) h = ground arith
reg_of-digit (a k) h = ground arith

digit-lt : (r : Reg) → IsReg r → digit r < 16
digit-lt (d k) h = omega arith
digit-lt (a k) h = omega arith

regs_of-digits_of : (rs : List Reg) → All IsReg rs → regs_of (length rs) (digits_of rs) ≡ rs
regs_of-digits_of [] h = refl
regs_of-digits_of (r ∷ rs) (p, h) =
    let last : (digit r + 16 * digits_of rs) % 16 ≡ digit r = omega (arith, digit-lt r p) in
    let rest : (digit r + 16 * digits_of rs) / 16 ≡ digits_of rs = omega (arith, digit-lt r p) in
    rw (last, rest, reg_of-digit r p, regs_of-digits_of rs h)

-- The magic number of at most fifteen argument registers and a result register decodes to just
-- these registers, in their order, and to that result.
pub magic_decodes :
    (rs : List Reg) (r : Reg)
    → All IsReg rs
    → IsReg r
    → length rs < 16
    → (count_of (magic_of rs r) ≡ length rs)
      × (result_of (magic_of rs r) ≡ r)
      × (args_of (magic_of rs r) ≡ rs)
unfolding count_of result_of args_of
magic_decodes rs r h p few =
    let n = digits_of rs in
    let small = digit-lt r p in
    let count : magic_of rs r % 16 ≡ length rs = omega arith in
    let res : magic_of rs r / 16 % 16 ≡ digit r = omega arith in
    let rest : magic_of rs r / 256 ≡ n = omega arith in
    (count, rw res (reg_of-digit r p), rw (count, rest) (regs_of-digits_of rs h))
