-- ===== src/StringAsm/For68020/Bytes.antt =====
-- The loop of `dbf` that moves bytes, wherever it stands in a code sequence.
use amiga_dev.Common.{ℕ, zero, suc, ◌+◌, ◌-◌, ◌%◌, ◌^◌, ◌<◌, ◌≡◌, arith, ◌∙◌, sym, refl, List, some}
use amiga_dev.Machine.{Cpu, byte, update, wrap, Instr, move, dbf, post, a0, a1, d2, back}
use amiga_dev.Machine.Run.{run, exec, found, fetch, Returns}
use amiga_dev.StringAsm.Strings.{IsBytes, Upwards, copied, copied-suc, copied-zero}
use amiga_dev.StringAsm.Copies.{IsBytes-update}
use amiga_dev.StringAsm.Memcpy.{Fits, one_moved}

-- At `pc` stands the loop.
abbrev pub IsByteLoop : List Instr → ℕ → Type 0
IsByteLoop code pc =
    (fetch code pc ≡ found (move byte (post a1) (post a0)))
    × (fetch code (pc + 2) ≡ found (dbf d2 (back 4)))

pub step :
    (code : List Instr) (pc pc' : ℕ) (i : Instr) (s s' : Cpu) {P : Cpu → Type 0}
    → fetch code pc ≡ found i
    → exec i pc s ≡ some (pc', s')
    → Returns code pc' s' P
    → Returns code pc s P
unfolding run
step code pc pc' i s s' here next (f, t, r, p) = (suc f, t, ground arith, p)

byte_moved :
    (code : List Instr) (pc : ℕ) (s : Cpu) {P : Cpu → Type 0}
    → IsByteLoop code pc
    → IsBytes s.mem
    → Fits 1 s
    → Returns code (pc + 2) (one_moved s s.rd2) P
    → Returns code pc s P
byte_moved code pc s (here, there) bytes fits after =
    let fit = bytes s.ra1 in
    let byte_value : s.mem s.ra1 % 2 ^ 8 ≡ s.mem s.ra1 = omega arith in
    let up : wrap (s.ra0 + 1) ≡ s.ra0 + 1 = omega arith in
    let up' : wrap (s.ra1 + 1) ≡ s.ra1 + 1 = omega arith in
    step code pc (pc + 2) (move byte (post a1) (post a0)) s (one_moved s s.rd2) here
      (rw (byte_value, up, up') refl) after

-- `d2` counts one byte less than are left.
byte_counted :
    (code : List Instr) (pc : ℕ) (s : Cpu) (k : ℕ) {P : Cpu → Type 0}
    → IsByteLoop code pc
    → s.rd2 ≡ suc k
    → suc k < 2 ^ 16
    → Returns code pc (record s { rd2 = k }) P
    → Returns code (pc + 2) s P
byte_counted code pc s k (here, there) e small after =
    step code (pc + 2) pc (dbf d2 (back 4)) s (record s { rd2 = k }) there (ground arith) after

byte_ended :
    (code : List Instr) (pc : ℕ) (s : Cpu) {P : Cpu → Type 0}
    → IsByteLoop code pc
    → s.rd2 ≡ 0
    → Returns code (pc + 6) (record s { rd2 = 2 ^ 16 - 1 }) P
    → Returns code (pc + 2) s P
byte_ended code pc s (here, there) e after =
    step code (pc + 2) (pc + 6) (dbf d2 (back 4)) s (record s { rd2 = 2 ^ 16 - 1 }) there
      (ground arith) after

-- What moving `n` bytes leaves.
abbrev pub Moved : ℕ → Cpu → Cpu → Type 0
Moved n s t = (t.rd0 ≡ s.rd0) × (t.mem ≡ copied s.mem s.ra0 s.ra1 n) × (t.ra0 ≡ s.ra0 + n)

-- The loop moves one byte more than the low word of `d2` says.
pub byte_loop :
    (code : List Instr) (pc k : ℕ) (s : Cpu) {P : Cpu → Type 0}
    → IsByteLoop code pc
    → IsBytes s.mem
    → Upwards s.ra0 s.ra1 (suc k)
    → Fits (suc k) s
    → s.rd2 ≡ k
    → k < 2 ^ 16
    → ((t : Cpu) → Moved (suc k) s t → Returns code (pc + 6) t P)
    → Returns code pc s P
byte_loop code pc zero s loop bytes up fits e small after =
    let t = record (one_moved s s.rd2) { rd2 = 2 ^ 16 - 1 } in
    let none_left = copied-zero (update s.mem s.ra0 (s.mem s.ra1)) (s.ra0 + 1) (s.ra1 + 1) in
    byte_moved code pc s loop bytes fits (
      byte_ended code pc (one_moved s s.rd2) loop e
        (after t (refl, sym none_left ∙ copied-suc s.mem s.ra0 s.ra1 0 up, refl)))
byte_loop code pc (suc k) s loop bytes up fits e small after =
    let u = record (one_moved s s.rd2) { rd2 = k } in
    let bytes' = IsBytes-update s.mem s.ra0 (s.mem s.ra1) bytes (bytes s.ra1) in
    byte_moved code pc s loop bytes (omega arith) (
      byte_counted code pc (one_moved s s.rd2) k loop e small (
        byte_loop code pc k u loop bytes' (omega arith) (omega arith) refl (omega arith)
          (λ t (d, m, a). after t (d, m ∙ copied-suc s.mem s.ra0 s.ra1 (suc k) up, omega arith))))
