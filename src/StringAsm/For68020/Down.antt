-- ===== src/StringAsm/For68020/Down.antt =====
-- The loop of `dbf` that moves bytes downwards, wherever it stands in a code sequence.
use amiga_dev.Common.{ℕ, zero, suc, ◌+◌, ◌-◌, ◌%◌, ◌^◌, ◌<◌, ◌≡◌, arith, ◌∙◌, sym, refl, List}
use amiga_dev.Machine.{Cpu, byte, update, Instr, move, dbf, pre, a0, a1, d2, back, down}
use amiga_dev.Machine.Run.{found, fetch, Returns}
use amiga_dev.StringAsm.Strings.{IsBytes, copied, copied-zero}
use amiga_dev.StringAsm.Copies.{IsBytes-update, copied-last}
use amiga_dev.StringAsm.MemcpyDesc.{Ends, one_moved}
use amiga_dev.StringAsm.For68020.Bytes.{step}

-- At `pc` stands the loop.
abbrev pub IsDownLoop : List Instr → ℕ → Type 0
IsDownLoop code pc =
    (fetch code pc ≡ found (move byte (pre a1) (pre a0)))
    × (fetch code (pc + 2) ≡ found (dbf d2 (back 4)))

byte_moved :
    (code : List Instr) (pc : ℕ) (s : Cpu) {P : Cpu → Type 0}
    → IsDownLoop code pc
    → IsBytes s.mem
    → (0 < s.ra0) × (0 < s.ra1) × (s.ra0 < 2 ^ 32) × (s.ra1 < 2 ^ 32)
    → Returns code (pc + 2) (one_moved s s.rd2) P
    → Returns code pc s P
byte_moved code pc s (here, there) bytes (lo, lo', hi, hi') after =
    let fit = bytes (s.ra1 - 1) in
    let value : s.mem (s.ra1 - 1) % 2 ^ 8 ≡ s.mem (s.ra1 - 1) = omega arith in
    let below : down s.ra0 byte ≡ s.ra0 - 1 = omega arith in
    let below' : down s.ra1 byte ≡ s.ra1 - 1 = omega arith in
    step code pc (pc + 2) (move byte (pre a1) (pre a0)) s (one_moved s s.rd2) here
      (rw (below, below', value) refl) after

byte_counted :
    (code : List Instr) (pc : ℕ) (s : Cpu) (k : ℕ) {P : Cpu → Type 0}
    → IsDownLoop code pc
    → s.rd2 ≡ suc k
    → suc k < 2 ^ 16
    → Returns code pc (record s { rd2 = k }) P
    → Returns code (pc + 2) s P
byte_counted code pc s k (here, there) e small after =
    step code (pc + 2) pc (dbf d2 (back 4)) s (record s { rd2 = k }) there (ground arith) after

byte_ended :
    (code : List Instr) (pc : ℕ) (s : Cpu) {P : Cpu → Type 0}
    → IsDownLoop code pc
    → s.rd2 ≡ 0
    → Returns code (pc + 6) (record s { rd2 = 2 ^ 16 - 1 }) P
    → Returns code (pc + 2) s P
byte_ended code pc s (here, there) e after =
    step code (pc + 2) (pc + 6) (dbf d2 (back 4)) s (record s { rd2 = 2 ^ 16 - 1 }) there
      (ground arith) after

-- What moving bytes down to `d` leaves.
abbrev pub MovedDown : ℕ → ℕ → ℕ → Cpu → Cpu → Type 0
MovedDown d a n s t = (t.ra0 ≡ d) × (t.mem ≡ copied s.mem d a n)

-- The loop moves one byte more than the low word of `d2` says.
pub down_loop :
    (code : List Instr) (pc k d a : ℕ) (s : Cpu) {P : Cpu → Type 0}
    → IsDownLoop code pc
    → IsBytes s.mem
    → Ends d a (suc k) s
    → s.rd2 ≡ k
    → k < 2 ^ 16
    → ((t : Cpu) → MovedDown d a (suc k) s t → Returns code (pc + 6) t P)
    → Returns code pc s P
down_loop code pc zero d a s loop bytes ends e small after =
    let t = record (one_moved s s.rd2) { rd2 = 2 ^ 16 - 1 } in
    let last0 : s.ra0 - 1 ≡ d + 0 = omega arith in
    let last1 : s.ra1 - 1 ≡ a + 0 = omega arith in
    let start = copied-zero (update s.mem (s.ra0 - 1) (s.mem (s.ra1 - 1))) d a in
    let all = copied-last s.mem d a 0 (omega arith) in
    byte_moved code pc s loop bytes (omega arith) (
      byte_ended code pc (one_moved s s.rd2) loop e
        (after t (omega arith, sym start ∙ rw (last0, last1) all)))
down_loop code pc (suc k) d a s loop bytes ends e small after =
    let u = record (one_moved s s.rd2) { rd2 = k } in
    let bytes' = IsBytes-update s.mem (s.ra0 - 1) (s.mem (s.ra1 - 1)) bytes (bytes (s.ra1 - 1)) in
    let last0 : s.ra0 - 1 ≡ d + suc k = omega arith in
    let last1 : s.ra1 - 1 ≡ a + suc k = omega arith in
    let all = copied-last s.mem d a (suc k) (omega arith) in
    byte_moved code pc s loop bytes (omega arith) (
      byte_counted code pc (one_moved s s.rd2) k loop e small (
        down_loop code pc k d a u loop bytes' (omega arith) refl (omega arith)
          (λ t (low, m). after t (low, m ∙ rw (last0, last1) all))))
