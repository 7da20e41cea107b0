-- ===== src/StringAsm/For68020/Stores.antt =====
-- The loop of `dbf` that stores one byte again and again, wherever it stands in a code sequence.
use amiga_dev.Common.{ℕ, zero, suc, ◌+◌, ◌-◌, ◌%◌, ◌^◌, ◌<◌, ◌≡◌, arith, ◌∙◌, sym, refl, List}
use amiga_dev.Machine.{Cpu, byte, update, wrap, Instr, move, dbf, dn, post, a0, d0, d2, back}
use amiga_dev.Machine.Run.{found, fetch, Returns}
use amiga_dev.StringAsm.Memset.{filled, filled-zero, filled-suc, one_stored}
use amiga_dev.StringAsm.For68020.Bytes.{step}

-- At `pc` stands the loop.
abbrev pub IsStoreLoop : List Instr → ℕ → Type 0
IsStoreLoop code pc =
    (fetch code pc ≡ found (move byte (dn d0) (post a0)))
    × (fetch code (pc + 2) ≡ found (dbf d2 (back 4)))

byte_stored :
    (code : List Instr) (pc : ℕ) (s : Cpu) {P : Cpu → Type 0}
    → IsStoreLoop code pc
    → s.ra0 + 1 < 2 ^ 32
    → Returns code (pc + 2) (one_stored s s.rd2) P
    → Returns code pc s P
byte_stored code pc s (here, there) fits after =
    let low : s.rd0 % 2 ^ 8 % 2 ^ 8 ≡ s.rd0 % 2 ^ 8 = omega arith in
    let up : wrap (s.ra0 + 1) ≡ s.ra0 + 1 = omega arith in
    step code pc (pc + 2) (move byte (dn d0) (post a0)) s (one_stored s s.rd2) here
      (rw (low, up) refl) after

byte_counted :
    (code : List Instr) (pc : ℕ) (s : Cpu) (k : ℕ) {P : Cpu → Type 0}
    → IsStoreLoop code pc
    → s.rd2 ≡ suc k
    → suc k < 2 ^ 16
    → Returns code pc (record s { rd2 = k }) P
    → Returns code (pc + 2) s P
byte_counted code pc s k (here, there) e small after =
    step code (pc + 2) pc (dbf d2 (back 4)) s (record s { rd2 = k }) there (ground arith) after

byte_ended :
    (code : List Instr) (pc : ℕ) (s : Cpu) {P : Cpu → Type 0}
    → IsStoreLoop code pc
    → s.rd2 ≡ 0
    → Returns code (pc + 6) (record s { rd2 = 2 ^ 16 - 1 }) P
    → Returns code (pc + 2) s P
byte_ended code pc s (here, there) e after =
    step code (pc + 2) (pc + 6) (dbf d2 (back 4)) s (record s { rd2 = 2 ^ 16 - 1 }) there
      (ground arith) after

-- What storing `n` bytes leaves.
abbrev pub Stored : ℕ → Cpu → Cpu → Type 0
Stored n s t = (t.ra1 ≡ s.ra1) × (t.mem ≡ filled s.mem s.ra0 (s.rd0 % 2 ^ 8) n)

-- The loop stores one byte more than the low word of `d2` says.
pub store_loop :
    (code : List Instr) (pc k : ℕ) (s : Cpu) {P : Cpu → Type 0}
    → IsStoreLoop code pc
    → s.ra0 + suc k < 2 ^ 32
    → s.rd2 ≡ k
    → k < 2 ^ 16
    → ((t : Cpu) → Stored (suc k) s t → Returns code (pc + 6) t P)
    → Returns code pc s P
store_loop code pc zero s loop fits e small after =
    let v = s.rd0 % 2 ^ 8 in
    let t = record (one_stored s s.rd2) { rd2 = 2 ^ 16 - 1 } in
    let none_left = filled-zero (update s.mem s.ra0 v) (s.ra0 + 1) v in
    byte_stored code pc s loop fits (
      byte_ended code pc (one_stored s s.rd2) loop e
        (after t (refl, sym none_left ∙ filled-suc s.mem s.ra0 v 0)))
store_loop code pc (suc k) s loop fits e small after =
    let v = s.rd0 % 2 ^ 8 in
    let u = record (one_stored s s.rd2) { rd2 = k } in
    byte_stored code pc s loop (omega arith) (
      byte_counted code pc (one_stored s s.rd2) k loop e small (
        store_loop code pc k u loop (omega arith) refl (omega arith)
          (λ t (a, m). after t (a, m ∙ filled-suc s.mem s.ra0 v (suc k)))))
