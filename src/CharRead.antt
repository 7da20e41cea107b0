-- ===== src/CharRead.antt =====
-- The reader of single characters of targets/m68k-amigaos/netinclude/charread.h. `rc_Curr` is an `int`
-- of 32 bits, and an increment past its largest value, which C leaves undefined, ends the model.
pub mod Stream
mod Tests
use amiga_dev.Common.{
  ℕ, zero, suc, ◌^◌, Bool, true, false, Option, none, some, List, [], ◌∷◌, length, get_elem?, leb,
  ◌==◌, if◌then◌else◌,
}

-- A signed number: `pos n`, or `negsuc n` for -1 - n.
pub data ℤ : Type 0 where
  pos negsuc : ℕ → ℤ

-- What a call of `recv` does: it stores at least one byte, sees the end of the connection, or fails.
pub data Received : Type 0 where
  got : ℕ → List ℕ → Received
  closed failed : Received

pub record CharRead : Type 0 where
  pub rc_fd : ℕ
  pub rc_size : ℤ
  pub rc_curr : ℕ
  pub rc_buffer : ℕ → ℕ

-- A byte, or `RC_DO_SELECT`, `RC_EOF`, `RC_ERROR`.
pub data Reply : Type 0 where
  char : ℕ → Reply
  do_select eof error : Reply

-- `initCharRead`, which leaves the buffer alone.
abbrev pub init_char_read : CharRead → ℕ → CharRead
init_char_read rc fd = record rc { rc_fd = fd; rc_size = pos 0; rc_curr = 1 }

abbrev pub is_at_least : ℕ → ℤ → Bool
is_at_least n (pos m) = leb m n
is_at_least n (negsuc m) = true

abbrev pub is_equal : ℕ → ℤ → Bool
is_equal n (pos m) = n == m
is_equal n (negsuc m) = false

-- The buffer when `recv` has stored these bytes at its start.
abbrev pub store : List ℕ → (ℕ → ℕ) → ℕ → ℕ
store xs buffer p = elim (get_elem? xs p) [ none ↦ buffer p | some x ↦ x ]

-- The call of `recv` and what follows it.
unfoldable pub refill : CharRead → Received → Reply × CharRead
refill rc (got x xs) =
    let buffer = store (x ∷ xs) rc.rc_buffer in
    (
      char (buffer 0),
      record rc { rc_size = pos (suc (length xs)); rc_buffer = buffer; rc_curr = 1 },
    )
refill rc closed = (eof, record rc { rc_size = pos 0 })
refill rc failed = (error, record rc { rc_size = negsuc 0 })

-- The outcome of calls: a value, a call of `recv` that is not foreseen, or an overflow.
pub data Outcome (A : Type 0) : Type 0 where
  done : A → Outcome A
  unforeseen overflow : Outcome A

infixl 5 ◌>>=◌
abbrev pub ◌>>=◌ : {A B : Type 0} → Outcome A → (A → Outcome B) → Outcome B
done x >>= f = f x
unforeseen >>= f = unforeseen
overflow >>= f = overflow

abbrev receive : CharRead → List Received → Outcome (Reply × CharRead × List Received)
receive rc [] = unforeseen
receive rc (r ∷ ins) = let (reply, rc') = refill rc r in done (reply, rc', ins)

-- `rc_Curr++`, for an `int`.
abbrev pub advance : CharRead → Outcome CharRead
advance rc =
    if leb (2 ^ 31) (suc rc.rc_curr)
    then overflow
    else done (record rc { rc_curr = suc rc.rc_curr })

-- `charRead`, with what the calls of `recv` will do.
unfoldable pub char_read : CharRead → List Received → Outcome (Reply × CharRead × List Received)
char_read rc ins =
    if is_at_least rc.rc_curr rc.rc_size
    then (if is_equal rc.rc_curr rc.rc_size
        then advance rc >>= (λ rc'. done (do_select, rc', ins))
        else advance rc >>= (λ rc'. receive rc' ins))
    else advance rc >>= (λ rc'. done (char (rc.rc_buffer rc.rc_curr), rc', ins))

-- So many calls of `charRead`.
unfoldable pub char_reads :
    ℕ → CharRead → List Received → Outcome (List Reply × CharRead × List Received)
char_reads zero rc ins = done ([], rc, ins)
char_reads (suc n) rc ins = do
  (reply, rc, ins) ← char_read rc ins
  (replies, rc, ins) ← char_reads n rc ins
  done (reply ∷ replies, rc, ins)
