-- ===== src/CharRead/Stream.antt =====
-- The replies of `charRead` over a connection.
use amiga_dev.Common.{
  ℕ, suc, ◌+◌, ◌-◌, ◌^◌, ◌≤◌, ◌<◌, ◌≡◌, refl, ◌∙◌, ap, arith, true, false, List, [], ◌∷◌, ◌++◌, map,
  length, leb, le→leb, eq→==, ne→==,
}
use amiga_dev.CharRead.{
  pos, Received, got, closed, failed, CharRead, Reply, char, do_select, eof, error, init_char_read,
  is_at_least, is_equal, store, refill, char_read, char_reads, done, advance,
}

-- The replies to what one `recv` does, before further ones.
abbrev pub replies_to : Received → List Reply → List Reply
replies_to (got x xs) out = map char (x ∷ xs) ++ (do_select ∷ out)
replies_to closed out = eof ∷ out
replies_to failed out = error ∷ out

abbrev pub replies : List Received → List Reply
replies [] = []
replies (r ∷ rs) = replies_to r (replies rs)

-- The next call of `charRead` calls `recv`.
abbrev pub Refills : CharRead → Type 0
Refills rc = (is_at_least rc.rc_curr rc.rc_size ≡ true) × (is_equal rc.rc_curr rc.rc_size ≡ false)

-- The bytes from a place of the buffer on.
abbrev Buffered : (ℕ → ℕ) → ℕ → List ℕ → Type 0
Buffered buffer p [] = Unit
Buffered buffer p (y ∷ ys) = (buffer p ≡ y) × Buffered buffer (suc p) ys

-- Each call of `recv` stores at most the 1024 bytes that it is given room for, and fewer than
-- 2^31 - 1026 calls in a row store none; `k` is the number of those just before.
unfoldable pub Bounded : ℕ → List Received → Type 0
Bounded k [] = Unit
Bounded k (got x xs ∷ rs) = (length xs < 1024) × Bounded 0 rs
Bounded k (closed ∷ rs) = (suc k < 2 ^ 31 - 1026) × Bounded (suc k) rs
Bounded k (failed ∷ rs) = (suc k < 2 ^ 31 - 1026) × Bounded (suc k) rs

-- So many calls give these replies and leave the reader about to call `recv`.
abbrev pub Gives : CharRead → List Received → List Reply → List Received → Type 0
Gives rc ins out rest =
    (rc' : CharRead) × (char_reads (length out) rc ins ≡ done (out, rc', rest))
    × Refills rc'
    × (rc'.rc_fd ≡ rc.rc_fd)

Gives-prepend :
    (rc rc1 : CharRead) (ins ins1 rest : List Received) (r : Reply) (out : List Reply)
    → char_read rc ins ≡ done (r, rc1, ins1)
    → rc1.rc_fd ≡ rc.rc_fd
    → Gives rc1 ins1 out rest
    → Gives rc ins (r ∷ out) rest
unfolding char_reads
Gives-prepend rc rc1 ins ins1 rest r out e fd (rc', reads, refills, same) =
    (rc', rw (e, reads) refl, refills, same ∙ fd)

Gives-nothing : (rc : CharRead) (ins : List Received) → Refills rc → Gives rc ins [] ins
unfolding char_reads
Gives-nothing rc ins h = (rc, refl, h, refl)

below : (n k : ℕ) → leb (n + suc k) n ≡ false
below n k = ground arith

-- The reader behind a call that takes a byte from the buffer, or finds none left.
abbrev advanced : CharRead → CharRead
advanced rc = record rc { rc_curr = suc rc.rc_curr }

advance-advanced : (rc : CharRead) → suc rc.rc_curr < 2 ^ 31 → advance rc ≡ done (advanced rc)
advance-advanced rc fits = ground arith

read_buffered :
    (rc : CharRead) (ins : List Received)
    → suc rc.rc_curr < 2 ^ 31
    → is_at_least rc.rc_curr rc.rc_size ≡ false
    → char_read rc ins ≡ done (char (rc.rc_buffer rc.rc_curr), advanced rc, ins)
unfolding char_read
read_buffered rc ins fits e = rw (e, advance-advanced rc fits) refl

read_select :
    (rc : CharRead) (ins : List Received)
    → suc rc.rc_curr < 2 ^ 31
    → is_at_least rc.rc_curr rc.rc_size ≡ true
    → is_equal rc.rc_curr rc.rc_size ≡ true
    → char_read rc ins ≡ done (do_select, advanced rc, ins)
unfolding char_read
read_select rc ins fits e e' = rw (e, e', advance-advanced rc fits) refl

read_refill :
    (rc : CharRead) (r : Received) (ins : List Received)
    → suc rc.rc_curr < 2 ^ 31
    → Refills rc
    → char_read rc (r ∷ ins) ≡ done ((refill (advanced rc) r).0, (refill (advanced rc) r).1, ins)
unfolding char_read
read_refill rc r ins fits (e, e') = rw (e, e', advance-advanced rc fits) refl

-- What follows when the reader is about to call `recv`, its counter being at most `n`.
abbrev Then : ℕ → CharRead → List Received → List Reply → List Received → Type 0
Then n rc ins out rest =
    (rc' : CharRead) → Refills rc' → rc'.rc_curr ≤ n → rc'.rc_fd ≡ rc.rc_fd → Gives rc' ins out rest

drain :
    (ys : List ℕ) (rc : CharRead) (ins rest : List Received) (out : List Reply)
    → rc.rc_size ≡ pos (rc.rc_curr + length ys)
    → rc.rc_curr + length ys < 1025
    → Buffered rc.rc_buffer rc.rc_curr ys
    → Then 1025 rc ins out rest
    → Gives rc ins (map char ys ++ (do_select ∷ out)) rest
drain [] rc ins rest out e small h next =
    let n = rc.rc_curr in
    let least : is_at_least n rc.rc_size ≡ true = rw e (le→leb (n + 0) n (omega arith)) in
    let equal : is_equal n rc.rc_size ≡ true = rw e (eq→== n (n + 0) (omega arith)) in
    let least' : is_at_least (suc n) rc.rc_size ≡ true =
      rw e (le→leb (n + 0) (suc n) (omega arith)) in
    let unequal : is_equal (suc n) rc.rc_size ≡ false =
      rw e (ne→== (suc n) (n + 0) (λ q. omega arith)) in
    Gives-prepend rc (advanced rc) ins ins rest do_select out
      (read_select rc ins (omega arith) least equal) refl
      (next (advanced rc) (least', unequal) (omega arith) refl)
drain (y ∷ ys) rc ins rest out e small (b, h) next =
    let n = rc.rc_curr in
    let more : is_at_least n rc.rc_size ≡ false = rw e (below n (length ys)) in
    let e' : rc.rc_size ≡ pos (suc n + length ys) = e ∙ ap pos (omega arith) in
    Gives-prepend rc (advanced rc) ins ins rest (char y) (map char ys ++ (do_select ∷ out))
      (read_buffered rc ins (omega arith) more ∙ ap (λ (x : ℕ). done (char x, advanced rc, ins)) b)
      refl (drain ys (advanced rc) ins rest out e' (omega arith) h next)

store-Buffered_shift :
    (ys xs : List ℕ) (x p : ℕ) (buffer : ℕ → ℕ)
    → Buffered (store xs (λ q. buffer (suc q))) p ys
    → Buffered (store (x ∷ xs) buffer) (suc p) ys
store-Buffered_shift [] xs x p buffer h = tt
store-Buffered_shift (y ∷ ys) xs x p buffer (e, h) =
    (e, store-Buffered_shift ys xs x (suc p) buffer h)

store-Buffered : (xs : List ℕ) (buffer : ℕ → ℕ) → Buffered (store xs buffer) 0 xs
store-Buffered [] buffer = tt
store-Buffered (x ∷ xs) buffer =
    (refl, store-Buffered_shift xs xs x 0 buffer (store-Buffered xs (λ q. buffer (suc q))))

-- A call of `recv` that stores bytes, and the calls that take them.
after_got :
    (x : ℕ) (xs : List ℕ) (rc : CharRead) (ins rest : List Received) (out : List Reply)
    → Refills rc
    → suc rc.rc_curr < 2 ^ 31
    → length xs < 1024
    → Then 1025 rc ins out rest
    → Gives rc (got x xs ∷ ins) (replies_to (got x xs) out) rest
unfolding refill
after_got x xs rc ins rest out h fits room next =
    let rc1 = (refill (advanced rc) (got x xs)).1 in
    Gives-prepend rc rc1 (got x xs ∷ ins) ins rest (char x) (map char xs ++ (do_select ∷ out))
      (read_refill rc (got x xs) ins fits h) refl
      (drain xs rc1 ins rest out (ap pos (omega arith)) (omega arith)
        (store-Buffered (x ∷ xs) rc.rc_buffer).1 next)

after_closed :
    (rc : CharRead) (ins rest : List Received) (out : List Reply)
    → Refills rc
    → suc rc.rc_curr < 2 ^ 31
    → Then (suc rc.rc_curr) rc ins out rest
    → Gives rc (closed ∷ ins) (eof ∷ out) rest
unfolding refill
after_closed rc ins rest out h fits next =
    let rc1 = (refill (advanced rc) closed).1 in
    Gives-prepend rc rc1 (closed ∷ ins) ins rest eof out (read_refill rc closed ins fits h) refl (
      next rc1
        (le→leb 0 (suc rc.rc_curr) (omega arith), ne→== (suc rc.rc_curr) 0 (λ q. omega arith))
        (omega arith) refl)

after_failed :
    (rc : CharRead) (ins rest : List Received) (out : List Reply)
    → Refills rc
    → suc rc.rc_curr < 2 ^ 31
    → Then (suc rc.rc_curr) rc ins out rest
    → Gives rc (failed ∷ ins) (error ∷ out) rest
unfolding refill
after_failed rc ins rest out h fits next =
    let rc1 = (refill (advanced rc) failed).1 in
    Gives-prepend rc rc1 (failed ∷ ins) ins rest error out (read_refill rc failed ins fits h) refl
      (next rc1 (refl, refl) (omega arith) refl)

stream :
    (rs : List Received) (k : ℕ) (rc : CharRead) (ins : List Received)
    → Refills rc
    → rc.rc_curr ≤ k + 1025
    → k < 2 ^ 31 - 1026
    → Bounded k rs
    → Gives rc (rs ++ ins) (replies rs) ins
unfolding Bounded
stream [] k rc ins h low few b = Gives-nothing rc ins h
stream (got x xs ∷ rs) k rc ins h low few (room, b) =
    after_got x xs rc (rs ++ ins) ins (replies rs) h (omega arith) room
      (λ rc' h' low' fd. stream rs 0 rc' ins h' (omega arith) (omega arith) b)
stream (closed ∷ rs) k rc ins h low few (few', b) =
    after_closed rc (rs ++ ins) ins (replies rs) h (omega arith)
      (λ rc' h' low' fd. stream rs (suc k) rc' ins h' (omega arith) few' b)
stream (failed ∷ rs) k rc ins h low few (few', b) =
    after_failed rc (rs ++ ins) ins (replies rs) h (omega arith)
      (λ rc' h' low' fd. stream rs (suc k) rc' ins h' (omega arith) few' b)

-- If each call of `recv` stores at most the 1024 bytes it is given room for, and fewer than 2^31 - 1026
-- calls in a row store none, a fresh reader gives through `charRead` just the bytes received, in their
-- order and each once, `RC_DO_SELECT` behind the last byte of each call, `RC_EOF` for an end of the
-- connection and `RC_ERROR` for a failure, and its counter does not overflow; it then is about to
-- call `recv` again, on the same descriptor, and has called it exactly as often as those replies need.
pub char_reads-replies :
    (rs : List Received) (rc : CharRead) (fd : ℕ) (ins : List Received)
    → Bounded 0 rs
    → Gives (init_char_read rc fd) (rs ++ ins) (replies rs) ins
char_reads-replies rs rc fd ins b =
    stream rs 0 (init_char_read rc fd) ins (refl, refl) (omega arith) (omega arith) b
