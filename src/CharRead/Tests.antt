-- ===== src/CharRead/Tests.antt =====
-- The reader over a short connection: the theorem at a concrete input, and a run.
use amiga_dev.Common.{◌≡◌, refl, ◌^◌, ◌-◌, arith, List, [], ◌∷◌}
use amiga_dev.CharRead.{
  pos, negsuc, Received, got, closed, failed, CharRead, Reply, char, do_select, eof, error,
  init_char_read, refill, char_read, char_reads, Outcome, done, overflow,
}
use amiga_dev.CharRead.Stream.{Bounded, Gives, char_reads-replies}

abbrev any : CharRead
any = record { rc_fd = 9; rc_size = pos 4; rc_curr = 2; rc_buffer = λ p. 0 }

abbrev events : List Received
events = got 65 (66 ∷ []) ∷ failed ∷ got 67 [] ∷ closed ∷ []

events-Bounded : Bounded 0 events
unfolding Bounded
events-Bounded = (omega arith, (omega arith, (omega arith, (omega arith, tt))))

char_reads-replies_example :
    Gives
      (init_char_read any 3)
      events
      (char 65 ∷ char 66 ∷ do_select ∷ error ∷ char 67 ∷ do_select ∷ eof ∷ [])
      []
char_reads-replies_example = char_reads-replies events any 3 [] events-Bounded

abbrev replies_of : Outcome (List Reply × CharRead × List Received) → List Reply
replies_of (done (out, rc, ins)) = out
replies_of _ = []

reader_runs :
    replies_of (char_reads 4 (init_char_read any 3) events)
    ≡ char 65 ∷ char 66 ∷ do_select ∷ error ∷ []
unfolding char_reads char_read refill
reader_runs = refl

-- The counter at the largest `int`: one more call is undefined.
overflow_runs :
    char_reads 1 (record any { rc_size = negsuc 0; rc_curr = 2 ^ 31 - 1 }) (failed ∷ []) ≡ overflow
unfolding char_reads char_read
overflow_runs = refl
