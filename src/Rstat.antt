-- ===== src/Rstat.antt =====
-- The statistics service of targets/m68k-amigaos/netinclude/rpcsvc/rstat_proc.c, with the replies
-- of rstat.x beside it.
pub mod Replies
pub mod Chain
pub mod Update
pub mod Setup
pub mod Disk
pub mod Ticks
pub mod Outcomes
pub mod Opened
pub mod History
mod Tests
use amiga_dev.Common.{
  ℕ, zero, suc, ◌+◌, ◌-◌, ◌*◌, ◌/◌, ◌%◌, ◌^◌, Bool, true, false, Option, none, some, ltb, ◌==◌,
  if◌then◌else◌,
}

-- The names looked up in the kernel, in the order of `nl`.
pub data Symbol : Type 0 where
  x_cptime x_sum x_ifnet x_dkxfer x_boottime x_avenrun x_hz : Symbol

-- Four 32-bit words: `CPUSTATES` and `DK_NDRIVE` are 4.
pub record Four : Type 0 where
  pub w0 : ℕ
  pub w1 : ℕ
  pub w2 : ℕ
  pub w3 : ℕ

pub record Timeval : Type 0 where
  pub tv_sec : ℕ
  pub tv_usec : ℕ

-- The fields of the kernel's `struct vmmeter` that the service reads.
pub record Vmmeter : Type 0 where
  pub v_pgpgin : ℕ
  pub v_pgpgout : ℕ
  pub v_pswpin : ℕ
  pub v_pswpout : ℕ
  pub v_intr : ℕ
  pub v_swtch : ℕ

-- The fields of the kernel's `struct ifnet` that the service reads.
pub record Ifnet : Type 0 where
  pub if_ipackets : ℕ
  pub if_opackets : ℕ
  pub if_ierrors : ℕ
  pub if_oerrors : ℕ
  pub if_collisions : ℕ
  pub if_next : ℕ

-- What the system calls give: `nlist`, `open`, `lseek`, a complete `read` of each type at an
-- address, and the two calls of `gettimeofday` in an update.
pub record Kernel : Type 0 where
  pub n_value : Symbol → ℕ
  pub opens : Bool
  pub seeks : ℕ → Bool
  pub int_at : ℕ → Option ℕ
  pub four_at : ℕ → Option Four
  pub timeval_at : ℕ → Option Timeval
  pub vmmeter_at : ℕ → Option Vmmeter
  pub ifnet_at : ℕ → Option Ifnet
  pub now : Timeval
  pub later : Timeval

-- The words of `stats_all`, which its three members share.
abbrev pub Words : Type 0
Words = ℕ → ℕ

abbrev pub poke : Words → ℕ → ℕ → Words
poke w p v q = if q == p then v else w q

-- The global variables. `opened` counts the descriptors of /dev/kmem that are open. `numintfs`, an
-- `int` that counts up from 0, is below 2^31: the address space has no room for more interfaces.
pub record Service : Type 0 where
  pub nl : Symbol → ℕ
  pub opened : ℕ
  pub firstifnet : ℕ
  pub numintfs : ℕ
  pub sincelastreq : ℕ
  pub stat_is_init : Bool
  pub stats_all : Words
  pub have : ℕ

-- Why the process has exited.
pub data Failure : Type 0 where
  missing cant_open cant_seek cant_read_firstifnet : Failure
  cant_read : Symbol → Failure

pub data Result (A : Type 0) : Type 0 where
  ok : A → Result A
  exit : Failure → Result A
  out_of_fuel : Result A

infixl 5 ◌>>=◌
abbrev pub ◌>>=◌ : {A B : Type 0} → Result A → (A → Result B) → Result B
ok x >>= f = f x
exit e >>= f = exit e
out_of_fuel >>= f = out_of_fuel

abbrev pub complete : {A : Type 0} → Failure → Option A → Result A
complete e none = exit e
complete e (some x) = ok x

-- `lseek` and then `read`.
abbrev pub read_at : {A : Type 0} → Kernel → ℕ → Failure → Option A → Result A
read_at k off e o = if k.seeks off then complete e o else exit cant_seek

-- Where the fields stand in the union, in words: of all members, of s1, of s2 and s3, of s2, of s3.
abbrev pub at_v_pgpgin : ℕ
at_v_pgpgin = 8

abbrev pub at_if_ipackets : ℕ
at_if_ipackets = 13

abbrev pub at_s1_if_opackets : ℕ
at_s1_if_opackets = 17

abbrev pub at_s2_v_swtch : ℕ
at_s2_v_swtch = 17

abbrev pub at_s2_boottime : ℕ
at_s2_boottime = 21

abbrev pub at_s2_if_opackets : ℕ
at_s2_if_opackets = 23

abbrev pub at_s3_curtime : ℕ
at_s3_curtime = 23

abbrev pub at_s3_if_opackets : ℕ
at_s3_if_opackets = 25

abbrev pub poke_four : Words → ℕ → Four → Words
poke_four w p f = poke (poke (poke (poke w p f.w0) (p + 1) f.w1) (p + 2) f.w2) (p + 3) f.w3

-- A `struct timeval` from a word on.
abbrev pub poke_time : Words → ℕ → Timeval → Words
poke_time w p t = poke (poke w p t.tv_sec) (p + 1) t.tv_usec

abbrev pub add32 : ℕ → ℕ → ℕ
add32 x y = (x + y) % 2 ^ 32

abbrev pub sub32 : ℕ → ℕ → ℕ
sub32 x y = (x + 2 ^ 32 - y % 2 ^ 32) % 2 ^ 32

-- The division of a signed word, towards zero.
abbrev pub div32 : ℕ → ℕ → ℕ
div32 x k = if ltb x (2 ^ 31) then x / k else sub32 0 ((2 ^ 32 - x) / k)

-- The clock ticks from the boot to now.
abbrev pub ticks : ℕ → Timeval → Timeval → ℕ
ticks hz tm btm =
    add32 (hz * sub32 tm.tv_sec btm.tv_sec)
      (div32 (hz * sub32 tm.tv_usec btm.tv_usec % 2 ^ 32) 1000000)

abbrev pub poke_sum : Words → ℕ → Timeval → Timeval → Vmmeter → Words
poke_sum w hz tm btm v =
    let w = poke w at_v_pgpgin v.v_pgpgin in
    let w = poke w (at_v_pgpgin + 1) v.v_pgpgout in
    let w = poke w (at_v_pgpgin + 2) v.v_pswpin in
    let w = poke w (at_v_pgpgin + 3) v.v_pswpout in
    let w = poke w (at_v_pgpgin + 4) (sub32 v.v_intr (ticks hz tm btm)) in
    poke w at_s2_v_swtch v.v_swtch

abbrev pub clear_counters : Words → Words
clear_counters w =
    let w = poke w at_if_ipackets 0 in
    let w = poke w at_s1_if_opackets 0 in
    let w = poke w (at_if_ipackets + 1) 0 in
    let w = poke w (at_if_ipackets + 2) 0 in poke w (at_if_ipackets + 3) 0

abbrev pub add_counter : Words → ℕ → ℕ → Words
add_counter w p x = poke w p (add32 (w p) x)

abbrev pub add_counters : Words → Ifnet → Words
add_counters w f =
    let w = add_counter w at_if_ipackets f.if_ipackets in
    let w = add_counter w at_s1_if_opackets f.if_opackets in
    let w = add_counter w (at_if_ipackets + 1) f.if_ierrors in
    let w = add_counter w (at_if_ipackets + 2) f.if_oerrors in
    add_counter w (at_if_ipackets + 3) f.if_collisions

-- The loop over the interfaces, at most `numintfs` of them.
unfoldable pub sum_interfaces : Kernel → ℕ → ℕ → Words → Result Words
sum_interfaces k zero off w = ok w
sum_interfaces k (suc n) off w =
    if off == 0
    then ok w
    else read_at k off (cant_read x_ifnet) (k.ifnet_at off)
      >>= (λ f. sum_interfaces k n f.if_next (add_counters w f))

-- `updatestat`, built without `vax` and `EXIT_WHEN_IDLE`.
unfoldable pub updatestat : Kernel → Service → Result Service
updatestat k s = do
  hz ← read_at k (s.nl x_hz) (cant_read x_hz) (k.int_at (s.nl x_hz))
  cp ← read_at k (s.nl x_cptime) (cant_read x_cptime) (k.four_at (s.nl x_cptime))
  u ← read_at k (s.nl x_avenrun) cant_seek (some true)
  btm ← read_at k (s.nl x_boottime) (cant_read x_boottime) (k.timeval_at (s.nl x_boottime))
  v ← read_at k (s.nl x_sum) (cant_read x_sum) (k.vmmeter_at (s.nl x_sum))
  dk ← read_at k (s.nl x_dkxfer) (cant_read x_dkxfer) (k.four_at (s.nl x_dkxfer))
  let w = poke_time (poke_four s.stats_all 0 cp) at_s2_boottime btm
  let w = clear_counters (poke_four (poke_sum w hz k.now btm v) 4 dk)
  w ← sum_interfaces k s.numintfs s.firstifnet w
  ok (record s { stats_all = poke_time w at_s3_curtime k.later })

-- The loop that counts the interfaces.
unfoldable pub count_interfaces : Kernel → ℕ → ℕ → ℕ → Result ℕ
count_interfaces k zero off n = out_of_fuel
count_interfaces k (suc fuel) off n =
    if off == 0
    then ok n
    else read_at k off (cant_read x_ifnet) (k.ifnet_at off)
      >>= (λ f. count_interfaces k fuel f.if_next (add32 n 1))

-- `nlist` and the `open` of /dev/kmem, for a symbol that has to be there.
abbrev pub open_kmem : Kernel → Symbol → Service → Result Service
open_kmem k x s =
    if k.n_value x == 0
    then exit missing
    else if k.opens
    then ok (record s { nl = k.n_value; opened = s.opened + 1 })
    else exit cant_open

unfoldable pub setup : Kernel → ℕ → Service → Result Service
setup k fuel s = do
  s ← open_kmem k x_cptime s
  first ← read_at k (s.nl x_ifnet) cant_read_firstifnet (k.int_at (s.nl x_ifnet))
  n ← count_interfaces k fuel first 0
  ok (record s { firstifnet = first; numintfs = n })

-- The wake-up that `sleep(1)` allows for: an update with the kernel of that time, if it comes.
abbrev pub wake_up : Option Kernel → Service → Result Service
wake_up none s = ok s
wake_up (some k) s = updatestat k s

unfoldable pub stat_init : Kernel → Option Kernel → ℕ → Service → Result Service
stat_init k woken fuel s = do
  s ← setup k fuel (record s { stat_is_init = true })
  s ← updatestat k s
  wake_up woken s

-- What all the procedures do first.
unfoldable pub ready : Kernel → Option Kernel → ℕ → Service → Result Service
ready k woken fuel s = do
  s ← if s.stat_is_init then ok s else stat_init k woken fuel s
  ok (record s { sincelastreq = 0 })

unfoldable pub havedisk : Kernel → Service → Result (ℕ × Service)
havedisk k s = do
  s ← open_kmem k x_dkxfer s
  x ← read_at k (s.nl x_dkxfer) (cant_read x_dkxfer) (k.four_at (s.nl x_dkxfer))
  let cnt = add32 (add32 (add32 (add32 0 x.w0) x.w1) x.w2) x.w3
  ok (if cnt == 0 then 0 else 1, s)

unfoldable pub rstatproc_havedisk_3 : Kernel → Option Kernel → ℕ → Service → Result (ℕ × Service)
rstatproc_havedisk_3 k woken fuel s = do
  s ← ready k woken fuel s
  (have, s) ← havedisk k s
  ok (have, record s { have = have })
