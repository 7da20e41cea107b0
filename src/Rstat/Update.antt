-- ===== src/Rstat/Update.antt =====
-- `updatestat` of rstat_proc.c: what the three replies show behind it.
use amiga_dev.Common.{ℕ, ◌%◌, ◌^◌, ◌≡◌, refl, true, some, List, length}
use amiga_dev.Rstat.{
  Symbol, x_cptime, x_sum, x_dkxfer, x_boottime, x_avenrun, x_hz, Four, Timeval, Vmmeter, Ifnet,
  Kernel, Words, Service, ok, poke_four, poke_time, poke_sum, clear_counters, sub32, ticks,
  updatestat, at_s2_boottime, at_s3_curtime, at_s3_if_opackets,
}
use amiga_dev.Rstat.Replies.{Common, common_of, s1, s2, s3}
use amiga_dev.Rstat.Chain.{Chain, total, tally, sum_interfaces-tally, tally-same, tally-cleared}

-- The values that the kernel holds.
pub record Values : Type 0 where
  pub hz : ℕ
  pub cp_time : Four
  pub boottime : Timeval
  pub sum : Vmmeter
  pub dk_xfer : Four
  pub interfaces : List Ifnet

-- With the addresses that the service has looked up, the kernel gives these values.
pub record Holds (k : Kernel) (s : Service) (v : Values) : Type 0 where
  pub seeks : (x : Symbol) → k.seeks (s.nl x) ≡ true
  pub hz : k.int_at (s.nl x_hz) ≡ some v.hz
  pub cp_time : k.four_at (s.nl x_cptime) ≡ some v.cp_time
  pub boottime : k.timeval_at (s.nl x_boottime) ≡ some v.boottime
  pub sum : k.vmmeter_at (s.nl x_sum) ≡ some v.sum
  pub dk_xfer : k.four_at (s.nl x_dkxfer) ≡ some v.dk_xfer
  pub chain : Chain k s.firstifnet v.interfaces
  pub counted : s.numintfs ≡ length v.interfaces

-- The words of the union before the loop, and at the end.
abbrev before_loop : Kernel → Values → Words → Words
before_loop k v w = clear_counters (
    poke_four
      (poke_sum (poke_time (poke_four w 0 v.cp_time) at_s2_boottime v.boottime) v.hz k.now
        v.boottime v.sum)
      4 v.dk_xfer)

abbrev updated : Kernel → Values → Words → Words
updated k v w = poke_time (tally v.interfaces (before_loop k v w)) at_s3_curtime k.later

updatestat-updated :
    (k : Kernel) (s : Service) (v : Values)
    → Holds k s v
    → updatestat k s ≡ ok (record s { stats_all = updated k v s.stats_all })
unfolding updatestat
updatestat-updated k s v h =
    rw
      (
        h.seeks x_hz,
        h.hz,
        h.seeks x_cptime,
        h.cp_time,
        h.seeks x_avenrun,
        h.seeks x_boottime,
        h.boottime,
        h.seeks x_sum,
        h.sum,
        h.seeks x_dkxfer,
        h.dk_xfer,
        h.counted,
        sum_interfaces-tally k v.interfaces s.firstifnet (before_loop k v s.stats_all) h.chain,
      )
      refl

-- The total of a counter over the interfaces, as a word.
abbrev pub word_total : (Ifnet → ℕ) → List Ifnet → ℕ
word_total g l = total g l % 2 ^ 32

-- The part that all replies share, from the values alone.
abbrev pub expected : Kernel → Values → Common
expected k v = record {
  cp_time = v.cp_time;
  dk_xfer = v.dk_xfer;
  v_pgpgin = v.sum.v_pgpgin;
  v_pgpgout = v.sum.v_pgpgout;
  v_pswpin = v.sum.v_pswpin;
  v_pswpout = v.sum.v_pswpout;
  v_intr = sub32 v.sum.v_intr (ticks v.hz k.now v.boottime);
  if_ipackets = word_total (λ f. f.if_ipackets) v.interfaces;
  if_ierrors = word_total (λ f. f.if_ierrors) v.interfaces;
  if_oerrors = word_total (λ f. f.if_oerrors) v.interfaces;
  if_collisions = word_total (λ f. f.if_collisions) v.interfaces;
}

updated-common : (k : Kernel) (v : Values) (w : Words) → common_of (updated k v w) ≡ expected k v
updated-common k v w =
    let l = v.interfaces in
    let b = before_loop k v w in
    rw
      (
        tally-same 0 (λ w f. refl) l b,
        tally-same 1 (λ w f. refl) l b,
        tally-same 2 (λ w f. refl) l b,
        tally-same 3 (λ w f. refl) l b,
        tally-same 4 (λ w f. refl) l b,
        tally-same 5 (λ w f. refl) l b,
        tally-same 6 (λ w f. refl) l b,
        tally-same 7 (λ w f. refl) l b,
        tally-same 8 (λ w f. refl) l b,
        tally-same 9 (λ w f. refl) l b,
        tally-same 10 (λ w f. refl) l b,
        tally-same 11 (λ w f. refl) l b,
        tally-same 12 (λ w f. refl) l b,
        tally-cleared 13 (λ f. f.if_ipackets) (λ w f. refl) l b refl,
        tally-cleared 14 (λ f. f.if_ierrors) (λ w f. refl) l b refl,
        tally-cleared 15 (λ f. f.if_oerrors) (λ w f. refl) l b refl,
        tally-cleared 16 (λ f. f.if_collisions) (λ w f. refl) l b refl,
      )
      refl

updated-opackets :
    (k : Kernel) (v : Values) (w : Words)
    → updated k v w 17 ≡ word_total (λ f. f.if_opackets) v.interfaces
updated-opackets k v w =
    tally-cleared 17 (λ f. f.if_opackets) (λ w f. refl) v.interfaces (before_loop k v w) refl

-- What the replies show behind an update.
pub record Shows (k : Kernel) (v : Values) (old new : Words) : Type 0 where
  pub version_1 :
      s1 new
      ≡ record { common = expected k v; if_opackets = word_total (λ f. f.if_opackets) v.interfaces }
  pub version_2 : s2 new ≡ record {
    common = expected k v;
    v_swtch = word_total (λ f. f.if_opackets) v.interfaces;
    avenrun = (old 18, old 19, old 20);
    boottime = v.boottime;
    if_opackets = k.later.tv_sec;
  }
  pub version_3 : s3 new ≡ record {
    common = expected k v;
    v_swtch = word_total (λ f. f.if_opackets) v.interfaces;
    avenrun = (old 18, old 19, old 20);
    boottime = v.boottime;
    curtime = k.later;
    if_opackets = old at_s3_if_opackets;
  }

updated-Shows : (k : Kernel) (v : Values) (w : Words) → Shows k v w (updated k v w)
updated-Shows k v w =
    let l = v.interfaces in
    let b = before_loop k v w in
    let e = updated-common k v w in
    let o = updated-opackets k v w in
    let a18 = tally-same 18 (λ w f. refl) l b in
    let a19 = tally-same 19 (λ w f. refl) l b in
    let a20 = tally-same 20 (λ w f. refl) l b in
    let t21 = tally-same 21 (λ w f. refl) l b in
    let t22 = tally-same 22 (λ w f. refl) l b in
    let p25 = tally-same 25 (λ w f. refl) l b in
    record {
      version_1 = rw (e, o) refl;
      version_2 = rw (e, o, a18, a19, a20, t21, t22) refl;
      version_3 = rw (e, o, a18, a19, a20, t21, t22, p25) refl;
    }

-- When the kernel holds the values and the service has counted the chain of interfaces, `updatestat`
-- succeeds and changes nothing but the union. The version 1 reply then has every field right: the
-- kernel's values, the interrupts less the clock ticks, and each counter summed over all
-- interfaces. The replies of versions 2 and 3 share those fields and the boot time, but show the
-- sum of output packets as `v_swtch`, whatever the kernel's count of switches is; as their own
-- `if_opackets`, version 2 shows the seconds of the current time and version 3 an old word; the
-- load averages stay as they were.
pub updatestat-Shows :
    (k : Kernel) (s : Service) (v : Values)
    → Holds k s v
    → (w : Words) × (updatestat k s ≡ ok (record s { stats_all = w })) × Shows k v s.stats_all w
updatestat-Shows k s v h =
    (updated k v s.stats_all, updatestat-updated k s v h, updated-Shows k v s.stats_all)
