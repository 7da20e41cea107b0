-- ===== src/Rstat/Replies.antt =====
-- The replies of rstat.x, as the three members of the union show its words, and the procedures of
-- rstat_proc.c that return them.
use amiga_dev.Common.{ℕ, ◌+◌, Option}
use amiga_dev.Rstat.{
  Four, Timeval, Words, Kernel, Service, Result, ok, ready, ◌>>=◌, at_v_pgpgin, at_if_ipackets,
  at_s1_if_opackets, at_s2_v_swtch, at_s2_boottime, at_s2_if_opackets, at_s3_curtime,
  at_s3_if_opackets,
}

abbrev pub peek_four : Words → ℕ → Four
peek_four w p = record { w0 = w p; w1 = w (p + 1); w2 = w (p + 2); w3 = w (p + 3) }

abbrev pub peek_time : Words → ℕ → Timeval
peek_time w p = record { tv_sec = w p; tv_usec = w (p + 1) }

-- The fields that the three replies have at the same places.
pub record Common : Type 0 where
  pub cp_time : Four
  pub dk_xfer : Four
  pub v_pgpgin : ℕ
  pub v_pgpgout : ℕ
  pub v_pswpin : ℕ
  pub v_pswpout : ℕ
  pub v_intr : ℕ
  pub if_ipackets : ℕ
  pub if_ierrors : ℕ
  pub if_oerrors : ℕ
  pub if_collisions : ℕ

pub record Stats : Type 0 where
  pub common : Common
  pub if_opackets : ℕ

pub record Statsswtch : Type 0 where
  pub common : Common
  pub v_swtch : ℕ
  pub avenrun : ℕ × ℕ × ℕ
  pub boottime : Timeval
  pub if_opackets : ℕ

pub record Statstime : Type 0 where
  pub common : Common
  pub v_swtch : ℕ
  pub avenrun : ℕ × ℕ × ℕ
  pub boottime : Timeval
  pub curtime : Timeval
  pub if_opackets : ℕ

abbrev pub common_of : Words → Common
common_of w = record {
  cp_time = peek_four w 0;
  dk_xfer = peek_four w 4;
  v_pgpgin = w at_v_pgpgin;
  v_pgpgout = w (at_v_pgpgin + 1);
  v_pswpin = w (at_v_pgpgin + 2);
  v_pswpout = w (at_v_pgpgin + 3);
  v_intr = w (at_v_pgpgin + 4);
  if_ipackets = w at_if_ipackets;
  if_ierrors = w (at_if_ipackets + 1);
  if_oerrors = w (at_if_ipackets + 2);
  if_collisions = w (at_if_ipackets + 3);
}

abbrev pub s1 : Words → Stats
s1 w = record { common = common_of w; if_opackets = w at_s1_if_opackets }

abbrev pub s2 : Words → Statsswtch
s2 w = record {
  common = common_of w;
  v_swtch = w at_s2_v_swtch;
  avenrun = (w 18, w 19, w 20);
  boottime = peek_time w at_s2_boottime;
  if_opackets = w at_s2_if_opackets;
}

abbrev pub s3 : Words → Statstime
s3 w = record {
  common = common_of w;
  v_swtch = w at_s2_v_swtch;
  avenrun = (w 18, w 19, w 20);
  boottime = peek_time w at_s2_boottime;
  curtime = peek_time w at_s3_curtime;
  if_opackets = w at_s3_if_opackets;
}

unfoldable pub rstatproc_stats_3 :
    Kernel → Option Kernel → ℕ → Service → Result (Statstime × Service)
rstatproc_stats_3 k woken fuel s = do s ← ready k woken fuel s; ok (s3 s.stats_all, s)

unfoldable pub rstatproc_stats_2 :
    Kernel → Option Kernel → ℕ → Service → Result (Statsswtch × Service)
rstatproc_stats_2 k woken fuel s = do s ← ready k woken fuel s; ok (s2 s.stats_all, s)

unfoldable pub rstatproc_stats_1 : Kernel → Option Kernel → ℕ → Service → Result (Stats × Service)
rstatproc_stats_1 k woken fuel s = do s ← ready k woken fuel s; ok (s1 s.stats_all, s)
