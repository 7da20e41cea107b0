-- ===== src/Rstat/Tests.antt =====
-- The service with a kernel of two interfaces: the theorems at concrete inputs, and runs.
use amiga_dev.Common.{
  ℕ, ◌-◌, ◌≡◌, ◌≢◌, ◌↔◌, refl, arith, true, false, none, some, [], ◌∷◌, ◌==◌, if◌then◌else◌,
}
use amiga_dev.Rstat.{
  Symbol, x_cptime, x_sum, x_ifnet, x_dkxfer, x_boottime, x_avenrun, x_hz, Four, Timeval, Vmmeter,
  Ifnet, Kernel, Words, Service, Result, ok, exit, cant_open, out_of_fuel, updatestat,
  sum_interfaces, setup, ready, havedisk, rstatproc_havedisk_3, ticks,
}
use amiga_dev.Rstat.Update.{Values, Holds, Shows, updatestat-Shows}
use amiga_dev.Rstat.Setup.{after_setup, started, Starts, ready-first, IsEndless, setup-endless}
use amiga_dev.Rstat.Replies.{s3, rstatproc_stats_3}
use amiga_dev.Rstat.Outcomes.{Readable, updatestat-Readable}
use amiga_dev.Rstat.History.{Step, stats_3, here, next, IsSound, Grows, Reach-IsSound}
use amiga_dev.Rstat.Ticks.{micros, Near, Fits, ticks-Near}
use amiga_dev.Rstat.Disk.{Answers, rstatproc_havedisk_3-Answers}

abbrev four : Four
four = record { w0 = 1; w1 = 2; w2 = 3; w3 = 4 }

abbrev counters : Vmmeter
counters = record {
  v_pgpgin = 5;
  v_pgpgout = 6;
  v_pswpin = 7;
  v_pswpout = 8;
  v_intr = 900000;
  v_swtch = 77;
}

abbrev boot : Timeval
boot = record { tv_sec = 1000; tv_usec = 0 }

abbrev second : Ifnet
second = record {
  if_ipackets = 10;
  if_opackets = 20;
  if_ierrors = 1;
  if_oerrors = 2;
  if_collisions = 3;
  if_next = 0;
}

abbrev first : Ifnet
first = record second { if_opackets = 30; if_next = 200 }

abbrev place : Symbol → ℕ
place x_cptime = 8
place x_sum = 16
place x_ifnet = 24
place x_dkxfer = 32
place x_boottime = 40
place x_avenrun = 48
place x_hz = 56

abbrev kernel : Kernel
kernel = record {
  n_value = place;
  opens = true;
  seeks = λ off. true;
  int_at = λ off. if off == 24 then some 100 else if off == 56 then some 50 else none;
  four_at = λ off. some four;
  timeval_at = λ off. some boot;
  vmmeter_at = λ off. some counters;
  ifnet_at = λ off. if off == 100 then some first else some second;
  now = record { tv_sec = 1010; tv_usec = 500000 };
  later = record { tv_sec = 1011; tv_usec = 0 };
}

abbrev fresh : Service
fresh = record {
  nl = λ x. 0;
  opened = 0;
  firstifnet = 0;
  numintfs = 0;
  sincelastreq = 3;
  stat_is_init = false;
  stats_all = λ p. 0;
  have = 0;
}

abbrev values : Values
values = record {
  hz = 50;
  cp_time = four;
  boottime = boot;
  sum = counters;
  dk_xfer = four;
  interfaces = first ∷ second ∷ [];
}

abbrev set_up : Service
set_up = after_setup kernel 100 2 fresh

set_up-Holds : Holds kernel set_up values
set_up-Holds = record {
  seeks = λ x. refl;
  hz = refl;
  cp_time = refl;
  boottime = refl;
  sum = refl;
  dk_xfer = refl;
  chain = (refl, refl, refl, (refl, refl, refl, refl));
  counted = refl;
}

updatestat-Shows_example :
    (w : Words) × (updatestat kernel set_up ≡ ok (record set_up { stats_all = w }))
    × Shows kernel values set_up.stats_all w
updatestat-Shows_example = updatestat-Shows kernel set_up values set_up-Holds

kernel-Starts : Starts kernel 100 2
kernel-Starts = record {
  found = refl;
  opens = refl;
  seeks = refl;
  first_read = refl;
  few = omega arith;
}

ready-first_example :
    (w : Words) × (ready kernel none 3 fresh ≡ ok (started kernel 100 2 fresh w))
    × Shows kernel values fresh.stats_all w
ready-first_example = ready-first kernel fresh values 100 refl kernel-Starts set_up-Holds

abbrev running : Service
running = record set_up { stat_is_init = true }

-- The service behind that request.
abbrev asked : Service
asked = record running { nl = place; opened = 2; sincelastreq = 0; have = 1 }

rstatproc_havedisk_3-Answers_example :
    (rstatproc_havedisk_3 kernel none 0 running ≡ ok (1, asked))
    ↔ Answers kernel none 0 running 1 asked
rstatproc_havedisk_3-Answers_example = rstatproc_havedisk_3-Answers kernel none 0 running 1 asked

havedisk_runs : rstatproc_havedisk_3 kernel none 0 running ≡ ok (1, asked)
unfolding rstatproc_havedisk_3 havedisk ready
havedisk_runs = refl

abbrev word_of : Result Service → ℕ → ℕ
word_of (ok s) p = s.stats_all p
word_of (exit e) p = 0
word_of out_of_fuel p = 0

-- The kernel counts 77 switches; the word shows 50, the output packets.
swtch_runs : word_of (updatestat kernel set_up) 17 ≡ 50
unfolding updatestat sum_interfaces
swtch_runs = refl

intr_runs : word_of (updatestat kernel set_up) 12 ≡ 899475
unfolding updatestat sum_interfaces
intr_runs = refl

cant_open_runs : setup (record kernel { opens = false }) 3 fresh ≡ exit cant_open
unfolding setup
cant_open_runs = refl

abbrev now : Timeval
now = record { tv_sec = 1010; tv_usec = 500000 }

now-Fits : Fits 50 now boot
now-Fits = record {
  runs = omega arith;
  rate = omega arith;
  now_sec = omega arith;
  now_usec = omega arith;
  boot_usec = omega arith;
  booted = omega arith;
  seconds = omega arith;
}

ticks-Near_example : Near (ticks 50 now boot) 50 (micros now - micros boot)
ticks-Near_example = ticks-Near 50 now boot now-Fits

updatestat-Readable_example :
    (updatestat kernel set_up ≢ out_of_fuel)
    × (((t : Service) × (updatestat kernel set_up ≡ ok t)) ↔ Readable kernel set_up)
updatestat-Readable_example = updatestat-Readable kernel set_up

-- The words behind the first request, and that request as a step.
abbrev first_words : Words
first_words = (ready-first kernel fresh values 100 refl kernel-Starts set_up-Holds).0

abbrev requested : Service
requested = started kernel 100 2 fresh first_words

first_request : Step place fresh requested
unfolding rstatproc_stats_3
first_request =
    let (w, e, shows) = ready-first kernel fresh values 100 refl kernel-Starts set_up-Holds in
    stats_3 {reply = s3 w} kernel none 3 refl (rw e refl)

Reach-IsSound_example : IsSound place requested × Grows fresh requested
Reach-IsSound_example = Reach-IsSound place (next here first_request) refl

-- An interface that leads to itself.
abbrev ring : Kernel
ring = record kernel { ifnet_at = λ off. some (record first { if_next = 100 }) }

ring-Starts : Starts ring 100 0
ring-Starts = record {
  found = refl;
  opens = refl;
  seeks = refl;
  first_read = refl;
  few = omega arith;
}

ring-IsEndless : IsEndless ring 100
ring-IsEndless = record {
  place = λ i. 100;
  starts = refl;
  not_last = λ i. refl;
  seeks = λ i. refl;
  interface = λ i. record first { if_next = 100 };
  read = λ i. refl;
  linked = λ i. refl;
}

setup-endless_example : setup ring 1000 fresh ≡ out_of_fuel
setup-endless_example = setup-endless ring fresh 100 0 1000 ring-Starts ring-IsEndless
