-- ===== src/Rstat/Setup.antt =====
-- `setup` and `stat_init` of rstat_proc.c, and the first request.
use amiga_dev.Common.{
  ℕ, suc, ◌+◌, ◌^◌, ◌<◌, ◌≡◌, refl, ◌∙◌, ap, arith, true, false, none, some, length, ◌==◌, zero,
}
use amiga_dev.Rstat.{
  x_cptime, x_ifnet, Kernel, Words, Service, Ifnet, add32, out_of_fuel, ok, count_interfaces, setup,
  stat_init, ready,
}
use amiga_dev.Rstat.Chain.{Chain, count_interfaces-length}
use amiga_dev.Rstat.Update.{Values, Holds, Shows, updatestat-Shows}

-- The service when `setup` is over.
abbrev pub after_setup : Kernel → ℕ → ℕ → Service → Service
after_setup k first n s = record s {
  nl = k.n_value;
  opened = s.opened + 1;
  firstifnet = first;
  numintfs = n;
}

-- The kernel has the symbols and a chain of fewer than 2^32 interfaces from `first`.
pub record Starts (k : Kernel) (first n : ℕ) : Type 0 where
  pub found : (k.n_value x_cptime == 0) ≡ false
  pub opens : k.opens ≡ true
  pub seeks : k.seeks (k.n_value x_ifnet) ≡ true
  pub first_read : k.int_at (k.n_value x_ifnet) ≡ some first
  pub few : n < 2 ^ 32

setup-after_setup :
    (k : Kernel) (s : Service) (v : Values) (first : ℕ)
    → Starts k first (length v.interfaces)
    → Chain k first v.interfaces
    → setup k (suc (length v.interfaces)) s ≡ ok (after_setup k first (length v.interfaces) s)
unfolding setup count_interfaces
setup-after_setup k s v first h c =
    let few = h.few in
    let counted =
      count_interfaces-length k v.interfaces first 0 c (omega arith) ∙ ap ok (omega arith) in
    rw (h.found, h.opens, h.seeks, h.first_read, counted) refl

-- The service behind its first request, with these words.
abbrev pub started : Kernel → ℕ → ℕ → Service → Words → Service
started k first n s w = record (after_setup k first n s) {
  stat_is_init = true;
  sincelastreq = 0;
  stats_all = w;
}

-- The first request of a service, with no alarm in the sleep, and with a kernel whose chain of
-- interfaces has an end: one more step of fuel than the chain has interfaces is enough, `setup`
-- counts all of them, and the service ends initialised, its words showing the kernel's values in
-- the way of an update that reads every interface.
pub ready-first :
    (k : Kernel) (s : Service) (v : Values) (first : ℕ)
    → s.stat_is_init ≡ false
    → Starts k first (length v.interfaces)
    → Holds k (after_setup k first (length v.interfaces) s) v
    → (w : Words) × (ready k none (suc (length v.interfaces)) s
        ≡ ok (started k first (length v.interfaces) s w))
      × Shows k v s.stats_all w
unfolding ready stat_init
ready-first k s v first init h holds =
    let t = record s { stat_is_init = true } in
    let n = length v.interfaces in
    let same : Holds k (after_setup k first n t) v = record {
      seeks = holds.seeks;
      hz = holds.hz;
      cp_time = holds.cp_time;
      boottime = holds.boottime;
      sum = holds.sum;
      dk_xfer = holds.dk_xfer;
      chain = holds.chain;
      counted = holds.counted;
    } in
    let (w, e, shows) = updatestat-Shows k (after_setup k first n t) v same in
    (w, rw (init, setup-after_setup k t v first h holds.chain, e) refl, shows)

-- The chain of interfaces has no end: `place i` is the address of the interface `i`.
pub record IsEndless (k : Kernel) (first : ℕ) : Type 0 where
  pub place : ℕ → ℕ
  pub starts : place 0 ≡ first
  pub not_last : (i : ℕ) → (place i == 0) ≡ false
  pub seeks : (i : ℕ) → k.seeks (place i) ≡ true
  pub interface : ℕ → Ifnet
  pub read : (i : ℕ) → k.ifnet_at (place i) ≡ some (interface i)
  pub linked : (i : ℕ) → (interface i).if_next ≡ place (suc i)

count_interfaces-endless :
    (k : Kernel) (first : ℕ) (endless : IsEndless k first) (fuel i n : ℕ)
    → count_interfaces k fuel (endless.place i) n ≡ out_of_fuel
unfolding count_interfaces
count_interfaces-endless k first endless zero i n = refl
count_interfaces-endless k first endless (suc fuel) i n =
    rw (endless.not_last i, endless.seeks i, endless.read i, endless.linked i)
      (count_interfaces-endless k first endless fuel (suc i) (add32 n 1))

-- If the kernel's symbols are found but its chain of interfaces has no end, as one that leads back
-- into itself has none, `setup` does not end: no amount of fuel is enough.
pub setup-endless :
    (k : Kernel) (s : Service) (first n : ℕ) (fuel : ℕ)
    → Starts k first n
    → IsEndless k first
    → setup k fuel s ≡ out_of_fuel
unfolding setup count_interfaces
setup-endless k s first n fuel h endless =
    let looped = count_interfaces-endless k first endless fuel 0 0 in
    rw (h.found, h.opens, h.seeks, h.first_read, ← endless.starts, looped) refl
