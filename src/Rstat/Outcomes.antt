-- ===== src/Rstat/Outcomes.antt =====
-- When the steps of rstat_proc.c succeed, and that an update ends.
use amiga_dev.Common.{
  ℕ, zero, suc, ◌≡◌, ◌≢◌, ◌↔◌, ◌⊎◌, inl, inr, refl, true, Option, none, some, ◌==◌, Bool-cases,
  ==→eq,
}
use amiga_dev.Rstat.{
  x_cptime, x_sum, x_ifnet, x_dkxfer, x_boottime, x_avenrun, x_hz, Ifnet, Kernel, Words, Service,
  Failure, cant_seek, cant_read, Result, ok, exit, out_of_fuel, ◌>>=◌, complete, read_at,
  add_counters, sum_interfaces, updatestat, poke_four, poke_time, poke_sum, clear_counters,
  at_s2_boottime, at_s3_curtime,
}

pub ok_injective : {A : Type 0} (x y : A) → ok x ≡ ok y → x ≡ y
ok_injective x y h = cc

pub bind_ok :
    {A B : Type 0} (r : Result A) (f : A → Result B) (y : B)
    → r >>= f ≡ ok y
    → (x : A) × (r ≡ ok x) × (f x ≡ ok y)
bind_ok (ok x) f y h = (x, refl, h)
bind_ok (exit e) f y h = cc
bind_ok out_of_fuel f y h = cc

-- A read that succeeds.
abbrev pub Reads : {A : Type 0} → Kernel → ℕ → Option A → Type 0
Reads {A} k off o = (k.seeks off ≡ true) × ((x : A) × (o ≡ some x))

pub complete_ok :
    {A : Type 0} (e : Failure) (o : Option A) (x : A) → complete e o ≡ ok x → o ≡ some x
complete_ok e none x h = cc
complete_ok e (some y) x h = cc

pub read_ok :
    {A : Type 0} (k : Kernel) (off : ℕ) (e : Failure) (o : Option A) (x : A)
    → read_at k off e o ≡ ok x
    → Reads k off o
read_ok k off e o x h = elim (Bool-cases (k.seeks off)) [
  | inl seeks ↦ (seeks, (x, complete_ok e o x (rw seeks at h)))
  | inr fails ↦ cc (rw fails at h)
]

-- The value of a read that succeeds.
pub read_value :
    {A : Type 0} (k : Kernel) (off : ℕ) (e : Failure) (o : Option A) (x : A)
    → read_at k off e o ≡ ok x
    → (k.seeks off ≡ true) × (o ≡ some x)
read_value k off e o x h = elim (Bool-cases (k.seeks off)) [
  | inl seeks ↦ (seeks, complete_ok e o x (rw seeks at h))
  | inr fails ↦ cc (rw fails at h)
]

-- A read and what follows it.
pub read_bind :
    {A B : Type 0} (k : Kernel) (off : ℕ) (e : Failure) (o : Option A) (f : A → Result B) (y : B)
    → read_at k off e o >>= f ≡ ok y
    → Reads k off o × ((x : A) × (f x ≡ ok y))
read_bind k off e o f y h =
    let (x, r, next) = bind_ok (read_at k off e o) f y h in (read_ok k off e o x r, (x, next))

pub bind-ends :
    {A B : Type 0} (r : Result A) (f : A → Result B)
    → r ≢ out_of_fuel
    → ((x : A) → f x ≢ out_of_fuel)
    → r >>= f ≢ out_of_fuel
bind-ends (ok x) f ends next h = next x h
bind-ends (exit e) f ends next h = cc
bind-ends out_of_fuel f ends next h = ends refl

complete-ends : {A : Type 0} (e : Failure) (o : Option A) → complete e o ≢ out_of_fuel
complete-ends e none h = cc
complete-ends e (some x) h = cc

read-ends :
    {A : Type 0} (k : Kernel) (off : ℕ) (e : Failure) (o : Option A)
    → read_at k off e o ≢ out_of_fuel
read-ends k off e o h = elim (Bool-cases (k.seeks off)) [
  | inl seeks ↦ complete-ends e o (rw seeks at h)
  | inr fails ↦ cc (rw fails at h)
]

sum_interfaces-ends : (k : Kernel) (n off : ℕ) (w : Words) → sum_interfaces k n off w ≢ out_of_fuel
unfolding sum_interfaces
sum_interfaces-ends k zero off w h = cc
sum_interfaces-ends k (suc n) off w h = elim (Bool-cases (off == 0)) [
  | inl here ↦ cc (rw here at h)
  | inr there ↦
      bind-ends (read_at k off (cant_read x_ifnet) (k.ifnet_at off))
        (λ f. sum_interfaces k n f.if_next (add_counters w f))
        (read-ends k off (cant_read x_ifnet) (k.ifnet_at off))
        (λ f. sum_interfaces-ends k n f.if_next (add_counters w f)) (rw there at h)
]

pub sum_bind :
    {B : Type 0} (k : Kernel) (n off : ℕ) (w : Words) (f : Words → Result B) (y : B)
    → sum_interfaces k n off w >>= f ≡ ok y
    → (w' : Words) × (sum_interfaces k n off w ≡ ok w') × (f w' ≡ ok y)
sum_bind k n off w f y h = bind_ok (sum_interfaces k n off w) f y h

updatestat-ends : (k : Kernel) (s : Service) → updatestat k s ≢ out_of_fuel
unfolding updatestat
updatestat-ends k s = bind-ends _ _ (read-ends k (s.nl x_hz) _ _) λ hz.
    bind-ends _ _ (read-ends k (s.nl x_cptime) _ _) λ cp.
      bind-ends _ _ (read-ends k (s.nl x_avenrun) cant_seek (some true)) λ u.
        bind-ends _ _ (read-ends k (s.nl x_boottime) _ _) λ btm.
          bind-ends _ _ (read-ends k (s.nl x_sum) _ _) λ v.
            bind-ends _ _ (read-ends k (s.nl x_dkxfer) _ _)
              λ dk. bind-ends _ _ (sum_interfaces-ends k s.numintfs s.firstifnet _) λ w h. cc

-- The chain of interfaces can be read as far as `n` interfaces or its end.
unfoldable pub ReadableChain : Kernel → ℕ → ℕ → Type 0
ReadableChain k zero off = Unit
ReadableChain k (suc n) off =
    (off ≡ 0)
    ⊎ ((f : Ifnet) × (k.seeks off ≡ true) × (k.ifnet_at off ≡ some f) × ReadableChain k n f.if_next)

sum_interfaces-ReadableChain :
    (k : Kernel) (n off : ℕ) (w w' : Words)
    → sum_interfaces k n off w ≡ ok w'
    → ReadableChain k n off
unfolding sum_interfaces ReadableChain
sum_interfaces-ReadableChain k zero off w w' h = tt
sum_interfaces-ReadableChain k (suc n) off w w' h = elim (Bool-cases (off == 0)) [
  | inl here ↦ inl (==→eq off 0 here)
  | inr there ↦
      let next =
        bind_ok (read_at k off (cant_read x_ifnet) (k.ifnet_at off))
          (λ f. sum_interfaces k n f.if_next (add_counters w f)) w' (rw there at h) in
      let (f, r, h') = next in
      let (seeks, (g, e)) = read_ok k off (cant_read x_ifnet) (k.ifnet_at off) f r in
      inr (
        f,
        seeks,
        complete_ok (cant_read x_ifnet) (k.ifnet_at off) f (rw seeks at r),
        sum_interfaces-ReadableChain k n f.if_next (add_counters w f) w' h',
      )
]

ReadableChain-sum_interfaces :
    (k : Kernel) (n off : ℕ) (w : Words)
    → ReadableChain k n off
    → (w' : Words) × (sum_interfaces k n off w ≡ ok w')
unfolding sum_interfaces ReadableChain
ReadableChain-sum_interfaces k zero off w chain = (w, refl)
ReadableChain-sum_interfaces k (suc n) off w (inl ends) = (w, rw ends refl)
ReadableChain-sum_interfaces k (suc n) off w (inr (f, seeks, read, chain)) =
    elim (Bool-cases (off == 0)) [
      | inl here ↦ (w, rw here refl)
      | inr there ↦
          let (w', r) = ReadableChain-sum_interfaces k n f.if_next (add_counters w f) chain in
          (w', rw (there, seeks, read) r)
    ]

-- Everything that an update reads can be read.
pub record Readable (k : Kernel) (s : Service) : Type 0 where
  pub hz : Reads k (s.nl x_hz) (k.int_at (s.nl x_hz))
  pub cp_time : Reads k (s.nl x_cptime) (k.four_at (s.nl x_cptime))
  pub avenrun : k.seeks (s.nl x_avenrun) ≡ true
  pub boottime : Reads k (s.nl x_boottime) (k.timeval_at (s.nl x_boottime))
  pub sum : Reads k (s.nl x_sum) (k.vmmeter_at (s.nl x_sum))
  pub dk_xfer : Reads k (s.nl x_dkxfer) (k.four_at (s.nl x_dkxfer))
  pub chain : ReadableChain k s.numintfs s.firstifnet

updatestat_success : (k : Kernel) (s t : Service) → updatestat k s ≡ ok t → Readable k s
unfolding updatestat
updatestat_success k s t h =
    let (r1, (hz, h1)) = read_bind k (s.nl x_hz) _ _ _ t h in
    let (r2, (cp, h2)) = read_bind k (s.nl x_cptime) _ _ _ t h1 in
    let (r3, (u, h3)) = read_bind k (s.nl x_avenrun) cant_seek (some true) _ t h2 in
    let (r4, (btm, h4)) = read_bind k (s.nl x_boottime) _ _ _ t h3 in
    let (r5, (v, h5)) = read_bind k (s.nl x_sum) _ _ _ t h4 in
    let (r6, (dk, h6)) = read_bind k (s.nl x_dkxfer) _ _ _ t h5 in
    let (w, r7, h7) = sum_bind k s.numintfs s.firstifnet _ _ t h6 in
    record {
      hz = r1;
      cp_time = r2;
      avenrun = r3.0;
      boottime = r4;
      sum = r5;
      dk_xfer = r6;
      chain = sum_interfaces-ReadableChain k s.numintfs s.firstifnet _ w r7;
    }

updatestat_result :
    (k : Kernel) (s : Service) → Readable k s → (t : Service) × (updatestat k s ≡ ok t)
unfolding updatestat
updatestat_result k s r =
    let (q1, (hz, e1)) = r.hz in
    let (q2, (cp, e2)) = r.cp_time in
    let (q4, (btm, e4)) = r.boottime in
    let (q5, (v, e5)) = r.sum in
    let (q6, (dk, e6)) = r.dk_xfer in
    let w = poke_time (poke_four s.stats_all 0 cp) at_s2_boottime btm in
    let w = clear_counters (poke_four (poke_sum w hz k.now btm v) 4 dk) in
    let (w', e7) = ReadableChain-sum_interfaces k s.numintfs s.firstifnet w r.chain in
    (
      record s { stats_all = poke_time w' at_s3_curtime k.later },
      rw (q1, e1, q2, e2, r.avenrun, q4, e4, q5, e5, q6, e6, e7) refl,
    )

-- An update ends whatever the kernel holds, a chain of interfaces without an end included, and it
-- succeeds if and only if all that it reads can be read: five of the symbols' values, the place of
-- a sixth, and the chain of interfaces as far as it has been counted.
pub updatestat-Readable :
    (k : Kernel) (s : Service)
    → (updatestat k s ≢ out_of_fuel) × (((t : Service) × (updatestat k s ≡ ok t)) ↔ Readable k s)
updatestat-Readable k s =
    (updatestat-ends k s, (λ (t, e). updatestat_success k s t e, updatestat_result k s))
