-- ===== src/Rstat/Opened.antt =====
-- What the parts of the initialisation of rstat_proc.c leave alone, and what they look up.
use mathlib.Core.Path.{subst}
use amiga_dev.Common.{
  ℕ, ◌+◌, ◌≡◌, refl, ◌∙◌, true, false, Option, none, some, ◌==◌, Bool-cases, inl, inr,
}
use amiga_dev.Rstat.{
  Symbol, x_cptime, x_sum, x_ifnet, x_dkxfer, x_boottime, x_avenrun, x_hz, Kernel, Service,
  cant_seek, ok, open_kmem, count_interfaces, updatestat, setup, stat_init, wake_up,
}
use amiga_dev.Rstat.Replies.{s1, s2}
use amiga_dev.Rstat.Outcomes.{ok_injective, bind_ok, read_bind, sum_bind}

-- All of the service but the replies, which is what an update leaves alone.
abbrev pub Keeps : Service → Service → Type 0
Keeps s t =
    (t.nl ≡ s.nl)
    × (t.opened ≡ s.opened)
    × (t.firstifnet ≡ s.firstifnet)
    × (t.numintfs ≡ s.numintfs)
    × (t.stat_is_init ≡ s.stat_is_init)

pub updatestat-Keeps : (k : Kernel) (s t : Service) → updatestat k s ≡ ok t → Keeps s t
unfolding updatestat
updatestat-Keeps k s t h =
    let (r1, (hz, h1)) = read_bind k (s.nl x_hz) _ _ _ t h in
    let (r2, (cp, h2)) = read_bind k (s.nl x_cptime) _ _ _ t h1 in
    let (r3, (u, h3)) = read_bind k (s.nl x_avenrun) cant_seek (some true) _ t h2 in
    let (r4, (btm, h4)) = read_bind k (s.nl x_boottime) _ _ _ t h3 in
    let (r5, (v, h5)) = read_bind k (s.nl x_sum) _ _ _ t h4 in
    let (r6, (dk, h6)) = read_bind k (s.nl x_dkxfer) _ _ _ t h5 in
    let (w, r7, h7) = sum_bind k s.numintfs s.firstifnet _ _ t h6 in
    subst (Keeps s) (ok_injective _ t h7) (refl, refl, refl, refl, refl)

pub open_kmem_ok :
    (k : Kernel) (x : Symbol) (s t : Service)
    → open_kmem k x s ≡ ok t
    → ((k.n_value x == 0) ≡ false)
      × (k.opens ≡ true)
      × (record s { nl = k.n_value; opened = s.opened + 1 } ≡ t)
open_kmem_ok k x s t h = elim (Bool-cases (k.n_value x == 0)) [
  | inl absent ↦ cc (rw absent at h)
  | inr present ↦ elim (Bool-cases k.opens) [
    | inr shut ↦ cc (rw (present, shut) at h)
    | inl opens ↦ (present, opens, ok_injective _ t (rw (present, opens) at h))
  ]
]

-- The names have been looked up, and one more descriptor of /dev/kmem is open.
abbrev pub Opened : Kernel → Symbol → Service → Service → Type 0
Opened k x s t =
    (t.nl ≡ k.n_value)
    × (t.opened ≡ s.opened + 1)
    × ((k.n_value x == 0) ≡ false)
    × (t.stat_is_init ≡ s.stat_is_init)

pub open_kmem-Opened :
    (k : Kernel) (x : Symbol) (s t : Service) → open_kmem k x s ≡ ok t → Opened k x s t
open_kmem-Opened k x s t h =
    let (present, opens, e) = open_kmem_ok k x s t h in
    subst (Opened k x s) e (refl, refl, present, refl)

setup-Opened :
    (k : Kernel) (fuel : ℕ) (s t : Service) → setup k fuel s ≡ ok t → Opened k x_cptime s t
unfolding setup
setup-Opened k fuel s t h =
    let (s1, r1, h1) = bind_ok (open_kmem k x_cptime s) _ t h in
    let (r2, (first, h2)) = read_bind k (s1.nl x_ifnet) _ _ _ t h1 in
    let (n, r3, h3) = bind_ok (count_interfaces k fuel first 0) _ t h2 in
    subst (Opened k x_cptime s) (ok_injective _ t h3) (open_kmem-Opened k x_cptime s s1 r1)

wake_up-Keeps : (o : Option Kernel) (s t : Service) → wake_up o s ≡ ok t → Keeps s t
wake_up-Keeps none s t h = subst (Keeps s) (ok_injective s t h) (refl, refl, refl, refl, refl)
wake_up-Keeps (some k) s t h = updatestat-Keeps k s t h

Keeps-Opened :
    (k : Kernel) (x : Symbol) (s t u : Service) → Opened k x s t → Keeps t u → Opened k x s u
Keeps-Opened k x s t u (names, opened, present, init) (e, e', e2, e3, e4) =
    (e ∙ names, e' ∙ opened, present, e4 ∙ init)

pub stat_init-Opened :
    (k : Kernel) (woken : Option Kernel) (fuel : ℕ) (s t : Service)
    → stat_init k woken fuel s ≡ ok t
    → Opened k x_cptime (record s { stat_is_init = true }) t
unfolding stat_init
stat_init-Opened k woken fuel s t h =
    let s0 = record s { stat_is_init = true } in
    let (s1, r1, h1) = bind_ok (setup k fuel s0) _ t h in
    let (s2, r2, h2) = bind_ok (updatestat k s1) _ t h1 in
    let opened = setup-Opened k fuel s0 s1 r1 in
    let opened' = Keeps-Opened k x_cptime s0 s1 s2 opened (updatestat-Keeps k s1 s2 r2) in
    Keeps-Opened k x_cptime s0 s2 t opened' (wake_up-Keeps woken s2 t h2)
