-- ===== src/Rstat/History.antt =====
-- The service of rstat_proc.c over requests and alarms.
use mathlib.Core.Path.{subst}
use amiga_dev.Common.{
  ℕ, ◌≤◌, ◌≡◌, ◌⊎◌, refl, sym, ◌∙◌, ap, true, false, Option, ◌==◌, arith, Bool-cases, inl, inr,
}
use amiga_dev.Rstat.{
  Symbol, x_cptime, x_dkxfer, Kernel, Words, Service, Result, ok, ◌>>=◌, open_kmem, updatestat,
  stat_init, ready, havedisk, rstatproc_havedisk_3,
}
use amiga_dev.Rstat.Replies.{
  Stats, Statsswtch, Statstime, s1, s2, s3, rstatproc_stats_1, rstatproc_stats_2, rstatproc_stats_3,
}
use amiga_dev.Rstat.Opened.{Opened, updatestat-Keeps, open_kmem-Opened, stat_init-Opened}
use amiga_dev.Rstat.Outcomes.{ok_injective, bind_ok, read_bind}

-- Once the service is initialised, it has the addresses of the kernel's symbols, and /dev/kmem is
-- open.
abbrev pub IsSound : (Symbol → ℕ) → Service → Type 0
IsSound names s =
    (s.stat_is_init ≡ false) ⊎ ((s.nl ≡ names) × ((names x_cptime == 0) ≡ false) × (1 ≤ s.opened))

initialised :
    (names : Symbol → ℕ) (s : Service)
    → IsSound names s
    → s.stat_is_init ≡ true
    → (s.nl ≡ names) × ((names x_cptime == 0) ≡ false) × (1 ≤ s.opened)
initialised names s (inl fresh) init = cc
initialised names s (inr sound) init = sound

-- No descriptor is closed.
abbrev pub Grows : Service → Service → Type 0
Grows s t = s.opened ≤ t.opened

ready-IsSound :
    (names : Symbol → ℕ) (k : Kernel) (woken : Option Kernel) (fuel : ℕ) (s t : Service)
    → k.n_value ≡ names
    → ready k woken fuel s ≡ ok t
    → IsSound names s
    → (t.stat_is_init ≡ true) × IsSound names t × Grows s t
unfolding ready stat_init
ready-IsSound names k woken fuel s t same h sound = elim (Bool-cases s.stat_is_init) [
  | inl init ↦
      let e = ok_injective (record s { sincelastreq = 0; stat_is_init = true }) t (rw init at h) in
      subst (λ (x : Service). (x.stat_is_init ≡ true) × IsSound names x × Grows s x) e
        (refl, inr (initialised names s sound init), omega arith)
  | inr fresh ↦
      let (u, r, h') =
        bind_ok (stat_init k woken fuel s) (λ x. ok (record x { sincelastreq = 0 })) t
          (rw fresh at h) in
      let (looked_up, opened, present, init) = stat_init-Opened k woken fuel s u r in
      let e = ok_injective (record u { sincelastreq = 0 }) t h' in
      let present' = ap (λ (f : Symbol → ℕ). f x_cptime == 0) (sym same) ∙ present in
      subst (λ (x : Service). (x.stat_is_init ≡ true) × IsSound names x × Grows s x) e
        (init, inr (looked_up ∙ same, present', omega arith), omega arith)
]

-- A step of the service, with a kernel whose symbols have the addresses `names`: a request of one
-- of the procedures, or the alarm, which is set when the service is initialised.
pub data Step (names : Symbol → ℕ) : Service → Service → Type 0 where
  stats_3 :
      {s t : Service} {reply : Statstime} (k : Kernel) (woken : Option Kernel) (fuel : ℕ)
      → k.n_value ≡ names
      → rstatproc_stats_3 k woken fuel s ≡ ok (reply, t)
      → Step names s t
  stats_2 :
      {s t : Service} {reply : Statsswtch} (k : Kernel) (woken : Option Kernel) (fuel : ℕ)
      → k.n_value ≡ names
      → rstatproc_stats_2 k woken fuel s ≡ ok (reply, t)
      → Step names s t
  stats_1 :
      {s t : Service} {reply : Stats} (k : Kernel) (woken : Option Kernel) (fuel : ℕ)
      → k.n_value ≡ names
      → rstatproc_stats_1 k woken fuel s ≡ ok (reply, t)
      → Step names s t
  havedisk_3 :
      {s t : Service} {reply : ℕ} (k : Kernel) (woken : Option Kernel) (fuel : ℕ)
      → k.n_value ≡ names
      → rstatproc_havedisk_3 k woken fuel s ≡ ok (reply, t)
      → Step names s t
  alarm :
      {s t : Service} (k : Kernel)
      → k.n_value ≡ names
      → s.stat_is_init ≡ true
      → updatestat k s ≡ ok t
      → Step names s t

pub data Reach (names : Symbol → ℕ) (s : Service) : Service → Type 0 where
  here : Reach names s s
  next : {t u : Service} → Reach names s t → Step names t u → Reach names s u

pair_injective : {A B : Type 0} (a a' : A) (b b' : B) → ◌≡◌ {A = A × B} (a, b) (a', b') → b ≡ b'
pair_injective a a' b b' h = ap (λ p. p.1) h

-- The request of a statistics procedure.
reply_ok :
    {A : Type 0} (reply : Words → A) (a : A) (r : Result Service) (t : Service)
    → ◌>>=◌ {B = A × Service} r (λ s. ok (reply s.stats_all, s)) ≡ ok (a, t)
    → r ≡ ok t
reply_ok reply a r t h =
    let (s, e, h') = bind_ok r (λ s. ok (reply s.stats_all, s)) (a, t) h in
    e ∙ ap ok (pair_injective (reply s.stats_all) a s t (ok_injective _ (a, t) h'))

havedisk_ok :
    (k : Kernel) (s t : Service) (r : ℕ) → havedisk k s ≡ ok (r, t) → Opened k x_dkxfer s t
unfolding havedisk
havedisk_ok k s t r h =
    let (s1, r1, h1) = bind_ok (open_kmem k x_dkxfer s) _ (r, t) h in
    let (r2, (x, h2)) = read_bind k (s1.nl x_dkxfer) _ _ _ (r, t) h1 in
    let e = pair_injective _ r s1 t (ok_injective _ (r, t) h2) in
    subst (Opened k x_dkxfer s) e (open_kmem-Opened k x_dkxfer s s1 r1)

disk-IsSound :
    (names : Symbol → ℕ) (k : Kernel) (woken : Option Kernel) (fuel : ℕ) (s t : Service) (r : ℕ)
    → k.n_value ≡ names
    → rstatproc_havedisk_3 k woken fuel s ≡ ok (r, t)
    → IsSound names s
    → IsSound names t × Grows s t
unfolding rstatproc_havedisk_3
disk-IsSound names k woken fuel s t r same h sound =
    let (s1, r1, h1) = bind_ok (ready k woken fuel s) _ (r, t) h in
    let (init, sound1, grows) = ready-IsSound names k woken fuel s s1 same r1 sound in
    let (names1, present, opened1) = initialised names s1 sound1 init in
    let ((x, s2), r2, h2) = bind_ok (havedisk k s1) _ (r, t) h1 in
    let (looked_up, opened, disk, init2) = havedisk_ok k s1 s2 x r2 in
    let e = pair_injective _ r (record s2 { have = x }) t (ok_injective _ (r, t) h2) in
    subst (λ (y : Service). IsSound names y × Grows s y) e
      (inr (looked_up ∙ same, present, omega arith), omega arith)

stats-IsSound :
    (names : Symbol → ℕ) (k : Kernel) (woken : Option Kernel) (fuel : ℕ) (s t : Service)
    → k.n_value ≡ names
    → ready k woken fuel s ≡ ok t
    → IsSound names s
    → IsSound names t × Grows s t
stats-IsSound names k woken fuel s t same h sound =
    let (init, sound', grows) = ready-IsSound names k woken fuel s t same h sound in (sound', grows)

Step-IsSound :
    (names : Symbol → ℕ) {s t : Service}
    → Step names s t
    → IsSound names s
    → IsSound names t × Grows s t
unfolding rstatproc_stats_3 rstatproc_stats_2 rstatproc_stats_1
Step-IsSound names {s = s} {t = t} (stats_3 {reply = a} k woken fuel same h) sound =
    stats-IsSound names k woken fuel s t same (reply_ok s3 a (ready k woken fuel s) t h) sound
Step-IsSound names {s = s} {t = t} (stats_2 {reply = a} k woken fuel same h) sound =
    stats-IsSound names k woken fuel s t same (reply_ok s2 a (ready k woken fuel s) t h) sound
Step-IsSound names {s = s} {t = t} (stats_1 {reply = a} k woken fuel same h) sound =
    stats-IsSound names k woken fuel s t same (reply_ok s1 a (ready k woken fuel s) t h) sound
Step-IsSound names {s = s} {t = t} (havedisk_3 {reply = r} k woken fuel same h) sound =
    disk-IsSound names k woken fuel s t r same h sound
Step-IsSound names {s = s} {t = t} (alarm k same init h) sound =
    let (e, e', e2, e3, e4) = updatestat-Keeps k s t h in
    let (looked_up, present, opened) = initialised names s sound init in
    (inr (e ∙ looked_up, present, omega arith), omega arith)

-- In every history of requests and alarms that no failure has ended, with kernels of the same symbol
-- addresses and from a service that is not initialised: whenever the service is initialised, it uses
-- these addresses, `_cp_time` is one of the symbols that were found, and /dev/kmem is open; and the
-- number of its open descriptors never falls.
pub Reach-IsSound :
    (names : Symbol → ℕ) {s t : Service}
    → Reach names s t
    → s.stat_is_init ≡ false
    → IsSound names t × Grows s t
Reach-IsSound names here fresh = (inl fresh, omega arith)
Reach-IsSound names {s = s} (next path step) fresh =
    let (sound, grows) = Reach-IsSound names path fresh in
    let (sound', grows') = Step-IsSound names step sound in (sound', omega arith)
