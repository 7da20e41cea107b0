-- ===== src/ExecLists/Calls.antt =====
-- Sequences of the list macros: each call is a step, and the list behind them is the one that the
-- same operations on a sequence of nodes give.
use mathlib.Core.Path.{subst}
use amiga_dev.Common.{
  ℕ, ◌≡◌, List, [], ◌∷◌, ◌++◌, refl, sym, ap, ◌∙◌, Option, none, some, zero, suc,
}
use amiga_dev.Machine.{Cpu, Instr}
use amiga_dev.Machine.Run.{run, done, fault, fetch, Fetch, found, finished, nowhere, exec}
use amiga_dev.ExecLists.{addhead_code, addtail_code, remhead_code, remtail_code}
use amiga_dev.ExecLists.Links.{last}
use amiga_dev.ExecLists.Shape.{IsList, IsNew}
use amiga_dev.ExecLists.AddHead.{addhead-IsList}
use amiga_dev.ExecLists.AddTail.{addtail-IsList}
use amiga_dev.ExecLists.RemHead.{first_node, behind_first, remhead-IsList}
use amiga_dev.ExecLists.RemTail.{before_last, remtail-IsList}

pub data Call : Type 0 where
  add_head add_tail : ℕ → Call
  rem_head rem_tail : Call

abbrev pub code_of : Call → List Instr
code_of (add_head n) = addhead_code
code_of (add_tail n) = addtail_code
code_of rem_head = remhead_code
code_of rem_tail = remtail_code

-- The list in `a0` and the node in `a1`.
abbrev pub entered : ℕ → Call → Cpu → Cpu
entered h (add_head n) s = record s { ra0 = h; ra1 = n }
entered h (add_tail n) s = record s { ra0 = h; ra1 = n }
entered h _ s = record s { ra0 = h }

-- The calls one after another, from a state to a state, with the results of the removals.
pub data Calls (h : ℕ) : Cpu → List Call → List ℕ → Cpu → Type 0 where
  no_more : {s : Cpu} → Calls h s [] [] s
  added_head :
      {s t u : Cpu} {n : ℕ} {cs : List Call} {rs : List ℕ}
      → (fuel : ℕ) → run addhead_code fuel 0 (entered h (add_head n) s) ≡ done t
      → Calls h t cs rs u
      → Calls h s (add_head n ∷ cs) rs u
  added_tail :
      {s t u : Cpu} {n : ℕ} {cs : List Call} {rs : List ℕ}
      → (fuel : ℕ) → run addtail_code fuel 0 (entered h (add_tail n) s) ≡ done t
      → Calls h t cs rs u
      → Calls h s (add_tail n ∷ cs) rs u
  removed_head :
      {s t u : Cpu} {cs : List Call} {rs : List ℕ}
      → (fuel : ℕ) → run remhead_code fuel 0 (entered h rem_head s) ≡ done t
      → Calls h t cs rs u
      → Calls h s (rem_head ∷ cs) (t.rd0 ∷ rs) u
  removed_tail :
      {s t u : Cpu} {cs : List Call} {rs : List ℕ}
      → (fuel : ℕ) → run remtail_code fuel 0 (entered h rem_tail s) ≡ done t
      → Calls h t cs rs u
      → Calls h s (rem_tail ∷ cs) (t.rd0 ∷ rs) u

-- The calls on a sequence of nodes.
abbrev pub apply : Call → List ℕ → List ℕ
apply (add_head n) xs = n ∷ xs
apply (add_tail n) xs = xs ++ n ∷ []
apply rem_head xs = behind_first xs
apply rem_tail xs = before_last xs

unfoldable pub apply_all : List Call → List ℕ → List ℕ
apply_all [] xs = xs
apply_all (c ∷ cs) xs = apply_all cs (apply c xs)

unfoldable pub results : List Call → List ℕ → List ℕ
results [] xs = []
results (add_head n ∷ cs) xs = results cs (apply (add_head n) xs)
results (add_tail n ∷ cs) xs = results cs (apply (add_tail n) xs)
results (rem_head ∷ cs) xs = first_node xs ∷ results cs (apply rem_head xs)
results (rem_tail ∷ cs) xs = last 0 xs ∷ results cs (apply rem_tail xs)

-- Each node that is added is new to the list as it is then.
unfoldable pub AreNew : ℕ → List Call → List ℕ → Type 0
AreNew h [] xs = Unit
AreNew h (add_head n ∷ cs) xs = IsNew n h xs × AreNew h cs (apply (add_head n) xs)
AreNew h (add_tail n ∷ cs) xs = IsNew n h xs × AreNew h cs (apply (add_tail n) xs)
AreNew h (rem_head ∷ cs) xs = AreNew h cs (apply rem_head xs)
AreNew h (rem_tail ∷ cs) xs = AreNew h cs (apply rem_tail xs)

-- From a list on, and if each node that is added overlaps with no link of the list as it is then, the
-- calls all return, the removals give the nodes that they take off the sequence, and the memory
-- then holds the list of the sequence's nodes.
pub Calls-IsList :
    (h : ℕ) (cs : List Call) (xs : List ℕ) (s : Cpu)
    → IsList s.mem h xs
    → AreNew h cs xs
    → (u : Cpu) × Calls h s cs (results cs xs) u × IsList u.mem h (apply_all cs xs)
unfolding apply_all results AreNew
Calls-IsList h [] xs s l new = (s, no_more, l)
Calls-IsList h (add_head n ∷ cs) xs s l (here, new) =
    let (fuel, t, r, (l', same)) =
      addhead-IsList h n xs (record s { ra0 = h; ra1 = n }) l here refl refl in
    let (u, path, end) = Calls-IsList h cs (n ∷ xs) t l' new in (u, added_head fuel r path, end)
Calls-IsList h (add_tail n ∷ cs) xs s l (here, new) =
    let (fuel, t, r, (l', same)) =
      addtail-IsList h n xs (record s { ra0 = h; ra1 = n }) l here refl refl in
    let (u, path, end) = Calls-IsList h cs (xs ++ n ∷ []) t l' new in
    (u, added_tail fuel r path, end)
Calls-IsList h (rem_head ∷ cs) xs s l new =
    let (fuel, t, r, (result, l', same)) = remhead-IsList h xs (record s { ra0 = h }) l refl in
    let (u, path, end) = Calls-IsList h cs (behind_first xs) t l' new in
    let rest = results cs (behind_first xs) in
    (u, subst (λ x. Calls h s (rem_head ∷ cs) (x ∷ rest) u) result (removed_head fuel r path), end)
Calls-IsList h (rem_tail ∷ cs) xs s l new =
    let (fuel, t, r, (result, l', same)) = remtail-IsList h xs (record s { ra0 = h }) l refl in
    let (u, path, end) = Calls-IsList h cs (before_last xs) t l' new in
    let rest = results cs (before_last xs) in
    (u, subst (λ x. Calls h s (rem_tail ∷ cs) (x ∷ rest) u) result (removed_tail fuel r path), end)

-- A code sequence has one outcome, whatever the fuel.
unique_next :
    (code : List Instr) (f f' : ℕ) (t t' : Cpu)
    → ((pc : ℕ) (s : Cpu) → run code f pc s ≡ done t → run code f' pc s ≡ done t' → t ≡ t')
    → (o : Option (ℕ × Cpu)) → elim o [ none ↦ fault | some (pc', s') ↦ run code f pc' s' ] ≡ done t
    → elim o [ none ↦ fault | some (pc', s') ↦ run code f' pc' s' ] ≡ done t'
    → t ≡ t'
unique_next code f f' t t' same none h h' = cc
unique_next code f f' t t' same (some (pc', s')) h h' = same pc' s' h h'

unique_fetched :
    (code : List Instr) (f f' : ℕ) (t t' : Cpu)
    → ((pc : ℕ) (s : Cpu) → run code f pc s ≡ done t → run code f' pc s ≡ done t' → t ≡ t')
    → (pc : ℕ) (s : Cpu) (i : Fetch) → fetch code pc ≡ i
    → run code (suc f) pc s ≡ done t
    → run code (suc f') pc s ≡ done t'
    → t ≡ t'
unfolding run
unique_fetched code f f' t t' same pc s finished e h h' = cc
unique_fetched code f f' t t' same pc s nowhere e h h' = cc
unique_fetched code f f' t t' same pc s (found i) e h h' =
    unique_next code f f' t t' same (exec i pc s) (rw (e, run) at h) (rw (e, run) at h')

run_unique :
    (code : List Instr) (f f' pc : ℕ) (s t t' : Cpu)
    → run code f pc s ≡ done t
    → run code f' pc s ≡ done t'
    → t ≡ t'
unfolding run
run_unique code zero f' pc s t t' h h' = cc
run_unique code (suc f) zero pc s t t' h h' = cc
run_unique code (suc f) (suc f') pc s t t' h h' =
    unique_fetched code f f' t t' (λ pc' s'. run_unique code f f' pc' s' t t') pc s (fetch code pc)
      refl h h'

-- However the calls run from a list on, if each node that is added overlaps with no link of the list
-- as it is then, the removals give the nodes that they take off the sequence, and the memory then
-- holds the list of the sequence's nodes.
pub Calls-results :
    (h : ℕ) {s u : Cpu} {cs : List Call} {rs : List ℕ} (xs : List ℕ)
    → Calls h s cs rs u
    → IsList s.mem h xs
    → AreNew h cs xs
    → (rs ≡ results cs xs) × IsList u.mem h (apply_all cs xs)
unfolding apply_all results AreNew
Calls-results h xs no_more l new = (refl, l)
Calls-results h {s = s} xs (added_head {t = t} {n = n} fuel r path) l (here, new) =
    let (fuel', t', r', (l', same)) =
      addhead-IsList h n xs (record s { ra0 = h; ra1 = n }) l here refl refl in
    let equal = run_unique addhead_code fuel' fuel 0 (entered h (add_head n) s) t' t r' r in
    Calls-results h (n ∷ xs) path (subst (λ (x : Cpu). IsList x.mem h (n ∷ xs)) equal l') new
Calls-results h {s = s} xs (added_tail {t = t} {n = n} fuel r path) l (here, new) =
    let (fuel', t', r', (l', same)) =
      addtail-IsList h n xs (record s { ra0 = h; ra1 = n }) l here refl refl in
    let equal = run_unique addtail_code fuel' fuel 0 (entered h (add_tail n) s) t' t r' r in
    Calls-results h (xs ++ n ∷ []) path
      (subst (λ (x : Cpu). IsList x.mem h (xs ++ n ∷ [])) equal l') new
Calls-results h {s = s} xs (removed_head {t = t} fuel r path) l new =
    let (fuel', t', r', (result, l', same)) = remhead-IsList h xs (record s { ra0 = h }) l refl in
    let equal = run_unique remhead_code fuel' fuel 0 (entered h rem_head s) t' t r' r in
    let (e, end) =
      Calls-results h (behind_first xs) path
        (subst (λ (x : Cpu). IsList x.mem h (behind_first xs)) equal l') new in
    let first : t.rd0 ≡ first_node xs = ap (λ (x : Cpu). x.rd0) (sym equal) ∙ result in
    (rw (first, e) refl, end)
Calls-results h {s = s} xs (removed_tail {t = t} fuel r path) l new =
    let (fuel', t', r', (result, l', same)) = remtail-IsList h xs (record s { ra0 = h }) l refl in
    let equal = run_unique remtail_code fuel' fuel 0 (entered h rem_tail s) t' t r' r in
    let (e, end) =
      Calls-results h (before_last xs) path
        (subst (λ (x : Cpu). IsList x.mem h (before_last xs)) equal l') new in
    let end_node : t.rd0 ≡ last 0 xs = ap (λ (x : Cpu). x.rd0) (sym equal) ∙ result in
    (rw (end_node, e) refl, end)
