-- ===== src/ExecLists/Tests.antt =====
-- The list macros at a small memory: the theorems at concrete inputs, and a run.
use amiga_dev.Common.{ℕ, ◌≡◌, refl, arith, false, List, [], ◌∷◌, ◌==◌, if◌then◌else◌}
use amiga_dev.Machine.{Cpu, Memory}
use amiga_dev.Machine.Run.{run, final, Returns, done}
use amiga_dev.ExecLists.{newlist_code, remove_code, remhead_code, tstlist_code, is_list_empty}
use amiga_dev.ExecLists.Links.{Links, Keeps, Distinct, last}
use amiga_dev.ExecLists.Shape.{IsList, IsNew, ArePlaces, Untouched}
use amiga_dev.ExecLists.Remove.{remove-IsList}
use amiga_dev.ExecLists.RemHead.{first_node, behind_first}
use amiga_dev.ExecLists.Empty.{is_empty, newlist-IsList, tstlist-is_empty, is_list_empty-is_empty}
use amiga_dev.ExecLists.Calls.{
  Call, add_tail, rem_head, rem_tail, Calls, AreNew, results, apply_all, Calls-IsList,
  Calls-results, no_more, removed_head,
}

-- A list with its header at 100 and one node at 200.
abbrev one_node : Memory
one_node p =
    if p == 103
    then 200
    else if p == 111
    then 200
    else if p == 203
    then 104
    else if p == 207
    then 100
    else 0

one_node-IsList : IsList one_node 100 (200 ∷ [])
unfolding Links Keeps Distinct ArePlaces
one_node-IsList = record {
  links = (refl, refl, (refl, refl, tt));
  distinct = (
    omega arith,
    (omega arith, omega arith, tt),
    (omega arith, omega arith, tt),
    (omega arith, tt, tt, tt),
  );
  tail_zero = refl;
  tail_kept = (omega arith, omega arith, (omega arith, omega arith, tt));
  places = (omega arith, tt);
  header = omega arith;
}

node_300-IsNew : IsNew 300 100 (200 ∷ [])
unfolding Keeps
node_300-IsNew = (
  omega arith,
  (
    (omega arith, omega arith, (omega arith, omega arith, tt)),
    (omega arith, omega arith, (omega arith, omega arith, tt)),
  ),
  omega arith,
  omega arith,
)

abbrev start : ℕ → ℕ → Cpu
start a0 a1 = record {
  rd0 = 7;
  rd1 = 0;
  rd2 = 0;
  ra0 = a0;
  ra1 = a1;
  z = false;
  n = false;
  c = false;
  mem = one_node;
}

newlist-IsList_example : Returns newlist_code 0 (start 400 0) (λ t. IsList t.mem 400 [])
newlist-IsList_example = newlist-IsList 400 (start 400 0) (omega arith) refl

remove-IsList_example :
    Returns remove_code 0
      (start 0 200)
      (λ t. IsList t.mem 100 [] × Untouched 100 (200 ∷ []) one_node t.mem)
remove-IsList_example = remove-IsList 100 200 [] [] (start 0 200) one_node-IsList refl

tstlist-is_empty_example :
    Returns tstlist_code 0 (start 100 0) (λ t. (t.z ≡ is_empty (200 ∷ [])) × (t.mem ≡ one_node))
tstlist-is_empty_example = tstlist-is_empty 100 (200 ∷ []) (start 100 0) one_node-IsList refl

is_list_empty-is_empty_example : is_list_empty one_node 100 ≡ is_empty (200 ∷ [])
is_list_empty-is_empty_example = is_list_empty-is_empty 100 (200 ∷ []) one_node one_node-IsList

abbrev queue : List Call
queue = add_tail 300 ∷ rem_head ∷ rem_tail ∷ []

queue-AreNew : AreNew 100 queue (200 ∷ [])
unfolding AreNew
queue-AreNew = (node_300-IsNew, tt)

queue-results : results queue (200 ∷ []) ≡ 200 ∷ 300 ∷ []
unfolding results first_node behind_first last
queue-results = refl

Calls-IsList_example :
    (u : Cpu) × Calls 100 (start 0 0) queue (results queue (200 ∷ [])) u
    × IsList u.mem 100 (apply_all queue (200 ∷ []))
Calls-IsList_example = Calls-IsList 100 queue (200 ∷ []) (start 0 0) one_node-IsList queue-AreNew

-- The first node taken, by a run.
abbrev after_remove : Cpu
after_remove = final (start 0 0) (run remhead_code 10 0 (start 100 0))

remhead_runs : run remhead_code 10 0 (start 100 0) ≡ done after_remove
unfolding run
remhead_runs = refl

remhead-Calls : Calls 100 (start 0 0) (rem_head ∷ []) (after_remove.rd0 ∷ []) after_remove
remhead-Calls = removed_head 10 remhead_runs no_more

remhead-AreNew : AreNew 100 (rem_head ∷ []) (200 ∷ [])
unfolding AreNew
remhead-AreNew = tt

Calls-results_example :
    (after_remove.rd0 ∷ [] ≡ results (rem_head ∷ []) (200 ∷ []))
    × IsList after_remove.mem 100 (apply_all (rem_head ∷ []) (200 ∷ []))
Calls-results_example = Calls-results 100 (200 ∷ []) remhead-Calls one_node-IsList remhead-AreNew
