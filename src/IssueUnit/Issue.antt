-- ===== src/IssueUnit/Issue.antt =====
-- `IssueUnit::issue` (sim/src/issue_unit.cpp): the operations that leave the issue queue in a cycle.
use cisim.Prelude.{
  ℕ, ◌+◌, Bool, false, ◌==◌, if◌then◌else◌, List, [], ◌∷◌, ◌++◌, length, Option, some, ◌>>=◌, ◌>>◌,
  assert,
}
use cisim.Operation.{Ops, is_status, allocated, ready, update_status, modify}
use cisim.RequestOrderingUnit.{ReorderBuffer}
use cisim.RequestOrderingUnit
use cisim.Window.{Window, decrement_issue_queue_used}
use cisim.Window
use cisim.IssueUnit.{Demand}
use cisim.IssueUnit.Schedule.{Scheduler, schedule}

-- The state of a cycle. `kept` is what stays of the part of the queue that was visited.
pub record Issuing : Type 0 where
  pub ops : Ops
  pub window : Window
  pub rou : ReorderBuffer
  pub scheduler : Scheduler
  pub kept : List ℕ
  pub ready_insns : List ℕ

module _ (demand : ℕ → Demand) (cycle : ℕ) where
  -- An operation that got its units leaves the queue.
  unfoldable pub send_off : Issuing → ℕ → Option Issuing
  unfolding update_status RequestOrderingUnit.release_entry
  send_off s op = do
    assert (is_status (s.ops op).status ready)
    let ops = modify s.ops op (λ o. record (update_status o) { execute_cycle = cycle })
    window ← decrement_issue_queue_used s.window
    rou ← RequestOrderingUnit.release_entry s.rou (ops op)
    some
        (record s { ops = ops; window = window; rou = rou; ready_insns = s.ready_insns ++ op ∷ [] })

  abbrev pub keep : Issuing → ℕ → Issuing
  keep s op = record s { kept = s.kept ++ op ∷ [] }

  abbrev pub count_stall : Scheduler → Scheduler
  count_stall s = record s { unit = record s.unit { fu_stall = s.unit.fu_stall + 1 } }

  -- An operation whose data is there.
  unfoldable pub try_schedule : Issuing → ℕ → Option Issuing
  unfolding update_status schedule send_off
  try_schedule s op = do
    let ops = if is_status (s.ops op).status allocated then modify s.ops op update_status else s.ops
    (scheduler, done) ← schedule op (demand op) cycle s.scheduler
    let s' = record s { ops = ops; scheduler = scheduler }
    if done
        then send_off s' op
        else some (keep (record s' { scheduler = count_stall scheduler }) op)

  -- `canIssue` of the window, and only then that of the request ordering unit.
  unfoldable pub data_ready : Issuing → ℕ → Option (Ops × Bool)
  unfolding Window.can_issue RequestOrderingUnit.can_issue
  data_ready s op = do
    (ops, now) ← Window.can_issue s.ops s.window op
    if now
        then (RequestOrderingUnit.can_issue s.rou (ops op) >>= λ first. some (ops, first))
        else some (ops, false)

  unfoldable pub visit : Issuing → ℕ → Option Issuing
  unfolding data_ready try_schedule
  visit s op = do
    (ops, now) ← data_ready s op
    let s' = record s { ops = ops }
    if now then try_schedule s' op else some (keep s' op)

  -- The loop ends early where as many ports are occupied as there are.
  unfoldable pub issue_all : List ℕ → Issuing → Option Issuing
  unfolding visit
  issue_all [] s = some s
  issue_all (op ∷ queue) s = do
    s' ← visit s op
    let rest = issue_all queue s'
    if length s'.scheduler.occupied == length s'.scheduler.ports
        then some (record s' { kept = s'.kept ++ queue })
        else rest

  -- `issue` begins with no port occupied.
  unfoldable pub issue : List ℕ → Issuing → Option Issuing
  unfolding issue_all
  issue queue s =
      issue_all queue
        (record s { scheduler = record s.scheduler { occupied = [] }; kept = []; ready_insns = [] })
