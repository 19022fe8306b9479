-- ===== src/Window.antt =====
-- The instruction window and reorder buffer (`Window` of sim/include/window.h and
-- sim/src/window.cpp).
pub mod Ring
pub mod Retire
pub mod Pop
pub mod Dispatch
pub mod InOrder
mod Tests
use cisim.Prelude.{
  ℕ, zero, suc, ◌+◌, ◌-◌, ◌*◌, ◌%◌, ◌^◌, Bool, true, false, not, ◌&&◌, ◌||◌, ltb, leb, ◌==◌,
  if◌then◌else◌, List, [], ◌∷◌, ◌++◌, get_elem?, set, replicate, Option, none, some, ◌>>=◌, ◌>>◌,
  assert, update,
}
use cisim.Prelude.Dict.{lookup}
use cisim.Prelude.Dict
use cisim.Prelude.DictOrder.{remove_item_by_value}
use cisim.Operation.{
  Operation, Ops, is_load, is_store, is_br, is_call, is_status, finished, update_status, reset,
  modify,
}
use cisim.LsUnit.{LsUnit, should_flush, commit_in_queues}

-- `op` is a pointer to an operation.
pub record RobEntry : Type 0 where
  pub op : ℕ
  pub empty : Bool

abbrev pub empty_entry : RobEntry
empty_entry = record { op = 0; empty = true }

-- The queue `issueQueue` is never used.
pub record Window : Type 0 where
  pub window_size : ℕ
  pub retire_size : ℕ
  pub rob_size : ℕ
  pub issue_queue_capacity : ℕ
  pub issue_queue_used : ℕ
  pub rob : List RobEntry
  pub op_entry_map : List (ℕ × ℕ)
  pub rob_head : ℕ
  pub rob_tail : ℕ
  pub rob_used : ℕ
  pub total_commit : ℕ
  pub mispredict_num : ℕ
  pub total_predict_num : ℕ
  pub rb_not_retire_slot : ℕ

unfoldable pub init : ℕ → ℕ → ℕ → ℕ → Window
init window_size retire_size rob_size issue_queue_size = record {
  window_size = window_size;
  retire_size = retire_size;
  rob_size = rob_size;
  issue_queue_capacity = issue_queue_size;
  issue_queue_used = 0;
  rob = replicate rob_size empty_entry;
  op_entry_map = [];
  rob_head = 0;
  rob_tail = 0;
  rob_used = 0;
  total_commit = 0;
  mispredict_num = 0;
  total_predict_num = 0;
  rb_not_retire_slot = 0;
}

-- `canDispatch`
abbrev pub can_dispatch : Window → Bool
can_dispatch w = ltb w.issue_queue_used w.issue_queue_capacity

abbrev pub increment_issue_queue_used : Window → Window
increment_issue_queue_used w = record w { issue_queue_used = w.issue_queue_used + 1 }

-- The model stops where the counter would go below 0.
abbrev pub decrement_issue_queue_used : Window → Option Window
decrement_issue_queue_used w = do
  assert (ltb 0 w.issue_queue_used)
  some (record w { issue_queue_used = w.issue_queue_used - 1 })

-- `ifROBFull` and `ifROBEmpty`; an index out of range is a fault.
abbrev pub if_rob_full : Window → Option Bool
if_rob_full w = get_elem? w.rob w.rob_tail >>= λ e. some (not e.empty)

abbrev pub if_rob_empty : Window → Option Bool
if_rob_empty w = get_elem? w.rob w.rob_head >>= λ e. some e.empty

abbrev pub is_none {ℓ} : {A : Type ℓ} → Option A → Bool
is_none none = true
is_none (some a) = false

unfoldable pub add_instruction : Ops → Window → ℕ → Option Window
add_instruction ops w op = do
  assert (is_none (lookup (ops op).dyn_id w.op_entry_map))
  old ← get_elem? w.rob w.rob_tail
  some (record w {
    rob = set w.rob w.rob_tail (record { op = op; empty = false });
    op_entry_map =
        Dict.insert (ops op).dyn_id w.rob_tail (remove_item_by_value w.op_entry_map w.rob_tail);
    rob_tail = (w.rob_tail + 1) % w.rob_size;
    rob_used = w.rob_used + 1;
  })

-- The loop of `dispatch`, for at most `n` operations: the rest of the queue and those to issue.
unfoldable pub dispatch_up_to :
    Ops → ℕ → Window → List ℕ → List ℕ → Option (Window × List ℕ × List ℕ)
dispatch_up_to ops zero w queue issued = some (w, queue, issued)
dispatch_up_to ops (suc n) w [] issued = some (w, [], issued)
dispatch_up_to ops (suc n) w (op ∷ queue) issued = do
  full ← if can_dispatch w then if_rob_full w else some true
  elim full [
    | true ↦ some (w, op ∷ queue, issued)
    | false ↦ add_instruction ops (increment_issue_queue_used w) op >>= λ w'.
        dispatch_up_to ops n w' queue (issued ++ (op ∷ []))
  ]

unfoldable pub dispatch : Ops → Window → List ℕ → Option (Window × List ℕ × List ℕ)
dispatch ops w queue = dispatch_up_to ops w.window_size w queue []

-- What the retirement of one operation changes: the operations, the window, the sum of the cycles of
-- calls, and the operations given to the statistics, in order.
pub record Retired : Type 0 where
  pub ops : Ops
  pub window : Window
  pub func_cycle : ℕ
  pub counted : List ℕ

-- `memOrdering` for a store.
unfoldable pub memory_check : LsUnit → Ops → ℕ → Option Bool
memory_check lsu ops op = if is_store (ops op) then should_flush ops lsu op else some false

-- The commit of `op`, whose kind is that of `o`.
unfoldable pub commit_head : LsUnit → Ops → ℕ → Operation → Option Ops
commit_head lsu ops op o =
    if is_load o || is_store o
    then commit_in_queues ops lsu op
    else some (modify ops op update_status)

-- The state after a round. A 64-bit counter takes the slots that are left, also where their number
-- is negative.
abbrev pub after_head : Retired → ℕ → ℕ → Ops → Retired
after_head r n op committed =
    let w = r.window in
    let o = r.ops op in
    record {
      ops = committed;
      window = record w {
        rob = set w.rob w.rob_head (record { op = op; empty = true });
        rob_head = (w.rob_head + 1) % w.rob_size;
        rob_used = w.rob_used - 1;
        total_commit = w.total_commit + 1;
        total_predict_num = w.total_predict_num + (if is_br o then 1 else 0);
        mispredict_num = w.mispredict_num + (if is_br o then if o.mispredict then 1 else 0 else 0);
        rb_not_retire_slot = (w.rb_not_retire_slot + (w.retire_size + 2 ^ 64 - (n + 1))) % 2 ^ 64;
      };
      func_cycle = r.func_cycle + (if is_call o then o.cycle else 0);
      counted = r.counted ++ (op ∷ []);
    }

-- The body of the loop of `retireInstruction` for the operation at the head, with `n` before it. A
-- flush is never requested: `flush` stays false.
unfoldable pub retire_one : LsUnit → ℕ → ℕ → Retired → ℕ → Option Retired
retire_one lsu cycle n r op = do
  mem_ordering ← memory_check lsu r.ops op
  let stamped = modify r.ops op (λ o. record o { retire_cycle = cycle })
  committed ← commit_head lsu stamped op (r.ops op)
  some (after_head r n op committed)

-- The test of the loop: the operation at the head, if it is finished.
abbrev pub head_finished : Ops → Window → Option (Option ℕ)
head_finished ops w = get_elem? w.rob w.rob_head >>= λ e.
    some (if not e.empty && is_status (ops e.op).status finished then some e.op else none)

-- The loop, with `left` rounds to go.
unfoldable pub retire_up_to : LsUnit → ℕ → ℕ → ℕ → Retired → Option Retired
retire_up_to lsu cycle zero n r = some r
retire_up_to lsu cycle (suc left) n r = do
  head ← head_finished r.ops r.window
  elim head [
    | none ↦ some r
    | some op ↦ retire_one lsu cycle n r op >>= λ r'. retire_up_to lsu cycle left (suc n) r'
  ]

-- `n >= retireSize` ends the loop after one round at the earliest.
unfoldable pub retire_instruction : LsUnit → ℕ → Retired → Option Retired
retire_instruction lsu cycle r =
    retire_up_to lsu cycle (if r.window.retire_size == 0 then 1 else r.window.retire_size) 0 r

-- A dependency that has an entry in use must be finished; one without an entry in the map is read
-- from a register. The result pairs the two.
unfoldable pub check_deps : Ops → Window → List ℕ → Option (Bool × List ℕ)
check_deps ops w [] = some (true, [])
check_deps ops w (dep ∷ deps) = do
  (ready, reads) ← check_deps ops w deps
  elim (lookup dep w.op_entry_map) [
    | none ↦ some (ready, dep ∷ reads)
    | some i ↦ get_elem? w.rob i >>= λ e.
        some ((e.empty || is_status (ops e.op).status finished) && ready, reads)
  ]

-- `canIssue` with `checkInsnReady`.
unfoldable pub can_issue : Ops → Window → ℕ → Option (Ops × Bool)
can_issue ops w op = do
  assert (not (is_none (lookup (ops op).dyn_id w.op_entry_map)))
  (ready, reads) ← check_deps ops w (ops op).dyn_deps
  some (if ready then modify ops op (λ o. record o { read_rf_uids = reads }) else ops, ready)

-- The loop of `flush`: the objects after it, and the reset clones of the younger operations.
unfoldable pub squash_younger : Ops → ℕ → List RobEntry → Ops × List Operation
squash_younger ops flush_dyn_id [] = (ops, [])
squash_younger ops flush_dyn_id (e ∷ es) =
    let younger = not e.empty && ltb flush_dyn_id (ops e.op).dyn_id in
    let marked = if younger then modify ops e.op (λ o. record o { is_squashed = true }) else ops in
    let (ops', clones) = squash_younger marked flush_dyn_id es in
    (ops', if younger then reset (ops e.op) ∷ clones else clones)

unfoldable pub flush : Ops → Window → ℕ → Ops × Window × List Operation
flush ops w flush_dyn_id =
    let (ops', clones) = squash_younger ops flush_dyn_id w.rob in
    (
      ops',
      record w {
        rob = replicate w.rob_size empty_entry;
        op_entry_map = [];
        rob_head = 0;
        rob_tail = 0;
        rob_used = 0;
        issue_queue_used = 0;
      },
      clones,
    )
