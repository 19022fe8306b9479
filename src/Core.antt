-- ===== src/Core.antt =====
-- The back end of the core (`Core` of sim/include/core.h and sim/src/core.cpp): dispatch, issue,
-- execution, write-back and commit over the parts that keep the state.
pub mod Execute
pub mod Back
pub mod Dispatch
mod Tests
use cisim.Prelude.{
  ℕ, zero, suc, ◌+◌, Bool, true, false, not, ◌&&◌, ◌||◌, ltb, leb, ◌==◌, if◌then◌else◌, List, [],
  ◌∷◌, ◌++◌, length, Option, none, some, ◌>>=◌, ◌>>◌, assert,
}
use cisim.Prelude.Dict.{lookup}
use cisim.Prelude.Dict
use cisim.Operation.{
  Operation, Ops, Status, is_status, init, executing, finished, commited, update_status, set_status,
  finish, modify,
}
use cisim.LsUnit.{LsUnit, add_to_queues, wb, executing_loads}
use cisim.LsUnit
use cisim.RequestOrderingUnit.{ReorderBuffer}
use cisim.RequestOrderingUnit
use cisim.Window.{
  Window, Retired, increment_issue_queue_used, if_rob_full, if_rob_empty, retire_instruction,
}
use cisim.Window
use cisim.IssueUnit.{Demand, free_fu}
use cisim.IssueUnit.Schedule.{Scheduler}
use cisim.IssueUnit.Issue.{Issuing}
use cisim.IssueUnit.Issue

-- What the static instruction of an operation and its configuration say.
pub record StaticInsn : Type 0 where
  pub uid : ℕ
  pub static_deps : List ℕ
  pub demand : Demand
  pub is_encapsulate_func : Bool
  pub is_extract_value : Bool
  pub is_offload_call : Bool
  pub stride : ℕ

-- The fields of these stages. The field `offloaded` of a call is a function of the call.
pub record Core : Type 0 where
  pub ops : Ops
  pub window : Window
  pub lsu : LsUnit
  pub rou : ReorderBuffer
  pub scheduler : Scheduler
  pub insn_queue : List ℕ
  pub issue_queue : List ℕ
  pub in_flight_insn : List ℕ
  pub uid_dyn_op_map : List (ℕ × ℕ)
  pub cycles : ℕ
  pub func_cycles : ℕ
  pub counted : List ℕ
  pub offloading : Bool
  pub rollback : Bool
  pub dyser : Bool
  pub offloaded : ℕ → Bool
  pub offload_number : ℕ
  pub rs_empty_cycles : ℕ
  pub stalls_mem_any : ℕ
  pub stalls_total : ℕ
  pub cstm_insn_stall : ℕ
  pub packing_insn_stall : ℕ
  pub ext_insn_stall : ℕ
  pub cycles_ge_1_uop_exec : ℕ
  pub cycles_ge_2_uop_exec : ℕ
  pub cycles_ge_3_uop_exec : ℕ

-- The guard of `dispatch`.
unfoldable pub may_dispatch : Core → ℕ → Option Bool
may_dispatch c op =
    if Window.can_dispatch c.window
    then (if_rob_full c.window >>= λ full.
        some (not full && LsUnit.can_dispatch c.ops c.lsu op true))
    else some false

-- An operation enters the reorder buffer, the load and store queues and the request ordering unit.
unfoldable pub dispatch_one : Core → ℕ → Option Core
dispatch_one c op = do
  assert (is_status (c.ops op).status init)
  let ops = modify c.ops op update_status
  window ← Window.add_instruction ops (increment_issue_queue_used c.window) op
  lsu ← add_to_queues ops c.lsu op
  some (record c {
    ops = modify ops op (λ o. record o { dispatch_cycle = c.cycles });
    window = window;
    lsu = lsu;
    rou = RequestOrderingUnit.add_instruction c.rou (ops op);
  })

-- The loop of `dispatch`, for at most `n` operations: the core, with what is left of the queue, and
-- those dispatched.
unfoldable pub dispatch_up_to : ℕ → Core → List ℕ → List ℕ → Option (Core × List ℕ × List ℕ)
unfolding may_dispatch dispatch_one
dispatch_up_to zero c queue dispatched = some (c, queue, dispatched)
dispatch_up_to (suc n) c [] dispatched = some (c, [], dispatched)
dispatch_up_to (suc n) c (op ∷ queue) dispatched = do
  may ← may_dispatch c op
  elim may [
    | false ↦ some (c, op ∷ queue, dispatched)
    | true ↦ dispatch_one c op >>= λ c'. dispatch_up_to n c' queue (dispatched ++ op ∷ [])
  ]

-- The numbers of the operations that stand for the dependencies.
abbrev pub dyn_deps_of : Ops → List (ℕ × ℕ) → List ℕ → List ℕ
dyn_deps_of ops m [] = []
dyn_deps_of ops m (dep ∷ deps) = elim (lookup dep m) [
  | none ↦ dyn_deps_of ops m deps
  | some op ↦ (ops op).dyn_id ∷ dyn_deps_of ops m deps
]

module _ (info : ℕ → StaticInsn) where
  -- One round of `insnToIssueQueues`.
  unfoldable pub queue_one : Core → ℕ → Core
  queue_one c op =
      let m = Dict.insert (info op).uid op c.uid_dyn_op_map in
      record c {
        issue_queue = c.issue_queue ++ op ∷ [];
        uid_dyn_op_map = m;
        ops =
            modify c.ops op (λ o. record o {
              dyn_deps = o.dyn_deps ++ dyn_deps_of c.ops m (info op).static_deps;
            });
      }

  -- `insnToIssueQueues`
  unfoldable pub insn_to_issue_queues : List ℕ → Core → Core
  unfolding queue_one
  insn_to_issue_queues [] c = c
  insn_to_issue_queues (op ∷ insns) c = insn_to_issue_queues insns (queue_one c op)

  -- `dispatch`
  unfoldable pub dispatch : Core → Option Core
  unfolding dispatch_up_to insn_to_issue_queues
  dispatch c = do
    (c', queue, dispatched) ← dispatch_up_to c.window.window_size c c.insn_queue []
    some (insn_to_issue_queues dispatched (record c' { insn_queue = queue }))

  -- How many operations in flight execute, of all or of the custom instructions.
  unfoldable pub on_the_fly : Ops → Bool → List ℕ → ℕ
  on_the_fly ops custom [] = 0
  on_the_fly ops custom (op ∷ insns) =
      (if is_status (ops op).status executing && (not custom || (info op).is_encapsulate_func)
        then 1
        else 0)
      + on_the_fly ops custom insns

  -- What `issue` counts where nothing was issued.
  abbrev pub count_stalls : Core → Core
  count_stalls c =
      let loads = executing_loads c.ops c.lsu.ldq.queue in
      record c {
        stalls_mem_any = if ltb 0 loads then c.stalls_mem_any + 1 else c.stalls_mem_any;
        stalls_total = c.stalls_total + 1;
        cstm_insn_stall =
            if ltb 0 (on_the_fly c.ops true c.in_flight_insn) && loads == 0
            then c.cstm_insn_stall + 1
            else c.cstm_insn_stall;
      }

  -- What it counts of the first that was issued.
  abbrev pub count_first : Core → ℕ → Core
  count_first c first =
      let none_flies = on_the_fly c.ops false c.in_flight_insn == 0 in
      record c {
        packing_insn_stall =
            if (c.ops first).is_packing_func && none_flies
            then c.packing_insn_stall + 1
            else c.packing_insn_stall;
        ext_insn_stall =
            if (info first).is_extract_value && none_flies
            then c.ext_insn_stall + 1
            else c.ext_insn_stall;
      }

  abbrev pub count_issued : Core → List ℕ → Core
  count_issued c [] = count_stalls c
  count_issued c (first ∷ insns) =
      let c' = count_first c first in
      let n = length (first ∷ insns) in
      record c' {
        cycles_ge_3_uop_exec =
            if leb 3 n then c.cycles_ge_3_uop_exec + 1 else c.cycles_ge_3_uop_exec;
        cycles_ge_2_uop_exec =
            if leb 2 n then c.cycles_ge_2_uop_exec + 1 else c.cycles_ge_2_uop_exec;
        cycles_ge_1_uop_exec = c.cycles_ge_1_uop_exec + 1;
      }

  -- `issue`
  unfoldable pub issue : Core → Option Core
  unfolding on_the_fly
  issue c = do
    s ←
        Issue.issue (λ op. (info op).demand) c.cycles c.issue_queue
          (record {
            ops = c.ops;
            window = c.window;
            rou = c.rou;
            scheduler = c.scheduler;
            kept = [];
            ready_insns = [];
          })
    empty ← if_rob_empty s.window
    let c' = record c {
      ops = s.ops;
      window = s.window;
      rou = s.rou;
      scheduler = s.scheduler;
      issue_queue = s.kept;
      rs_empty_cycles = if empty then c.rs_empty_cycles + 1 else c.rs_empty_cycles;
    }
    let counted = count_issued c' s.ready_insns
    some (record counted { in_flight_insn = counted.in_flight_insn ++ s.ready_insns })

-- The units of an operation are freed.
unfoldable pub release_units : Scheduler → ℕ → Option Scheduler
release_units s op = do
  (unit, ports) ← free_fu s.unit (s.using op) s.ports
  some (record s { unit = unit; ports = ports; using = λ p. if op == p then [] else s.using p })

-- One round of the loop of `writeBack`.
unfoldable pub write_back_one : Core → ℕ → Option Core
unfolding release_units
write_back_one c op =
    let o = c.ops op in
    let ends = not (is_status o.status finished) && finish o in
    let ops =
      if ends
      then modify c.ops op (λ o. record (set_status finished o) { writeback_cycle = c.cycles })
      else c.ops in
    if is_status (ops op).status finished
    then (release_units c.scheduler op >>= λ s. some (record c { ops = ops; scheduler = s }))
    else some (record c { ops = ops })

unfoldable pub write_back_all : List ℕ → Core → Option Core
unfolding write_back_one
write_back_all [] c = some c
write_back_all (op ∷ insns) c = write_back_one c op >>= λ c'. write_back_all insns c'

-- `writeBack`
unfoldable pub write_back : Core → Option Core
unfolding write_back_all
write_back c = do
  (ops, lsu) ← wb c.ops c.lsu
  write_back_all c.in_flight_insn (record c { ops = ops; lsu = lsu })

-- The operations in flight that are not committed.
abbrev pub still_in_flight : Ops → List ℕ → List ℕ
still_in_flight ops [] = []
still_in_flight ops (op ∷ insns) =
    if is_status (ops op).status commited
    then still_in_flight ops insns
    else op ∷ still_in_flight ops insns

-- `commit`
unfoldable pub commit : Core → Option Core
commit c = do
  r ←
      retire_instruction c.lsu c.cycles
        (record { ops = c.ops; window = c.window; func_cycle = c.func_cycles; counted = c.counted })
  some (record c {
    ops = r.ops;
    window = r.window;
    func_cycles = r.func_cycle;
    counted = r.counted;
    in_flight_insn = still_in_flight r.ops c.in_flight_insn;
  })
