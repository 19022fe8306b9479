-- ===== src/Core/Tests.antt =====
-- A core with a window of two operations before its first dispatch (sim/src/core.cpp).
use cisim.Prelude.{ℕ, ◌+◌, ◌≡◌, refl, arith, false, if◌then◌else◌, ◌==◌, List, [], ◌∷◌, some, ◌>>=◌}
use cisim.Prelude.Dict.{lookup}
use cisim.Prelude.Dict
use cisim.Operation.{Operation, Ops, Status, Kind, update_status, load, store, other}
use cisim.LoadStoreQueue
use cisim.LoadStoreQueue.Valid.{init-IsQueue, replicate-empty}
use cisim.LsUnit
use cisim.RequestOrderingUnit
use cisim.Window
use cisim.Window.Ring.{init-IsRing}
use cisim.IssueUnit
use cisim.Prelude.DictOrder.{remove_item_by_value}
use cisim.Core.{
  Core, StaticInsn, dispatch, dispatch_up_to, may_dispatch, dispatch_one, insn_to_issue_queues,
  queue_one,
}
use cisim.Core.Back.{IsBack}
use cisim.Core.Dispatch.{Dispatches, dispatch-Enters, IsRising}

abbrev object : Kind → ℕ → Operation
object kind id = record {
  kind = kind;
  dyn_id = id;
  addr = 0;
  status = Status.init;
  finish_flag = false;
  is_squashed = false;
  mispredict = false;
  current_cycle = 0;
  total_cycle = 1;
  cycle = 0;
  dyn_deps = [];
  read_rf_uids = [];
  dispatch_cycle = 0;
  execute_cycle = 0;
  writeback_cycle = 0;
  retire_cycle = 0;
  is_extract_func = false;
  is_packing_func = false;
  dyser_unit_id = 0;
  offset = 0;
}

-- A load, a store, and others.
abbrev objects : Ops
objects p = object (if p == 0 then load else if p == 1 then store else other) (10 + p)

-- Each depends on the one before.
abbrev static : ℕ → StaticInsn
static p = record {
  uid = 101 + p;
  static_deps = (100 + p) ∷ [];
  demand = record { port_mapping = []; fus = [] };
  is_encapsulate_func = false;
  is_extract_value = false;
  is_offload_call = false;
  stride = 0;
}

abbrev start : Core
start = record {
  ops = objects;
  window = Window.init 2 2 4 4;
  lsu = LsUnit.init 2 2;
  rou = RequestOrderingUnit.init;
  scheduler = record {
    unit = IssueUnit.init false [] [];
    ports = [];
    using = λ p. [];
    occupied = [];
  };
  insn_queue = 0 ∷ 1 ∷ 2 ∷ [];
  issue_queue = [];
  in_flight_insn = [];
  uid_dyn_op_map = [];
  cycles = 5;
  func_cycles = 0;
  counted = [];
  offloading = false;
  rollback = false;
  dyser = false;
  offloaded = λ p. false;
  offload_number = 0;
  rs_empty_cycles = 0;
  stalls_mem_any = 0;
  stalls_total = 0;
  cstm_insn_stall = 0;
  packing_insn_stall = 0;
  ext_insn_stall = 0;
  cycles_ge_1_uop_exec = 0;
  cycles_ge_2_uop_exec = 0;
  cycles_ge_3_uop_exec = 0;
}

start-IsBack : IsBack start 10 []
unfolding Window.init LsUnit.init LoadStoreQueue.init lookup
start-IsBack = record {
  ring = init-IsRing objects 2 2 4 4 (omega arith);
  units = (init-IsQueue objects 2, init-IsQueue objects 2);
  below = λ k le. refl;
  loads = λ i e r busy. absurd (ground (arith, busy, replicate-empty 2 i e r));
  stores = λ i e r busy. absurd (ground (arith, busy, replicate-empty 2 i e r));
}

start-IsRising : IsRising objects 10 (0 ∷ 1 ∷ 2 ∷ [])
start-IsRising = (omega arith, refl, (omega arith, refl, (omega arith, refl, tt)))

dispatch-Enters_example :
    (c' : Core) × (first : List ℕ) × (dispatch static start ≡ some c')
    × Dispatches start [] first c'
dispatch-Enters_example = dispatch-Enters static start 10 [] start-IsBack start-IsRising

-- The window takes two, and the store depends on the load before it.
dispatch_example :
    (dispatch static start >>= λ c. some (c.insn_queue ∷ c.issue_queue ∷ (c.ops 1).dyn_deps ∷ []))
    ≡ some ((2 ∷ []) ∷ (0 ∷ 1 ∷ []) ∷ (10 ∷ []) ∷ [])
unfolding dispatch dispatch_up_to may_dispatch dispatch_one insn_to_issue_queues queue_one
    Window.init LsUnit.init LoadStoreQueue.init lookup Dict.insert Window.add_instruction
    LsUnit.add_to_queues LsUnit.can_dispatch LoadStoreQueue.add_instruction
    LoadStoreQueue.first_empty RequestOrderingUnit.add_instruction update_status
    remove_item_by_value
dispatch_example = refl
