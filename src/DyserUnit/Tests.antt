-- ===== src/DyserUnit/Tests.antt =====
-- A unit with a sum of two inputs and its double (sim/src/accel.cpp).
use cisim.Prelude.{ℕ, ◌+◌, ◌≡◌, refl, false, List, [], ◌∷◌, some, ◌>>=◌, zero, suc}
use cisim.Prelude.Dict.{lookup}
use cisim.Prelude.Dict
use cisim.Operation.{Ops, Status, Kind, finish}
use cisim.DyserUnit.{
  DyserUnit, Fifo, notify, int_of, tick, process_queue, get_data, commit_all, commit_insn,
  start_all, start_insn, check_data_ready, take_tokens,
}

abbrev deps : ℕ → List ℕ
deps zero = []
deps (suc zero) = 0 ∷ 1 ∷ []
deps (suc (suc zero)) = 3 ∷ []
deps (suc (suc (suc p))) = []

abbrev fifos : ℕ → Fifo
fifos zero = []
fifos (suc zero) = (0, 1) ∷ (1, 1) ∷ []
fifos (suc (suc zero)) = (3, 0) ∷ []
fifos (suc (suc (suc p))) = []

-- Operation 1 has number 3, waits for the inputs 0 and 1, and its result is input 3 of operation 2.
abbrev objects : Ops
objects p = record {
  kind = Kind.other;
  dyn_id = 2 + p;
  addr = 0;
  status = Status.init;
  finish_flag = false;
  is_squashed = false;
  mispredict = false;
  current_cycle = 0;
  total_cycle = 0;
  cycle = 0;
  dyn_deps = deps p;
  read_rf_uids = [];
  dispatch_cycle = 0;
  execute_cycle = 0;
  writeback_cycle = 0;
  retire_cycle = 0;
  is_extract_func = false;
  is_packing_func = false;
  dyser_unit_id = 0;
  offset = 0;
}

abbrev uid : ℕ → ℕ
uid p = 50 + p

abbrev opcode : ℕ → ℕ
opcode p = 13

abbrev unit : DyserUnit
unit = record {
  reservation = 1 ∷ 2 ∷ [];
  output_fifo = (4, 0) ∷ [];
  internal_fifo_per_insn = fifos;
  inflight_queue = (52, 2) ∷ [];
  offset_dyn_id_map = (0, 4) ∷ [];
  insn_count_map = [];
  cycles = 0;
}

-- The operation in flight gives its token to the output, and the sum starts.
tick_example :
    (tick uid opcode objects unit >>= λ r.
    get_data r.1 0 >>= λ d. some (d.0.output_fifo ∷ d.0.inflight_queue ∷ []))
    ≡ some (((4, 0) ∷ []) ∷ ((51, 1) ∷ []) ∷ [])
unfolding tick process_queue get_data commit_all commit_insn start_all start_insn check_data_ready
    take_tokens notify int_of lookup Dict.insert finish
tick_example = refl
