-- ===== src/RequestOrderingUnit/Tests.antt =====
-- Two requests of one unit and offset in the request ordering unit (sim/src/rou.cpp), and the theorems
-- at them.
use cisim.Prelude.{ℕ, ◌≡◌, refl, true, false, [], ◌∷◌, some}
use cisim.Operation.{Operation, Kind, Status}
use cisim.RequestOrderingUnit.{
  ReorderBuffer, init, hash_two_ints, hash_of, add_instruction, can_issue, release_entry,
}
use cisim.RequestOrderingUnit.Order.{Holds, ids_of, add_instruction-Holds, release_entry-Holds}

abbrev request : ℕ → Operation
request n = record {
  kind = Kind.call;
  dyn_id = n;
  addr = 0;
  status = Status.ready;
  finish_flag = false;
  is_squashed = false;
  mispredict = false;
  current_cycle = 0;
  total_cycle = 1;
  cycle = 0;
  dyn_deps = [];
  read_rf_uids = [];
  dispatch_cycle = 0;
  execute_cycle = 0;
  writeback_cycle = 0;
  retire_cycle = 0;
  is_extract_func = false;
  is_packing_func = true;
  dyser_unit_id = 2;
  offset = 1;
}

init-Holds : Holds init []
unfolding init
init-Holds hash = refl

one-Holds : Holds (add_instruction init (request 5)) (request 5 ∷ [])
one-Holds = add_instruction-Holds init [] (request 5) init-Holds

add_instruction-Holds_example :
    Holds
      (add_instruction (add_instruction init (request 5)) (request 8))
      (request 5 ∷ request 8 ∷ [])
add_instruction-Holds_example =
    add_instruction-Holds (add_instruction init (request 5)) (request 5 ∷ []) (request 8) one-Holds

abbrev two_requests : ReorderBuffer
two_requests = add_instruction (add_instruction init (request 5)) (request 8)

two-Holds : Holds two_requests (request 5 ∷ request 8 ∷ [])
two-Holds =
    add_instruction-Holds (add_instruction init (request 5)) (request 5 ∷ []) (request 8) one-Holds

two_ids : ids_of (hash_of (request 8)) (request 5 ∷ request 8 ∷ []) ≡ 5 ∷ 8 ∷ []
unfolding hash_two_ints
two_ids = refl

release_entry-Holds_example :
    (can_issue two_requests (request 8) ≡ some false)
    × ((buffer' : ReorderBuffer) × (release_entry two_requests (request 8) ≡ some buffer')
        × Holds buffer' (request 5 ∷ request 8 ∷ []))
release_entry-Holds_example =
    release_entry-Holds two_requests (request 5 ∷ request 8 ∷ []) (request 8) 5 (8 ∷ []) two-Holds
      refl two_ids
