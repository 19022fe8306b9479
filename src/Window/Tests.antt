-- ===== src/Window/Tests.antt =====
-- A window with a reorder buffer of four entries on concrete inputs (sim/src/window.cpp), and the
-- theorems at it.
use cisim.Prelude.{ℕ, List, ◌≡◌, refl, arith, false, [], ◌∷◌, none, some, if◌then◌else◌, ltb, ◌==◌}
use cisim.Prelude.Dict.{lookup}
use cisim.Prelude.Dict
use cisim.Prelude.DictOrder.{remove_item_by_value}
use cisim.Operation.{Ops, Kind, Status}
use cisim.LsUnit.{LsUnit}
use cisim.LsUnit
use cisim.LoadStoreQueue.{new_entry}
use cisim.LoadStoreQueue.Add.{added}
use cisim.LoadStoreQueue
use cisim.Window.Retire.{Sourced}
use cisim.Window.{dispatch, Window, Retired, init, add_instruction, if_rob_full, retire_instruction}
use cisim.Window.Ring.{IsRing, init-IsRing, pushed, pushed-IsRing, add_instruction-IsRing}
use cisim.Window.Dispatch.{AreNew, Dispatches, dispatch-Dispatches}
use cisim.Window.InOrder.{Residents, Retires, retire_instruction-Retires}

-- Pointer p has the number p; the operations below 4 are finished, and operation 3 is a load.
abbrev objects : Ops
objects p = record {
  kind = if p == 3 then Kind.load else Kind.other;
  dyn_id = p;
  addr = 0;
  status = if ltb p 4 then Status.finished else Status.ready;
  finish_flag = false;
  is_squashed = false;
  mispredict = false;
  current_cycle = 0;
  total_cycle = 1;
  cycle = 0;
  dyn_deps = [];
  read_rf_uids = [];
  dispatch_cycle = 0;
  execute_cycle = 0;
  writeback_cycle = 0;
  retire_cycle = 0;
  is_extract_func = false;
  is_packing_func = false;
  dyser_unit_id = 0;
  offset = 0;
}

abbrev new_window : Window
new_window = init 2 2 4 8

new_window-IsRing : IsRing objects new_window []
new_window-IsRing = init-IsRing objects 2 2 4 8 (omega arith)

new_fresh : lookup 3 new_window.op_entry_map ≡ none
unfolding init lookup
new_fresh = refl

not_full : if_rob_full new_window ≡ some false
unfolding init
not_full = refl

add_instruction-IsRing_example :
    (w' : Window) × (add_instruction objects new_window 3 ≡ some w') × IsRing objects w' (3 ∷ [])
add_instruction-IsRing_example =
    add_instruction-IsRing objects new_window [] 3 new_window-IsRing not_full new_fresh

abbrev one_in_flight : Window
one_in_flight = pushed objects new_window [] 3 new_window-IsRing

one-IsRing : IsRing objects one_in_flight (3 ∷ [])
unfolding init
one-IsRing = pushed-IsRing objects new_window [] 3 new_window-IsRing (omega arith) new_fresh

-- The load sits in its queue.
abbrev one_load : LsUnit
one_load = record (LsUnit.init 2 2) { ldq = added objects (LoadStoreQueue.init 2) 3 0 }

load_sits : Residents one_load objects (3 ∷ [])
unfolding LsUnit.init LoadStoreQueue.init lookup Dict.insert remove_item_by_value
load_sits = ((0, new_entry objects 3, refl, refl, refl, refl), tt)

load-Sourced : Sourced one_load.ldq.queue
unfolding LoadStoreQueue.init
load-Sourced = ((λ h. absurd (cc)), ((λ h. absurd (cc)), tt))

abbrev start : Retired
start = record { ops = objects; window = one_in_flight; func_cycle = 0; counted = [] }

retire_instruction-Retires_example :
    (r' : Retired) × (retire_instruction one_load 9 start ≡ some r') × Retires 2 (3 ∷ []) start r'
unfolding init
retire_instruction-Retires_example =
    retire_instruction-Retires one_load 9 start (3 ∷ []) one-IsRing load_sits load-Sourced

new_fresh_two : AreNew objects new_window (3 ∷ 5 ∷ [])
unfolding init lookup
new_fresh_two = (refl, ((λ e. absurd (omega (arith, e))), tt), (refl, tt, tt))

dispatch-Dispatches_example :
    (w' : Window) × (rest : List ℕ) × (issued : List ℕ) × (dispatch objects new_window (3 ∷ 5 ∷ [])
      ≡ some (w', rest, issued))
    × Dispatches objects 2 [] (3 ∷ 5 ∷ []) [] new_window w' rest issued
unfolding init
dispatch-Dispatches_example =
    dispatch-Dispatches objects new_window [] (3 ∷ 5 ∷ []) new_window-IsRing new_fresh_two
