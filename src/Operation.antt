-- ===== src/Operation.antt =====
-- The dynamic operations of the pipeline (sim/include/task/dyn_insn.h and
-- sim/src/task/dyn_insn.cpp): their status machine. An operation is shared by pointer between the
-- reorder buffer and the load and store queues, so a pointer is a number and the objects are a store.
mod Life
pub mod Modify
use cisim.Prelude.{
  ℕ, zero, suc, ◌+◌, Bool, true, false, not, ◌&&◌, ◌||◌, leb, ◌==◌, if◌then◌else◌, List, [], update,
}

pub data Status : Type 0 where
  init allocated ready issued executing finished commited sleep : Status

-- The `enum` as a number, for `>=` and `==`.
abbrev pub rank : Status → ℕ
rank init = 0
rank allocated = 1
rank ready = 2
rank issued = 3
rank executing = 4
rank finished = 5
rank commited = 6
rank sleep = 7

abbrev pub is_status : Status → Status → Bool
is_status s t = rank s == rank t

abbrev pub at_least : Status → Status → Bool
at_least s t = leb (rank t) (rank s)

-- The subclass of an operation, as far as these parts ask for it.
pub data Kind : Type 0 where
  load store branch call other : Kind

-- `finish_flag` is the field `finished`. `dyser_unit_id` and `offset` are the bit patterns of their
-- `int`s. The ports and the links to static instructions are not kept.
pub record Operation : Type 0 where
  pub kind : Kind
  pub dyn_id : ℕ
  pub addr : ℕ
  pub status : Status
  pub finish_flag : Bool
  pub is_squashed : Bool
  pub mispredict : Bool
  pub current_cycle : ℕ
  pub total_cycle : ℕ
  pub cycle : ℕ
  pub dyn_deps : List ℕ
  pub read_rf_uids : List ℕ
  pub dispatch_cycle : ℕ
  pub execute_cycle : ℕ
  pub writeback_cycle : ℕ
  pub retire_cycle : ℕ
  pub is_extract_func : Bool
  pub is_packing_func : Bool
  pub dyser_unit_id : ℕ
  pub offset : ℕ

-- The objects behind the pointers.
abbrev pub Ops : Type 0
Ops = ℕ → Operation

abbrev pub is_load : Operation → Bool
is_load o = elim o.kind [ load ↦ true | _ ↦ false ]

abbrev pub is_store : Operation → Bool
is_store o = elim o.kind [ store ↦ true | _ ↦ false ]

abbrev pub is_br : Operation → Bool
is_br o = elim o.kind [ branch ↦ true | _ ↦ false ]

abbrev pub is_call : Operation → Bool
is_call o = elim o.kind [ call ↦ true | _ ↦ false ]

abbrev pub next_status : Status → Status
next_status init = allocated
next_status allocated = ready
next_status ready = issued
next_status issued = executing
next_status executing = finished
next_status finished = commited
next_status commited = commited
next_status sleep = sleep

unfoldable pub update_status : Operation → Operation
update_status o = record o { status = next_status o.status }

unfoldable pub set_status : Status → Operation → Operation
set_status s o = record o { status = s }

unfoldable pub set_finish : Bool → Operation → Operation
set_finish f o = record o { finish_flag = f }

-- The status of a load moves on in the load and store unit.
unfoldable pub execute : Operation → Operation
unfolding update_status
execute o =
    let moved = if not (is_load o) && is_status o.status issued then update_status o else o in
    record moved { current_cycle = o.current_cycle + 1 }

-- `finish`: a load and an extract function also wait for their data.
unfoldable pub finish : Operation → Bool
finish o =
    let enough = leb o.total_cycle o.current_cycle in
    elim o.kind [
      | load ↦ o.finish_flag && enough
      | call ↦ if o.is_extract_func then o.finish_flag && enough else enough
      | _ ↦ enough
    ]

-- `reset`, of the fields that are kept here.
unfoldable pub reset : Operation → Operation
reset o = record o {
  current_cycle = 0;
  finish_flag = if is_load o || is_store o then false else o.finish_flag;
  is_squashed = false;
  status = init;
  dispatch_cycle = 0;
  execute_cycle = 0;
  writeback_cycle = 0;
  retire_cycle = 0;
  dyn_deps = [];
  mispredict = false;
}

-- A write through a pointer.
abbrev pub modify : Ops → ℕ → (Operation → Operation) → Ops
modify ops p f = update ops p (f (ops p))
