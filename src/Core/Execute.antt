-- ===== src/Core/Execute.antt =====
-- `Core::execute` (sim/src/core.cpp): a cycle of the operations in flight. The accelerator and the
-- memory are interfaces.
use cisim.Prelude.{
  ℕ, ◌+◌, ◌-◌, ◌^◌, Bool, true, false, not, ◌&&◌, ◌==◌, if◌then◌else◌, List, [], ◌∷◌, Option, some,
  ◌>>=◌, ◌>>◌, assert,
}
use cisim.Operation.{is_call, is_status, finished, sleep, execute, set_finish, modify}
use cisim.LsUnit.{MemPort}
use cisim.LsUnit.Process.{process}
use cisim.Core.{Core, StaticInsn, release_units}

-- What the core asks of the accelerator and of the data-flow units (sim/include/accel.h).
pub record AccelPort (Accel : Type 0) : Type 0 where
  pub switch_context : Accel → ℕ → Accel
  pub has_unit : Accel → ℕ → Bool
  pub notify : Accel → ℕ → ℕ → ℕ → Accel
  pub get_data : Accel → ℕ → ℕ → Accel × Bool

module _ (info : ℕ → StaticInsn) (Accel : Type 0) (accel : AccelPort Accel) where
  -- A call that starts the accelerator, for which that takes the call.
  unfoldable pub offload_call : Core → Accel → ℕ → Core × Accel
  offload_call c a op =
      if is_call (c.ops op)
        && ((info op).is_offload_call && (not c.offloading && not (c.offloaded op)))
      then (
        record c {
          offloading = true;
          rollback = false;
          offloaded = λ p. if op == p then true else c.offloaded p;
          offload_number = c.offload_number + 1;
        },
        accel.switch_context a op,
      )
      else (c, a)

  -- A packing function notifies its unit once; the offset is -1 then.
  unfoldable pub notify_unit : Core → Accel → ℕ → Option (Core × Accel)
  notify_unit c a op =
      let o = c.ops op in
      if c.dyser && (o.is_packing_func && not (o.offset == 2 ^ 32 - 1))
      then (assert (accel.has_unit a o.dyser_unit_id)
          >> some (
            record c { ops = modify c.ops op (λ o. record o { offset = 2 ^ 32 - 1 }) },
            accel.notify a o.dyser_unit_id o.offset (info op).stride,
          ))
      else some (c, a)

  -- An extract function is finished once its unit has the data.
  unfoldable pub extract_data : Core → Accel → ℕ → Option (Core × Accel)
  extract_data c a op =
      let o = c.ops op in
      if c.dyser && o.is_extract_func
      then (do
        assert (not (o.offset == 2 ^ 32 - 1))
        assert (accel.has_unit a o.dyser_unit_id)
        let (a', there) = accel.get_data a o.dyser_unit_id o.offset
        some (if there then record c { ops = modify c.ops op (set_finish true) } else c, a'))
      else some (c, a)

  -- What follows for an operation that is not finished.
  unfoldable pub advance : Core → Accel → ℕ → Option (Core × Accel)
  unfolding release_units notify_unit extract_data
  advance c a op = do
    let ops = modify c.ops op execute
    s ← if is_status (ops op).status sleep then release_units c.scheduler op else some c.scheduler
    (c1, a1) ← notify_unit (record c { ops = ops; scheduler = s }) a op
    extract_data c1 a1 op

  unfoldable pub execute_one : Core → Accel → ℕ → Option (Core × Accel)
  unfolding offload_call advance
  execute_one c a op =
      let (c', a') = offload_call c a op in
      if is_status (c'.ops op).status finished then some (c', a') else advance c' a' op

  unfoldable pub execute_all : List ℕ → Core → Accel → Option (Core × Accel)
  unfolding execute_one
  execute_all [] c a = some (c, a)
  execute_all (op ∷ insns) c a = execute_one c a op >>= λ (c', a'). execute_all insns c' a'

  -- `execute`, with the memory that the load and store unit reaches.
  unfoldable pub execute_cycle :
      (Cache : Type 0) → MemPort Cache → Core → Cache → Accel → Option (Core × Cache × Accel)
  unfolding execute_all process
  execute_cycle Cache mem c cache a = do
    (c', a') ← execute_all c.in_flight_insn c a
    (ops, lsu, cache') ← process Cache mem (c'.ops, c'.lsu, cache)
    some (record c' { ops = ops; lsu = lsu }, cache', a')
