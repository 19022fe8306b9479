-- ===== src/DyserUnit/Process.antt =====
-- A cycle of a data-flow unit (`DyserUnit::processQueue` of sim/src/accel.cpp).
use cisim.Prelude.{ℕ, ◌+◌, ◌≡◌, true, false, ◌&&◌, ◌==◌, if◌then◌else◌, List, [], ◌∷◌, ◌++◌, All}
use cisim.Prelude.Dict.{lookup}
use cisim.Prelude.Dict
use cisim.PriorityQueue.{tally}
use cisim.Operation.{Operation, Ops, execute, finish, modify}
use cisim.DyserUnit.{DyserUnit, Fifo, value_of, int_of, is_active}
use cisim.DyserUnit.Tokens.{is_some}
use cisim.DyserUnit.Start.{tokens, has_input, IsWired, taken_by, with_started, Rests}

-- A map that has got a token on `key`, if that is one of its inputs.
abbrev Adds : ℕ → ℕ → Fifo → Fifo → Type 0
Adds key k m m' =
    (value_of k m' ≡ value_of k m + (if key == k && is_some (lookup k m) then 1 else 0))
    × (is_some (lookup k m') ≡ is_some (lookup k m))

-- The instructions of a queue that are finished when their turn comes, in order. Another one executes.
abbrev pub finishing : Ops → List (ℕ × ℕ) → List ℕ
finishing ops [] = []
finishing ops ((key, op) ∷ queue) = elim (finish (ops op)) [
  | true ↦ op ∷ finishing ops queue
  | false ↦ finishing (modify ops op execute) queue
]

-- The others, which stay in flight.
abbrev pub remaining : Ops → List (ℕ × ℕ) → List (ℕ × ℕ)
remaining ops [] = []
remaining ops ((key, op) ∷ queue) = elim (finish (ops op)) [
  | true ↦ remaining ops queue
  | false ↦ (key, op) ∷ remaining (modify ops op execute) queue
]

-- The operations once those others have executed for a cycle.
abbrev pub executed : Ops → List (ℕ × ℕ) → Ops
executed ops [] = ops
executed ops ((key, op) ∷ queue) = elim (finish (ops op)) [
  | true ↦ executed ops queue
  | false ↦ executed (modify ops op execute) queue
]

-- What the end of `q` gives to input `k` of a map: a token, if its number as an `int` is that input.
abbrev pub given_by : Ops → Fifo → ℕ → ℕ → ℕ
given_by ops m k q = if int_of (ops q).dyn_id == k && is_some (lookup k m) then 1 else 0

-- The instructions `finished` give a token to all that use them.
record Finishes (ops : Ops) (u : DyserUnit) (finished : List ℕ) (ops' : Ops) (u' : DyserUnit)
    : Type 0 where
  balance :
      (p k : ℕ)
      → tokens p k u' ≡ tokens p k u + tally (given_by ops (u.internal_fifo_per_insn p) k) finished
  output :
      (k : ℕ)
      → value_of k u'.output_fifo
        ≡ value_of k u.output_fifo + tally (given_by ops u.output_fifo k) finished
  inputs_kept : (p k : ℕ) → has_input p k u' ≡ has_input p k u
  outputs_kept : (k : ℕ) → is_some (lookup k u'.output_fifo) ≡ is_some (lookup k u.output_fifo)
  numbers : (p : ℕ) → (ops' p).dyn_id ≡ (ops p).dyn_id
  deps : (p : ℕ) → (ops' p).dyn_deps ≡ (ops p).dyn_deps
  reserved : u'.reservation ≡ u.reservation

module _ (opcode : ℕ → ℕ) where
  -- The result of the first loop.
  abbrev Commits : List (ℕ × ℕ) → List (ℕ × ℕ) → Ops → DyserUnit → Ops × DyserUnit → Type 0
  Commits kept queue ops u r =
      Finishes ops u (finishing ops queue) r.0 r.1
      × (r.1.inflight_queue ≡ kept ++ remaining ops queue)
      × (r.0 ≡ executed ops queue)

-- What a cycle does to the tokens and the instructions: those that finish give a token to each input of
-- their number, those that start take one of each of their inputs.
pub record Flows (uid : ℕ → ℕ) (ops : Ops) (u : DyserUnit) (started : List ℕ) (ops' : Ops)
    (u' : DyserUnit) : Type 0 where
  pub balance :
      (p k : ℕ)
      → tokens p k u' + tally (taken_by ops p k) started
        ≡ tokens p k u
          + tally (given_by ops (u.internal_fifo_per_insn p) k) (finishing ops u.inflight_queue)
  pub output :
      (k : ℕ)
      → value_of k u'.output_fifo
        ≡ value_of k u.output_fifo
          + tally (given_by ops u.output_fifo k) (finishing ops u.inflight_queue)
  pub flight : u'.inflight_queue ≡ with_started uid started (remaining ops u.inflight_queue)
  pub moves : ops' ≡ executed ops u.inflight_queue
  pub running : All (λ q. is_active uid u' q ≡ true) started
  pub rests : All (Rests uid ops' u') u.reservation
  pub wired : IsWired ops' u'
