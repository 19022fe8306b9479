-- ===== src/DyserUnit.antt =====
-- A data-flow unit (`DyserUnit` of sim/include/accel.h and sim/src/accel.cpp): its instructions wait for
-- tokens on their inputs, and a finished one gives a token to all that use it. How the constructor
-- reads the block from LLVM is not part of this.
pub mod Tokens
pub mod Start
pub mod Process
mod Tests
use cisim.Prelude.{
  ℕ, zero, suc, ◌+◌, ◌-◌, ◌%◌, ◌^◌, Bool, true, false, not, ◌&&◌, ltb, ◌==◌, if◌then◌else◌, List,
  [], ◌∷◌, ◌++◌, Option, none, some, ◌>>=◌, ◌>>◌, assert,
}
use cisim.Prelude.Dict.{lookup}
use cisim.Prelude.Dict
use cisim.Operation.{Operation, Ops, execute, finish, modify}

-- A map from inputs to the tokens on them.
abbrev pub Fifo : Type 0
Fifo = List (ℕ × ℕ)

-- An instruction of no unit has no inputs. `inflight_queue` is an `unordered_map`; nothing asks for its
-- order.
pub record DyserUnit : Type 0 where
  pub reservation : List ℕ
  pub output_fifo : Fifo
  pub internal_fifo_per_insn : ℕ → Fifo
  pub inflight_queue : List (ℕ × ℕ)
  pub offset_dyn_id_map : List (ℕ × ℕ)
  pub insn_count_map : List (ℕ × ℕ)
  pub cycles : ℕ

-- One more token, if the map has the input.
abbrev pub add_found : ℕ → Fifo → Option ℕ → Fifo
add_found key m none = m
add_found key m (some n) = Dict.insert key (n + 1) m

abbrev pub add_token : ℕ → Fifo → Fifo
add_token key m = add_found key m (lookup key m)

-- An `uint64_t` as an `int`: its low 32 bits, extended by their sign to 64, which is how a map finds it.
unfoldable pub int_of : ℕ → ℕ
int_of n = let low = n % 2 ^ 32 in if ltb low (2 ^ 31) then low else low + 2 ^ 64 - 2 ^ 32

-- `notify`: the offset is an `int`, given by its 64 bits; so -1 is 2 ^ 64 - 1, and 0 comes after it.
unfoldable pub notify : DyserUnit → ℕ → ℕ → DyserUnit
notify u offset zero = u
notify u offset (suc stride) =
    notify
      (record u {
        internal_fifo_per_insn = λ op. add_token offset (u.internal_fifo_per_insn op);
        output_fifo = add_token offset u.output_fifo;
      })
      ((offset + 1) % 2 ^ 64) stride

abbrev pub has : ℕ → List ℕ → Bool
has key [] = false
has key (k ∷ ks) = let later = has key ks in if k == key then true else later

-- `checkDataReady`: the inputs, if all have a token, without doubles. `none` is a failed assertion.
unfoldable pub check_data_ready : Fifo → List ℕ → List ℕ → Option (List ℕ)
check_data_ready fifo [] found = some found
check_data_ready fifo (dep ∷ deps) found = do
  n ← lookup dep fifo
  let later = check_data_ready fifo deps (if has dep found then found else found ++ dep ∷ [])
  if n == 0 then some [] else later

-- One token of each input is taken.
unfoldable pub take_tokens : Fifo → List ℕ → Option Fifo
take_tokens fifo [] = some fifo
take_tokens fifo (key ∷ keys) = do
  n ← lookup key fifo
  assert (ltb 0 n)
  take_tokens (Dict.insert key (n - 1) fifo) keys

abbrev pub value_of : ℕ → List (ℕ × ℕ) → ℕ
value_of key m = elim (lookup key m) [ none ↦ 0 | some n ↦ n ]

abbrev pub is_empty : List ℕ → Bool
is_empty [] = true
is_empty (k ∷ ks) = false

-- `updateInsnCountMap`
abbrev pub update_insn_count_map : DyserUnit → ℕ → DyserUnit
update_insn_count_map u opcode = record u {
  insn_count_map = Dict.insert opcode (value_of opcode u.insn_count_map + 1) u.insn_count_map;
}

module _ (opcode : ℕ → ℕ) where
  -- `commitInsn`
  unfoldable pub commit_insn : Ops → DyserUnit → ℕ → Ops × DyserUnit × Bool
  unfolding notify int_of
  commit_insn ops u op =
      if finish (ops op)
      then (ops, update_insn_count_map (notify u (int_of (ops op).dyn_id) 1) (opcode op), true)
      else (modify ops op execute, u, false)

  -- The first loop of `processQueue`, with what stays in flight so far.
  unfoldable pub commit_all : List (ℕ × ℕ) → List (ℕ × ℕ) → Ops → DyserUnit → Ops × DyserUnit
  unfolding commit_insn
  commit_all kept [] ops u = (ops, record u { inflight_queue = kept })
  commit_all kept ((key, op) ∷ queue) ops u =
      let (ops', u', done) = commit_insn ops u op in
      commit_all (if done then kept else kept ++ (key, op) ∷ []) queue ops' u'

module _ (uid : ℕ → ℕ) where
  abbrev pub is_active : DyserUnit → ℕ → Bool
  is_active u op = elim (lookup (uid op) u.inflight_queue) [ none ↦ false | some p ↦ true ]

  -- One round of the second loop.
  unfoldable pub start_insn : Ops → DyserUnit → ℕ → Option DyserUnit
  unfolding check_data_ready take_tokens
  start_insn ops u op = do
    let fifo = u.internal_fifo_per_insn op
    ids ← check_data_ready fifo (ops op).dyn_deps []
    if not (is_active u op) && not (is_empty ids)
        then (take_tokens fifo ids >>= λ fifo'. some (record u {
          internal_fifo_per_insn = λ p. if op == p then fifo' else u.internal_fifo_per_insn p;
          inflight_queue = Dict.insert (uid op) op u.inflight_queue;
        }))
        else some u

  unfoldable pub start_all : Ops → List ℕ → DyserUnit → Option DyserUnit
  unfolding start_insn
  start_all ops [] u = some u
  start_all ops (op ∷ insns) u = start_insn ops u op >>= λ u'. start_all ops insns u'

-- `processQueue`
unfoldable pub process_queue : (ℕ → ℕ) → (ℕ → ℕ) → Ops → DyserUnit → Option (Ops × DyserUnit)
unfolding commit_all start_all
process_queue uid opcode ops u = do
  let (ops', u') = commit_all opcode [] u.inflight_queue ops u
  u'' ← start_all uid ops' u'.reservation u'
  some (ops', u'')

unfoldable pub tick : (ℕ → ℕ) → (ℕ → ℕ) → Ops → DyserUnit → Option (Ops × DyserUnit)
unfolding process_queue
tick uid opcode ops u = do
  (ops', u') ← process_queue uid opcode ops u
  some (ops', record u' { cycles = u'.cycles + 1 })

-- `getData`: an offset that is not mapped reads as 0.
unfoldable pub get_data : DyserUnit → ℕ → Option (DyserUnit × Bool)
get_data u offset = do
  let dyn_id = value_of offset u.offset_dyn_id_map
  n ← lookup dyn_id u.output_fifo
  if n == 0
      then some (u, false)
      else some (record u { output_fifo = Dict.insert dyn_id (n - 1) u.output_fifo }, true)
