-- ===== src/BranchPredictor.antt =====
-- The branch predictor that the core asks (sim/include/branch_predictor.h and
-- sim/src/branch_predictor.cpp). `none` is a fault: an access outside the table of counters, a null
-- predictor, or a failed assertion.
pub mod Valid
pub mod Learning
mod Tests
use cisim.Prelude.{
  ℕ, zero, suc, ◌+◌, ◌-◌, ◌*◌, ◌%◌, ◌^◌, Bool, true, false, not, same, to_bit, leb, ◌==◌,
  if◌then◌else◌, bit_and, bit_or, bit_xor, min, List, [], Option, none, some, ◌>>=◌, ◌>>◌, assert,
  get_elem?, set, replicate,
}
use cisim.Tage.{Predictor}
use cisim.Tage
use cisim.Tage.Predict.{get_prediction}
use cisim.Tage.Update.{update_predictor}

pub data TypeBpred : Type 0 where
  bp_none bp_always_nt bp_always_t bp_onebit bp_twobit bp_gshare bp_perfect bp_tage : TypeBpred

-- `bht` is empty where the constructor allocates no table. The counters are `int`s from 0 up.
pub record Bpred : Type 0 where
  pub type : TypeBpred
  pub bht_size : ℕ
  pub bht : List ℕ
  pub gshare_global_hist_bits : ℕ
  pub gshare_global_hist : ℕ
  pub tage_predictor : Option Predictor

-- The start value of a type's counters.
abbrev pub table : TypeBpred → ℕ → List ℕ
table bp_onebit size = replicate size 1
table bp_twobit size = replicate size 2
table bp_gshare size = replicate size 1
table _ size = []

abbrev pub hist_bits : TypeBpred → ℕ → ℕ
hist_bits bp_gshare ghr_size = ghr_size
hist_bits _ ghr_size = 10

abbrev pub tage_of : TypeBpred → Option Predictor
tage_of bp_tage = some Tage.init
tage_of _ = none

unfoldable pub init : TypeBpred → ℕ → ℕ → Bpred
init type bht_size ghr_size = record {
  type = type;
  bht_size = bht_size;
  bht = table type bht_size;
  gshare_global_hist_bits = hist_bits type ghr_size;
  gshare_global_hist = 0;
  tage_predictor = tage_of type;
}

-- `int idx = x & (bht_size - 1)` for a `uint64_t` x; at size 0 the mask is -1.
abbrev pub bht_index : ℕ → ℕ → ℕ
bht_index x bht_size = bit_and x ((bht_size + 2 ^ 64 - 1) % 2 ^ 64) % 2 ^ 32

-- `bht[idx]++` with `std::min(…, max)`, or `bht[idx]--` with `std::max(…, 0)`.
abbrev pub train_counter : ℕ → Bool → ℕ → ℕ
train_counter max actual_taken c = if actual_taken then min (c + 1) max else c - 1

abbrev pub is_one : ℕ → Bool
is_one c = c == 1

abbrev pub at_least_two : ℕ → Bool
at_least_two c = leb 2 c

-- Query and update of a saturating counter up to `max`; `predicts` is the test of `pred_taken`.
unfoldable pub predict_counter : Bpred → ℕ → (ℕ → Bool) → ℕ → Bool → Option (Bpred × Bool)
predict_counter b max predicts idx actual_taken = do
  c ← get_elem? b.bht idx
  let trained = train_counter max actual_taken c
  assert (leb trained max)
  some (record b { bht = set b.bht idx trained }, same (predicts c) actual_taken)

-- The branch history that gshare mixes in: one more outcome, in its number of bits.
abbrev pub next_hist : ℕ → ℕ → Bool → ℕ
next_hist hist bits actual_taken =
    bit_and (bit_or (hist * 2 % 2 ^ 32) (to_bit actual_taken)) (2 ^ bits - 1)

unfoldable pub predict_gshare : Bpred → ℕ → Bool → Option (Bpred × Bool)
unfolding predict_counter
predict_gshare b pc actual_taken = do
  (b', correct) ←
      predict_counter b 3 at_least_two (bht_index (bit_xor pc b.gshare_global_hist) b.bht_size)
        actual_taken
  some (
    record b' {
      gshare_global_hist = next_hist b.gshare_global_hist b.gshare_global_hist_bits actual_taken;
    },
    correct,
  )

unfoldable pub predict_tage : Bpred → ℕ → Bool → ℕ → Option (Bpred × Bool)
predict_tage b pc actual_taken rand_no = do
  p ← b.tage_predictor
  let (q, pred_taken) = get_prediction p pc
  let p' = update_predictor q pc actual_taken pred_taken rand_no
  some (record b { tage_predictor = some p' }, same pred_taken actual_taken)

-- One branch of `Bpred::predict` for each type: the new state, and whether the prediction was right.
abbrev pub predict_as : TypeBpred → Bpred → ℕ → Bool → ℕ → Option (Bpred × Bool)
predict_as bp_none b pc actual_taken rand_no = some (b, false)
predict_as bp_perfect b pc actual_taken rand_no = some (b, true)
predict_as bp_always_nt b pc actual_taken rand_no = some (b, if actual_taken then false else true)
predict_as bp_always_t b pc actual_taken rand_no = some (b, if actual_taken then true else false)
predict_as bp_onebit b pc actual_taken rand_no =
    predict_counter b 1 is_one (bht_index pc b.bht_size) actual_taken
predict_as bp_twobit b pc actual_taken rand_no =
    predict_counter b 3 at_least_two (bht_index pc b.bht_size) actual_taken
predict_as bp_gshare b pc actual_taken rand_no = predict_gshare b pc actual_taken
predict_as bp_tage b pc actual_taken rand_no = predict_tage b pc actual_taken rand_no

-- `rand_no` is what `rand() % 100` gives to the TAGE predictor.
unfoldable pub predict : Bpred → ℕ → Bool → ℕ → Option (Bpred × Bool)
unfolding predict_gshare predict_tage
predict b pc actual_taken rand_no = predict_as b.type b pc actual_taken rand_no
