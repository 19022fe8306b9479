-- ===== src/Tage.antt =====
-- The state of the TAGE predictor (sim/include/tage/tage.h) and its constructor
-- (sim/src/tage/tage.cpp). A table is a function on its indices; `Tage.Bounds` shows that the
-- indices stay inside the tables that the constructor allocates.
pub mod History
pub mod Predict
pub mod Update
pub mod Choice
pub mod Valid
pub mod Range
pub mod Bounds
pub mod Allocation
mod Tests
use cisim.Prelude.{ℕ, zero, suc, ◌+◌, ◌-◌, ◌*◌, ◌^◌, ◌≡◌, Bool, true, ltb, if◌then◌else◌, update}

abbrev pub bimodal_ctr_max : ℕ
bimodal_ctr_max = 3

abbrev pub bimodal_ctr_init : ℕ
bimodal_ctr_init = 2

abbrev pub tagpred_ctr_max : ℕ
tagpred_ctr_max = 7

abbrev pub bimodal_log : ℕ
bimodal_log = 14

abbrev pub num_tag_tables : ℕ
num_tag_tables = 4

abbrev pub tagpred_log : ℕ
tagpred_log = 12

-- The fields are `int32_t`; they are written with values from 0 up only (`Tage.Range`).
pub record TagEntry : Type 0 where
  pub ctr : ℕ
  pub tag : ℕ
  pub useful_bits : ℕ

pub record CompressedHist : Type 0 where
  pub geom_length : ℕ
  pub target_length : ℕ
  pub comp_hist : ℕ

-- `ghr` is the `bitset<131>` as a number; `phr` is an `int` of 16 bits.
pub record Predictor : Type 0 where
  pub ghr : ℕ
  pub phr : ℕ
  pub bimodal : ℕ → ℕ
  pub tag_pred : ℕ → ℕ → TagEntry
  pub index_comp : ℕ → CompressedHist
  pub tag_comp : ℕ → ℕ → CompressedHist
  pub prime_pred : Bool
  pub alt_pred : Bool
  pub prime_bank : ℕ
  pub alt_bank : ℕ
  pub index_tag_pred : ℕ → ℕ
  pub tag : ℕ → ℕ
  pub clock : ℕ
  pub clock_flip : ℕ
  pub alt_better_count : ℕ

-- Table 0 has the longest history.
abbrev pub geometric : ℕ → ℕ
geometric zero = 130
geometric (suc zero) = 44
geometric (suc (suc zero)) = 15
geometric _ = 5

-- `targetLength` of the two tag registers: 9 for the first, 8 for the second, at every bank.
abbrev pub tag_target : ℕ → ℕ
tag_target zero = 9
tag_target _ = 8

-- `primePred = -1` makes a `bool` true.
unfoldable pub init : Predictor
init = record {
  ghr = 0;
  phr = 0;
  bimodal = λ i. bimodal_ctr_init;
  tag_pred = λ bank i. record { ctr = 0; tag = 0; useful_bits = 0 };
  index_comp =
      λ i. record { geom_length = geometric i; target_length = tagpred_log; comp_hist = 0 };
  tag_comp =
      λ j i. record { geom_length = geometric i; target_length = tag_target j; comp_hist = 0 };
  prime_pred = true;
  alt_pred = true;
  prime_bank = num_tag_tables;
  alt_bank = num_tag_tables;
  index_tag_pred = λ i. 0;
  tag = λ i. 0;
  clock = 0;
  clock_flip = 1;
  alt_better_count = 8;
}

-- sim/src/utils.cpp, on the values from 0 up that the predictor stores.
unfoldable pub sat_increment : ℕ → ℕ → ℕ
sat_increment value max = if ltb value max then value + 1 else value

unfoldable pub sat_decrement : ℕ → ℕ
sat_decrement value = if ltb 0 value then value - 1 else value

-- The entry of a bank that the last prediction looked at.
abbrev pub current : Predictor → ℕ → TagEntry
current p bank = p.tag_pred bank (p.index_tag_pred bank)

-- A write to `tagPred[bank][indexTagPred[bank]]`.
abbrev pub set_current : Predictor → ℕ → TagEntry → Predictor
set_current p bank e = record p {
  tag_pred = update p.tag_pred bank (update (p.tag_pred bank) (p.index_tag_pred bank) e);
}
