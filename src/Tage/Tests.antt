-- ===== src/Tage/Tests.antt =====
-- The TAGE predictor on concrete inputs, and its theorems at them.
use cisim.Prelude.{ℕ, ◌≤◌, ◌<◌, ◌≡◌, refl, true, false, update, arith}
use cisim.Tage.{Predictor, TagEntry, current, init, num_tag_tables}
use cisim.Tage.History.{u32}
use cisim.Tage.Predict.{
  base_prediction, bimodal_index, first_match, get_prediction, tag_hash, takes,
}
use cisim.Tage.Update.{update_predictor, allocate, allocate_down, count_free}
use cisim.Tage.Choice.{Provides, get_prediction_provider}
use cisim.Tage.Valid.{IsValid, init-IsValid}
use cisim.Tage.Range.{update_predictor-IsValid}
use cisim.Tage.Bounds.{get_prediction_in_range}
use cisim.Tage.Allocation.{allocate_down-takes, allocate_none}

-- A fresh predictor says taken, since its bimodal counters start at 2 and every tag is 0.
init_taken : (get_prediction init 1025).1 ≡ true
unfolding get_prediction init first_match tag_hash
init_taken = refl

get_prediction_provider_example :
    Provides (base_prediction init (u32 1025)) (get_prediction init 1025)
get_prediction_provider_example = get_prediction_provider init 1025

update_predictor-IsValid_example :
    IsValid (get_prediction init 1025).0 × IsValid (update_predictor init 1025 false true 50)
update_predictor-IsValid_example = update_predictor-IsValid init 1025 false true 50 init-IsValid

get_prediction_in_range_example :
    let q = (get_prediction init 1025).0 in
    ((i : ℕ) → (q.index_tag_pred i < 4096) × (q.tag i < 512))
    × (q.prime_bank ≤ num_tag_tables)
    × (bimodal_index (u32 1025) < 16384)
get_prediction_in_range_example = get_prediction_in_range init 1025

-- Every bank of a fresh predictor is free; bank 2 is the first below bank 3.
allocate_down-takes_example : takes (current (allocate_down init false 3) 2).ctr ≡ true
unfolding init
allocate_down-takes_example =
    allocate_down-takes init false 3 2 (omega arith) refl (λ j a b. absurd (omega arith))

abbrev busy_entry : TagEntry
busy_entry = record { ctr = 4; tag = 9; useful_bits = 1 }

-- The provider is bank 2, bank 0 is in use and bank 1 is free.
abbrev second_free : Predictor
second_free = record init { prime_bank = 2; tag_pred = update init.tag_pred 0 (λ i. busy_entry) }

allocate_none_example : allocate second_free false true false 50 ≡ second_free
unfolding init count_free
allocate_none_example = allocate_none second_free false true false 50 refl refl
