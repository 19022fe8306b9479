-- ===== src/Tage/Bounds.antt =====
-- The accesses of `PREDICTOR::GetPrediction` (sim/src/tage/tage.cpp) to its tables.
use cisim.Prelude.{ℕ, zero, suc, ◌+◌, ◌-◌, ◌*◌, ◌^◌, ◌≤◌, ◌<◌, ◌≡◌, Bool, arith, bit_xor}
use cisim.Prelude.Bits.{bit_and-le_right}
use cisim.Tage.{Predictor, tagpred_log, num_tag_tables}
use cisim.Tage.History.{u32}
use cisim.Tage.Predict.{
  bimodal_index, tag_hash, index_mix, index_hash, first_match, look_up, choose, base_prediction,
  get_prediction,
}

index_hash-lt : (p : Predictor) (pc i : ℕ) → index_hash p pc i < 2 ^ tagpred_log
unfolding index_hash
index_hash-lt p pc i = omega (arith, bit_and-le_right (index_mix p pc i) (2 ^ tagpred_log - 1))

tag_hash-lt : (p : Predictor) (pc i : ℕ) → tag_hash p pc i < 2 ^ 9
unfolding tag_hash
tag_hash-lt p pc i = omega (
  arith,
  bit_and-le_right
      (bit_xor (bit_xor pc (p.tag_comp 0 i).comp_hist) (u32 ((p.tag_comp 1 i).comp_hist * 2)))
      (2 ^ 9 - 1),
)

first_match-le :
    (hit : ℕ → Bool) (n i : ℕ) → i + n ≤ num_tag_tables → first_match hit n i ≤ num_tag_tables
unfolding first_match
first_match-le hit zero i h = omega arith
first_match-le hit (suc n) i h = ground (arith, first_match-le hit n (i + 1))

prime_bank-choose : (p : Predictor) (base : Bool) → (choose p base).0.prime_bank ≡ p.prime_bank
unfolding choose
prime_bank-choose p base = ground arith

prime_bank-look_up : (p : Predictor) (pc : ℕ) → (look_up p pc).prime_bank ≤ num_tag_tables
unfolding look_up
prime_bank-look_up p pc = first_match-le _ num_tag_tables 0 (omega arith)

indices-choose :
    (p : Predictor) (base : Bool) (i : ℕ)
    → ((choose p base).0.index_tag_pred i ≡ p.index_tag_pred i)
      × ((choose p base).0.tag i ≡ p.tag i)
unfolding choose
indices-choose p base i = ground arith

indices-look_up :
    (p : Predictor) (pc i : ℕ)
    → ((look_up p pc).index_tag_pred i < 4096) × ((look_up p pc).tag i < 512)
unfolding look_up
indices-look_up p pc i = omega (arith, index_hash-lt p pc i, tag_hash-lt p pc i)

-- After a prediction every bank's index is below the 4096 entries of a tagged table and its tag has
-- 9 bits, the bank that gave the prediction is below 4 or the mark 4 for none, and the index of the
-- bimodal table is below its 16384 entries.
pub get_prediction_in_range :
    (p : Predictor) (pc : ℕ)
    → let q = (get_prediction p pc).0 in
      ((i : ℕ) → (q.index_tag_pred i < 4096) × (q.tag i < 512))
      × (q.prime_bank ≤ num_tag_tables)
      × (bimodal_index (u32 pc) < 16384)
unfolding get_prediction
get_prediction_in_range p pc =
    let q = look_up p (u32 pc) in
    let base = base_prediction p (u32 pc) in
    (
      λ i. omega (arith, indices-choose q base i, indices-look_up p (u32 pc) i),
      omega (arith, prime_bank-choose q base, prime_bank-look_up p (u32 pc)),
      omega arith,
    )
