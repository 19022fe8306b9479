-- ===== src/Tage/Predict.antt =====
-- `PREDICTOR::GetPrediction` (sim/src/tage/tage.cpp).
use cisim.Prelude.{
  ℕ, zero, suc, ◌+◌, ◌-◌, ◌*◌, ◌/◌, ◌%◌, ◌^◌, Bool, true, not, ◌||◌, ltb, leb, ◌==◌, if◌then◌else◌,
  bit_and, bit_xor,
}
use cisim.Tage.{
  Predictor, bimodal_log, bimodal_ctr_max, tagpred_log, tagpred_ctr_max, num_tag_tables, current,
}
use cisim.Tage.History.{u32}

abbrev pub bimodal_index : ℕ → ℕ
bimodal_index pc = pc % 2 ^ bimodal_log

unfoldable pub base_prediction : Predictor → ℕ → Bool
base_prediction p pc = ltb (bimodal_ctr_max / 2) (p.bimodal (bimodal_index pc))

-- pc ^ CSR1 ^ (CSR2 << 1), masked to 9 bits.
unfoldable pub tag_hash : Predictor → ℕ → ℕ → ℕ
tag_hash p pc i =
    bit_and (bit_xor (bit_xor pc (p.tag_comp 0 i).comp_hist) (u32 ((p.tag_comp 1 i).comp_hist * 2)))
      (2 ^ 9 - 1)

-- The hash of a bank's index, before the mask.
abbrev pub index_mix : Predictor → ℕ → ℕ → ℕ
index_mix p pc zero =
    bit_xor (bit_xor (bit_xor (bit_xor pc (pc / 2 ^ tagpred_log)) (p.index_comp 0).comp_hist) p.phr)
      (p.phr / 2 ^ tagpred_log)
index_mix p pc (suc zero) =
    bit_xor (bit_xor (bit_xor pc (pc / 2 ^ (tagpred_log - 1))) (p.index_comp 1).comp_hist) p.phr
index_mix p pc (suc (suc zero)) =
    bit_xor (bit_xor (bit_xor pc (pc / 2 ^ (tagpred_log - 2))) (p.index_comp 2).comp_hist)
      (bit_and p.phr 31)
index_mix p pc i =
    bit_xor (bit_xor (bit_xor pc (pc / 2 ^ (tagpred_log - 3))) (p.index_comp i).comp_hist)
      (bit_and p.phr 7)

unfoldable pub index_hash : Predictor → ℕ → ℕ → ℕ
index_hash p pc i = bit_and (index_mix p pc i) (2 ^ tagpred_log - 1)

-- `for (it = i; it < NUMTAGTABLES; it++)`, with the rounds left: the first bank that hits.
unfoldable pub first_match : (ℕ → Bool) → ℕ → ℕ → ℕ
first_match hit zero i = num_tag_tables
first_match hit (suc n) i = if hit i then i else first_match hit n (i + 1)

-- The bank's entry carries the tag that was computed for it.
abbrev pub tag_matches : Predictor → ℕ → Bool
tag_matches p i = (current p i).tag == p.tag i

-- The members that the lookup sets before it chooses a direction.
unfoldable pub look_up : Predictor → ℕ → Predictor
look_up p pc =
    let hashed = record p {
      tag = tag_hash p pc;
      index_tag_pred = index_hash p pc;
      prime_pred = true;
      alt_pred = true;
    } in
    let prime = first_match (tag_matches hashed) num_tag_tables 0 in
    record hashed {
      prime_bank = prime;
      alt_bank = first_match (tag_matches hashed) (num_tag_tables - (prime + 1)) (prime + 1);
    }

-- `ctr >= TAGPRED_CTR_MAX / 2`
abbrev pub takes : ℕ → Bool
takes ctr = leb (tagpred_ctr_max / 2) ctr

-- The test before `return primePred`, as it is written.
abbrev pub trusts_prime : Predictor → Bool
trusts_prime p =
    not ((current p p.prime_bank).ctr == 3)
    || not ((current p p.prime_bank).ctr == 4)
    || not ((current p p.prime_bank).useful_bits == 0)
    || ltb p.alt_better_count 8

unfoldable pub choose : Predictor → Bool → Predictor × Bool
choose p base =
    if ltb p.prime_bank num_tag_tables
    then (let alt =
          if p.alt_bank == num_tag_tables then base else takes (current p p.alt_bank).ctr in
        let prime = takes (current p p.prime_bank).ctr in
        if trusts_prime p
        then (record p { alt_pred = alt; prime_pred = prime }, prime)
        else (record p { alt_pred = alt }, alt))
    else (record p { alt_pred = base }, base)

-- The parameter is a `uint32_t`.
unfoldable pub get_prediction : Predictor → ℕ → Predictor × Bool
unfolding look_up choose base_prediction
get_prediction p pc = choose (look_up p (u32 pc)) (base_prediction p (u32 pc))
