-- ===== src/Tage/Range.antt =====
-- The values that the TAGE predictor (sim/src/tage/tage.cpp) stores stay in their ranges.
use cisim.Prelude.{
  ℕ, zero, suc, ◌+◌, ◌-◌, ◌*◌, ◌^◌, ◌≤◌, ◌<◌, Bool, arith, Bool-cases, inl, inr, ◌==◌, ltb, same,
  not, ◌&&◌, if◌then◌else◌, bit_and, Option, none, some,
}
use cisim.Prelude.Bits.{bit_and-le_right, pow_pos}
use cisim.Tage.{
  Predictor, TagEntry, num_tag_tables, CompressedHist, current, sat_increment, sat_decrement,
}
use cisim.Tage.History.{u32, next_ghr, next_phr, update_comp_hist, update_history}
use cisim.Tage.Predict.{get_prediction, bimodal_index}
use cisim.Tage.Update.{
  train, weigh_alternate, age, match_bank, allocate_down, allocate_at, allocate, tick, new_entry,
  update_predictor, wants_entry, is_free, count_free, train_useful,
}
use cisim.Tage.Valid.{
  IsEntry, IsFolded, IsValid, better-IsValid, bimodal-IsValid, choose-IsValid, entries-IsValid,
  look_up-IsValid, sat_decrement-le, sat_increment-le, set_current-IsValid, update-all,
}

trained-IsEntry :
    (p : Predictor) (resolve_dir pred_dir : Bool) (e : TagEntry)
    → IsEntry e
    → IsEntry (record e {
      useful_bits = train_useful pred_dir p.alt_pred resolve_dir e.useful_bits;
      ctr = if resolve_dir then sat_increment e.ctr 7 else sat_decrement e.ctr;
    })
trained-IsEntry p resolve_dir pred_dir e h = ground (
  arith,
  sat_increment-le e.ctr 7,
  sat_decrement-le e.ctr 7,
  sat_increment-le e.useful_bits 3,
  sat_decrement-le e.useful_bits 3,
)

train-IsValid :
    (p : Predictor) (pc : ℕ) (resolve_dir pred_dir : Bool)
    → IsValid p
    → IsValid (train p pc resolve_dir pred_dir)
unfolding train
train-IsValid p pc resolve_dir pred_dir v = elim (Bool-cases (ltb p.prime_bank num_tag_tables)) [
  | inl e ↦ rw e (
      set_current-IsValid p p.prime_bank _ v
        (trained-IsEntry p resolve_dir pred_dir (current p p.prime_bank) (v.entries _ _)))
  | inr e ↦ rw e (
      bimodal-IsValid p _ v (
        update-all (λ (n : ℕ). n ≤ 3) p.bimodal (bimodal_index pc) _ v.bimodal
          (ground (
            arith,
            v.bimodal (bimodal_index pc),
            sat_increment-le (p.bimodal (bimodal_index pc)) 3,
            sat_decrement-le (p.bimodal (bimodal_index pc)) 3,
          ))))
]

weigh_alternate-IsValid :
    (p : Predictor) (resolve_dir : Bool) → IsValid p → IsValid (weigh_alternate p resolve_dir)
unfolding weigh_alternate
weigh_alternate-IsValid p resolve_dir v =
    elim (Bool-cases (new_entry p && not (same p.prime_pred p.alt_pred))) [
      | inl e ↦ rw e (elim (Bool-cases (same p.alt_pred resolve_dir)) [
        | inl d ↦ rw d (better-IsValid p _ v (ground (arith, v.better)))
        | inr d ↦ rw d (better-IsValid p _ v (ground (arith, v.better)))
      ])
      | inr e ↦ rw e v
    ]

aged-IsEntry : (e : TagEntry) → IsEntry e → IsEntry (record e { useful_bits = e.useful_bits - 1 })
aged-IsEntry e h = omega arith

age-IsValid : (n : ℕ) (p : Predictor) → IsValid p → IsValid (age p n)
unfolding age
age-IsValid zero p v = v
age-IsValid (suc i) p v =
    age-IsValid i _
      (set_current-IsValid p i _ v (aged-IsEntry (current p i) (v.entries i (p.index_tag_pred i))))

allocate_down-IsValid :
    (p : Predictor) (resolve_dir : Bool) (n : ℕ)
    → IsValid p
    → IsValid (allocate_down p resolve_dir n)
unfolding allocate_down
allocate_down-IsValid p resolve_dir zero v = v
allocate_down-IsValid p resolve_dir (suc i) v = elim (Bool-cases (is_free p i)) [
  | inl e ↦ rw e (set_current-IsValid p i _ v (ground arith))
  | inr e ↦ rw e (allocate_down-IsValid p resolve_dir i v)
]

allocate_at-IsValid :
    (p : Predictor) (resolve_dir : Bool) (bank : Option ℕ)
    → IsValid p
    → IsValid (allocate_at p resolve_dir bank)
allocate_at-IsValid p resolve_dir none v = v
allocate_at-IsValid p resolve_dir (some bank) v = allocate_down-IsValid p resolve_dir (suc bank) v

allocate-IsValid :
    (p : Predictor) (fresh resolve_dir pred_dir : Bool) (rand_no : ℕ)
    → IsValid p
    → IsValid (allocate p fresh resolve_dir pred_dir rand_no)
unfolding allocate
allocate-IsValid p fresh resolve_dir pred_dir rand_no v =
    elim (Bool-cases (wants_entry p fresh resolve_dir pred_dir)) [
      | inl e ↦ rw e (elim (Bool-cases (count_free p p.prime_bank == 0)) [
        | inl d ↦ rw d (age-IsValid p.prime_bank p v)
        | inr d ↦ rw d (allocate_at-IsValid p resolve_dir (match_bank p rand_no) v)
      ])
      | inr e ↦ rw e v
    ]

masked-IsEntry :
    (e : TagEntry) (kept : ℕ)
    → IsEntry e
    → kept ≤ 2
    → IsEntry (record e { useful_bits = bit_and e.useful_bits kept })
masked-IsEntry e kept h k = omega (arith, bit_and-le_right e.useful_bits kept)

clock-IsValid :
    (p : Predictor) (n flip : ℕ)
    → IsValid p
    → n < 256 * 1024
    → IsValid (record p { clock = n; clock_flip = flip })
clock-IsValid p n flip v h = record {
  bimodal = v.bimodal;
  entries = v.entries;
  better = v.better;
  history = v.history;
  path = v.path;
  clock = h;
  index = v.index;
  tags = v.tags;
}

tick-IsValid : (p : Predictor) → IsValid p → IsValid (tick p)
unfolding tick
tick-IsValid p v = elim (Bool-cases (u32 (p.clock + 1) == 256 * 1024)) [
  | inl e ↦ rw e (
      clock-IsValid _ 0 _
        (entries-IsValid p _ v
          (λ bank i. masked-IsEntry (p.tag_pred bank i) _ (v.entries bank i) (ground arith)))
        (omega arith))
  | inr e ↦ rw e (clock-IsValid p _ p.clock_flip v (ground (arith, v.clock)))
]

update_comp_hist-IsFolded : (ghr : ℕ) (c : CompressedHist) → IsFolded (update_comp_hist ghr c)
unfolding update_comp_hist
update_comp_hist-IsFolded ghr c =
    omega (arith, pow_pos c.target_length, bit_and-le_right _ (2 ^ c.target_length - 1))

update_history-IsValid :
    (p : Predictor) (pc : ℕ) (resolve_dir : Bool)
    → IsValid p
    → IsValid (update_history p pc resolve_dir)
unfolding update_history next_ghr next_phr
update_history-IsValid p pc resolve_dir v = record {
  bimodal = v.bimodal;
  entries = v.entries;
  better = v.better;
  history = ground arith;
  path = omega (arith, bit_and-le_right _ (2 ^ 16 - 1));
  clock = v.clock;
  index = λ i. update_comp_hist-IsFolded _ (p.index_comp i);
  tags = λ j i. update_comp_hist-IsFolded _ (p.tag_comp j i);
}

-- A prediction and its update keep every stored value in range: bimodal counters of 2 bits, tagged
-- counters of 3 bits and useful counters of 2, the alternate counter of 4 bits, the histories in
-- their widths, each folded history in its target length, and the clock below its period.
pub update_predictor-IsValid :
    (p : Predictor) (pc : ℕ) (resolve_dir pred_dir : Bool) (rand_no : ℕ)
    → IsValid p
    → IsValid (get_prediction p pc).0 × IsValid (update_predictor p pc resolve_dir pred_dir rand_no)
unfolding get_prediction update_predictor
update_predictor-IsValid p pc resolve_dir pred_dir rand_no v = (
  choose-IsValid _ _ (look_up-IsValid p _ v),
  update_history-IsValid _ _ resolve_dir (
      tick-IsValid _ (
        allocate-IsValid _ _ resolve_dir pred_dir rand_no
          (weigh_alternate-IsValid _ resolve_dir (train-IsValid p _ resolve_dir pred_dir v)))),
)
