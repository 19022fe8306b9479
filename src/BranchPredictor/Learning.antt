-- ===== src/BranchPredictor/Learning.antt =====
-- What the counters of `Bpred::predict` (sim/src/branch_predictor.cpp) learn.
use cisim.Prelude.{
  ℕ, ◌≤◌, ◌<◌, ◌≡◌, Bool, true, same, Option, some, get_elem?, get_elem?-set_self, set, arith,
  ◌>>=◌, ◌∙◌, ap, subst, get_elem?-in, All-get_elem?,
}
use cisim.BranchPredictor.{
  Bpred, bp_twobit, bht_index, train_counter, predict_counter, predict_as, predict, at_least_two,
}
use cisim.BranchPredictor.Valid.{
  IsTable, IsValid, IsValidAs, bht_index-lt, set-IsTable, train_counter-le,
}

-- The verdict on the last of three branches at one address with one outcome.
pub third_verdict : Bpred → ℕ → Bool → ℕ → Option Bool
third_verdict b pc t rand_no = do
  (b1, _) ← predict b pc t rand_no
  (b2, _) ← predict b1 pc t rand_no
  (_, correct) ← predict b2 pc t rand_no
  some correct

-- The counter at an index after one outcome.
counter_step :
    (b : Bpred) (idx c : ℕ) (t : Bool)
    → IsTable 3 b
    → idx < b.bht_size
    → get_elem? b.bht idx ≡ some c
    → c ≤ 3
    → let b' = record b { bht = set b.bht idx (train_counter 3 t c) } in
      (predict_counter b 3 at_least_two idx t ≡ some (b', same (at_least_two c) t))
      × IsTable 3 b'
      × (get_elem? b'.bht idx ≡ some (train_counter 3 t c))
      × (train_counter 3 t c ≤ 3)
unfolding predict_counter
counter_step b idx c t v h read small =
    let keep = train_counter-le 3 c t small in
    (
      ground (arith, read, keep),
      set-IsTable 3 b idx _ v keep,
      get_elem?-set_self b.bht idx _ (omega (arith, v.size)),
      keep,
    )

predict_twobit :
    (b : Bpred) (pc : ℕ) (t : Bool) (rand_no : ℕ)
    → b.type ≡ bp_twobit
    → predict b pc t rand_no ≡ predict_counter b 3 at_least_two (bht_index pc b.bht_size) t
unfolding predict
predict_twobit b pc t rand_no two = ap (λ type. predict_as type b pc t rand_no) two

learnt :
    (c : ℕ) (t : Bool)
    → c ≤ 3
    → some (same (at_least_two (train_counter 3 t (train_counter 3 t c))) t) ≡ some true
learnt c t h = ground arith

learns :
    (b : Bpred) (c pc : ℕ) (t : Bool) (rand_no : ℕ)
    → b.type ≡ bp_twobit
    → IsTable 3 b
    → get_elem? b.bht (bht_index pc b.bht_size) ≡ some c
    → c ≤ 3
    → third_verdict b pc t rand_no ≡ some true
unfolding third_verdict
learns b c pc t rand_no two v read small =
    let idx = bht_index pc b.bht_size in
    let h = bht_index-lt pc b.bht_size v.positive v.small in
    let (first, v1, read1, small1) = counter_step b idx c t v h read small in
    let (second, v2, read2, small2) = counter_step _ idx _ t v1 h read1 small1 in
    let (third, _, _, _) = counter_step _ idx _ t v2 h read2 small2 in
    rw
      (
        predict_twobit b pc t rand_no two ∙ first,
        predict_twobit _ pc t rand_no two ∙ second,
        predict_twobit _ pc t rand_no two ∙ third,
      )
      (learnt c t small)

-- A branch of a valid two-bit predictor that goes the same way three times in a row is predicted
-- right the third time, whatever the table held before.
pub twobit_learns :
    (b : Bpred) (pc : ℕ) (t : Bool) (rand_no : ℕ)
    → b.type ≡ bp_twobit
    → IsValid b
    → third_verdict b pc t rand_no ≡ some true
twobit_learns b pc t rand_no two v =
    let table : IsTable 3 b = subst (λ type. IsValidAs type b) two v in
    let h = bht_index-lt pc b.bht_size table.positive table.small in
    let (c, read) = get_elem?-in b.bht (bht_index pc b.bht_size) (omega (arith, table.size)) in
    learns b c pc t rand_no two table read
      (All-get_elem? (λ (n : ℕ). n ≤ 3) b.bht _ table.counters read)
