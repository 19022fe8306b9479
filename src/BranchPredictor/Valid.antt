-- ===== src/BranchPredictor/Valid.antt =====
-- No branch of `Bpred::predict` (sim/src/branch_predictor.cpp) leaves its table or fails an assertion.
use cisim.Prelude.{
  ℕ, ◌+◌, ◌-◌, ◌%◌, ◌^◌, ◌≤◌, ◌<◌, ◌≡◌, refl, Bool, same, Option, none, some, length, length-set,
  length-replicate, get_elem?, get_elem?-in, set, All, All-set, All-get_elem?, All-replicate, arith,
  sym, subst, bit_xor, replicate,
}
use cisim.Prelude.Bits.{bit_and-le_right, pow_pos}
use cisim.Tage.{Predictor}
use cisim.Tage.Valid
use cisim.Tage.Range.{update_predictor-IsValid}
use cisim.Tage.Predict.{get_prediction}
use cisim.BranchPredictor.{
  Bpred, TypeBpred, bp_none, bp_always_nt, bp_always_t, bp_onebit, bp_twobit, bp_gshare, bp_perfect,
  bp_tage, init, bht_index, train_counter, predict_counter, predict_gshare, predict_tage,
  predict_as, predict, next_hist, at_least_two, is_one, table,
}

-- A table of `bht_size` counters up to `max`; the size is a positive `int`.
pub record IsTable (max : ℕ) (b : Bpred) : Type 0 where
  pub positive : 0 < b.bht_size
  pub small : b.bht_size < 2 ^ 31
  pub size : length b.bht ≡ b.bht_size
  pub counters : All (λ c. c ≤ max) b.bht

abbrev pub HasTage : Option Predictor → Type 0
HasTage none = ⊥
HasTage (some p) = Valid.IsValid p

-- What the branch for each type relies on.
abbrev pub IsValidAs : TypeBpred → Bpred → Type 0
IsValidAs bp_onebit b = IsTable 1 b
IsValidAs bp_twobit b = IsTable 3 b
IsValidAs bp_gshare b = IsTable 3 b × (b.gshare_global_hist < 2 ^ b.gshare_global_hist_bits)
IsValidAs bp_tage b = HasTage b.tage_predictor
IsValidAs _ b = Unit {0}

abbrev pub IsValid : Bpred → Type 0
IsValid b = IsValidAs b.type b

-- The result of a call that does not fault, with a property of the new state.
abbrev pub Keeps : (Bpred → Type 0) → Option (Bpred × Bool) → Type 0
Keeps P none = ⊥
Keeps P (some (b, correct)) = P b

pub bht_index-lt : (x : ℕ) (size : ℕ) → 0 < size → size < 2 ^ 31 → bht_index x size < size
bht_index-lt x size h k = omega (arith, bit_and-le_right x ((size + 2 ^ 64 - 1) % 2 ^ 64))

pub train_counter-le : (max c : ℕ) (t : Bool) → c ≤ max → train_counter max t c ≤ max
train_counter-le max c t h = ground arith

-- What `predict_counter` returns on a table that holds the index.
pub predict_counter_lem :
    (b : Bpred) (max : ℕ) (predicts : ℕ → Bool) (idx : ℕ) (t : Bool)
    → IsTable max b
    → idx < b.bht_size
    → (c : ℕ) × (get_elem? b.bht idx ≡ some c)
      × (c ≤ max)
      × (predict_counter b max predicts idx t
          ≡ some (record b { bht = set b.bht idx (train_counter max t c) }, same (predicts c) t))
unfolding predict_counter
predict_counter_lem b max predicts idx t v h =
    let (c, read) = get_elem?-in b.bht idx (omega arith) in
    let small = All-get_elem? (λ (n : ℕ). n ≤ max) b.bht idx v.counters read in
    (c, read, small, ground (arith, read, train_counter-le max c t small))

pub set-IsTable :
    (max : ℕ) (b : Bpred) (idx v : ℕ)
    → IsTable max b
    → v ≤ max
    → IsTable max (record b { bht = set b.bht idx v })
set-IsTable max b idx v t h = record {
  positive = t.positive;
  small = t.small;
  size = omega (arith, length-set b.bht idx v, t.size);
  counters = All-set (λ n. n ≤ max) b.bht idx v t.counters h;
}

hist-IsTable :
    (max : ℕ) (b : Bpred) (hist : ℕ)
    → IsTable max b
    → IsTable max (record b { gshare_global_hist = hist })
hist-IsTable max b hist t = record {
  positive = t.positive;
  small = t.small;
  size = t.size;
  counters = t.counters;
}

predict_counter-IsTable :
    (b : Bpred) (max : ℕ) (predicts : ℕ → Bool) (x : ℕ) (t : Bool)
    → IsTable max b
    → Keeps
        (λ b'. IsTable max b' × (b'.type ≡ b.type))
        (predict_counter b max predicts (bht_index x b.bht_size) t)
predict_counter-IsTable b max predicts x t v =
    let (c, read, small, result) =
      predict_counter_lem b max predicts (bht_index x b.bht_size) t v
        (bht_index-lt x b.bht_size v.positive v.small) in
    rw result (set-IsTable max b _ _ v (train_counter-le max c t small), refl)

next_hist-lt : (hist bits : ℕ) (t : Bool) → next_hist hist bits t < 2 ^ bits
next_hist-lt hist bits t = omega (arith, pow_pos bits, bit_and-le_right _ (2 ^ bits - 1))

Keeps-map :
    (P Q : Bpred → Type 0)
    → ((b : Bpred) → P b → Q b)
    → (r : Option (Bpred × Bool)) → Keeps P r
    → Keeps Q r
Keeps-map P Q f none k = k
Keeps-map P Q f (some (b, correct)) k = f b k

predict_gshare-Keeps :
    (b : Bpred) (pc : ℕ) (t : Bool)
    → IsTable 3 b
    → Keeps (λ b'. IsValidAs bp_gshare b' × (b'.type ≡ b.type)) (predict_gshare b pc t)
unfolding predict_gshare
predict_gshare-Keeps b pc t v =
    let x = bit_xor pc b.gshare_global_hist in
    let (c, read, small, result) =
      predict_counter_lem b 3 at_least_two (bht_index x b.bht_size) t v
        (bht_index-lt x b.bht_size v.positive v.small) in
    rw result (
      (
        hist-IsTable 3 _ _ (set-IsTable 3 b _ _ v (train_counter-le 3 c t small)),
        next_hist-lt b.gshare_global_hist b.gshare_global_hist_bits t,
      ),
      refl,
    )

predict_tage-Keeps :
    (b : Bpred) (o : Option Predictor) (pc : ℕ) (t : Bool) (rand_no : ℕ)
    → b.tage_predictor ≡ o
    → HasTage o
    → Keeps (λ b'. IsValidAs bp_tage b' × (b'.type ≡ b.type)) (predict_tage b pc t rand_no)
unfolding predict_tage
predict_tage-Keeps b none pc t rand_no e v = absurd v
predict_tage-Keeps b (some p) pc t rand_no e v =
    let (q, taken) = get_prediction p pc in
    rw (e, predict_tage)
      (
        (update_predictor-IsValid q pc t taken rand_no
            (update_predictor-IsValid p pc t t rand_no v).0).1,
        refl,
      )

predict_as-Keeps :
    (type : TypeBpred) (b : Bpred) (pc : ℕ) (t : Bool) (rand_no : ℕ)
    → IsValidAs type b
    → Keeps (λ b'. IsValidAs type b' × (b'.type ≡ b.type)) (predict_as type b pc t rand_no)
predict_as-Keeps bp_none b pc t rand_no v = (tt, refl)
predict_as-Keeps bp_perfect b pc t rand_no v = (tt, refl)
predict_as-Keeps bp_always_nt b pc t rand_no v = (tt, refl)
predict_as-Keeps bp_always_t b pc t rand_no v = (tt, refl)
predict_as-Keeps bp_onebit b pc t rand_no v = predict_counter-IsTable b 1 is_one pc t v
predict_as-Keeps bp_twobit b pc t rand_no v = predict_counter-IsTable b 3 at_least_two pc t v
predict_as-Keeps bp_gshare b pc t rand_no v = predict_gshare-Keeps b pc t v.0
predict_as-Keeps bp_tage b pc t rand_no v =
    predict_tage-Keeps b b.tage_predictor pc t rand_no refl v

-- On a predictor of any type whose table has as many counters as its positive size says, all in
-- range, `predict` returns: it reads and writes inside the table, its assertions hold, and the new
-- state is again such a predictor of the same type.
pub predict-Keeps :
    (b : Bpred) (pc : ℕ) (t : Bool) (rand_no : ℕ)
    → IsValid b
    → Keeps (λ b'. IsValid b' × (b'.type ≡ b.type)) (predict b pc t rand_no)
unfolding predict
predict-Keeps b pc t rand_no v =
    Keeps-map _ _ (λ b' k. (subst (λ type. IsValidAs type b') (sym k.1) k.0, k.1))
      (predict_as b.type b pc t rand_no) (predict_as-Keeps b.type b pc t rand_no v)

table-IsTable :
    (type : TypeBpred) (size ghr_size start max : ℕ)
    → 0 < size
    → size < 2 ^ 31
    → start ≤ max
    → table type size ≡ replicate size start
    → IsTable max (init type size ghr_size)
unfolding init
table-IsTable type size ghr_size start max h k l e = record {
  positive = h;
  small = k;
  size = rw e (length-replicate size start);
  counters = rw e (All-replicate (λ n. n ≤ max) size start l);
}

-- The constructor gives a valid predictor of every type, for every positive table size.
pub init-IsValid :
    (type : TypeBpred) (size ghr_size : ℕ)
    → 0 < size
    → size < 2 ^ 31
    → IsValid (init type size ghr_size)
unfolding init
init-IsValid bp_none size ghr_size h k = tt
init-IsValid bp_perfect size ghr_size h k = tt
init-IsValid bp_always_nt size ghr_size h k = tt
init-IsValid bp_always_t size ghr_size h k = tt
init-IsValid bp_onebit size ghr_size h k =
    table-IsTable bp_onebit size ghr_size 1 1 h k (omega arith) refl
init-IsValid bp_twobit size ghr_size h k =
    table-IsTable bp_twobit size ghr_size 2 3 h k (omega arith) refl
init-IsValid bp_gshare size ghr_size h k =
    (table-IsTable bp_gshare size ghr_size 1 3 h k (omega arith) refl, pow_pos ghr_size)
init-IsValid bp_tage size ghr_size h k = Valid.init-IsValid
