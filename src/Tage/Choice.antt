-- ===== src/Tage/Choice.antt =====
-- Which bank gives the prediction of `PREDICTOR::GetPrediction` (sim/src/tage/tage.cpp).
use cisim.Prelude.{
  ℕ, zero, suc, ◌+◌, ◌-◌, ◌≤◌, ◌<◌, ◌≡◌, ◌⊎◌, inl, inr, refl, Bool, true, false, arith, Bool-cases,
  ◌==◌, ==_iff, subst, ltb, if◌then◌else◌,
}
use cisim.Tage.{Predictor, num_tag_tables, current}
use cisim.Tage.History.{u32}
use cisim.Tage.Predict.{
  base_prediction, first_match, tag_matches, look_up, takes, trusts_prime, choose, get_prediction,
}

-- `bank` is the first bank from `start` on that hits, or 4 where none does.
abbrev pub IsFirst : (ℕ → Bool) → ℕ → ℕ → Type 0
IsFirst hit start bank =
    ((j : ℕ) → start ≤ j → j < bank → hit j ≡ false)
    × ((bank ≡ num_tag_tables) ⊎ ((start ≤ bank) × (bank < num_tag_tables) × (hit bank ≡ true)))

IsFirst-extend :
    (hit : ℕ → Bool) (i bank : ℕ) → hit i ≡ false → IsFirst hit (i + 1) bank → IsFirst hit i bank
IsFirst-extend hit i bank miss (before, r) = (earlier, ground arith)
  where
    earlier : (j : ℕ) → i ≤ j → j < bank → hit j ≡ false
    earlier j a b = elim (Bool-cases (i == j)) [
      | inl e ↦ subst (λ k. hit k ≡ false) ((==_iff i j).0 e) miss
      | inr ne ↦ before j (ground arith) b
    ]

first_match-IsFirst :
    (hit : ℕ → Bool) (n i : ℕ) → n ≡ num_tag_tables - i → IsFirst hit i (first_match hit n i)
unfolding first_match
first_match-IsFirst hit zero i e = (λ j a b. absurd (omega arith), inl refl)
first_match-IsFirst hit (suc n) i e = elim (Bool-cases (hit i)) [
  | inl found ↦ rw found (λ j a b. absurd (omega arith), inr (omega arith, omega arith, found))
  | inr miss ↦
      rw miss (IsFirst-extend hit i _ miss (first_match-IsFirst hit n (i + 1) (omega arith)))
]

look_up-IsFirst :
    (p : Predictor) (pc : ℕ)
    → let q = look_up p pc in
      IsFirst (tag_matches q) 0 q.prime_bank × IsFirst (tag_matches q) (q.prime_bank + 1) q.alt_bank
unfolding look_up
look_up-IsFirst p pc = (first_match-IsFirst _ num_tag_tables 0 refl, first_match-IsFirst _ _ _ refl)

-- Whatever the counters hold, the test passes: a counter is not 3 or it is not 4.
trusts_prime_always : (p : Predictor) → trusts_prime p ≡ true
trusts_prime_always p = ground arith

-- What a lookup establishes and a choice keeps: both banks are the first hits of their ranges, and
-- the direction comes from the first.
abbrev pub Provides : Bool → Predictor × Bool → Type 0
Provides base (q, d) =
    IsFirst (tag_matches q) 0 q.prime_bank
    × IsFirst (tag_matches q) (q.prime_bank + 1) q.alt_bank
    × (d ≡ (if ltb q.prime_bank num_tag_tables then takes (current q q.prime_bank).ctr else base))

choose-Provides :
    (p : Predictor) (base : Bool)
    → IsFirst (tag_matches p) 0 p.prime_bank
    → IsFirst (tag_matches p) (p.prime_bank + 1) p.alt_bank
    → Provides base (choose p base)
unfolding choose
choose-Provides p base first next = elim (Bool-cases (ltb p.prime_bank num_tag_tables)) [
  | inl e ↦ rw (e, trusts_prime_always p) (first, next, rw e)
  | inr e ↦ rw e (first, next, rw e)
]

-- `GetPrediction` finds the first bank whose entry carries the computed tag, and the next one after
-- it. The prediction is the direction of the first bank's counter where there is a hit, and that of
-- the bimodal table where there is none; the second bank never decides it.
pub get_prediction_provider :
    (p : Predictor) (pc : ℕ) → Provides (base_prediction p (u32 pc)) (get_prediction p pc)
unfolding get_prediction
get_prediction_provider p pc =
    let found = look_up-IsFirst p (u32 pc) in
    choose-Provides (look_up p (u32 pc)) (base_prediction p (u32 pc)) found.0 found.1
