-- ===== src/Tage/Allocation.antt =====
-- What the allocation part of `PREDICTOR::UpdatePredictor` (sim/src/tage/tage.cpp) does.
use cisim.Prelude.{
  ℕ, zero, suc, ◌<◌, ◌≡◌, Bool, true, false, arith, Bool-cases, inl, inr, ◌==◌, none, sym, subst,
  ==_iff, ==_refl,
}
use cisim.Tage.{Predictor, TagEntry, current, set_current}
use cisim.Tage.Predict.{takes}
use cisim.Tage.Update.{is_free, count_free, match_bank, allocate_down, allocate}

current-set_current : (p : Predictor) (b : ℕ) (e : TagEntry) → current (set_current p b e) b ≡ e
current-set_current p b e = rw (==_refl b, ==_refl (p.index_tag_pred b))

allocate_down_here :
    (p : Predictor) (resolve_dir : Bool) (n : ℕ)
    → is_free p n ≡ true
    → takes (current (allocate_down p resolve_dir (suc n)) n).ctr ≡ true
unfolding allocate_down
allocate_down_here p resolve_dir n free =
    rw (free, ==_refl n, ==_refl (p.index_tag_pred n)) (ground arith)

-- An entry that the downward search allocates, at the first free bank below `n`, predicts taken,
-- also where the branch was not taken.
pub allocate_down-takes :
    (p : Predictor) (resolve_dir : Bool) (n i : ℕ)
    → i < n
    → is_free p i ≡ true
    → ((j : ℕ) → i < j → j < n → is_free p j ≡ false)
    → takes (current (allocate_down p resolve_dir n) i).ctr ≡ true
unfolding allocate_down
allocate_down-takes p resolve_dir zero i h free busy = absurd (omega arith)
allocate_down-takes p resolve_dir (suc n) i h free busy = elim (Bool-cases (i == n)) [
  | inl e ↦
      let same_bank = (==_iff i n).0 e in
      subst (λ k. takes (current (allocate_down p resolve_dir (suc n)) k).ctr ≡ true)
        (sym same_bank)
        (allocate_down_here p resolve_dir n (subst (λ k. is_free p k ≡ true) same_bank free))
  | inr e ↦
      rw (busy n (ground arith) (omega arith)) (
        allocate_down-takes p resolve_dir n i (ground arith) free (λ j a b. busy j a (omega arith)))
]

match_bank-none :
    (p : Predictor) (rand_no : ℕ)
    → count_free p p.prime_bank ≡ 1
    → is_free p 0 ≡ false
    → match_bank p rand_no ≡ none
unfolding match_bank
match_bank-none p rand_no one busy = rw one (ground arith)

-- Where exactly one bank below the provider is free and it is not bank 0, a misprediction allocates
-- nothing and ages nothing.
pub allocate_none :
    (p : Predictor) (fresh resolve_dir pred_dir : Bool) (rand_no : ℕ)
    → count_free p p.prime_bank ≡ 1
    → is_free p 0 ≡ false
    → allocate p fresh resolve_dir pred_dir rand_no ≡ p
unfolding allocate
allocate_none p fresh resolve_dir pred_dir rand_no one busy =
    ground (arith, match_bank-none p rand_no one busy)
