-- ===== src/DyserUnit/Tokens.antt =====
-- Tokens of a data-flow unit (`DyserUnit::processQueue` of sim/src/accel.cpp).
use cisim.Prelude.{
  ℕ, zero, suc, ◌+◌, ◌-◌, ◌≡◌, ◌≢◌, ◌⊎◌, inl, inr, refl, sym, ap, ◌∙◌, arith, Bool, true, false,
  ◌||◌, Bool-cases, Option-cases, ltb, ◌==◌, ==_iff, ==_refl, if◌then◌else◌, List, [], ◌∷◌, ◌++◌,
  All, All-snoc, Option, none, some,
}
use mathlib.Core.Option.{some-injective}
use cisim.Prelude.Dict.{lookup, lookup-insert}
use cisim.Prelude.Dict
use cisim.DyserUnit.{Fifo, has, value_of, is_empty, check_data_ready, take_tokens}

-- A map has an input.
abbrev pub HasInput : Fifo → ℕ → Type 0
HasInput m key = (n : ℕ) × (lookup key m ≡ some n)

-- An input has a token.
abbrev pub HasToken : Fifo → ℕ → Type 0
HasToken m key = (n : ℕ) × (lookup key m ≡ some (suc n))

-- No double in a list.
abbrev pub AreApart : List ℕ → Type 0
AreApart [] = Unit
AreApart (k ∷ ks) = All (λ j. k ≢ j) ks × AreApart ks

abbrev pub is_some : Option ℕ → Bool
is_some none = false
is_some (some n) = true

-- The result of `checkDataReady`, where `found` are inputs that were found to have a token.
abbrev pub Ready : Fifo → List ℕ → List ℕ → List ℕ → Type 0
Ready fifo deps found ids =
    (ids ≡ [])
    ⊎ (All (HasToken fifo) ids × AreApart ids × ((k : ℕ) → has k ids ≡ (has k found || has k deps)))

has-snoc : (k j : ℕ) (ks : List ℕ) → has k (ks ++ j ∷ []) ≡ (has k ks || j == k)
has-snoc k j [] = ground arith
has-snoc k j (i ∷ ks) = ground (arith, has-snoc k j ks)

AreApart-snoc : (ks : List ℕ) (j : ℕ) → AreApart ks → has j ks ≡ false → AreApart (ks ++ j ∷ [])
AreApart-snoc [] j h absent = (tt, tt)
AreApart-snoc (k ∷ ks) j (own, h) absent = (
  All-snoc (λ i. k ≢ i) ks j own (λ e. ground (arith, e, absent)),
  AreApart-snoc ks j h (ground (arith, absent)),
)

has_twice :
    (j dep : ℕ) (found deps : List ℕ)
    → has dep found ≡ true
    → (has j found || has j deps) ≡ (has j found || has j (dep ∷ deps))
has_twice j dep found deps twice = elim (Bool-cases (dep == j)) [
  | inr other ↦ rw other refl
  | inl same ↦
      let here : has j found ≡ true = ap (λ i. has i found) (sym ((==_iff dep j).0 same)) ∙ twice in
      rw here refl
]

pub check_data_ready-Ready :
    (fifo : Fifo) (deps found : List ℕ)
    → All (HasInput fifo) deps
    → All (HasToken fifo) found
    → AreApart found
    → (ids : List ℕ) × (check_data_ready fifo deps found ≡ some ids) × Ready fifo deps found ids
unfolding check_data_ready
check_data_ready-Ready fifo [] found h k a = (found, refl, inr (k, a, λ j. ground arith))
check_data_ready-Ready fifo (dep ∷ deps) found ((zero, read), h) k a = ([], rw read refl, inl refl)
check_data_ready-Ready fifo (dep ∷ deps) found ((suc n, read), h) k a =
    let some_token : (suc n == 0) ≡ false = ground arith in
    elim (Bool-cases (has dep found)) [
      | inl twice ↦
          let (ids, checks, r) = check_data_ready-Ready fifo deps found h k a in
          (
            ids,
            rw (read, some_token, twice) checks,
            elim r [
              | inl nothing ↦ inl nothing
              | inr (tokens, apart, same) ↦
                  inr (tokens, apart, λ j. same j ∙ has_twice j dep found deps twice)
            ],
          )
      | inr once ↦
          let (ids, checks, r) =
            check_data_ready-Ready fifo deps (found ++ dep ∷ []) h
              (All-snoc (HasToken fifo) found dep k (n, read)) (AreApart-snoc found dep a once) in
          (
            ids,
            rw (read, some_token, once) checks,
            elim r [
              | inl nothing ↦ inl nothing
              | inr (tokens, apart, same) ↦
                  inr (tokens, apart, λ j. same j ∙ ground (arith, has-snoc j dep found))
            ],
          )
    ]

has_some : (key : ℕ) (ks : List ℕ) → has key ks ≡ true → is_empty ks ≡ false
has_some key [] h = absurd (cc)
has_some key (k ∷ ks) h = refl

not_empty : (k : ℕ) (ks : List ℕ) → is_empty (ks ++ k ∷ []) ≡ false
not_empty k [] = refl
not_empty k (j ∷ ks) = refl

-- Where nothing is ready, an input has no token.
pub check_data_ready-none :
    (fifo : Fifo) (deps found ids : List ℕ)
    → check_data_ready fifo deps found ≡ some ids
    → is_empty ids ≡ true
    → ((is_empty found ≡ true) × (deps ≡ []))
      ⊎ ((k : ℕ) × (has k deps ≡ true) × (value_of k fifo ≡ 0))
unfolding check_data_ready
check_data_ready-none fifo [] found ids run none_ready =
    inl (ap is_empty (some-injective _ _ run) ∙ none_ready, refl)
check_data_ready-none fifo (dep ∷ deps) found ids run none_ready =
    elim (Option-cases (lookup dep fifo)) [
      | inl out ↦ absurd (cc (rw out at run))
      | inr (n, read) ↦ elim (Bool-cases (n == 0)) [
        | inl zero_left ↦
            let left : value_of dep fifo ≡ n =
              ap (λ (o : Option ℕ). elim o [ none ↦ 0 | some v ↦ v ]) read in
            inr (dep, rw (==_refl dep) refl, ground (arith, left, zero_left))
        | inr some_left ↦
            let found' = if has dep found then found else found ++ dep ∷ [] in
            let full : is_empty found' ≡ false = elim (Bool-cases (has dep found)) [
              | inl twice ↦ rw twice (has_some dep found twice)
              | inr once ↦ rw once (not_empty dep found)
            ] in
            let again : check_data_ready fifo deps found' ≡ some ids =
              rw (read, some_left) at run in
            elim (check_data_ready-none fifo deps found' ids again none_ready) [
              | inl (empty, ends) ↦ absurd (cc (empty, full))
              | inr (k, there, left) ↦ inr (k, ground (arith, there), left)
            ]
      ]
    ]

-- What `take_tokens` leaves: one token less on each input that is taken.
abbrev pub Takes : Fifo → List ℕ → Fifo → Type 0
Takes fifo ids fifo' =
    (k : ℕ)
    → (value_of k fifo' + (if has k ids then 1 else 0) ≡ value_of k fifo)
      × (is_some (lookup k fifo') ≡ is_some (lookup k fifo))

-- Tokens on other inputs stay.
tokens_kept :
    (key n : ℕ) (fifo : Fifo) (ids : List ℕ)
    → All (λ j. key ≢ j) ids
    → All (HasToken fifo) ids
    → All (HasToken (Dict.insert key n fifo)) ids
tokens_kept key n fifo [] own h = tt
tokens_kept key n fifo (j ∷ ids) (ne, own) ((m, read), h) =
    ((m, ground (arith, lookup-insert key j n fifo, ne, read)), tokens_kept key n fifo ids own h)

has_absent : (key : ℕ) (ids : List ℕ) → All (λ j. key ≢ j) ids → has key ids ≡ false
has_absent key [] h = refl
has_absent key (j ∷ ids) (ne, h) =
    let away : (j == key) ≡ false = ground (arith, ne) in rw away (has_absent key ids h)

one_taken :
    (key n : ℕ) (fifo fifo' : Fifo) (ids : List ℕ)
    → lookup key fifo ≡ some (suc n)
    → All (λ j. key ≢ j) ids
    → Takes (Dict.insert key (suc n - 1) fifo) ids fifo'
    → Takes fifo (key ∷ ids) fifo'
one_taken key n fifo fifo' ids read own t k = elim (Bool-cases (key == k)) [
  | inr other ↦
      let kept : lookup k (Dict.insert key (suc n - 1) fifo) ≡ lookup k fifo =
        lookup-insert key k (suc n - 1) fifo ∙ rw other refl in
      let value : value_of k (Dict.insert key (suc n - 1) fifo) ≡ value_of k fifo =
        ap (λ (o : Option ℕ). elim o [ none ↦ 0 | some v ↦ v ]) kept in
      (
        ap (λ b. value_of k fifo' + (if (if b then true else has k ids) then 1 else 0)) other
            ∙ ((t k).0 ∙ value),
        (t k).1 ∙ ap is_some kept,
      )
  | inl same ↦
      let here : key ≡ k = (==_iff key k).0 same in
      let absent : has k ids ≡ false = ap (λ j. has j ids) (sym here) ∙ has_absent key ids own in
      let now : lookup k (Dict.insert key (suc n - 1) fifo) ≡ some (suc n - 1) =
        lookup-insert key k (suc n - 1) fifo ∙ rw same refl in
      let old : lookup k fifo ≡ some (suc n) = ap (λ j. lookup j fifo) (sym here) ∙ read in
      let value : value_of k (Dict.insert key (suc n - 1) fifo) ≡ suc n - 1 =
        ap (λ (o : Option ℕ). elim o [ none ↦ 0 | some v ↦ v ]) now in
      let value' : value_of k fifo ≡ suc n =
        ap (λ (o : Option ℕ). elim o [ none ↦ 0 | some v ↦ v ]) old in
      let less : value_of k fifo' + (if has k ids then 1 else 0) ≡ suc n - 1 = (t k).0 ∙ value in
      let less' : value_of k fifo' + 0 ≡ suc n - 1 =
        ap (λ b. value_of k fifo' + (if b then 1 else 0)) (sym absent) ∙ less in
      (
        ap (λ b. value_of k fifo' + (if (if b then true else has k ids) then 1 else 0)) same
            ∙ omega (arith, less', value'),
        (t k).1 ∙ (ap is_some now ∙ sym (ap is_some old)),
      )
]

pub take_tokens-Takes :
    (ids : List ℕ) (fifo : Fifo)
    → All (HasToken fifo) ids
    → AreApart ids
    → (fifo' : Fifo) × (take_tokens fifo ids ≡ some fifo') × Takes fifo ids fifo'
unfolding take_tokens
take_tokens-Takes [] fifo h a = (fifo, refl, λ k. (omega arith, refl))
take_tokens-Takes (key ∷ ids) fifo ((n, read), h) (own, a) =
    let fifo1 = Dict.insert key (suc n - 1) fifo in
    let kept = tokens_kept key (suc n - 1) fifo ids own h in
    let (fifo', takes, t) = take_tokens-Takes ids fifo1 kept a in
    let some_left : ltb 0 (suc n) ≡ true = ground arith in
    (fifo', rw (read, some_left) takes, one_taken key n fifo fifo' ids read own t)
