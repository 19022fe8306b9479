-- ===== src/PriorityQueue.antt =====
-- `std::priority_queue` as the list of its elements in the order in which they leave. `before` is the
-- order of the comparator, turned round as the queue does.
use cisim.Prelude.{
  zero, suc, ap, get_elem?, set, some, ℕ, ◌+◌, ◌≤◌, ◌≡◌, refl, arith, inl, inr, Bool, true, false,
  Bool-cases, if◌then◌else◌, List, [], ◌∷◌, ◌++◌, All,
}
use mathlib.Core.Option.{some-injective}

module _ {ℓ} {A : Type ℓ} where
  unfoldable pub push : (A → A → Bool) → A → List A → List A
  push before e [] = e ∷ []
  push before e (x ∷ xs) =
      let later = x ∷ push before e xs in if before e x then e ∷ x ∷ xs else later

  -- The sum of a weight of the elements of a list.
  abbrev pub tally : (A → ℕ) → List A → ℕ
  tally weight [] = 0
  tally weight (x ∷ xs) = weight x + tally weight xs

  pub tally-append :
      (weight : A → ℕ) (xs ys : List A)
      → tally weight (xs ++ ys) ≡ tally weight xs + tally weight ys
  tally-append weight [] ys = omega arith
  tally-append weight (x ∷ xs) ys = omega (arith, tally-append weight xs ys)

  pub tally-push :
      (weight : A → ℕ) (before : A → A → Bool) (e : A) (xs : List A)
      → tally weight (push before e xs) ≡ weight e + tally weight xs
  unfolding push
  tally-push weight before e [] = refl
  tally-push weight before e (x ∷ xs) = elim (Bool-cases (before e x)) [
    | inl first ↦ rw first refl
    | inr later ↦ rw later (omega (arith, tally-push weight before e xs))
  ]

  -- A write adds the weight of the new element and takes away that of the old one.
  pub tally-set :
      (weight : A → ℕ) (xs : List A) (i : ℕ) (x v : A)
      → get_elem? xs i ≡ some x
      → tally weight (set xs i v) + weight x ≡ tally weight xs + weight v
  tally-set weight [] i x v e = absurd (cc)
  tally-set weight (y ∷ xs) zero x v e = omega (arith, ap weight (some-injective _ _ e))
  tally-set weight (y ∷ xs) (suc i) x v e = omega (arith, tally-set weight xs i x v e)

  pub All-push {κ} :
      (P : A → Type κ) (before : A → A → Bool) (e : A) (xs : List A)
      → P e
      → All P xs
      → All P (push before e xs)
  unfolding push
  All-push P before e [] p h = (p, tt)
  All-push P before e (x ∷ xs) p (q, h) = elim (Bool-cases (before e x)) [
    | inl first ↦ rw first (p, (q, h))
    | inr later ↦ rw later (q, All-push P before e xs p h)
  ]

  -- The keys rise.
  abbrev pub IsOrdered : (A → ℕ) → List A → Type 0
  IsOrdered key [] = Unit
  IsOrdered key (x ∷ xs) = All (λ y. key x ≤ key y) xs × IsOrdered key xs

  above_all :
      (key : A → ℕ) (low high : ℕ) (xs : List A)
      → low ≤ high
      → All (λ y. high ≤ key y) xs
      → All (λ y. low ≤ key y) xs
  above_all key low high [] le h = tt
  above_all key low high (x ∷ xs) le (p, h) = (omega arith, above_all key low high xs le h)

  pub push-IsOrdered :
      (key : A → ℕ) (before : A → A → Bool)
      → ((a b : A) → before a b ≡ true → key a ≤ key b)
      → ((a b : A) → before a b ≡ false → key b ≤ key a)
      → (e : A) (xs : List A) → IsOrdered key xs
      → IsOrdered key (push before e xs)
  unfolding push
  push-IsOrdered key before low high e [] h = (tt, tt)
  push-IsOrdered key before low high e (x ∷ xs) (least, h) = elim (Bool-cases (before e x)) [
    | inl first ↦
        rw first
          ((low e x first, above_all key (key e) (key x) xs (low e x first) least), (least, h))
    | inr later ↦ rw later (
      All-push (λ y. key x ≤ key y) before e xs (high e x later) least,
      push-IsOrdered key before low high e xs h,
    )
  ]
