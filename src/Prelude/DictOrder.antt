-- ===== src/Prelude/DictOrder.antt =====
-- A `std::map` as a list is in key order, and `removeItemByValue` (sim/include/task/llvm.h) on it.
use Prim.Native.Nat.{ℕ}
use mathlib.Core.Path.{◌≡◌}
use mathlib.Core.Logic.{◌≢◌, inl, inr}
use mathlib.Core.Option.{none, some}
use mathlib.Core.List.{List, [], ◌∷◌}
use native.Mathlib.Omega.{arith}
use cisim.Prelude.Tests.{◌==◌, if◌then◌else◌, Bool-cases, Option-cases}
use cisim.Prelude.DictSorted.{Above, IsSorted, lookup_below}
use cisim.Prelude.Dict.{lookup, insert, lookup-insert}

-- `removeItemByValue`: the first item with the value goes.
unfoldable pub remove_item_by_value : List (ℕ × ℕ) → ℕ → List (ℕ × ℕ)
remove_item_by_value [] value = []
remove_item_by_value ((key, v) ∷ m) value =
    let rest = (key, v) ∷ remove_item_by_value m value in if v == value then m else rest

Above-remove :
    (bound value : ℕ) (m : List (ℕ × ℕ))
    → Above bound m
    → Above bound (remove_item_by_value m value)
unfolding remove_item_by_value
Above-remove bound value [] h = tt
Above-remove bound value ((key, v) ∷ m) (lt, h) = elim (Bool-cases (v == value)) [
  | inl e ↦ rw e h
  | inr e ↦ rw e (lt, Above-remove bound value m h)
]

pub remove-IsSorted :
    (value : ℕ) (m : List (ℕ × ℕ)) → IsSorted m → IsSorted (remove_item_by_value m value)
unfolding remove_item_by_value
remove-IsSorted value [] h = tt
remove-IsSorted value ((key, v) ∷ m) (low, h) = elim (Bool-cases (v == value)) [
  | inl e ↦ rw e h
  | inr e ↦ rw e (Above-remove key value m low, remove-IsSorted value m h)
]

-- What is found after the removal was found before.
pub lookup-remove :
    (value k i : ℕ) (m : List (ℕ × ℕ))
    → IsSorted m
    → lookup k (remove_item_by_value m value) ≡ some i
    → lookup k m ≡ some i
unfolding lookup remove_item_by_value
lookup-remove value k i [] h e = e
lookup-remove value k i ((key, v) ∷ m) (low, h) e =
    ground (arith, e, lookup_below k key m, low, lookup-remove value k i m h)

-- A key of another value is kept.
pub lookup-remove_ne :
    (value k i : ℕ) (m : List (ℕ × ℕ))
    → i ≢ value
    → lookup k m ≡ some i
    → lookup k (remove_item_by_value m value) ≡ some i
unfolding lookup remove_item_by_value
lookup-remove_ne value k i [] ne e = e
lookup-remove_ne value k i ((key, v) ∷ m) ne e =
    ground (arith, ne, e, lookup-remove_ne value k i m ne)

lookup_later :
    (key v a i : ℕ) (m : List (ℕ × ℕ))
    → Above key m
    → lookup a m ≡ some i
    → lookup a ((key, v) ∷ m) ≡ some i
unfolding lookup
lookup_later key v a i m low e = ground (arith, e, lookup_below a key m, low)

-- Where one key at most has the value, none has it afterwards.
pub lookup-remove_self :
    (value k : ℕ) (m : List (ℕ × ℕ))
    → IsSorted m
    → ((a b : ℕ) → lookup a m ≡ some value → lookup b m ≡ some value → a ≡ b)
    → lookup k (remove_item_by_value m value) ≢ some value
unfolding lookup remove_item_by_value
lookup-remove_self value k [] h one = λ e. absurd (cc)
lookup-remove_self value k ((key, v) ∷ m) (low, h) one =
    let rest = lookup-remove_self value k m h (λ a b p q.
      one a b (lookup_later key v a value m low p) (lookup_later key v b value m low q)) in
    λ e. ground (arith, e, rest, one k key, lookup_below k key m, low)

-- A map in which an entry takes a new key: no other key has the entry, and the others are kept.
module _ (m : List (ℕ × ℕ)) (d i : ℕ) where
  pub remapped-one_key :
      IsSorted m
      → ((k j x : ℕ) → lookup k m ≡ some x → lookup j m ≡ some x → k ≡ j)
      → (k j x : ℕ) → lookup k (insert d i (remove_item_by_value m i)) ≡ some x
      → lookup j (insert d i (remove_item_by_value m i)) ≡ some x
      → k ≡ j
  remapped-one_key sorted one k j x a b =
      let rest = remove_item_by_value m i in
      let gone = λ (c : ℕ). lookup-remove_self i c m sorted (λ p r. one p r i) in
      ground (
        arith,
        a,
        b,
        lookup-insert d k i rest,
        lookup-insert d j i rest,
        gone k,
        gone j,
        lookup-remove i k x m sorted,
        lookup-remove i j x m sorted,
        one k j x,
      )

  pub lookup-remapped :
      (k j : ℕ)
      → k ≢ d
      → j ≢ i
      → lookup k m ≡ some j
      → lookup k (insert d i (remove_item_by_value m i)) ≡ some j
  lookup-remapped k j other kept e = ground (
    arith,
    other,
    lookup-insert d k i (remove_item_by_value m i),
    lookup-remove_ne i k j m kept e,
  )

  pub lookup-remapped_none :
      IsSorted m
      → (k : ℕ) → k ≢ d
      → lookup k m ≡ none
      → lookup k (insert d i (remove_item_by_value m i)) ≡ none
  lookup-remapped_none sorted k other absent =
      let rest = remove_item_by_value m i in
      elim (Option-cases (lookup k rest)) [
        | inl e ↦ ground (arith, e, other, lookup-insert d k i rest)
        | inr (x, e) ↦ absurd (ground (arith, absent, lookup-remove i k x m sorted e))
      ]
