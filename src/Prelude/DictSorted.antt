-- ===== src/Prelude/DictSorted.antt =====
-- A `std::map` as a list is in key order.
use Prim.Native.Nat.{ℕ, ◌≤◌, ◌<◌}
use mathlib.Core.Path.{◌≡◌, refl}
use mathlib.Core.Logic.{inl, inr}
use mathlib.Core.Option.{none}
use mathlib.Core.List.{List, [], ◌∷◌}
use native.Mathlib.Omega.{arith}
use cisim.Prelude.Tests.{ltb, ◌==◌, Bool-cases, ltb→lt}
use cisim.Prelude.Dict.{lookup, insert, erase}

module _ {ℓ} {A : Type ℓ} where
  -- Every key is above `bound`.
  abbrev pub Above : ℕ → List (ℕ × A) → Type 0
  Above bound [] = Unit
  Above bound ((key, value) ∷ m) = (bound < key) × Above bound m

  abbrev pub IsSorted : List (ℕ × A) → Type 0
  IsSorted [] = Unit
  IsSorted ((key, value) ∷ m) = Above key m × IsSorted m

  Above-le : (low high : ℕ) (m : List (ℕ × A)) → low ≤ high → Above high m → Above low m
  Above-le low high [] le h = tt
  Above-le low high ((key, value) ∷ m) le (lt, h) =
      (omega (arith, le, lt), Above-le low high m le h)

  pub lookup_below :
      (key bound : ℕ) (m : List (ℕ × A)) → key ≤ bound → Above bound m → lookup key m ≡ none
  unfolding lookup
  lookup_below key bound [] le h = refl
  lookup_below key bound ((at, value) ∷ m) le (lt, h) =
      ground (arith, lookup_below key bound m le h)

  Above-insert :
      (bound key : ℕ) (value : A) (m : List (ℕ × A))
      → bound < key
      → Above bound m
      → Above bound (insert key value m)
  unfolding insert
  Above-insert bound key value [] lt h = (lt, tt)
  Above-insert bound key value ((at, v) ∷ m) lt (low, h) = elim (Bool-cases (ltb key at)) [
    | inl e ↦ rw e (lt, (low, h))
    | inr e ↦ elim (Bool-cases (at == key)) [
      | inl same ↦ rw (e, same) (lt, h)
      | inr other ↦ rw (e, other) (low, Above-insert bound key value m lt h)
    ]
  ]

  pub insert-IsSorted :
      (key : ℕ) (value : A) (m : List (ℕ × A)) → IsSorted m → IsSorted (insert key value m)
  unfolding insert
  insert-IsSorted key value [] h = (tt, tt)
  insert-IsSorted key value ((at, v) ∷ m) (low, h) = elim (Bool-cases (ltb key at)) [
    | inl e ↦ rw e ((ltb→lt key at e, Above-le key at m (ground (arith, e)) low), (low, h))
    | inr e ↦ elim (Bool-cases (at == key)) [
      | inl same ↦ rw (e, same) (Above-le key at m (ground arith) low, h)
      | inr other ↦
          rw (e, other)
            (Above-insert at key value m (ground arith) low, insert-IsSorted key value m h)
    ]
  ]

  Above-erase : (bound key : ℕ) (m : List (ℕ × A)) → Above bound m → Above bound (erase key m)
  unfolding erase
  Above-erase bound key [] h = tt
  Above-erase bound key ((at, v) ∷ m) (lt, h) = elim (Bool-cases (at == key)) [
    | inl same ↦ rw same (Above-erase bound key m h)
    | inr other ↦ rw other (lt, Above-erase bound key m h)
  ]

  pub erase-IsSorted : (key : ℕ) (m : List (ℕ × A)) → IsSorted m → IsSorted (erase key m)
  unfolding erase
  erase-IsSorted key [] h = tt
  erase-IsSorted key ((at, v) ∷ m) (low, h) = elim (Bool-cases (at == key)) [
    | inl same ↦ rw same (erase-IsSorted key m h)
    | inr other ↦ rw other (Above-erase at key m low, erase-IsSorted key m h)
  ]
