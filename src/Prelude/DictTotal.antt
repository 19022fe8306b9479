-- ===== src/Prelude/DictTotal.antt =====
-- Sums over the values of a `std::map` or `std::unordered_map`, kept as a list in key order.
use Prim.Native.Nat.{ℕ, ◌+◌, ◌≤◌}
use mathlib.Core.Path.{◌≡◌, refl}
use mathlib.Core.Logic.{inl, inr}
use mathlib.Core.Bool.{false}
use mathlib.Core.Option.{Option, none, some}
use mathlib.Core.List.{List, [], ◌∷◌}
use native.Mathlib.Omega.{arith}
use cisim.Prelude.Tests.{ltb, ◌==◌, Bool-cases}
use cisim.Prelude.Dict.{lookup, insert, erase}
use cisim.Prelude.DictSorted.{Above, IsSorted, lookup_below}

module _ {ℓ} {A : Type ℓ} (weight : A → ℕ) where
  abbrev pub total : List (ℕ × A) → ℕ
  total [] = 0
  total ((key, value) ∷ m) = weight value + total m

  -- The weight of what is found, 0 of what is not.
  abbrev pub weigh : Option A → ℕ
  weigh none = 0
  weigh (some value) = weight value

  Above-keeps : (key bound : ℕ) (m : List (ℕ × A)) → key ≤ bound → Above bound m → erase key m ≡ m
  unfolding erase
  Above-keeps key bound [] le h = refl
  Above-keeps key bound ((at, v) ∷ m) le (lt, h) =
      let other : (at == key) ≡ false = ground arith in
      rw (other, Above-keeps key bound m le h) refl

  pub total-erase :
      (key : ℕ) (m : List (ℕ × A))
      → IsSorted m
      → total (erase key m) + weigh (lookup key m) ≡ total m
  unfolding erase lookup
  total-erase key [] h = omega arith
  total-erase key ((at, v) ∷ m) (low, h) = elim (Bool-cases (at == key)) [
    | inl same ↦ rw (same, Above-keeps key at m (ground arith) low) (omega arith)
    | inr other ↦ rw other (omega (arith, total-erase key m h))
  ]

  pub total-insert :
      (key : ℕ) (new : A) (m : List (ℕ × A))
      → IsSorted m
      → total (insert key new m) + weigh (lookup key m) ≡ total m + weight new
  unfolding insert lookup
  total-insert key new [] h = omega arith
  total-insert key new ((at, v) ∷ m) (low, h) = elim (Bool-cases (ltb key at)) [
    | inl e ↦
        let other : (at == key) ≡ false = ground arith in
        rw (e, other, lookup_below key at m (ground arith) low) (omega arith)
    | inr e ↦ elim (Bool-cases (at == key)) [
      | inl same ↦ rw (e, same) (omega arith)
      | inr other ↦ rw (e, other) (omega (arith, total-insert key new m h))
    ]
  ]
