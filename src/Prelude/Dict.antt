-- ===== src/Prelude/Dict.antt =====
-- `std::map` with keys of `uint64_t`: an association list in key order.
use Prim.Native.Nat.{ℕ}
use mathlib.Core.Path.{◌≡◌, refl}
use mathlib.Core.Option.{Option, none, some}
use mathlib.Core.List.{List, [], ◌∷◌}
use native.Mathlib.Omega.{arith}
use cisim.Prelude.Tests.{ltb, ◌==◌, if◌then◌else◌}

-- `m.find(key)`
unfoldable pub lookup {ℓ} : {A : Type ℓ} → ℕ → List (ℕ × A) → Option A
lookup key [] = none
lookup key ((at, value) ∷ rest) =
    let later = lookup key rest in if at == key then some value else later

-- `m.erase(key)`: a map has one entry of a key at most.
unfoldable pub erase {ℓ} : {A : Type ℓ} → ℕ → List (ℕ × A) → List (ℕ × A)
erase key [] = []
erase key ((at, value) ∷ rest) =
    let later = erase key rest in if at == key then later else (at, value) ∷ later

-- `m[key] = new`: a new key goes before the first larger one.
unfoldable pub insert {ℓ} : {A : Type ℓ} → ℕ → A → List (ℕ × A) → List (ℕ × A)
insert key new [] = (key, new) ∷ []
insert key new ((at, value) ∷ rest) =
    let later = (at, value) ∷ insert key new rest in
    if ltb key at
    then (key, new) ∷ (at, value) ∷ rest
    else if at == key
    then (key, new) ∷ rest
    else later

pub lookup-insert {ℓ} :
    {A : Type ℓ} (key other : ℕ) (new : A) (m : List (ℕ × A))
    → lookup other (insert key new m) ≡ (if key == other then some new else lookup other m)
unfolding lookup insert
lookup-insert key other new [] = refl
lookup-insert key other new ((at, value) ∷ rest) = ground (arith, lookup-insert key other new rest)

pub lookup-erase {ℓ} :
    {A : Type ℓ} (key other : ℕ) (m : List (ℕ × A))
    → lookup other (erase key m) ≡ (if key == other then none else lookup other m)
unfolding lookup erase
lookup-erase key other [] = ground arith
lookup-erase key other ((at, value) ∷ rest) = ground (arith, lookup-erase key other rest)
