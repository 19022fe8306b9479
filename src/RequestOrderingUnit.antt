-- ===== src/RequestOrderingUnit.antt =====
-- The request ordering unit (sim/include/rou.h and sim/src/rou.cpp): the pack and extract requests
-- of one unit and offset leave in the order they came.
pub mod Order
mod Tests
use cisim.Prelude.{
  ℕ, ◌+◌, ◌-◌, ◌*◌, ◌/◌, ◌%◌, ◌^◌, bit_xor, Bool, true, false, ◌||◌, ltb, ◌==◌, if◌then◌else◌, List,
  [], ◌∷◌, ◌++◌, Option, none, some, ◌>>=◌, update,
}
use cisim.Operation.{Operation}

-- `reorderBuffer`: `none` for a number that was never added.
abbrev pub ReorderBuffer : Type 0
ReorderBuffer = ℕ → Option (List ℕ)

unfoldable pub init : ReorderBuffer
init h = none

-- `hashTwoInts` on two bit patterns of `int`. The first is extended by its sign to 64 bits; the
-- constant does not fit an `int`, so the sum with it is one of 32 bits without a sign.
unfoldable pub hash_two_ints : ℕ → ℕ → ℕ
hash_two_ints a b =
    let hash = if ltb a (2 ^ 31) then a else a + (2 ^ 64 - 2 ^ 32) in
    bit_xor hash (((b + 0x9e3779b9) % 2 ^ 32 + hash * 64 % 2 ^ 64 + hash / 4) % 2 ^ 64)

abbrev pub is_request : Operation → Bool
is_request o = o.is_extract_func || o.is_packing_func

abbrev pub hash_of : Operation → ℕ
hash_of o = hash_two_ints o.dyser_unit_id o.offset

-- A missing vector is made empty first.
abbrev pub waiting : Option (List ℕ) → List ℕ
waiting none = []
waiting (some ids) = ids

unfoldable pub add_instruction : ReorderBuffer → Operation → ReorderBuffer
add_instruction buffer o =
    if is_request o
    then update buffer (hash_of o) (some (waiting (buffer (hash_of o)) ++ (o.dyn_id ∷ [])))
    else buffer

-- The first in the vector and the others; `none` where an assertion fails.
abbrev pub first_of : Option (List ℕ) → Option (ℕ × List ℕ)
first_of none = none
first_of (some []) = none
first_of (some (id ∷ ids)) = some (id, ids)

unfoldable pub can_issue : ReorderBuffer → Operation → Option Bool
can_issue buffer o =
    if is_request o
    then (first_of (buffer (hash_of o)) >>= λ f. some (f.0 == o.dyn_id))
    else some true

unfoldable pub release_entry : ReorderBuffer → Operation → Option ReorderBuffer
release_entry buffer o =
    if is_request o
    then (first_of (buffer (hash_of o)) >>= λ f.
        some (if f.0 == o.dyn_id then update buffer (hash_of o) (some f.1) else buffer))
    else some buffer
