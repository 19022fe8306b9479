-- ===== src/FunctionalCache/Valid.antt =====
-- The invariant of the functional cache (sim/src/mem/FunctionalCache.cpp): the sets are in range and
-- each holds lines of its own addresses only.
use cisim.Prelude.{
  ℕ, ◌+◌, ◌/◌, ◌%◌, ◌^◌, ◌≤◌, ◌<◌, ◌≡◌, sym, ap, subst, ◌∙◌, arith, ◌==◌, Bool-cases, inl, inr,
  List, All, length, length-set, get_elem?, get_elem?-in, get_elem?-set_self, get_elem?-set_ne, set,
  some,
}
use mathlib.Core.Option.{some-injective}
use native.Mathlib.Nat.{mod-lt}
use cisim.Prelude.Bits.{pow_pos}
use cisim.CacheSet.{CacheSet, CacheLine}
use cisim.CacheSet.Rep.{Rep}
use cisim.CacheSet.View.{view}
use cisim.FunctionalCache.{FunctionalCache, get_setid, with_set}
use cisim.FunctionalCache.Fields.{fields}

-- A line of set `setid` has the fields of an address of that set.
abbrev pub IsLine : FunctionalCache → ℕ → CacheLine → Type 0
IsLine f setid l =
    (address : ℕ) × (address < 2 ^ 64)
    × (l.addr ≡ address / 2 ^ (f.log_set_count + f.log_line_size))
    × (l.setid ≡ setid)
    × (setid ≡ address / 2 ^ f.log_line_size % 2 ^ f.log_set_count)
    × (l.offset ≡ address % 2 ^ f.log_line_size)

abbrev pub IsCacheSet : FunctionalCache → ℕ → CacheSet → Type 0
IsCacheSet f setid c =
    (0 < c.associativity) × (xs : List ℕ) × Rep c xs × All (IsLine f setid) (view c xs)

-- The bounds on the two logarithms are those under which every shift but one is defined.
pub record IsValid (f : FunctionalCache) : Type 0 where
  pub some_bits : 0 < f.log_set_count + f.log_line_size
  pub few_bits : f.log_set_count + f.log_line_size < 64
  pub enough : 2 ^ f.log_set_count ≤ length f.sets
  pub valid : (i : ℕ) (c : CacheSet) → get_elem? f.sets i ≡ some c → IsCacheSet f i c

-- The set of an address is in range.
pub set_of :
    (over : ℕ) (f : FunctionalCache) (address : ℕ)
    → over < 2
    → address < 2 ^ 64
    → IsValid f
    → (c : CacheSet) × (get_elem? f.sets (get_setid over f address) ≡ some c)
      × (get_setid over f address < length f.sets)
set_of over f address h a v =
    let inside : get_setid over f address < length f.sets = omega (
      arith,
      v.enough,
      fields over f address h v.some_bits v.few_bits a,
      mod-lt (address / 2 ^ f.log_line_size) (pow_pos f.log_set_count),
    ) in
    let (c, e) = get_elem?-in f.sets (get_setid over f address) inside in (c, e, inside)

pub with_set-IsValid :
    (f : FunctionalCache) (i : ℕ) (c : CacheSet)
    → i < length f.sets
    → IsValid f
    → IsCacheSet f i c
    → IsValid (with_set f i c)
with_set-IsValid f i c h v w = record {
  some_bits = v.some_bits;
  few_bits = v.few_bits;
  enough = omega (arith, v.enough, length-set f.sets i c);
  valid = λ j d e. elim (Bool-cases (i == j)) [
    | inl t ↦
        let ij : i ≡ j = ground arith in
        let same : some c ≡ some d =
          sym (get_elem?-set_self f.sets i c h) ∙ ap (get_elem? (set f.sets i c)) ij ∙ e in
        subst (λ k. IsCacheSet f k d) ij (subst (IsCacheSet f i) (some-injective _ _ same) w)
    | inr t ↦ v.valid j d (sym (get_elem?-set_ne f.sets i j c (ground arith)) ∙ e)
  ];
}
