-- ===== src/FunctionalCache/Start.antt =====
-- The constructor of `FunctionalCache` (sim/src/mem/FunctionalCache.cpp).
use cisim.Prelude.{
  ℕ, zero, suc, ◌+◌, ◌/◌, ◌^◌, ◌≤◌, ◌<◌, arith, ltb, [], All-replicate, All-get_elem?,
  length-replicate, replicate, inl, inr, Bool-cases,
}
use cisim.Prelude.Bits.{pow_add}
use cisim.CacheSet
use cisim.CacheSet.{CacheSet}
use cisim.CacheSet.Rep.{init-Rep}
use cisim.FunctionalCache.{log2, log2_within, init}
use cisim.FunctionalCache.Valid.{IsCacheSet, IsValid}

pow-log2_within : (fuel n : ℕ) → 0 < n → n ≤ fuel → 2 ^ log2_within fuel n ≤ n
pow-log2_within zero n h k = absurd (omega arith)
pow-log2_within (suc fuel) n h k = elim (Bool-cases (ltb n 2)) [
  | inl t ↦ rw t (omega arith)
  | inr t ↦
      rw (t, pow_add (log2_within fuel (n / 2)) 1)
        (ground (arith, t, pow-log2_within fuel (n / 2) (ground (arith, t)) (ground (arith, t))))
]

pub pow-log2 : (n : ℕ) → 0 < n → 2 ^ log2 n ≤ n
unfolding log2
pow-log2 n h = pow-log2_within n n h (omega arith)

module _ (size assoc line_size : ℕ) where
  start-IsSet : (i : ℕ) → 0 < assoc → IsCacheSet (init size assoc line_size) i (CacheSet.init assoc)
  unfolding CacheSet.init
  start-IsSet i h = (h, [], init-Rep assoc, tt)

  -- A cache built with at least one set and one way, whose fields leave at least one bit to the tag
  -- and take at least one, is valid.
  pub start-IsValid :
      0 < assoc
      → 0 < size / line_size / assoc
      → 0 < log2 (size / line_size / assoc) + log2 line_size
      → log2 (size / line_size / assoc) + log2 line_size < 64
      → IsValid (init size assoc line_size)
  unfolding init
  start-IsValid h some_sets low high =
      let n = size / line_size / assoc in
      record {
        some_bits = low;
        few_bits = high;
        enough = omega (arith, pow-log2 n some_sets, length-replicate n (CacheSet.init assoc));
        valid = λ i c e.
            All-get_elem? (IsCacheSet (init size assoc line_size) i)
              (replicate n (CacheSet.init assoc)) i
              (All-replicate (IsCacheSet (init size assoc line_size) i) n (CacheSet.init assoc)
                (start-IsSet i h))
              e;
      }
