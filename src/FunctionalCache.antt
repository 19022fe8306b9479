-- ===== src/FunctionalCache.antt =====
-- The functional cache (`FunctionalCache` of sim/include/mem/FunctionalCache.hpp and
-- sim/src/mem/FunctionalCache.cpp): the fields of an address and the operations on its set.
pub mod Fields
mod Lines
pub mod Valid
pub mod Start
pub mod Presence
mod Tests
use cisim.Prelude.{
  ℕ, zero, suc, ◌+◌, ◌-◌, ◌*◌, ◌/◌, ◌%◌, ◌^◌, bit_and, Bool, ltb, ◌==◌, if◌then◌else◌, List, [],
  ◌∷◌, Option, none, some, ◌>>=◌, get_elem?, set, replicate,
}
use cisim.CacheSet.{CacheSet, CacheLine, new_line}
use cisim.CacheSet

pub record FunctionalCache : Type 0 where
  pub line_count : ℕ
  pub set_count : ℕ
  pub log_set_count : ℕ
  pub cache_line_size : ℕ
  pub log_line_size : ℕ
  pub sets : List CacheSet

-- `log2` as the source uses it: the `double` is cut to an `int`. The fuel is the number itself.
abbrev pub log2_within : ℕ → ℕ → ℕ
log2_within zero n = 0
log2_within (suc fuel) n = let rest = log2_within fuel (n / 2) in if ltb n 2 then 0 else rest + 1

unfoldable pub log2 : ℕ → ℕ
log2 n = log2_within n n

unfoldable pub init : ℕ → ℕ → ℕ → FunctionalCache
init size assoc line_size =
    let line_count = size / line_size in
    let set_count = line_count / assoc in
    record {
      line_count = line_count;
      set_count = set_count;
      log_set_count = log2 set_count;
      cache_line_size = line_size;
      log_line_size = log2 line_size;
      sets = replicate set_count (CacheSet.init assoc);
    }

-- `(uint64_t)1 << k`. A shift by 64 or more is undefined: `over` is what the machine gives.
abbrev pub one_shifted : ℕ → ℕ → ℕ
one_shifted over k = if ltb k 64 then 2 ^ k else over

-- `extract(max, min, address)`, where `top` is `max + 1`, since `max` can be -1.
unfoldable pub extract : ℕ → ℕ → ℕ → ℕ → ℕ
extract over top min address =
    let maxmask = (one_shifted over top + 2 ^ 64 - 1) % 2 ^ 64 in
    let minmask = (one_shifted over min + 2 ^ 64 - 1) % 2 ^ 64 in
    let mask = (maxmask + 2 ^ 64 - minmask) % 2 ^ 64 in bit_and address mask / 2 ^ min

-- The offset of an address, `getSetid` and `getTag`.
abbrev pub get_offset : ℕ → FunctionalCache → ℕ → ℕ
get_offset over f address = extract over f.log_line_size 0 address

abbrev pub get_setid : ℕ → FunctionalCache → ℕ → ℕ
get_setid over f address = extract over (f.log_set_count + f.log_line_size) f.log_line_size address

abbrev pub get_tag : ℕ → FunctionalCache → ℕ → ℕ
get_tag over f address = extract over 64 (f.log_set_count + f.log_line_size) address

-- A set number out of range is an exception of `sets.at`, here `none`.
abbrev pub with_set : FunctionalCache → ℕ → CacheSet → FunctionalCache
with_set f setid c = record f { sets = set f.sets setid c }

unfoldable pub access : ℕ → FunctionalCache → ℕ → ℕ → Bool → Option (FunctionalCache × Bool)
access over f address node_id is_load = do
  c ← get_elem? f.sets (get_setid over f address)
  let (c', hit) =
      CacheSet.access c (get_tag over f address) (get_offset over f address) node_id is_load
  some (with_set f (get_setid over f address) c', hit)

unfoldable pub invalidate : ℕ → FunctionalCache → ℕ → Option (FunctionalCache × Bool)
invalidate over f address = do
  c ← get_elem? f.sets (get_setid over f address)
  (c', dirty) ← CacheSet.invalidate c (get_tag over f address)
  some (with_set f (get_setid over f address) c', dirty)

-- `(evictedTag << (log_line_size + log_set_count)) + (*evictedSetid << log_line_size) +
-- *evictedOffset` in 64 bits.
unfoldable pub join : FunctionalCache → CacheLine → ℕ
join f l =
    (l.addr * 2 ^ (f.log_set_count + f.log_line_size) % 2 ^ 64
      + l.setid * 2 ^ f.log_line_size % 2 ^ 64
      + l.offset)
    % 2 ^ 64

-- What `insert` writes through `evictedAddr`, a pointer that all callers give: nothing where
-- `evictedTag` is still -1.
abbrev pub evicted_addr : FunctionalCache → Option CacheLine → Option ℕ
evicted_addr f none = none
evicted_addr f (some l) = if l.addr == 2 ^ 64 - 1 then none else some (join f l)

unfoldable pub insert :
    ℕ → FunctionalCache → ℕ → ℕ → Bool → Option (FunctionalCache × Option CacheLine × Option ℕ)
insert over f address node_id is_load = do
  c ← get_elem? f.sets (get_setid over f address)
  let line =
      new_line (get_tag over f address) (get_offset over f address) (get_setid over f address)
        node_id is_load
  (c', evicted) ← CacheSet.insert c line
  some (with_set f (get_setid over f address) c', evicted, evicted_addr f evicted)

unfoldable pub evict : ℕ → FunctionalCache → ℕ → Option (FunctionalCache × Option (ℕ × ℕ) × Bool)
evict over f address = do
  c ← get_elem? f.sets (get_setid over f address)
  let (c', out, dirty) = CacheSet.evict c (get_tag over f address)
  some (with_set f (get_setid over f address) c', out, dirty)

unfoldable pub present : ℕ → FunctionalCache → ℕ → Option Bool
present over f address = do
  c ← get_elem? f.sets (get_setid over f address)
  some (CacheSet.present c (get_tag over f address))
