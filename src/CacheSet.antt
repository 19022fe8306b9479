-- ===== src/CacheSet.antt =====
-- One set of the functional cache (`CacheSet` of sim/include/mem/FunctionalCache.hpp and
-- sim/src/mem/FunctionalCache.cpp), with its pointers. Entry `i` of `entries` is node `i`; the two
-- sentinels are the nodes `associativity` and `associativity + 1`.
pub mod Lru
pub mod Links
pub mod Rep
pub mod View
pub mod Refine
pub mod Duplicate
mod Tests
use cisim.Prelude.{
  ℕ, zero, suc, ◌+◌, Bool, true, false, not, ◌==◌, if◌then◌else◌, List, [], ◌∷◌, Option, none, some,
  ◌>>=◌, ◌>>◌, assert, update,
}
use cisim.Prelude.Dict.{lookup, erase}
use cisim.Prelude.Dict

-- `prev` and `next` stand in the set. `node_id` is the bit pattern of an `int`.
pub record CacheLine : Type 0 where
  pub addr : ℕ
  pub offset : ℕ
  pub setid : ℕ
  pub node_id : ℕ
  pub num_accesses : ℕ
  pub rrpv : ℕ
  pub dirty : Bool

-- The head of `free_entries` is the back of the vector. The maps `access_map` and the number
-- `log_linesize` are never read.
pub record CacheSet : Type 0 where
  pub associativity : ℕ
  pub next : ℕ → ℕ
  pub prev : ℕ → ℕ
  pub lines : ℕ → CacheLine
  pub free_entries : List ℕ
  pub addr_map : List (ℕ × ℕ)

abbrev pub head : CacheSet → ℕ
head s = s.associativity

abbrev pub tail : CacheSet → ℕ
tail s = s.associativity + 1

-- `freeEntries` after the constructor's loop: the last entry pushed is at the head.
abbrev pub all_entries : ℕ → List ℕ
all_entries zero = []
all_entries (suc n) = n ∷ all_entries n

-- A line before its first insertion; only `dirty` has an initialiser.
abbrev pub blank : CacheLine
blank = record {
  addr = 0;
  offset = 0;
  setid = 0;
  node_id = 0;
  num_accesses = 0;
  rrpv = 0;
  dirty = false;
}

-- The pointers of the entries, and `head->prev` and `tail->next`, are not read before a write.
unfoldable pub init : ℕ → CacheSet
init size = record {
  associativity = size;
  next = λ n. size + 1;
  prev = λ n. size;
  lines = λ n. blank;
  free_entries = all_entries size;
  addr_map = [];
}

-- `c->prev->next = c->next; c->next->prev = c->prev;`
unfoldable pub delete_node : CacheSet → ℕ → CacheSet
delete_node s c = record s {
  next = update s.next (s.prev c) (s.next c);
  prev = update s.prev (update s.next (s.prev c) (s.next c) c) (s.prev c);
}

-- `c->next = h->next; c->prev = h; h->next = c; c->next->prev = c;`
unfoldable pub insert_front : CacheSet → ℕ → ℕ → CacheSet
insert_front s c h =
    let next = update (update s.next c (s.next h)) h c in
    record s { next = next; prev = update (update s.prev c h) (next c) c }

-- The fields that a hit sets.
abbrev pub hit_line : ℕ → ℕ → Bool → CacheLine → CacheLine
hit_line offset node_id is_load c = record c {
  dirty = if is_load then c.dirty else true;
  offset = offset;
  node_id = node_id;
  num_accesses = c.num_accesses + 1;
  rrpv = 0;
}

abbrev pub access_at : CacheSet → ℕ → ℕ → Bool → Option ℕ → CacheSet × Bool
access_at s offset node_id is_load none = (s, false)
access_at s offset node_id is_load (some c) =
    let moved = insert_front (delete_node s c) c (head s) in
    (record moved { lines = update s.lines c (hit_line offset node_id is_load (s.lines c)) }, true)

unfoldable pub access : CacheSet → ℕ → ℕ → ℕ → Bool → CacheSet × Bool
access s address offset node_id is_load =
    access_at s offset node_id is_load (lookup address s.addr_map)

-- `none` where the assertion that the address is mapped fails.
unfoldable pub invalidate : CacheSet → ℕ → Option (CacheSet × Bool)
invalidate s address = do
  c ← lookup address s.addr_map
  let unmapped = record s { addr_map = erase (s.lines c).addr s.addr_map }
  let deleted = delete_node unmapped c
  some (record deleted { free_entries = c ∷ s.free_entries }, (s.lines c).dirty)

-- The entry that `insert` fills, the set without it, and the line that is evicted from it, if any;
-- `none` where the assertion that the list is not empty fails.
abbrev pub take_entry : CacheSet → List ℕ → Option (ℕ × CacheSet × Option CacheLine)
take_entry s (c ∷ free) = some (c, record s { free_entries = free }, none)
take_entry s [] = do
  let c = s.prev (tail s)
  assert (not (c == head s))
  let unmapped = record s { addr_map = erase (s.lines c).addr s.addr_map }
  some (c, delete_node unmapped c, some (s.lines c))

-- The line that `insert` writes.
abbrev pub new_line : ℕ → ℕ → ℕ → ℕ → Bool → CacheLine
new_line address offset setid node_id is_load = record {
  addr = address;
  offset = offset;
  setid = setid;
  node_id = node_id;
  num_accesses = 1;
  rrpv = 2;
  dirty = not is_load;
}

-- The evicted line carries what goes out through the pointer arguments.
unfoldable pub insert : CacheSet → CacheLine → Option (CacheSet × Option CacheLine)
insert s line = do
  (c, emptied, evicted) ← take_entry s s.free_entries
  let filled = record emptied {
    lines = update emptied.lines c line;
    addr_map = Dict.insert line.addr c emptied.addr_map;
  }
  some (insert_front filled c (head s), evicted)

-- The offset and node of the line that was there, and whether it was dirty.
abbrev pub evict_at : CacheSet → ℕ → Option ℕ → CacheSet × Option (ℕ × ℕ) × Bool
evict_at s address none = (s, none, false)
evict_at s address (some c) =
    let deleted = delete_node (record s { addr_map = erase address s.addr_map }) c in
    (
      record deleted { free_entries = c ∷ s.free_entries },
      some ((s.lines c).offset, (s.lines c).node_id),
      (s.lines c).dirty,
    )

unfoldable pub evict : CacheSet → ℕ → CacheSet × Option (ℕ × ℕ) × Bool
evict s address = evict_at s address (lookup address s.addr_map)

abbrev pub is_some {ℓ} : {A : Type ℓ} → Option A → Bool
is_some none = false
is_some (some a) = true

unfoldable pub present : CacheSet → ℕ → Bool
present s address = is_some (lookup address s.addr_map)
