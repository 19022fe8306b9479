-- ===== src/CacheSet/Rep.antt =====
-- The representation invariant of `CacheSet` (sim/src/mem/FunctionalCache.cpp): its linked list, free
-- list and map describe one list of lines.
use cisim.Prelude.{
  ℕ, zero, suc, ◌+◌, ◌≤◌, ◌≡◌, refl, ap, arith, ltb, to_bit, update, List, [], ◌∷◌, ◌++◌, length,
  length-append, none, some,
}
use cisim.Prelude.Dict.{lookup, erase, lookup-insert, lookup-erase}
use cisim.Prelude.Dict
use cisim.CacheSet.{CacheSet, CacheLine, head, tail, all_entries, init, delete_node, insert_front}
use cisim.CacheSet.Links.{Seg, count, count-append, Seg-delete, Seg-insert}

-- `xs` are the entries in use, from the most to the least recently used.
pub record Rep (s : CacheSet) (xs : List ℕ) : Type 0 where
  pub chain : Seg s.next s.prev (head s) xs (tail s)
  pub entries : (k : ℕ) → count k xs + count k s.free_entries ≡ to_bit (ltb k s.associativity)
  pub total : length xs + length s.free_entries ≡ s.associativity
  pub mapped : (k c : ℕ) → lookup k s.addr_map ≡ some c → (count c xs ≡ 1) × ((s.lines c).addr ≡ k)
  pub resident : (c : ℕ) → count c xs ≡ 1 → lookup (s.lines c).addr s.addr_map ≡ some c

count-all_entries : (k n : ℕ) → count k (all_entries n) ≡ to_bit (ltb k n)
count-all_entries k zero = ground arith
count-all_entries k (suc n) = ground (arith, count-all_entries k n)

length-all_entries : (n : ℕ) → length (all_entries n) ≡ n
length-all_entries zero = refl
length-all_entries (suc n) = ap suc (length-all_entries n)

pub init-Rep : (size : ℕ) → Rep (init size) []
unfolding init lookup
init-Rep size = record {
  chain = (refl, refl);
  entries = λ k. omega (arith, count-all_entries k size);
  total = omega (arith, length-all_entries size);
  mapped = λ k c e. ground arith;
  resident = λ c e. ground arith;
}

-- The counts that the list lemmas want.
pub once : (s : CacheSet) (xs : List ℕ) → Rep s xs → (k : ℕ) → count k (head s ∷ xs) ≤ 1
once s xs v k = ground (arith, v.entries k)

no_tail : (s : CacheSet) (xs : List ℕ) → Rep s xs → count (tail s) (head s ∷ xs) ≡ 0
no_tail s xs v = ground (arith, v.entries (tail s))

-- An entry taken off the list, out of the map and onto the free list.
abbrev pub removed : CacheSet → ℕ → CacheSet
removed s c =
    let deleted = delete_node (record s { addr_map = erase (s.lines c).addr s.addr_map }) c in
    record deleted { free_entries = c ∷ s.free_entries }

pub removed-Rep :
    (s : CacheSet) (c : ℕ) (ys zs : List ℕ) → Rep s (ys ++ (c ∷ zs)) → Rep (removed s c) (ys ++ zs)
unfolding delete_node
removed-Rep s c ys zs v = record {
  chain = Seg-delete s.next s.prev (head s) c (tail s) ys zs (once s _ v) (no_tail s _ v) v.chain;
  entries = λ k. omega (arith, v.entries k, count-append k ys (c ∷ zs), count-append k ys zs);
  total = omega (arith, v.total, length-append ys (c ∷ zs), length-append ys zs);
  mapped = λ k d e. ground (
    arith,
    v.mapped k d,
    v.resident c,
    lookup-erase (s.lines c).addr k s.addr_map,
    v.entries c,
    count-append c ys (c ∷ zs),
    count-append d ys (c ∷ zs),
    count-append d ys zs,
  );
  resident = λ d e. ground (
    arith,
    v.resident d,
    v.resident c,
    lookup-erase (s.lines c).addr (s.lines d).addr s.addr_map,
    v.entries c,
    count-append c ys (c ∷ zs),
    count-append c ys zs,
    count-append d ys (c ∷ zs),
    count-append d ys zs,
  );
}

-- A free entry filled with a line, mapped and linked at the front.
abbrev pub filled : CacheSet → ℕ → CacheLine → CacheSet
filled s c line =
    insert_front
      (record s { lines = update s.lines c line; addr_map = Dict.insert line.addr c s.addr_map }) c
      (head s)

pub filled-Rep :
    (s : CacheSet) (c : ℕ) (line : CacheLine) (xs : List ℕ)
    → Rep (record s { free_entries = c ∷ s.free_entries }) xs
    → lookup line.addr s.addr_map ≡ none
    → Rep (filled s c line) (c ∷ xs)
unfolding insert_front
filled-Rep s c line xs v absent = record {
  chain =
      Seg-insert s.next s.prev (head s) c (tail s) xs (once _ xs v) (ground (arith, v.entries c))
        (ground (arith, v.entries c, v.entries (tail s))) v.chain;
  entries = λ k. omega (arith, v.entries k);
  total = omega (arith, v.total);
  mapped =
      λ k d e. ground (arith, v.mapped k d, lookup-insert line.addr k c s.addr_map, v.entries c);
  resident = λ d e. ground (
    arith,
    v.resident d,
    lookup-insert line.addr line.addr c s.addr_map,
    lookup-insert line.addr (s.lines d).addr c s.addr_map,
    v.entries c,
  );
}

-- A line moved to the front, with new fields but for its address.
abbrev pub touched : CacheSet → ℕ → CacheLine → CacheSet
touched s c line =
    let front = insert_front (delete_node s c) c (head s) in
    record front { lines = update s.lines c line }

pub touched-Rep :
    (s : CacheSet) (c : ℕ) (line : CacheLine) (ys zs : List ℕ)
    → Rep s (ys ++ (c ∷ zs))
    → line.addr ≡ (s.lines c).addr
    → Rep (touched s c line) (c ∷ (ys ++ zs))
unfolding insert_front delete_node
touched-Rep s c line ys zs v same = record {
  chain =
      Seg-insert (delete_node s c).next (delete_node s c).prev (head s) c (tail s) (ys ++ zs)
        (λ k. ground (arith, v.entries k, count-append k ys (c ∷ zs), count-append k ys zs))
        (ground (arith, v.entries c, count-append c ys (c ∷ zs), count-append c ys zs))
        (ground (
          arith,
          v.entries c,
          v.entries (tail s),
          count-append c ys (c ∷ zs),
          count-append (tail s) ys (c ∷ zs),
          count-append (tail s) ys zs,
        ))
        (Seg-delete s.next s.prev (head s) c (tail s) ys zs (once s _ v) (no_tail s _ v) v.chain);
  entries = λ k. omega (arith, v.entries k, count-append k ys (c ∷ zs), count-append k ys zs);
  total = omega (arith, v.total, length-append ys (c ∷ zs), length-append ys zs);
  mapped = λ k d e. ground (arith, v.mapped k d, count-append d ys (c ∷ zs), count-append d ys zs);
  resident = λ d e. ground (arith, v.resident d, count-append d ys (c ∷ zs), count-append d ys zs);
}
