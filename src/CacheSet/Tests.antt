-- ===== src/CacheSet/Tests.antt =====
-- A set of two entries (`CacheSet` of sim/src/mem/FunctionalCache.cpp) on concrete inputs, and the
-- theorems at it.
use cisim.Prelude.{ℕ, ◌≡◌, ◌⊎◌, refl, true, false, List, [], ◌∷◌, none, some, arith}
use cisim.Prelude.Dict.{lookup}
use cisim.Prelude.Dict
use cisim.CacheSet.{
  CacheSet, CacheLine, init, insert, insert_front, access, invalidate, evict, hit_line, new_line,
}
use cisim.CacheSet.Lru
use cisim.CacheSet.Rep.{Rep, init-Rep, filled, filled-Rep}
use cisim.CacheSet.View.{view}
use cisim.CacheSet.Refine.{
  access_refines, invalidate_refines, evict_refines, insert_refines, Inserts,
}
use cisim.CacheSet.Duplicate.{HoldsTwo, insert_twice}

abbrev line : ℕ → CacheLine
line address = new_line address 4 0 7 false

-- One line, of address 5, in entry 1.
abbrev one_line : CacheSet
one_line = filled (record (init 2) { free_entries = 0 ∷ [] }) 1 (line 5)

one_line-Rep : Rep one_line (1 ∷ [])
unfolding init lookup
one_line-Rep =
    filled-Rep (record (init 2) { free_entries = 0 ∷ [] }) 1 (line 5) [] (init-Rep 2) refl

insert_example : insert (init 2) (line 5) ≡ some (one_line, none)
unfolding insert init
insert_example = refl

access_refines_example :
    let (s', hit) = access one_line 5 8 9 true in
    (xs' : List ℕ) × Rep s' xs'
    × (Lru.access (hit_line 8 9 true) 5 (view one_line (1 ∷ [])) ≡ (view s' xs', hit))
access_refines_example = access_refines one_line (1 ∷ []) 5 8 9 true one_line-Rep

invalidate_refines_example :
    ((Lru.find 5 (view one_line (1 ∷ [])) ≡ none) × (invalidate one_line 5 ≡ none))
    ⊎ ((l : CacheLine) × (s' : CacheSet) × (xs' : List ℕ) × (Lru.find 5 (view one_line (1 ∷ []))
          ≡ some l)
        × (invalidate one_line 5 ≡ some (s', l.dirty))
        × Rep s' xs'
        × (Lru.without 5 (view one_line (1 ∷ [])) ≡ view s' xs'))
invalidate_refines_example = invalidate_refines one_line (1 ∷ []) 5 one_line-Rep

evict_refines_example :
    ((Lru.find 5 (view one_line (1 ∷ [])) ≡ none) × (evict one_line 5 ≡ (one_line, none, false)))
    ⊎ ((l : CacheLine) × (s' : CacheSet) × (xs' : List ℕ) × (Lru.find 5 (view one_line (1 ∷ []))
          ≡ some l)
        × (evict one_line 5 ≡ (s', some (l.offset, l.node_id), l.dirty))
        × Rep s' xs'
        × (Lru.without 5 (view one_line (1 ∷ [])) ≡ view s' xs'))
evict_refines_example = evict_refines one_line (1 ∷ []) 5 one_line-Rep

absent : lookup 6 one_line.addr_map ≡ none
unfolding init lookup insert_front Dict.insert
absent = refl

insert_refines_example : Inserts one_line (1 ∷ []) (line 6)
unfolding insert_front init
insert_refines_example = insert_refines one_line (1 ∷ []) (line 6) one_line-Rep (omega arith) absent

mapped : lookup 5 one_line.addr_map ≡ some 1
unfolding init lookup insert_front Dict.insert
mapped = refl

one_free : one_line.free_entries ≡ 0 ∷ []
unfolding insert_front
one_free = refl

insert_twice_example :
    (s' : CacheSet) × (insert one_line (line 5) ≡ some (s', none))
    × HoldsTwo s' 5 0 1 (1 ∷ [])
    × ((xs' : List ℕ) → ¬ Rep s' xs')
insert_twice_example = insert_twice one_line (1 ∷ []) [] (line 5) 0 1 one_line-Rep one_free mapped
