-- ===== src/CacheSet/Refine.antt =====
-- The operations of `CacheSet` (sim/src/mem/FunctionalCache.cpp) implement those of `Lru`.
use mathlib.Core.List.{append-nil}
use cisim.Prelude.{
  ℕ, ◌<◌, ◌≡◌, ◌⊎◌, inl, inr, refl, ap, ◌∙◌, subst, arith, ◌==◌, Bool, Option-cases, List, [], ◌∷◌,
  ◌++◌, Option, none, some, false,
}
use cisim.Prelude.Dict.{lookup, erase, lookup-erase}
use cisim.CacheSet.{
  CacheSet, CacheLine, access, invalidate, insert, evict, hit_line, delete_node, insert_front, head,
  tail,
}
use cisim.CacheSet.Lru
use cisim.CacheSet.Links.{Seg-split, count, count-append, split_at}
use cisim.CacheSet.Rep.{Rep, removed, removed-Rep, filled, filled-Rep, touched-Rep}
use cisim.CacheSet.View.{
  view, length-view, map-update, find-Misses, find_middle, Misses-of_none, Misses-before,
}

-- Where an address is mapped, its entry splits the list, and `Lru` finds its line.
pub record Found (s : CacheSet) (xs : List ℕ) (address c : ℕ) : Type 0 where
  pub before : List ℕ
  pub after : List ℕ
  pub rep : Rep s (before ++ (c ∷ after))
  pub split : xs ≡ before ++ (c ∷ after)
  pub alone : count c (before ++ after) ≡ 0
  pub addr : (s.lines c).addr ≡ address
  pub line : Lru.find address (view s xs) ≡ some (s.lines c)
  pub rest : Lru.without address (view s xs) ≡ view s (before ++ after)

pub found :
    (s : CacheSet) (xs : List ℕ) (address c : ℕ)
    → Rep s xs
    → lookup address s.addr_map ≡ some c
    → Found s xs address c
found s xs address c v e =
    let (one, same) = v.mapped address c e in
    let (ys, zs, split, no_ys, no_zs) = split_at c xs one in
    let middle =
      find_middle s address c ys zs (Misses-before s address c xs ys zs v e split no_ys) same in
    record {
      before = ys;
      after = zs;
      rep = subst (Rep s) split v;
      split = split;
      alone = omega (arith, count-append c ys zs);
      addr = same;
      line = ap (λ l. Lru.find address (view s l)) split ∙ middle.0;
      rest = ap (λ l. Lru.without address (view s l)) split ∙ middle.1;
    }

-- `access` implements the access of the list: the same verdict, a hit line at the front with its new
-- fields, all other lines in their order, and no change on a miss.
pub access_refines :
    (s : CacheSet) (xs : List ℕ) (address offset node_id : ℕ) (is_load : Bool)
    → Rep s xs
    → let (s', hit) = access s address offset node_id is_load in
      (xs' : List ℕ) × Rep s' xs'
      × (Lru.access (hit_line offset node_id is_load) address (view s xs) ≡ (view s' xs', hit))
unfolding access Lru.access
access_refines s xs address offset node_id is_load v =
    elim (Option-cases (lookup address s.addr_map)) [
      | inl e ↦ rw (e, find-Misses s address xs (Misses-of_none s address xs v e)) (xs, v, refl)
      | inr (c, e) ↦
          let f = found s xs address c v e in
          let line = hit_line offset node_id is_load (s.lines c) in
          rw (e, f.line)
            (
              c ∷ (f.before ++ f.after),
              touched-Rep s c line f.before f.after f.rep refl,
              ground (arith, f.rest, map-update s.lines c line (f.before ++ f.after) f.alone),
            )
    ]

-- `invalidate` faults exactly where the list has no line of the address; otherwise it removes that
-- line, keeps the order of the others and returns whether the line was dirty.
pub invalidate_refines :
    (s : CacheSet) (xs : List ℕ) (address : ℕ)
    → Rep s xs
    → ((Lru.find address (view s xs) ≡ none) × (invalidate s address ≡ none))
      ⊎ ((l : CacheLine) × (s' : CacheSet) × (xs' : List ℕ) × (Lru.find address (view s xs)
            ≡ some l)
          × (invalidate s address ≡ some (s', l.dirty))
          × Rep s' xs'
          × (Lru.without address (view s xs) ≡ view s' xs'))
unfolding invalidate delete_node
invalidate_refines s xs address v = elim (Option-cases (lookup address s.addr_map)) [
  | inl e ↦ inl (find-Misses s address xs (Misses-of_none s address xs v e), rw e)
  | inr (c, e) ↦
      let f = found s xs address c v e in
      inr (
        s.lines c,
        removed s c,
        f.before ++ f.after,
        f.line,
        rw e refl,
        removed-Rep s c f.before f.after f.rep,
        f.rest,
      )
]

-- `evict` does the same, and also gives out the line's offset and node; without a line of the
-- address it changes nothing and says not dirty.
pub evict_refines :
    (s : CacheSet) (xs : List ℕ) (address : ℕ)
    → Rep s xs
    → ((Lru.find address (view s xs) ≡ none) × (evict s address ≡ (s, none, false)))
      ⊎ ((l : CacheLine) × (s' : CacheSet) × (xs' : List ℕ) × (Lru.find address (view s xs)
            ≡ some l)
          × (evict s address ≡ (s', some (l.offset, l.node_id), l.dirty))
          × Rep s' xs'
          × (Lru.without address (view s xs) ≡ view s' xs'))
unfolding evict delete_node
evict_refines s xs address v = elim (Option-cases (lookup address s.addr_map)) [
  | inl e ↦ inl (find-Misses s address xs (Misses-of_none s address xs v e), rw e)
  | inr (c, e) ↦
      let f = found s xs address c v e in
      inr (
        s.lines c,
        removed s c,
        f.before ++ f.after,
        f.line,
        rw (e, f.addr) refl,
        removed-Rep s c f.before f.after f.rep,
        f.rest,
      )
]

-- A list that is not empty ends in a line.
last_of : (x : ℕ) (xs : List ℕ) → (ys : List ℕ) × (c : ℕ) × (x ∷ xs ≡ ys ++ (c ∷ []))
last_of x [] = ([], x, refl)
last_of x (y ∷ xs) = let (ys, c, e) = last_of y xs in (x ∷ ys, c, ap (◌∷◌ x) e)

drop_last-view :
    (s : CacheSet) (ys : List ℕ) (c : ℕ)
    → Lru.drop_last (view s (ys ++ (c ∷ []))) ≡ (view s ys, some (s.lines c))
unfolding Lru.drop_last
drop_last-view s [] c = refl
drop_last-view s (y ∷ []) c = refl
drop_last-view s (y ∷ z ∷ ys) c = rw (drop_last-view s (z ∷ ys) c)

-- What `insert` promises on a set with a given list.
abbrev pub Inserts : CacheSet → List ℕ → CacheLine → Type 0
Inserts s xs line =
    (s' : CacheSet) × (xs' : List ℕ) × (evicted : Option CacheLine) × (insert s line
      ≡ some (s', evicted))
    × Rep s' xs'
    × (Lru.insert s.associativity line (view s xs) ≡ (view s' xs', evicted))

insert_free :
    (s : CacheSet) (xs : List ℕ) (line : CacheLine) (c : ℕ) (free : List ℕ)
    → s.free_entries ≡ c ∷ free
    → Rep s xs
    → lookup line.addr s.addr_map ≡ none
    → Inserts s xs line
unfolding insert Lru.insert insert_front
insert_free s xs line c free e v absent =
    let taken = record s { free_entries = free } in
    let rep : Rep (record taken { free_entries = c ∷ free }) xs =
      subst (λ f. Rep (record s { free_entries = f }) xs) e v in
    (
      filled taken c line,
      c ∷ xs,
      none,
      rw e refl,
      filled-Rep taken c line xs rep absent,
      ground (arith, rep.entries c, rep.total, length-view s xs, map-update s.lines c line xs),
    )

insert_full :
    (s : CacheSet) (xs ys : List ℕ) (line : CacheLine) (c : ℕ)
    → s.free_entries ≡ []
    → xs ≡ ys ++ (c ∷ [])
    → Rep s xs
    → lookup line.addr s.addr_map ≡ none
    → Inserts s xs line
unfolding insert Lru.insert insert_front delete_node
insert_full s xs ys line c e split v absent =
    let rep : Rep s (ys ++ (c ∷ [])) = subst (Rep s) split v in
    let at_end : s.prev (tail s) ≡ c =
      (Seg-split s.next s.prev (head s) c (tail s) ys [] rep.chain).1.1 in
    let inside : (c == head s) ≡ false =
      ground (arith, rep.entries c, count-append c ys (c ∷ [])) in
    let emptied = delete_node (record s { addr_map = erase (s.lines c).addr s.addr_map }) c in
    let absent' : lookup line.addr emptied.addr_map ≡ none =
      ground (arith, absent, lookup-erase (s.lines c).addr line.addr s.addr_map) in
    (
      filled emptied c line,
      c ∷ (ys ++ []),
      some (s.lines c),
      rw (e, at_end, inside) refl,
      filled-Rep emptied c line (ys ++ []) (removed-Rep s c ys [] rep) absent',
      ground (
        arith,
        v.total,
        length-view s xs,
        ap (λ l. Lru.drop_last (view s l)) split,
        drop_last-view s ys c,
        append-nil ys,
        rep.entries c,
        count-append c ys (c ∷ []),
        map-update s.lines c line ys,
      ),
    )

insert_list :
    (s : CacheSet) (xs free : List ℕ) (line : CacheLine)
    → s.free_entries ≡ free
    → Rep s xs
    → 0 < s.associativity
    → lookup line.addr s.addr_map ≡ none
    → Inserts s xs line
insert_list s xs (c ∷ free) line e v pos absent = insert_free s xs line c free e v absent
insert_list s [] [] line e v pos absent = absurd (ground (arith, v.total))
insert_list s (x ∷ xs) [] line e v pos absent =
    let (ys, c, split) = last_of x xs in insert_full s (x ∷ xs) ys line c e split v absent

-- On a set with at least one entry, `insert` of an address that has no line yet implements the
-- insertion of the list: the new line at the front, and where no entry is free the line that was
-- last gives up its place and is given out. It does not fault.
pub insert_refines :
    (s : CacheSet) (xs : List ℕ) (line : CacheLine)
    → Rep s xs
    → 0 < s.associativity
    → lookup line.addr s.addr_map ≡ none
    → Inserts s xs line
insert_refines s xs line v pos absent = insert_list s xs s.free_entries line refl v pos absent
