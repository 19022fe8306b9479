-- ===== src/CacheSet/Duplicate.antt =====
-- `CacheSet::insert` (sim/src/mem/FunctionalCache.cpp) of an address that already has a line. The
-- assertion against it is commented out in the source.
use cisim.Prelude.{ℕ, ◌≡◌, ◌≢◌, refl, sym, ap, subst, ap₂, ◌∙◌, arith, List, [], ◌∷◌, none, some}
use cisim.Prelude.Dict.{lookup, lookup-insert}
use cisim.CacheSet.{CacheSet, CacheLine, insert, insert_front, head, tail}
use cisim.CacheSet.Links.{Seg, count, Seg-insert}
use cisim.CacheSet.Rep.{Rep, filled, once}

-- The links determine the list.
Seg-unique :
    (next prev : ℕ → ℕ) (a b : ℕ) (xs ys : List ℕ)
    → count b xs ≡ 0
    → count b ys ≡ 0
    → Seg next prev a xs b
    → Seg next prev a ys b
    → xs ≡ ys
Seg-unique next prev a b [] [] hx hy l r = refl
Seg-unique next prev a b [] (y ∷ ys) hx hy (n, p) (n', p', r) = absurd (ground arith)
Seg-unique next prev a b (x ∷ xs) [] hx hy (n, p, l) (n', p') = absurd (ground arith)
Seg-unique next prev a b (x ∷ xs) (y ∷ ys) hx hy (n, p, l) (n', p', r) =
    let same : x ≡ y = sym n ∙ n' in
    ap₂ ◌∷◌ same (
      Seg-unique next prev x b xs ys (ground arith) (ground arith) l
        (subst (λ k. Seg next prev k ys b) (sym same) r))

filled-chain :
    (s : CacheSet) (c : ℕ) (line : CacheLine) (xs : List ℕ)
    → Rep (record s { free_entries = c ∷ s.free_entries }) xs
    → Seg (filled s c line).next (filled s c line).prev (head s) (c ∷ xs) (tail s)
unfolding insert_front
filled-chain s c line xs v =
    Seg-insert s.next s.prev (head s) c (tail s) xs (once _ xs v) (ground (arith, v.entries c))
      (ground (arith, v.entries c, v.entries (tail s))) v.chain

-- Two entries of one address cannot both be found through the map.
filled_clash :
    (s : CacheSet) (c d : ℕ) (line : CacheLine) (xs : List ℕ)
    → Rep (record s { free_entries = c ∷ s.free_entries }) xs
    → lookup line.addr s.addr_map ≡ some d
    → ¬ Rep (filled s c line) (c ∷ xs)
unfolding insert_front
filled_clash s c d line xs v here w =
    ground (arith, v.mapped line.addr d here, v.entries c, w.resident c, w.resident d)

-- The links hold two entries of one address, `c` and `d`, and the map finds `c`.
pub record HoldsTwo (s : CacheSet) (address c d : ℕ) (xs : List ℕ) : Type 0 where
  pub chain : Seg s.next s.prev (head s) (c ∷ xs) (tail s)
  pub linked : count d xs ≡ 1
  pub apart : c ≢ d
  pub new_line : (s.lines c).addr ≡ address
  pub old_line : (s.lines d).addr ≡ address
  pub found : lookup address s.addr_map ≡ some c

filled-HoldsTwo :
    (s : CacheSet) (c d : ℕ) (line : CacheLine) (xs : List ℕ)
    → Rep (record s { free_entries = c ∷ s.free_entries }) xs
    → lookup line.addr s.addr_map ≡ some d
    → HoldsTwo (filled s c line) line.addr c d xs
unfolding insert_front
filled-HoldsTwo s c d line xs v here =
    let (linked, address) = v.mapped line.addr d here in
    let apart : c ≢ d = ground (arith, v.entries c, ap (λ k. count k xs), linked) in
    record {
      chain = filled-chain s c line xs v;
      linked = linked;
      apart = apart;
      new_line = ground arith;
      old_line = ground (arith, apart, address);
      found = ground (arith, lookup-insert line.addr line.addr c s.addr_map);
    }

-- Where the address of the new line already has a line and an entry is free, `insert` succeeds and
-- leaves a set that no list describes: its links hold the new entry in front of the old ones, so two
-- lines of the address, and its map finds the new one.
pub insert_twice :
    (s : CacheSet) (xs free : List ℕ) (line : CacheLine) (c d : ℕ)
    → Rep s xs
    → s.free_entries ≡ c ∷ free
    → lookup line.addr s.addr_map ≡ some d
    → (s' : CacheSet) × (insert s line ≡ some (s', none))
      × HoldsTwo s' line.addr c d xs
      × ((xs' : List ℕ) → ¬ Rep s' xs')
unfolding insert insert_front
insert_twice s xs free line c d v e here =
    let taken = record s { free_entries = free } in
    let rep : Rep (record taken { free_entries = c ∷ free }) xs =
      subst (λ f. Rep (record s { free_entries = f }) xs) e v in
    (
      filled taken c line,
      rw e refl,
      filled-HoldsTwo taken c d line xs rep here,
      λ xs' w. filled_clash taken c d line xs rep here (
          subst (Rep (filled taken c line))
            (Seg-unique (filled taken c line).next (filled taken c line).prev (head s) (tail s) xs'
              (c ∷ xs) (ground (arith, w.entries (tail s)))
              (ground (arith, rep.entries (tail s), rep.entries c)) w.chain
              (filled-chain taken c line xs rep))
            w),
    )
