-- ===== src/FunctionalCache/Presence.antt =====
-- `access` and `insert` of the functional cache (sim/src/mem/FunctionalCache.cpp) on a valid cache:
-- they return, and the addresses they promise are there.
use cisim.Prelude.{
  ℕ, ◌+◌, ◌/◌, ◌%◌, ◌^◌, ◌<◌, ◌≡◌, refl, sym, ap, subst, ◌∙◌, arith, Bool, true, false, List, All,
  length, get_elem?, get_elem?-set_self, Option, some,
}
use mathlib.Core.Option.{some-injective}
use native.Mathlib.Nat.{div-lt_iff_lt-mul}
use cisim.Prelude.Bits.{pow_pos}
use cisim.CacheSet.{CacheSet, CacheLine, hit_line, new_line}
use cisim.CacheSet
use cisim.CacheSet.Lru
use cisim.CacheSet.View.{view}
use cisim.CacheSet.Refine.{access_refines, insert_refines}
use cisim.FunctionalCache.{
  FunctionalCache, get_setid, get_tag, get_offset, with_set, access, insert, present, join,
  evicted_addr,
}
use cisim.FunctionalCache.Fields.{fields, lt_pow, join_fields}
use cisim.FunctionalCache.Lines.{
  All-access, All-insert, All-evicted, absent_none, Presents, access-associativity, access-present,
  insert-Presents, insert-associativity,
}
use cisim.FunctionalCache.Valid.{IsLine, IsCacheSet, IsValid, set_of, with_set-IsValid}

module _ (over : ℕ) (f : FunctionalCache) (address : ℕ) (h : over < 2) (a : address < 2 ^ 64)
    (v : IsValid f) where
  own_fields :
      (get_offset over f address ≡ address % 2 ^ f.log_line_size)
      × (get_setid over f address ≡ address / 2 ^ f.log_line_size % 2 ^ f.log_set_count)
      × (get_tag over f address ≡ address / 2 ^ (f.log_set_count + f.log_line_size))
  own_fields = fields over f address h v.some_bits v.few_bits a

  hit-IsLine :
      (node_id : ℕ) (is_load : Bool) (l : CacheLine)
      → IsLine f (get_setid over f address) l
      → l.addr ≡ get_tag over f address
      → IsLine f (get_setid over f address) (hit_line (get_offset over f address) node_id is_load l)
  hit-IsLine node_id is_load l (b, lt, tag, setid, own, offset) same =
      let (o, i, t) = own_fields in (address, a, same ∙ t, setid, i, o)

  new-IsLine :
      (node_id : ℕ) (is_load : Bool)
      → IsLine f (get_setid over f address) (
          new_line
            (get_tag over f address)
            (get_offset over f address)
            (get_setid over f address)
            node_id
            is_load)
  new-IsLine node_id is_load = let (o, i, t) = own_fields in (address, a, t, refl, i, o)

  access-IsSet :
      (node_id : ℕ) (is_load : Bool) (c : CacheSet)
      → IsCacheSet f (get_setid over f address) c
      → IsCacheSet f
          (get_setid over f address)
          (CacheSet.access c (get_tag over f address) (get_offset over f address) node_id is_load).0
  access-IsSet node_id is_load c (pos, xs, rep, all) =
      let tag = get_tag over f address in
      let offset = get_offset over f address in
      let (xs', rep', same) = access_refines c xs tag offset node_id is_load rep in
      (
        omega (arith, pos, access-associativity c tag offset node_id is_load),
        xs',
        rep',
        subst (All (IsLine f (get_setid over f address))) (ap (λ p. p.0) same) (
            All-access (IsLine f (get_setid over f address)) (hit_line offset node_id is_load) tag
              (view c xs) (hit-IsLine node_id is_load) all),
      )

  -- On a valid cache an access of an address below 2 ^ 64 finds its set, hits exactly if the address
  -- is present, and leaves a valid cache. `over` is what a shift by 64 gives, 0 or 1.
  pub access_hits :
      (node_id : ℕ) (is_load : Bool)
      → (f' : FunctionalCache) × (hit : Bool) × (access over f address node_id is_load
          ≡ some (f', hit))
        × (present over f address ≡ some hit)
        × IsValid f'
  unfolding access present
  access_hits node_id is_load =
      let (c, e, inside) = set_of over f address h a v in
      let tag = get_tag over f address in
      let offset = get_offset over f address in
      let c' = CacheSet.access c tag offset node_id is_load in
      (
        with_set f (get_setid over f address) c'.0,
        c'.1,
        rw e refl,
        rw (e, access-present c tag offset node_id is_load) refl,
        with_set-IsValid f (get_setid over f address) c'.0 inside v
            (access-IsSet node_id is_load c (v.valid _ c e)),
      )

  short_tag : (b : ℕ) → b < 2 ^ 64 → b / 2 ^ (f.log_set_count + f.log_line_size) < 2 ^ 63
  short_tag b lt =
      (div-lt_iff_lt-mul (pow_pos (f.log_set_count + f.log_line_size))).1
        (omega (arith, lt, lt_pow 1 (f.log_set_count + f.log_line_size) (omega arith) v.some_bits))

  evicted-join :
      (l : CacheLine)
      → IsLine f (get_setid over f address) l
      → (b : ℕ) × (b < 2 ^ 64)
        × (evicted_addr f (some l) ≡ some b)
        × (get_setid over f b ≡ get_setid over f address)
        × (get_tag over f b ≡ l.addr)
  unfolding join
  evicted-join l (b, lt, tag, setid, own, offset) =
      let (o, i, t) = fields over f b h v.some_bits v.few_bits lt in
      let joined : join f l ≡ b =
        rw (tag ∙ sym t, setid ∙ own ∙ sym i, offset ∙ sym o)
          (join_fields over f b 0 true h v.some_bits v.few_bits lt) in
      (b, lt, ground (arith, joined, tag, short_tag b lt), i ∙ sym own, t ∙ sym tag)

  abbrev line : ℕ → Bool → CacheLine
  line node_id is_load =
      new_line (get_tag over f address) (get_offset over f address) (get_setid over f address)
        node_id is_load

  -- What an insertion promises: the address resides in the new cache, and where a line is evicted,
  -- the address given out was another one of the same set, was present and is no longer.
  abbrev pub Resides : FunctionalCache → Option CacheLine → Option ℕ → Type 0
  Resides f' evicted out =
      (present over f' address ≡ some true)
      × ((l : CacheLine)
          → evicted ≡ some l
          → (b : ℕ) × (b < 2 ^ 64)
            × (out ≡ some b)
            × (get_setid over f b ≡ get_setid over f address)
            × (present over f b ≡ some true)
            × (present over f' b ≡ some false))

  Resides-in :
      (c c' : CacheSet) (evicted : Option CacheLine)
      → get_elem? f.sets (get_setid over f address) ≡ some c
      → get_setid over f address < length f.sets
      → ((l : CacheLine) → evicted ≡ some l → IsLine f (get_setid over f address) l)
      → Presents c c' (line 0 true) evicted
      → Resides (with_set f (get_setid over f address) c') evicted (evicted_addr f evicted)
  unfolding present
  Resides-in c c' evicted e inside owned (new, old) =
      let at_set = get_elem?-set_self f.sets (get_setid over f address) c' inside in
      (
        rw (at_set, new) refl,
        λ l g.
            let (b, lt, out, own, tag) = evicted-join l (owned l g) in
            let (was, is) = old l g in
            (
              b,
              lt,
              ap (evicted_addr f) g ∙ out,
              own,
              rw (own, e, tag, was) refl,
              rw (own, at_set, tag, is) refl,
            ),
      )

  evicted_owned :
      (c c' : CacheSet) (xs xs' : List ℕ) (capacity : ℕ) (new : CacheLine)
      (evicted : Option CacheLine)
      → All (IsLine f (get_setid over f address)) (view c xs)
      → Lru.insert capacity new (view c xs) ≡ (view c' xs', evicted)
      → (l : CacheLine) → evicted ≡ some l
      → IsLine f (get_setid over f address) l
  evicted_owned c c' xs xs' capacity new evicted all same l g =
      All-evicted (IsLine f (get_setid over f address)) capacity new (view c xs) l all
        (ap (λ p. p.1) same ∙ g)

  -- On a valid cache an insertion of an address below 2 ^ 64 that is not present does not fault, and
  -- leaves a valid cache where that address is present. Where a line is evicted, the address given
  -- out is one of the same set, was present before and is not present afterwards. `over` is what a
  -- shift by 64 gives, 0 or 1.
  pub insert-Resides :
      (node_id : ℕ) (is_load : Bool)
      → present over f address ≡ some false
      → (f' : FunctionalCache) × (evicted : Option CacheLine) × (out : Option ℕ) × (insert over f
            address node_id is_load
          ≡ some (f', evicted, out))
        × IsValid f'
        × Resides f' evicted out
  unfolding insert present
  insert-Resides node_id is_load absent =
      let (c, e, inside) = set_of over f address h a v in
      let i = get_setid over f address in
      let new = line node_id is_load in
      let (pos, xs, rep, all) = v.valid i c e in
      let gone : CacheSet.present c new.addr ≡ false = some-injective _ _ (rw e at absent) in
      let (c', xs', evicted, done, rep', same) =
        insert_refines c xs new rep pos (absent_none c new.addr gone) in
      let is_set : IsCacheSet f i c' = (
        omega (arith, pos, insert-associativity c new c' evicted done),
        xs',
        rep',
        subst (All (IsLine f i)) (ap (λ p. p.0) same) (
            All-insert (IsLine f i) c.associativity new (view c xs) (new-IsLine node_id is_load)
              all),
      ) in
      (
        with_set f i c',
        evicted,
        evicted_addr f evicted,
        rw (e, done) refl,
        with_set-IsValid f i c' inside v is_set,
        Resides-in c c' evicted e inside
            (evicted_owned c c' xs xs' c.associativity new evicted all same)
            (insert-Presents c xs new rep gone c' evicted done),
      )
