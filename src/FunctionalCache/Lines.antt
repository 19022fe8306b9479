-- ===== src/FunctionalCache/Lines.antt =====
-- What holds of every line of a set (`CacheSet` of sim/src/mem/FunctionalCache.cpp) through its
-- operations, and which addresses it holds after an insertion.
use mathlib.Core.Option.{some-injective}
use cisim.Prelude.{
  ℕ, ◌≡◌, refl, subst, arith, ◌==◌, Bool, true, false, not, Option-cases, Bool-cases, inl, inr,
  List, [], ◌∷◌, length, All, Option, none, some,
}
use cisim.Prelude.Dict.{lookup, erase, lookup-insert, lookup-erase}
use cisim.CacheSet.{
  CacheSet, CacheLine, access, insert, present, head, tail, insert_front, delete_node,
}
use cisim.CacheSet.Lru
use cisim.CacheSet.Links.{count, last-in}
use cisim.CacheSet.Rep.{Rep}

module _ {κ} (P : CacheLine → Type κ) where
  pub All-find :
      (address : ℕ) (ls : List CacheLine) (l : CacheLine)
      → All P ls
      → Lru.find address ls ≡ some l
      → P l × (l.addr ≡ address)
  unfolding Lru.find
  All-find address [] l h e = absurd (cc)
  All-find address (k ∷ ls) l (p, h) e = elim (Bool-cases (k.addr == address)) [
    | inl t ↦
        let same : k ≡ l = ground arith in
        subst (λ x. P x × (x.addr ≡ address)) same (p, ground arith)
    | inr t ↦ All-find address ls l h (rw t at e)
  ]

  All-without : (address : ℕ) (ls : List CacheLine) → All P ls → All P (Lru.without address ls)
  unfolding Lru.without
  All-without address [] h = h
  All-without address (k ∷ ls) (p, h) = elim (Bool-cases (k.addr == address)) [
    | inl t ↦ rw t h
    | inr t ↦ rw t (p, All-without address ls h)
  ]

  All-drop_last : (ls : List CacheLine) → All P ls → All P (Lru.drop_last ls).0
  unfolding Lru.drop_last
  All-drop_last [] h = tt
  All-drop_last (l ∷ []) h = tt
  All-drop_last (l ∷ k ∷ ls) (p, h) = (p, All-drop_last (k ∷ ls) h)

  -- What a hit keeps of the line of its address holds of all lines again.
  pub All-access :
      (on_hit : CacheLine → CacheLine) (address : ℕ) (ls : List CacheLine)
      → ((l : CacheLine) → P l → l.addr ≡ address → P (on_hit l))
      → All P ls
      → All P (Lru.access on_hit address ls).0
  unfolding Lru.access
  All-access on_hit address ls keeps h = elim (Option-cases (Lru.find address ls)) [
    | inl e ↦ rw e h
    | inr (l, e) ↦
        let (p, same) = All-find address ls l h e in rw e (keeps l p same, All-without address ls h)
  ]

  pub All-insert :
      (capacity : ℕ) (line : CacheLine) (ls : List CacheLine)
      → P line
      → All P ls
      → All P (Lru.insert capacity line ls).0
  unfolding Lru.insert
  All-insert capacity line ls p h = elim (Bool-cases (length ls == capacity)) [
    | inl e ↦ rw e (p, All-drop_last ls h)
    | inr e ↦ rw e (p, h)
  ]

module _ {κ} (P : CacheLine → Type κ) where
  last_of_all :
      (ls : List CacheLine) (l : CacheLine) → All P ls → (Lru.drop_last ls).1 ≡ some l → P l
  unfolding Lru.drop_last
  last_of_all [] l h e = absurd (cc)
  last_of_all (k ∷ []) l (p, h) e = subst P (some-injective _ _ e) p
  last_of_all (k ∷ j ∷ ls) l (p, h) e = last_of_all (j ∷ ls) l h e

  pub All-evicted :
      (capacity : ℕ) (line : CacheLine) (ls : List CacheLine) (l : CacheLine)
      → All P ls
      → (Lru.insert capacity line ls).1 ≡ some l
      → P l
  unfolding Lru.insert
  All-evicted capacity line ls l h e = elim (Bool-cases (length ls == capacity)) [
    | inl t ↦ last_of_all ls l h (rw t at e)
    | inr t ↦ absurd (ground (arith, t, e))
  ]

pub absent_none :
    (s : CacheSet) (address : ℕ) → present s address ≡ false → lookup address s.addr_map ≡ none
unfolding present
absent_none s address e = ground (arith, e)

pub access-associativity :
    (s : CacheSet) (address offset node_id : ℕ) (is_load : Bool)
    → (access s address offset node_id is_load).0.associativity ≡ s.associativity
unfolding access insert_front delete_node
access-associativity s address offset node_id is_load =
    elim (Option-cases (lookup address s.addr_map)) [ inl e ↦ rw e refl | inr (c, e) ↦ rw e refl ]

pub access-present :
    (s : CacheSet) (address offset node_id : ℕ) (is_load : Bool)
    → (access s address offset node_id is_load).1 ≡ present s address
unfolding access present
access-present s address offset node_id is_load = elim (Option-cases (lookup address s.addr_map)) [
  | inl e ↦ rw e refl
  | inr (c, e) ↦ rw e refl
]

-- The entry that an insertion into a full set takes is the one of an address the set holds.
last_mapped :
    (s : CacheSet) (xs : List ℕ)
    → Rep s xs
    → not (s.prev (tail s) == head s) ≡ true
    → lookup (s.lines (s.prev (tail s))).addr s.addr_map ≡ some (s.prev (tail s))
last_mapped s xs v e =
    let c = s.prev (tail s) in
    let one : count c xs ≡ 1 =
      ground (arith, e, last-in s.next s.prev (head s) (tail s) xs v.chain, v.entries c) in
    v.resident c one

-- What an insertion promises of the addresses: the new one is there, and the evicted one was there
-- and is no longer.
abbrev pub Presents : CacheSet → CacheSet → CacheLine → Option CacheLine → Type 0
Presents s s' line evicted =
    (present s' line.addr ≡ true)
    × ((l : CacheLine) → evicted ≡ some l → (present s l.addr ≡ true) × (present s' l.addr ≡ false))

Presents-free :
    (s : CacheSet) (line : CacheLine) (c : ℕ) (free : List ℕ)
    → s.free_entries ≡ c ∷ free
    → (s' : CacheSet) (evicted : Option CacheLine) → insert s line ≡ some (s', evicted)
    → Presents s s' line evicted
unfolding insert present insert_front delete_node
Presents-free s line c free f s' evicted e =
    let result = rw f at e in ground (arith, result, lookup-insert line.addr line.addr c s.addr_map)

Presents-full :
    (s : CacheSet) (xs : List ℕ) (line : CacheLine)
    → Rep s xs
    → present s line.addr ≡ false
    → s.free_entries ≡ []
    → (s' : CacheSet) (evicted : Option CacheLine) → insert s line ≡ some (s', evicted)
    → Presents s s' line evicted
unfolding insert present insert_front delete_node
Presents-full s xs line v absent f s' evicted e =
    let c = s.prev (tail s) in
    elim (Bool-cases (not (c == head s))) [
      | inl t ↦
          let result = rw (f, t) at e in
          let a = (s.lines c).addr in
          ground (
            arith,
            result,
            absent,
            last_mapped s xs v t,
            lookup-insert line.addr line.addr c (erase a s.addr_map),
            lookup-insert line.addr a c (erase a s.addr_map),
            lookup-erase a a s.addr_map,
          )
      | inr t ↦ let result = rw (f, t) at e in absurd (cc)
    ]

Presents-list :
    (s : CacheSet) (xs : List ℕ) (line : CacheLine) (free : List ℕ)
    → Rep s xs
    → present s line.addr ≡ false
    → s.free_entries ≡ free
    → (s' : CacheSet) (evicted : Option CacheLine) → insert s line ≡ some (s', evicted)
    → Presents s s' line evicted
Presents-list s xs line [] v absent f = Presents-full s xs line v absent f
Presents-list s xs line (c ∷ free) v absent f = Presents-free s line c free f

pub insert-Presents :
    (s : CacheSet) (xs : List ℕ) (line : CacheLine)
    → Rep s xs
    → present s line.addr ≡ false
    → (s' : CacheSet) (evicted : Option CacheLine) → insert s line ≡ some (s', evicted)
    → Presents s s' line evicted
insert-Presents s xs line v absent = Presents-list s xs line s.free_entries v absent refl

insert-associativity_by :
    (s : CacheSet) (line : CacheLine) (free : List ℕ) (s' : CacheSet) (evicted : Option CacheLine)
    → s.free_entries ≡ free
    → insert s line ≡ some (s', evicted)
    → s'.associativity ≡ s.associativity
unfolding insert insert_front delete_node
insert-associativity_by s line (c ∷ free) s' evicted f e =
    let result = rw f at e in ground (arith, result)
insert-associativity_by s line [] s' evicted f e =
    elim (Bool-cases (not (s.prev (tail s) == head s))) [
      | inl t ↦ let result = rw (f, t) at e in ground (arith, result)
      | inr t ↦ let result = rw (f, t) at e in absurd (cc)
    ]

pub insert-associativity :
    (s : CacheSet) (line : CacheLine) (s' : CacheSet) (evicted : Option CacheLine)
    → insert s line ≡ some (s', evicted)
    → s'.associativity ≡ s.associativity
insert-associativity s line s' evicted e =
    insert-associativity_by s line s.free_entries s' evicted refl e
