-- ===== src/FunctionalCache/Tests.antt =====
-- A functional cache of two sets of two lines (`FunctionalCache` of
-- sim/src/mem/FunctionalCache.cpp) on concrete inputs, and the theorems at it.
use cisim.Prelude.{ℕ, ◌≡◌, refl, Bool, true, false, Option, some, arith}
use cisim.Prelude.Dict.{lookup}
use cisim.CacheSet
use cisim.CacheSet.{CacheLine, new_line}
use cisim.FunctionalCache.{
  FunctionalCache, log2, init, extract, get_offset, get_setid, get_tag, join, access, insert,
  present,
}
use cisim.FunctionalCache.Fields.{join_fields}
use cisim.FunctionalCache.Valid.{IsValid}
use cisim.FunctionalCache.Start.{start-IsValid}
use cisim.FunctionalCache.Presence.{Resides, access_hits, insert-Resides}

abbrev small : FunctionalCache
small = init 64 2 16

abbrev address : ℕ
address = 1234

tag_example : get_tag 1 small address ≡ 38
unfolding init log2 extract
tag_example = refl

tag_example' : get_tag 0 small address ≡ 38
unfolding init log2 extract
tag_example' = refl

setid_example : get_setid 1 small address ≡ 1
unfolding init log2 extract
setid_example = refl

start-IsValid_example : IsValid small
unfolding log2
start-IsValid_example =
    start-IsValid 64 2 16 (omega arith) (omega arith) (omega arith) (omega arith)

small-IsValid : IsValid small
unfolding log2
small-IsValid = start-IsValid 64 2 16 (omega arith) (omega arith) (omega arith) (omega arith)

join_fields_example :
    join small (
      new_line
        (get_tag 1 small address)
        (get_offset 1 small address)
        (get_setid 1 small address)
        0
        true)
    ≡ address
unfolding init log2
join_fields_example =
    join_fields 1 small address 0 true (omega arith) (omega arith) (omega arith) (omega arith)

access_hits_example :
    (f' : FunctionalCache) × (hit : Bool) × (access 1 small address 7 true ≡ some (f', hit))
    × (present 1 small address ≡ some hit)
    × IsValid f'
access_hits_example = access_hits 1 small address (omega arith) (omega arith) small-IsValid 7 true

small_absent : present 1 small address ≡ some false
unfolding init log2 extract present CacheSet.init CacheSet.present lookup
small_absent = refl

insert-Resides_example :
    (f' : FunctionalCache) × (evicted : Option CacheLine) × (out : Option ℕ) × (insert 1 small
        address 7 true
      ≡ some (f', evicted, out))
    × IsValid f'
    × Resides 1 small address (omega arith) (omega arith) small-IsValid f' evicted out
insert-Resides_example =
    insert-Resides 1 small address (omega arith) (omega arith) small-IsValid 7 true small_absent
