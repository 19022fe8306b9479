-- ===== src/RequestOrderingUnit/Order.antt =====
-- The request ordering unit (sim/src/rou.cpp) against one list of the requests in the order they came.
use mathlib.Core.List.{append-nil}
use cisim.Prelude.{
  ℕ, ◌≡◌, ◌≢◌, refl, sym, ap, ◌∙◌, subst, arith, inl, inr, true, ◌==◌, if◌then◌else◌, Bool-cases,
  ==_iff, List, [], ◌∷◌, ◌++◌, Option, none, some, update,
}
use cisim.Operation.{Operation}
use cisim.RequestOrderingUnit.{
  ReorderBuffer, is_request, hash_of, waiting, add_instruction, can_issue, release_entry, first_of,
}

-- The numbers of the requests of one hash, the oldest first.
abbrev pub ids_of : ℕ → List Operation → List ℕ
ids_of hash [] = []
ids_of hash (p ∷ ps) = if hash_of p == hash then p.dyn_id ∷ ids_of hash ps else ids_of hash ps

-- The list without the oldest request of a hash.
abbrev pub without_oldest : ℕ → List Operation → List Operation
without_oldest hash [] = []
without_oldest hash (p ∷ ps) = if hash_of p == hash then ps else p ∷ without_oldest hash ps

-- The buffer holds the requests of the list.
abbrev pub Holds : ReorderBuffer → List Operation → Type 0
Holds buffer ps = (hash : ℕ) → waiting (buffer hash) ≡ ids_of hash ps

ids_of-append :
    (hash : ℕ) (ps : List Operation) (o : Operation)
    → ids_of hash (ps ++ (o ∷ []))
      ≡ ids_of hash ps ++ (if hash_of o == hash then o.dyn_id ∷ [] else [])
ids_of-append hash [] o = refl
ids_of-append hash (p ∷ ps) o = elim (Bool-cases (hash_of p == hash)) [
  | inl same ↦ rw same (ap (◌∷◌ p.dyn_id) (ids_of-append hash ps o))
  | inr other ↦ rw other (ids_of-append hash ps o)
]

ids_of-without_same :
    (hash : ℕ) (ps : List Operation) (id : ℕ) (ids : List ℕ)
    → ids_of hash ps ≡ id ∷ ids
    → ids_of hash (without_oldest hash ps) ≡ ids
ids_of-without_same hash [] id ids e = absurd (cc)
ids_of-without_same hash (p ∷ ps) id ids e = elim (Bool-cases (hash_of p == hash)) [
  | inl same ↦ let here = rw same at e in rw same (ground (arith, here))
  | inr other ↦
      let later = rw other at e in rw (other, other) (ids_of-without_same hash ps id ids later)
]

ids_of-without_other :
    (hash other : ℕ) (ps : List Operation)
    → hash ≢ other
    → ids_of other (without_oldest hash ps) ≡ ids_of other ps
ids_of-without_other hash other [] ne = refl
ids_of-without_other hash other (p ∷ ps) ne =
    ground (arith, ne, ids_of-without_other hash other ps ne)

first_of-waiting :
    (r : Option (List ℕ)) (id : ℕ) (ids : List ℕ)
    → waiting r ≡ id ∷ ids
    → first_of r ≡ some (id, ids)
first_of-waiting none id ids e = absurd (cc)
first_of-waiting (some []) id ids e = absurd (cc)
first_of-waiting (some (x ∷ xs)) id ids e = ground (arith, e)

waiting-update :
    (buffer : ReorderBuffer) (h hash : ℕ) (ids : List ℕ)
    → waiting (update buffer h (some ids) hash) ≡ (if h == hash then ids else waiting (buffer hash))
waiting-update buffer h hash ids = ground arith

added_ids :
    (buffer : ReorderBuffer) (ps : List Operation) (o : Operation)
    → Holds buffer ps
    → (hash : ℕ)
    → (if hash_of o == hash
        then waiting (buffer (hash_of o)) ++ (o.dyn_id ∷ [])
        else waiting (buffer hash))
      ≡ ids_of hash (ps ++ (o ∷ []))
added_ids buffer ps o v hash = elim (Bool-cases (hash_of o == hash)) [
  | inl same ↦
      let own : waiting (buffer (hash_of o)) ≡ ids_of hash ps =
        v (hash_of o) ∙ ap (λ (h : ℕ). ids_of h ps) ((==_iff (hash_of o) hash).0 same) in
      rw (ids_of-append hash ps o, same) (ap (λ w. w ++ (o.dyn_id ∷ [])) own)
  | inr other ↦ rw (ids_of-append hash ps o, other) (v hash ∙ sym (append-nil (ids_of hash ps)))
]

-- A buffer that holds a list of requests holds the list with an operation behind it once that is
-- added, if it is a pack or extract request, and the same list otherwise.
pub add_instruction-Holds :
    (buffer : ReorderBuffer) (ps : List Operation) (o : Operation)
    → Holds buffer ps
    → Holds (add_instruction buffer o) (if is_request o then ps ++ (o ∷ []) else ps)
unfolding add_instruction
add_instruction-Holds buffer ps o v hash = elim (Bool-cases (is_request o)) [
  | inr no_request ↦ rw no_request (v hash)
  | inl request ↦ rw request (
      waiting-update buffer (hash_of o) hash (waiting (buffer (hash_of o)) ++ (o.dyn_id ∷ []))
      ∙ added_ids buffer ps o v hash)
]

-- On a buffer that holds a list of requests with one of the hash of `o`, a request: `canIssue` fails
-- no assertion and says yes exactly for the number of the oldest request of that hash, and
-- `releaseEntry` fails none and takes that request off the list in this case and nothing otherwise.
pub release_entry-Holds :
    (buffer : ReorderBuffer) (ps : List Operation) (o : Operation) (id : ℕ) (ids : List ℕ)
    → Holds buffer ps
    → is_request o ≡ true
    → ids_of (hash_of o) ps ≡ id ∷ ids
    → (can_issue buffer o ≡ some (id == o.dyn_id))
      × ((buffer' : ReorderBuffer) × (release_entry buffer o ≡ some buffer')
          × Holds buffer' (if id == o.dyn_id then without_oldest (hash_of o) ps else ps))
unfolding can_issue release_entry
release_entry-Holds buffer ps o id ids v request e =
    let first = first_of-waiting (buffer (hash_of o)) id ids (v (hash_of o) ∙ e) in
    (
      rw (request, first) refl,
      elim (Bool-cases (id == o.dyn_id)) [
        | inr other ↦ (buffer, rw (request, first, other) refl, rw other v)
        | inl same ↦ (
          update buffer (hash_of o) (some ids),
          rw (request, first, same) refl,
          rw same (λ hash.
              waiting-update buffer (hash_of o) hash ids ∙ elim (Bool-cases (hash_of o == hash)) [
                | inl here ↦ rw here (
                    subst (λ (h : ℕ). ids ≡ ids_of h (without_oldest (hash_of o) ps))
                      ((==_iff (hash_of o) hash).0 here)
                      (sym (ids_of-without_same (hash_of o) ps id ids e)))
                | inr there ↦ rw there (
                    v hash
                    ∙ sym
                        (ids_of-without_other (hash_of o) hash ps (λ h. ground (arith, h, there))))
              ]),
        )
      ],
    )
