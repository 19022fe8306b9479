-- ===== src/Window/Retire.antt =====
-- Retirement from the reorder buffer (`retireInstruction` of sim/src/window.cpp) is in order.
use cisim.Prelude.{
  ℕ, ◌≡◌, refl, ap, inl, inr, Bool, true, false, not, ◌&&◌, ◌||◌, ltb, ◌==◌, if◌then◌else◌,
  Bool-cases, List, [], ◌∷◌, All, get_elem?, some,
}
use cisim.Prelude.Dict.{lookup}
use cisim.Operation.{
  Operation, Ops, Kind, Status, is_load, is_store, is_status, at_least, init, allocated, ready,
  issued, executing, finished, commited, sleep, load, store, branch, call, other, update_status,
  modify,
}
use cisim.LoadStoreQueue.{LdstqEntry, Ldstq, commit_instruction}
use cisim.LsUnit.{LsUnit, violates, should_flush_in, commit_in_queues}

-- The queue has an entry in use of the operation under its number.
abbrev pub Sits : Ldstq → ℕ → ℕ → Type 0
Sits q id op =
    (i : ℕ) × (e : LdstqEntry) × (lookup id q.entry_map ≡ some i)
    × (get_elem? q.queue i ≡ some e)
    × (e.empty ≡ false)
    × (e.op ≡ op)

-- A load and a store sit in their queue.
abbrev pub Resident : LsUnit → ℕ → Kind → ℕ → Type 0
Resident u id load op = Sits u.ldq id op
Resident u id store op = Sits u.stq id op
Resident u id _ op = Unit

-- A load that was given data says which store gave it.
abbrev pub Sourced : List LdstqEntry → Type 0
Sourced es = All (λ e. e.data_forwarded ≡ true → (f : ℕ) × (e.forward_op ≡ some f)) es

violates-some :
    (ops : Ops) (op : ℕ) (e : LdstqEntry)
    → (e.data_forwarded ≡ true → (f : ℕ) × (e.forward_op ≡ some f))
    → (b : Bool) × (violates ops op e ≡ some b)
violates-some ops op e h =
    elim (Bool-cases
      (not e.empty && (ltb (ops op).dyn_id e.dyn_id && e.address == (ops op).addr))) [
        | inr off ↦ (false, rw off refl)
        | inl on ↦ elim (Bool-cases e.data_forwarded) [
          | inr no_data ↦ (at_least (ops e.op).status executing, rw (on, no_data) refl)
          | inl given ↦
              let (f, from) = h given in
              (ltb (ops f).dyn_id (ops op).dyn_id, rw (on, given, from) refl)
        ]
      ]

if-some : (b c : Bool) → (if b then some true else some c) ≡ some (if b then true else c)
if-some true c = refl
if-some false c = refl

pub should_flush_in-some :
    (ops : Ops) (op : ℕ) (es : List LdstqEntry)
    → Sourced es
    → (b : Bool) × (should_flush_in ops op es ≡ some b)
unfolding should_flush_in
should_flush_in-some ops op [] h = (false, refl)
should_flush_in-some ops op (e ∷ es) (h, hs) =
    let (b, this) = violates-some ops op e h in
    let (c, rest) = should_flush_in-some ops op es hs in
    (if b then true else c, rw (this, rest) (if-some b c))

pub finished_only : (s : Status) → is_status s finished ≡ true → s ≡ finished
finished_only init h = absurd (cc)
finished_only allocated h = absurd (cc)
finished_only ready h = absurd (cc)
finished_only issued h = absurd (cc)
finished_only executing h = absurd (cc)
finished_only finished h = refl
finished_only commited h = absurd (cc)
finished_only sleep h = absurd (cc)

commit_instruction-Sits :
    (ops : Ops) (q : Ldstq) (op : ℕ)
    → Sits q (ops op).dyn_id op
    → is_status (ops op).status finished ≡ true
    → commit_instruction ops q op ≡ some (modify ops op update_status)
unfolding commit_instruction
commit_instruction-Sits ops q op (i, e, at, read, busy, same) fin =
    rw (at, read, busy, same, fin) refl

abbrev pub loads_kind : Kind → Bool
loads_kind k = elim k [ load ↦ true | _ ↦ false ]

abbrev pub stores_kind : Kind → Bool
stores_kind k = elim k [ store ↦ true | _ ↦ false ]

plain :
    (u : LsUnit) (ops : Ops) (op : ℕ) (o : Operation)
    → is_load o ≡ false
    → is_store o ≡ false
    → (if is_load o || is_store o
        then commit_in_queues ops u op
        else some (modify ops op update_status))
      ≡ some (modify ops op update_status)
plain u ops op o no_load no_store = rw (no_load, no_store) refl

-- The commit of the operation at the head, by its kind; `o` is the operation before it was stamped.
pub commit_by :
    (u : LsUnit) (ops : Ops) (op : ℕ) (o : Operation) (k : Kind)
    → o.kind ≡ k
    → (ops op).kind ≡ k
    → Resident u (ops op).dyn_id k op
    → is_status (ops op).status finished ≡ true
    → (if is_load o || is_store o
        then commit_in_queues ops u op
        else some (modify ops op update_status))
      ≡ some (modify ops op update_status)
unfolding commit_in_queues
commit_by u ops op o load d e sits fin =
    let outer : is_load o ≡ true = ap loads_kind d in
    let loads : is_load (ops op) ≡ true = ap loads_kind e in
    rw (outer, loads) (commit_instruction-Sits ops u.ldq op sits fin)
commit_by u ops op o store d e sits fin =
    let outer : is_load o ≡ false = ap loads_kind d in
    let also : is_store o ≡ true = ap stores_kind d in
    let no_load : is_load (ops op) ≡ false = ap loads_kind e in
    let stores : is_store (ops op) ≡ true = ap stores_kind e in
    rw (outer, also, no_load, stores) (commit_instruction-Sits ops u.stq op sits fin)
commit_by u ops op o branch d e sits fin = plain u ops op o (ap loads_kind d) (ap stores_kind d)
commit_by u ops op o call d e sits fin = plain u ops op o (ap loads_kind d) (ap stores_kind d)
commit_by u ops op o other d e sits fin = plain u ops op o (ap loads_kind d) (ap stores_kind d)
