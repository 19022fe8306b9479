-- ===== src/LsUnit/Dispatch.antt =====
-- Dispatch into the load and store unit (`canDispatch` and `addInstruction` of sim/src/lsu.cpp).
use cisim.Prelude.{
  ℕ, ◌≡◌, ◌≢◌, refl, ap, ◌∙◌, arith, inl, inr, Bool, true, false, Bool-cases, get_elem?, some,
}
use cisim.Operation.{Ops, is_load, is_store}
use cisim.LoadStoreQueue.{LdstqEntry, Ldstq, if_full, new_entry}
use cisim.LoadStoreQueue.Valid.{IsQueue}
use cisim.LoadStoreQueue.Add.{
  HasEntry, KeepsEntries, Takes, Takes-KeepsEntries, add_instruction-Takes,
}
use cisim.LsUnit.{LsUnit, can_dispatch, add_to_queues}

-- Both queues are well formed.
abbrev pub IsUnit : Ops → LsUnit → Type 0
IsUnit ops u = IsQueue ops u.ldq × IsQueue ops u.stq

-- No entry in use of a queue has the number.
abbrev pub IsNew : Ldstq → ℕ → Type 0
IsNew q id =
    (i : ℕ) (e : LdstqEntry) → get_elem? q.queue i ≡ some e → e.empty ≡ false → e.dyn_id ≢ id

-- What the queues are after an operation has entered: a load has taken an entry of the load queue, a
-- store one of the store queue, and nothing else has changed.
pub record Enters (ops : Ops) (u : LsUnit) (op : ℕ) (u' : LsUnit) : Type 0 where
  pub load_queue :
      is_load (ops op) ≡ true → Takes ops u.ldq op u'.ldq × (u' ≡ record u { ldq = u'.ldq })
  pub store_queue :
      is_load (ops op) ≡ false
      → is_store (ops op) ≡ true
      → Takes ops u.stq op u'.stq × (u' ≡ record u { stq = u'.stq })
  pub neither : is_load (ops op) ≡ false → is_store (ops op) ≡ false → u' ≡ u

-- Where `canDispatch` lets an operation of a number that no entry in use has through, `addInstruction`
-- fails no assertion and keeps both queues well formed. A load takes one more entry of the load queue,
-- a store one more of the store queue, which was not in use and which the map finds; no other entry
-- and nothing else of the unit changes, and any other operation changes nothing.
pub can_dispatch-IsUnit :
    (ops : Ops) (u : LsUnit) (op : ℕ)
    → IsUnit ops u
    → can_dispatch ops u op true ≡ true
    → IsNew u.ldq (ops op).dyn_id
    → IsNew u.stq (ops op).dyn_id
    → (u' : LsUnit) × (add_to_queues ops u op ≡ some u') × IsUnit ops u' × Enters ops u op u'
unfolding can_dispatch add_to_queues
can_dispatch-IsUnit ops u op (l, s) can new_load new_store = elim (Bool-cases (is_load (ops op))) [
  | inl loads ↦
      let room : if_full u.ldq ≡ false = ground (arith, can, loads) in
      let (q, done, valid, takes) =
        add_instruction-Takes ops u.ldq op l room (ground (arith, loads)) new_load in
      (
        record u { ldq = q },
        rw (loads, done) refl,
        (valid, s),
        record {
          load_queue = λ is. (takes, refl);
          store_queue = λ no is. absurd (cc (loads, no));
          neither = λ no no'. absurd (cc (loads, no));
        },
      )
  | inr no_load ↦ elim (Bool-cases (is_store (ops op))) [
    | inl stores ↦
        let room : if_full u.stq ≡ false = ground (arith, can, no_load, stores) in
        let (q, done, valid, takes) =
          add_instruction-Takes ops u.stq op s room (ground (arith, stores)) new_store in
        (
          record u { stq = q },
          rw (no_load, stores, done) refl,
          (l, valid),
          record {
            load_queue = λ is. absurd (cc (is, no_load));
            store_queue = λ no is. (takes, refl);
            neither = λ no no'. absurd (cc (stores, no'));
          },
        )
    | inr other ↦ (
      u,
      rw (no_load, other) refl,
      (l, s),
      record {
        load_queue = λ is. absurd (cc (is, no_load));
        store_queue = λ no is. absurd (cc (is, other));
        neither = λ no no'. refl;
      },
    )
  ]
]

-- The queues hold what they held, and a load or a store that has entered.
pub record Held (u : LsUnit) (op : ℕ) (loads stores : Bool) (u' : LsUnit) : Type 0 where
  pub loads_kept : KeepsEntries u.ldq u'.ldq
  pub stores_kept : KeepsEntries u.stq u'.stq
  pub load : loads ≡ true → HasEntry u'.ldq op
  pub store : loads ≡ false → stores ≡ true → HasEntry u'.stq op

pub Enters-Held :
    (ops : Ops) (u : LsUnit) (op : ℕ) (u' : LsUnit)
    → Enters ops u op u'
    → Held u op (is_load (ops op)) (is_store (ops op)) u'
Enters-Held ops u op u' h = elim (Bool-cases (is_load (ops op))) [
  | inl loads ↦
      let (t, same) = h.load_queue loads in
      record {
        loads_kept = Takes-KeepsEntries ops u.ldq op u'.ldq t;
        stores_kept = λ i e read busy. ap (λ (x : LsUnit). get_elem? x.stq.queue i) same ∙ read;
        load = λ is. (t.place, new_entry ops op, t.entry, refl, refl);
        store = λ no is. absurd (cc (loads, no));
      }
  | inr no_load ↦ elim (Bool-cases (is_store (ops op))) [
    | inl stores ↦
        let (t, same) = h.store_queue no_load stores in
        record {
          loads_kept = λ i e read busy. ap (λ (x : LsUnit). get_elem? x.ldq.queue i) same ∙ read;
          stores_kept = Takes-KeepsEntries ops u.stq op u'.stq t;
          load = λ is. absurd (cc (is, no_load));
          store = λ no is. (t.place, new_entry ops op, t.entry, refl, refl);
        }
    | inr other ↦
        let same = h.neither no_load other in
        record {
          loads_kept = λ i e read busy. ap (λ (x : LsUnit). get_elem? x.ldq.queue i) same ∙ read;
          stores_kept = λ i e read busy. ap (λ (x : LsUnit). get_elem? x.stq.queue i) same ∙ read;
          load = λ is. absurd (cc (is, no_load));
          store = λ no is. absurd (cc (is, other));
        }
  ]
]
