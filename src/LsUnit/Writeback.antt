-- ===== src/LsUnit/Writeback.antt =====
-- The answers of the cache (`LSUnit::wb` of sim/src/lsu.cpp).
use cisim.Prelude.{
  ℕ, ◌≡◌, ◌⊎◌, refl, sym, ap, subst, ◌∙◌, inl, inr, arith, Bool, true, false, not, ◌&&◌, ◌||◌, ◌==◌,
  ==_iff, ==_refl, if◌then◌else◌, Bool-cases, List, [], ◌∷◌, All, get_elem?, Option, none, some,
}
use cisim.Prelude.Dict.{lookup}
use cisim.Operation.{Operation, Ops, executing, set_finish, modify}
use cisim.Operation.Modify.{modify_here, modify-holds}
use cisim.LoadStoreQueue.{LdstqEntry, Ldstq, complete_instruction}
use cisim.LoadStoreQueue.Valid.{IsQueue}
use cisim.MemTransaction.{MemTransaction}
use cisim.LsUnit.{LsUnit, complete_all, wb}
use cisim.LsUnit.Working.{IsWorking, IsWorking-Keeps, IsQueue-Keeps, Keeps}

-- An answer is for no operation, for a squashed one, or for a load that is executing and has its entry.
abbrev pub IsAnswer : Ops → Ldstq → Option ℕ → Type 0
IsAnswer ops ldq none = Unit
IsAnswer ops ldq (some p) =
    ((ops p).is_squashed ≡ true)
    ⊎ (((ops p).status ≡ executing)
        × (i : ℕ) × (e : LdstqEntry) × (get_elem? ldq.queue i ≡ some e)
        × (e.empty ≡ false)
        × (e.op ≡ p))

-- The operation of an answer has its data, unless it is squashed.
abbrev pub Finished : Ops → Ops → Option ℕ → Type 0
Finished ops ops' none = Unit
Finished ops ops' (some p) = (ops p).is_squashed ≡ false → (ops' p).finish_flag ≡ true

-- No more than `finished` is set.
abbrev pub Completes : Ops → Ops → Type 0
Completes ops ops' =
    (p : ℕ)
    → (set_finish true (ops' p) ≡ set_finish true (ops p))
      × ((ops p).finish_flag ≡ true → (ops' p).finish_flag ≡ true)

-- Some answer is for `p`, which is not squashed.
abbrev pub is_for : Option ℕ → ℕ → Bool
is_for none p = false
is_for (some q) p = q == p

abbrev pub is_answered : Ops → List MemTransaction → ℕ → Bool
is_answered ops [] p = false
is_answered ops (r ∷ rs) p = (is_for r.op p && not (ops p).is_squashed) || is_answered ops rs p

-- What `wb` makes of each operation: `finished` is set if it is answered, and nothing else changes.
abbrev pub Answered : Ops → List MemTransaction → Ops → Type 0
Answered ops resps ops' =
    (p : ℕ) → ops' p ≡ (if is_answered ops resps p then set_finish true (ops p) else ops p)

Completes-Keeps : (ops ops' : Ops) → Completes ops ops' → Keeps ops ops'
unfolding set_finish
Completes-Keeps ops ops' c p =
    (ap (λ (o : Operation). o.dyn_id) (c p).0, λ h. ap (λ (o : Operation). o.status) (c p).0 ∙ h)

IsAnswer-Completes :
    (ops ops' : Ops) (ldq : Ldstq) (o : Option ℕ)
    → Completes ops ops'
    → IsAnswer ops ldq o
    → IsAnswer ops' ldq o
unfolding set_finish
IsAnswer-Completes ops ops' ldq none c h = tt
IsAnswer-Completes ops ops' ldq (some p) c h = elim h [
  | inl gone ↦ inl (ap (λ (o : Operation). o.is_squashed) (c p).0 ∙ gone)
  | inr w ↦ inr (ap (λ (o : Operation). o.status) (c p).0 ∙ w.0, w.1, w.2, w.3, w.4, w.5)
]

abbrev pub Answers : Ops → Ldstq → List MemTransaction → Type 0
Answers ops ldq resps = All (λ (r : MemTransaction). IsAnswer ops ldq r.op) resps

Answers-Completes :
    (ops ops' : Ops) (ldq : Ldstq) (resps : List MemTransaction)
    → Completes ops ops'
    → Answers ops ldq resps
    → Answers ops' ldq resps
Answers-Completes ops ops' ldq [] c h = tt
Answers-Completes ops ops' ldq (r ∷ rs) c h =
    (IsAnswer-Completes ops ops' ldq r.op c h.0, Answers-Completes ops ops' ldq rs c h.1)

finish-Completes : (ops : Ops) (p : ℕ) → Completes ops (modify ops p (set_finish true))
unfolding set_finish
finish-Completes ops p q = (
  modify-holds ops p (set_finish true) (λ o. set_finish true o ≡ set_finish true (ops q)) (λ o h. h)
      q refl,
  λ e. modify-holds ops p (set_finish true) (λ o. o.finish_flag ≡ true) (λ o h. refl) q e,
)

finished_now : (ops : Ops) (p : ℕ) → (modify ops p (set_finish true) p).finish_flag ≡ true
unfolding set_finish
finished_now ops p = ap (λ (o : Operation). o.finish_flag) (modify_here ops p (set_finish true))

Completes-trans : (a b c : Ops) → Completes a b → Completes b c → Completes a c
Completes-trans a b c f g p = ((g p).0 ∙ (f p).0, λ e. (g p).1 ((f p).1 e))

-- What one answer makes of each operation.
abbrev OneAnswered : Ops → Option ℕ → Ops → Type 0
OneAnswered ops o ops' =
    (p : ℕ)
    → ops' p ≡ (if is_for o p && not (ops p).is_squashed then set_finish true (ops p) else ops p)

finish-OneAnswered :
    (ops : Ops) (p : ℕ)
    → (ops p).is_squashed ≡ false
    → OneAnswered ops (some p) (modify ops p (set_finish true))
finish-OneAnswered ops p kept q = elim (Bool-cases (p == q)) [
  | inr other ↦ rw other refl
  | inl same ↦
      subst
        (λ (k : ℕ).
          modify ops p (set_finish true) k
          ≡ (if (p == k) && not (ops k).is_squashed then set_finish true (ops k) else ops k))
        ((==_iff p q).0 same) (rw (==_refl p, kept) refl)
]

squashed-OneAnswered :
    (ops : Ops) (p : ℕ) → (ops p).is_squashed ≡ true → OneAnswered ops (some p) ops
squashed-OneAnswered ops p gone q = elim (Bool-cases (p == q)) [
  | inr other ↦ rw other refl
  | inl same ↦
      let gone' : (ops q).is_squashed ≡ true =
        ap (λ k. (ops k).is_squashed) (sym ((==_iff p q).0 same)) ∙ gone in
      rw (same, gone') refl
]

is_answered-Completes :
    (ops ops' : Ops) (resps : List MemTransaction) (p : ℕ)
    → Completes ops ops'
    → is_answered ops' resps p ≡ is_answered ops resps p
unfolding set_finish
is_answered-Completes ops ops' [] p c = refl
is_answered-Completes ops ops' (r ∷ rs) p c =
    let same : (ops' p).is_squashed ≡ (ops p).is_squashed =
      ap (λ (o : Operation). o.is_squashed) (c p).0 in
    rw (same, is_answered-Completes ops ops' rs p c) refl

-- An answer and those after it.
one-Answered :
    (ops mid last : Ops) (r : MemTransaction) (rs : List MemTransaction)
    → Completes ops mid
    → OneAnswered ops r.op mid
    → Answered mid rs last
    → Answered ops (r ∷ rs) last
unfolding set_finish
one-Answered ops mid last r rs c one all p =
    let later : last p ≡ (if is_answered ops rs p then set_finish true (mid p) else mid p) =
      all p
      ∙ ap (λ b. if b then set_finish true (mid p) else mid p)
          (is_answered-Completes ops mid rs p c) in
    let first : Bool = is_for r.op p && not (ops p).is_squashed in
    let mid_p : mid p ≡ (if first then set_finish true (ops p) else ops p) = one p in
    elim (Bool-cases first) [
      | inl now ↦
          let m : mid p ≡ set_finish true (ops p) =
            mid_p ∙ ap (λ b. if b then set_finish true (ops p) else ops p) now in
          elim (Bool-cases (is_answered ops rs p)) [
            | inl too ↦ rw now (later ∙ rw too (ap (set_finish true) m))
            | inr only ↦ rw now (later ∙ rw only m)
          ]
      | inr other ↦
          let m : mid p ≡ ops p =
            mid_p ∙ ap (λ b. if b then set_finish true (ops p) else ops p) other in
          elim (Bool-cases (is_answered ops rs p)) [
            | inl later_on ↦ rw (other, later_on) (later ∙ rw later_on (ap (set_finish true) m))
            | inr never ↦ rw (other, never) (later ∙ rw never m)
          ]
    ]

complete_executing :
    (ops : Ops) (ldq : Ldstq) (p i : ℕ) (e : LdstqEntry)
    → IsQueue ops ldq
    → (ops p).status ≡ executing
    → get_elem? ldq.queue i ≡ some e
    → e.empty ≡ false
    → e.op ≡ p
    → complete_instruction ops ldq p ≡ some (modify ops p (set_finish true))
unfolding complete_instruction
complete_executing ops ldq p i e v busy read used same =
    let id : (ops p).dyn_id ≡ e.dyn_id =
      ap (λ k. (ops k).dyn_id) (sym same) ∙ v.own i e read used in
    let at : lookup (ops p).dyn_id ldq.entry_map ≡ some i =
      ap (λ k. lookup k ldq.entry_map) id ∙ v.mapped i e read used in
    let runs : (ops e.op).status ≡ executing = ap (λ k. (ops k).status) same ∙ busy in
    rw (at, read, used, runs) refl

-- One answer.
complete_one :
    (ops : Ops) (ldq : Ldstq) (o : Option ℕ)
    → IsQueue ops ldq
    → IsAnswer ops ldq o
    → (ops' : Ops) × Completes ops ops'
      × OneAnswered ops o ops'
      × Finished ops ops' o
      × ((resp : MemTransaction) (resps : List MemTransaction)
          → resp.op ≡ o
          → complete_all ops ldq (resp ∷ resps) ≡ complete_all ops' ldq resps)
unfolding complete_all
complete_one ops ldq none v h =
    (ops, (λ p. (refl, λ e. e)), (λ p. refl), tt, λ resp resps same. rw same refl)
complete_one ops ldq (some p) v h = elim (Bool-cases (ops p).is_squashed) [
  | inl gone ↦ (
    ops,
    (λ q. (refl, λ e. e)),
    squashed-OneAnswered ops p gone,
    (λ kept. absurd (ground (arith, gone, kept))),
    λ resp resps same. rw (same, gone) refl,
  )
  | inr kept ↦ elim h [
    | inl gone ↦ absurd (ground (arith, gone, kept))
    | inr (busy, i, e, read, used, own) ↦ (
      modify ops p (set_finish true),
      finish-Completes ops p,
      finish-OneAnswered ops p kept,
      (λ k. finished_now ops p),
      λ resp resps same. simp (same, kept, complete_executing ops ldq p i e v busy read used own),
    )
  ]
]

Finished-before : (a b c : Ops) (o : Option ℕ) → Completes a b → Finished b c o → Finished a c o
unfolding set_finish
Finished-before a b c none f h = tt
Finished-before a b c (some p) f h =
    λ kept. h (ap (λ (o : Operation). o.is_squashed) (f p).0 ∙ kept)

Finished-after : (a b c : Ops) (o : Option ℕ) → Completes b c → Finished a b o → Finished a c o
Finished-after a b c none f h = tt
Finished-after a b c (some p) f h = λ kept. (f p).1 (h kept)

All-before :
    (a b c : Ops) (resps : List MemTransaction)
    → Completes a b
    → All (λ (r : MemTransaction). Finished b c r.op) resps
    → All (λ (r : MemTransaction). Finished a c r.op) resps
All-before a b c [] f h = tt
All-before a b c (r ∷ rs) f h = (Finished-before a b c r.op f h.0, All-before a b c rs f h.1)

complete_all-Completes :
    (ops : Ops) (ldq : Ldstq) (resps : List MemTransaction)
    → IsQueue ops ldq
    → Answers ops ldq resps
    → (ops' : Ops) × (complete_all ops ldq resps ≡ some ops')
      × Completes ops ops'
      × Answered ops resps ops'
      × All (λ (r : MemTransaction). Finished ops ops' r.op) resps
unfolding complete_all
complete_all-Completes ops ldq [] v h = (ops, refl, (λ p. (refl, λ e. e)), (λ p. refl), tt)
complete_all-Completes ops ldq (r ∷ rs) v h =
    let (mid, first, one, done, step) = complete_one ops ldq r.op v h.0 in
    let (last, run, rest, answered, all) =
      complete_all-Completes mid ldq rs
        (IsQueue-Keeps ops mid ldq (Completes-Keeps ops mid first) v)
        (Answers-Completes ops mid ldq rs first h.1) in
    (
      last,
      step r rs refl ∙ run,
      Completes-trans ops mid last first rest,
      one-Answered ops mid last r rs first one answered,
      (Finished-after ops mid last r.op rest done, All-before ops mid last rs first all),
    )

-- If every answer of the cache is for no operation, a squashed one, or an executing load that has its
-- entry, `wb` fails no assertion. It sets `finished` of exactly the operations that some answer is for
-- and that are not squashed, and changes nothing else of any operation. It empties the list of answers
-- and changes nothing else of the unit, which keeps its invariant.
pub wb-Completes :
    (ops : Ops) (u : LsUnit)
    → IsWorking ops u
    → Answers ops u.ldq u.responses
    → (ops' : Ops) × (u' : LsUnit) × (wb ops u ≡ some (ops', u'))
      × IsWorking ops' u'
      × Answered ops u.responses ops'
      × All (λ (r : MemTransaction). Finished ops ops' r.op) u.responses
      × (u' ≡ record u { responses = [] })
unfolding wb
wb-Completes ops u v h =
    let (ops', run, c, answered, all) = complete_all-Completes ops u.ldq u.responses v.loads h in
    let w = IsWorking-Keeps ops ops' u (Completes-Keeps ops ops' c) v in
    (
      ops',
      record u { responses = [] },
      rw run refl,
      record { loads = w.loads; stores = w.stores; positive = w.positive; waiting = w.waiting },
      answered,
      all,
      refl,
    )
