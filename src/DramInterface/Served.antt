-- ===== src/DramInterface/Served.antt =====
-- The requests in the DRAM and the outstanding ones of the interface (sim/src/mem/DRAM.cpp) agree.
use cisim.Prelude.{
  ℕ, suc, ◌+◌, ◌<◌, ◌≡◌, refl, sym, ap, subst, ◌∙◌, arith, inl, inr, Bool, true, false, not, ◌&&◌,
  Bool-cases, Option-cases, ◌==◌, if◌then◌else◌, List, [], ◌∷◌, map, length, Option, none, some,
}
use cisim.Prelude.Dict.{lookup, erase, lookup-erase, lookup-insert}
use cisim.Prelude.Dict
use cisim.Prelude.DictSorted.{IsSorted, erase-IsSorted}
use cisim.Prelude.DictTotal.{total, weigh, total-erase}
use cisim.PriorityQueue.{tally, tally-append}
use cisim.MemTransaction.{MemTransaction}
use cisim.SimpleDram.{MemOperator}
use cisim.DramInterface.{
  DramInterface, State, or_empty, queue_at, answer_reads, read_complete, write_complete, complete,
}

-- 1 for a write, and for a read, of the address.
abbrev pub write_to : ℕ → MemOperator → ℕ
write_to addr m = if m.is_write && m.addr == addr then 1 else 0

abbrev pub read_to : ℕ → MemOperator → ℕ
read_to addr m = if not m.is_write && m.addr == addr then 1 else 0

-- How many requests are outstanding at an address.
abbrev pub waiting_at {ℓ} : {A : Type ℓ} → ℕ → List (ℕ × List A) → ℕ
waiting_at addr m = length (queue_at addr m)

-- As many writes of an address are in the DRAM as are outstanding, and where reads are outstanding, one
-- of the address is in the DRAM.
pub record IsServed (pq : List MemOperator) (d : DramInterface) : Type 0 where
  pub writes : (addr : ℕ) → tally (write_to addr) pq ≡ waiting_at addr d.outstanding_write_map
  pub reads : (addr : ℕ) → 0 < waiting_at addr d.outstanding_read_map → 0 < tally (read_to addr) pq
  pub sorted_reads : IsSorted d.outstanding_read_map

-- A weight of all the transactions that are outstanding.
abbrev pub outstanding : (MemTransaction → ℕ) → DramInterface → ℕ
outstanding weight d = total (tally (λ (e : MemTransaction × ℕ). weight e.0)) d.outstanding_read_map

module _ {ℓ} {A : Type ℓ} where
  length-branch :
      (b : Bool) (q : List A) (o : Option (List A))
      → length (or_empty (if b then some q else o)) ≡ (if b then length q else length (or_empty o))
  length-branch true q o = refl
  length-branch false q o = refl

  pub waiting_at-erase :
      (addr key : ℕ) (m : List (ℕ × List A))
      → waiting_at addr (erase key m) ≡ (if key == addr then 0 else waiting_at addr m)
  waiting_at-erase addr key m = elim (Bool-cases (key == addr)) [
    | inl here ↦
        ap (λ (o : Option (List A)). length (or_empty o)) (lookup-erase key addr m) ∙ rw here refl
    | inr away ↦
        ap (λ (o : Option (List A)). length (or_empty o)) (lookup-erase key addr m) ∙ rw away refl
  ]

  pub waiting_at-insert :
      (addr key : ℕ) (q : List A) (m : List (ℕ × List A))
      → waiting_at addr (Dict.insert key q m)
        ≡ (if key == addr then length q else waiting_at addr m)
  waiting_at-insert addr key q m =
      ap (λ (o : Option (List A)). length (or_empty o)) (lookup-insert key addr q m)
      ∙ length-branch (key == addr) q (lookup addr m)

  pub waiting_at-none :
      (addr : ℕ) (m : List (ℕ × List A)) → lookup addr m ≡ none → waiting_at addr m ≡ 0
  waiting_at-none addr m e = ap (λ (o : Option (List A)). length (or_empty o)) e

  pub waiting_at-some :
      (addr : ℕ) (m : List (ℕ × List A)) (q : List A)
      → lookup addr m ≡ some q
      → waiting_at addr m ≡ length q
  waiting_at-some addr m q e = ap (λ (o : Option (List A)). length (or_empty o)) e

tally-responses :
    (weight : MemTransaction → ℕ) (q : List (MemTransaction × ℕ))
    → tally weight (map (λ (e : MemTransaction × ℕ). e.0) q)
      ≡ tally (λ (e : MemTransaction × ℕ). weight e.0) q
tally-responses weight [] = refl
tally-responses weight (e ∷ q) = omega (arith, tally-responses weight q)

module _ (weight : MemTransaction → ℕ) (m : MemOperator) (ms : List MemOperator) (d : DramInterface)
    (sent : List MemTransaction) (v : IsServed (m ∷ ms) d) where
  -- What a completion leaves.
  abbrev Completes : State → Type 0
  Completes s' =
      IsServed ms s'.0
      × (tally weight s'.1 + outstanding weight s'.0 ≡ tally weight sent + outstanding weight d)

  read-Completes : m.is_write ≡ false → Completes (read_complete m.addr (d, sent))
  unfolding read_complete
  read-Completes is_read = elim (Option-cases (lookup m.addr d.outstanding_read_map)) [
    | inl nothing ↦
        subst (λ o. Completes (answer_reads m.addr (d, sent) o)) (sym nothing)
          (
            record {
              writes = λ addr. ground (arith, v.writes addr, is_read);
              reads = λ addr h. elim (Bool-cases (m.addr == addr)) [
                | inl here ↦
                    let at : m.addr ≡ addr = ground arith in
                    absurd (
                      omega (
                        arith,
                        h,
                        ap (λ k. waiting_at k d.outstanding_read_map) at,
                        waiting_at-none m.addr d.outstanding_read_map nothing,
                      ))
                | inr away ↦ ground (arith, v.reads addr h, away)
              ];
              sorted_reads = v.sorted_reads;
            },
            refl,
          )
    | inr (q, found) ↦
        subst (λ o. Completes (answer_reads m.addr (d, sent) o)) (sym found)
          (
            record {
              writes = λ addr. ground (arith, v.writes addr, is_read);
              reads = λ addr h.
                  ground (arith, waiting_at-erase addr m.addr d.outstanding_read_map, v.reads addr);
              sorted_reads = erase-IsSorted m.addr d.outstanding_read_map v.sorted_reads;
            },
            omega (
              arith,
              tally-append weight sent (map (λ (e : MemTransaction × ℕ). e.0) q),
              tally-responses weight q,
              total-erase (tally (λ (e : MemTransaction × ℕ). weight e.0)) m.addr
                  d.outstanding_read_map v.sorted_reads,
              ap (weigh (tally (λ (e : MemTransaction × ℕ). weight e.0))) found,
            ),
          )
  ]

  -- One write less is outstanding at its address.
  popped-IsServed :
      (d' : DramInterface)
      → m.is_write ≡ true
      → d'.outstanding_read_map ≡ d.outstanding_read_map
      → ((addr : ℕ)
          → waiting_at addr d'.outstanding_write_map + (if m.addr == addr then 1 else 0)
            ≡ waiting_at addr d.outstanding_write_map)
      → IsServed ms d'
  popped-IsServed d' is_write kept popped = record {
    writes = λ addr. ground (arith, v.writes addr, popped addr, is_write);
    reads = λ addr h. ground (arith, v.reads addr, ap (waiting_at addr) kept, is_write);
    sorted_reads = subst IsSorted (sym kept) v.sorted_reads;
  }

  write-Completes :
      m.is_write ≡ true → (s' : State) × (write_complete m.addr (d, sent) ≡ some s') × Completes s'
  unfolding write_complete
  write-Completes is_write = elim (Option-cases (lookup m.addr d.outstanding_write_map)) [
    | inl nothing ↦ absurd (
        ground (
          arith,
          v.writes m.addr,
          waiting_at-none m.addr d.outstanding_write_map nothing,
          is_write,
        ))
    | inr ([], found) ↦ absurd (
        ground (
          arith,
          v.writes m.addr,
          waiting_at-some m.addr d.outstanding_write_map [] found,
          is_write,
        ))
    | inr (first ∷ [], found) ↦
        let d' = record d { outstanding_write_map = erase m.addr d.outstanding_write_map } in
        (
          (d', sent),
          rw found refl,
          (
            popped-IsServed d' is_write refl (λ addr. elim (Bool-cases (m.addr == addr)) [
              | inl here ↦
                  let at : m.addr ≡ addr = ground arith in
                  rw here (
                    omega (
                      arith,
                      waiting_at-erase addr m.addr d.outstanding_write_map,
                      ap (λ b. if b then 0 else waiting_at addr d.outstanding_write_map) here,
                      ap (λ k. waiting_at k d.outstanding_write_map) at,
                      waiting_at-some m.addr d.outstanding_write_map (first ∷ []) found,
                    ))
              | inr away ↦ rw away (
                  omega (
                    arith,
                    waiting_at-erase addr m.addr d.outstanding_write_map,
                    ap (λ b. if b then 0 else waiting_at addr d.outstanding_write_map) away,
                  ))
            ]),
            refl,
          ),
        )
    | inr (first ∷ next ∷ q, found) ↦
        let d' = record d {
          outstanding_write_map = Dict.insert m.addr (next ∷ q) d.outstanding_write_map;
        } in
        (
          (d', sent),
          rw found refl,
          (
            popped-IsServed d' is_write refl (λ addr. elim (Bool-cases (m.addr == addr)) [
              | inl here ↦
                  let at : m.addr ≡ addr = ground arith in
                  rw here (
                    omega (
                      arith,
                      waiting_at-insert addr m.addr (next ∷ q) d.outstanding_write_map,
                      ap
                          (λ b.
                            if b then suc (length q) else waiting_at addr d.outstanding_write_map)
                          here,
                      ap (λ k. waiting_at k d.outstanding_write_map) at,
                      waiting_at-some m.addr d.outstanding_write_map (first ∷ next ∷ q) found,
                    ))
              | inr away ↦ rw away (
                  omega (
                    arith,
                    waiting_at-insert addr m.addr (next ∷ q) d.outstanding_write_map,
                    ap (λ b. if b then suc (length q) else waiting_at addr d.outstanding_write_map)
                        away,
                  ))
            ]),
            refl,
          ),
        )
  ]

  pub complete-Completes : (s' : State) × (complete m (d, sent) ≡ some s') × Completes s'
  unfolding complete
  complete-Completes = elim (Bool-cases m.is_write) [
    | inl is_write ↦ let (s', done, h) = write-Completes is_write in (s', rw is_write done, h)
    | inr is_read ↦ (read_complete m.addr (d, sent), rw is_read refl, read-Completes is_read)
  ]
