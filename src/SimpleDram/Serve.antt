-- ===== src/SimpleDram/Serve.antt =====
-- Which requests `SimpleDRAM::process` (sim/src/mem/SimpleDRAM.cpp) completes in a cycle.
use cisim.Prelude.{
  ℕ, ◌+◌, ◌≤◌, ◌<◌, ◌≡◌, ◌⊎◌, inl, inr, refl, ap, arith, Bool, false, Bool-cases, ltb, leb, ◌==◌,
  ◌%◌, List, [], ◌∷◌, ◌++◌, All, length, max, Option, some, if◌then◌else◌,
}
use cisim.PriorityQueue.{IsOrdered, push-IsOrdered}
use cisim.SimpleDram.{
  SimpleDram, MemOperator, before, new_operator, add_transaction, has_more, serve, process,
}

abbrev pub final : MemOperator → ℕ
final m = m.final_cycle

-- A new request keeps the queue in order.
pub add_transaction-IsOrdered :
    (d : SimpleDram) (is_write : Bool) (addr : ℕ)
    → IsOrdered final d.pq
    → IsOrdered final (add_transaction d is_write addr).pq
unfolding add_transaction
add_transaction-IsOrdered d is_write addr h =
    push-IsOrdered final before (λ l r e. ground arith) (λ l r e. ground arith)
      (new_operator d is_write addr) d.pq h

all_later :
    (cycles bound : ℕ) (ms : List MemOperator)
    → cycles < bound
    → All (λ y. bound ≤ final y) ms
    → All (λ y. cycles < final y) ms
all_later cycles bound [] lt h = tt
all_later cycles bound (m ∷ ms) lt (le, h) = (omega arith, all_later cycles bound ms lt h)

-- `Holds ms s` is what the owner of the callback needs while `ms` are in the queue: a completion
-- returns and keeps it.
module _ {S : Type 0} (complete : MemOperator → S → Option S)
    (Holds : List MemOperator → S → Type 0)
    (step : (m : MemOperator) (ms : List MemOperator) (s : S)
      → Holds (m ∷ ms) s
      → (s' : S) × (complete m s ≡ some s') × Holds ms s') where
  -- The loop completes a first part of the queue: requests that are due, up to the bound, and stops
  -- only where none is due or the bound is reached.
  abbrev pub Serves : ℕ → ℕ → List MemOperator → ℕ → List MemOperator → ℕ → S → Type 0
  Serves cycles limit ms count left count' s' =
      (done : List MemOperator) × (ms ≡ done ++ left)
      × (count' ≡ count + length done)
      × Holds left s'
      × All (λ m. final m ≤ cycles) done
      × (count' ≤ max count limit)
      × (All (λ m. cycles < final m) left ⊎ (limit ≤ count'))
      × IsOrdered final left

  serve-Serves :
      (cycles limit : ℕ) (ms : List MemOperator) (count : ℕ) (s : S)
      → IsOrdered final ms
      → Holds ms s
      → (left : List MemOperator) × (count' : ℕ) × (s' : S) × (serve complete cycles limit ms count
            s
          ≡ some (left, count', s'))
        × Serves cycles limit ms count left count' s'
  unfolding serve
  serve-Serves cycles limit [] count s order h =
      ([], count, s, refl, ([], refl, omega arith, h, tt, omega arith, inl tt, tt))
  serve-Serves cycles limit (m ∷ ms) count s (least, order) h =
      elim (Bool-cases (ltb cycles m.final_cycle)) [
        | inl early ↦
            let later : cycles < final m = ground (arith, early) in
            (
              m ∷ ms,
              count,
              s,
              rw early refl,
              (
                [],
                refl,
                omega arith,
                h,
                tt,
                omega arith,
                inl (later, all_later cycles (final m) ms later least),
                (least, order),
              ),
            )
        | inr due ↦ elim (Bool-cases (leb limit count)) [
          | inl full ↦ (
            m ∷ ms,
            count,
            s,
            rw (due, full) refl,
            ([], refl, omega arith, h, tt, omega arith, inr (ground (arith, full)), (least, order)),
          )
          | inr room ↦
              let (s', done, h') = step m ms s h in
              let (left, count', s'', run, (served, parts, sum, held, ready, bound, stop, order')) =
                serve-Serves cycles limit ms (count + 1) s' order h' in
              (
                left,
                count',
                s'',
                rw (due, room, done) run,
                (
                  m ∷ served,
                  ap (λ xs. m ∷ xs) parts,
                  omega (arith, sum),
                  held,
                  (ground (arith, due), ready),
                  ground (arith, room, bound),
                  stop,
                  order',
                ),
              )
        ]
      ]

  -- On a queue in order, and while each completion returns, `process` completes a first part of the
  -- queue, all of it due. The count of requests stays within the bound of the epoch where it was, and
  -- no request that is due is left unless that bound is reached. The clock goes on by one, and the
  -- count starts anew at the end of an epoch.
  pub process-Serves :
      (d : SimpleDram) (s : S)
      → 0 < d.epoch_length
      → IsOrdered final d.pq
      → Holds d.pq s
      → (d' : SimpleDram) × (s' : S) × (more : Bool) × (count : ℕ) × (process complete d s
          ≡ some (d', s', more))
        × Serves d.cycles d.max_req_per_epoch d.pq d.request_count d'.pq count s'
        × (d'.cycles ≡ d.cycles + 1)
        × (d'.request_count ≡ (if d'.cycles % d.epoch_length == 0 then 0 else count))
  unfolding process
  process-Serves d s positive order h =
      let (left, count, s', run, served) =
        serve-Serves d.cycles d.max_req_per_epoch d.pq d.request_count s order h in
      let nonzero : (d.epoch_length == 0) ≡ false = ground arith in
      let reset = if (d.cycles + 1) % d.epoch_length == 0 then 0 else count in
      (
        record d { pq = left; request_count = reset; cycles = d.cycles + 1 },
        s',
        has_more left,
        count,
        simp (run, nonzero),
        served,
        refl,
        refl,
      )
