-- ===== src/DramInterface/Process.antt =====
-- Requests to the memory interface and its cycle (`addTransaction` and `process` of
-- sim/src/mem/DRAM.cpp).
use cisim.Prelude.{
  ℕ, suc, ◌+◌, ◌<◌, ◌≡◌, refl, ap, ◌∙◌, arith, inl, inr, Bool, true, false, Bool-cases, ◌==◌, List,
  [], ◌∷◌, ◌++◌, length, length-append, Option, none, some, assert, ◌>>◌,
}
use cisim.Prelude.Dict.{lookup}
use cisim.Prelude.DictSorted.{insert-IsSorted}
use cisim.Prelude.DictTotal.{weigh, total-insert}
use cisim.PriorityQueue.{tally, tally-append, tally-push, IsOrdered}
use cisim.MemTransaction.{MemTransaction}
use cisim.SimpleDram.{SimpleDram, MemOperator, before, new_operator}
use cisim.SimpleDram
use cisim.SimpleDram.Serve.{final, add_transaction-IsOrdered, process-Serves}
use cisim.DramInterface.{
  DramInterface, State, queue_at, or_empty, reset_ports, add_read, add_write, complete,
  add_transaction, process,
}
use cisim.DramInterface.Served.{
  IsServed, write_to, read_to, outstanding, waiting_at, waiting_at-insert, complete-Completes,
}

-- What holds between the cycles.
abbrev pub IsConsistent : DramInterface → Type 0
IsConsistent d = IsServed d.simple_dram.pq d × IsOrdered final d.simple_dram.pq

weigh-queue :
    (weight : MemTransaction → ℕ) (o : Option (List (MemTransaction × ℕ)))
    → weigh (tally (λ (e : MemTransaction × ℕ). weight e.0)) o
      ≡ tally (λ (e : MemTransaction × ℕ). weight e.0) (or_empty o)
weigh-queue weight none = refl
weigh-queue weight (some q) = refl

length-snoc {ℓ} : {A : Type ℓ} (q : List A) (a : A) → length (q ++ a ∷ []) ≡ suc (length q)
length-snoc q a = omega (arith, length-append q (a ∷ []))

-- A read is outstanding from then on, with all that were.
pub add_read-IsConsistent :
    (weight : MemTransaction → ℕ) (t : MemTransaction) (addr cycle : ℕ) (d : DramInterface)
    → IsConsistent d
    → IsConsistent (add_read t addr cycle d)
      × (outstanding weight (add_read t addr cycle d) ≡ weight t + outstanding weight d)
unfolding SimpleDram.add_transaction
add_read-IsConsistent weight t addr cycle d (v, order) =
    let w = λ (e : MemTransaction × ℕ). weight e.0 in
    let m = d.outstanding_read_map in
    let op = new_operator d.simple_dram false addr in
    (
      (
        record {
          writes =
              λ a. omega (arith, tally-push (write_to a) before op d.simple_dram.pq, v.writes a);
          reads = λ a h. ground (
            arith,
            v.reads a,
            tally-push (read_to a) before op d.simple_dram.pq,
            waiting_at-insert a addr (queue_at addr m ++ (t, cycle) ∷ []) m,
          );
          sorted_reads = insert-IsSorted addr (queue_at addr m ++ (t, cycle) ∷ []) m v.sorted_reads;
        },
        add_transaction-IsOrdered d.simple_dram false addr order,
      ),
      omega (
        arith,
        total-insert (tally w) addr (queue_at addr m ++ (t, cycle) ∷ []) m v.sorted_reads,
        tally-append w (queue_at addr m) ((t, cycle) ∷ []),
        weigh-queue weight (lookup addr m),
      ),
    )

-- A write changes no outstanding read.
add_write-IsConsistent :
    (addr cycle : ℕ) (d : DramInterface) → IsConsistent d → IsConsistent (add_write addr cycle d)
unfolding SimpleDram.add_transaction
add_write-IsConsistent addr cycle d (v, order) =
    let m = d.outstanding_write_map in
    let op = new_operator d.simple_dram true addr in
    (
      record {
        writes = λ a. elim (Bool-cases (addr == a)) [
          | inl here ↦
              let at : addr ≡ a = ground arith in
              ground (
                arith,
                v.writes a,
                tally-push (write_to a) before op d.simple_dram.pq,
                waiting_at-insert a addr (queue_at addr m ++ cycle ∷ []) m,
                here,
                length-snoc (queue_at addr m) cycle,
                ap (λ k. waiting_at k m) at,
              )
          | inr away ↦ ground (
            arith,
            v.writes a,
            tally-push (write_to a) before op d.simple_dram.pq,
            waiting_at-insert a addr (queue_at addr m ++ cycle ∷ []) m,
            away,
          )
        ];
        reads =
            λ a h. ground (arith, v.reads a h, tally-push (read_to a) before op d.simple_dram.pq);
        sorted_reads = v.sorted_reads;
      },
      add_transaction-IsOrdered d.simple_dram true addr order,
    )

-- The weight that a request adds to what is outstanding.
abbrev pub added_weight : (MemTransaction → ℕ) → Option MemTransaction → ℕ
added_weight weight none = 0
added_weight weight (some t) = weight t

-- Where the requests in the DRAM and the outstanding ones agree, they also do after a request, which does
-- not fail: a read is outstanding from then on with all that were, and a write changes no outstanding
-- read.
pub add_transaction-IsConsistent :
    (weight : MemTransaction → ℕ) (o : Option MemTransaction) (addr cycle : ℕ) (d : DramInterface)
    → d.use_simple_dram ≡ true
    → IsConsistent d
    → (d' : DramInterface) × (add_transaction o addr cycle d ≡ some d')
      × IsConsistent d'
      × (outstanding weight d' ≡ added_weight weight o + outstanding weight d)
unfolding add_transaction
add_transaction-IsConsistent weight none addr cycle d simple v = (
  add_write addr cycle d,
  ap (λ b. assert b >> some (add_write addr cycle d)) simple,
  add_write-IsConsistent addr cycle d v,
  omega arith,
)
add_transaction-IsConsistent weight (some t) addr cycle d simple v =
    let (w, sum) = add_read-IsConsistent weight t addr cycle d v in
    (add_read t addr cycle d, ap (λ b. assert b >> some (add_read t addr cycle d)) simple, w, sum)

-- Between the DRAM and the interface, with the weight of all that was outstanding or sent.
abbrev Holds : (MemTransaction → ℕ) → ℕ → List MemOperator → State → Type 0
Holds weight sum pq s = IsServed pq s.0 × (tally weight s.1 + outstanding weight s.0 ≡ sum)

complete-Holds :
    (weight : MemTransaction → ℕ) (sum : ℕ) (m : MemOperator) (ms : List MemOperator) (s : State)
    → Holds weight sum (m ∷ ms) s
    → (s' : State) × (complete m s ≡ some s') × Holds weight sum ms s'
complete-Holds weight sum m ms (d, sent) (v, e) =
    let (s', done, (v', kept)) = complete-Completes weight m ms d sent v in
    (s', done, (v', kept ∙ e))

process-run :
    (d : DramInterface) (dram : SimpleDram) (s : State) (more : Bool)
    → d.use_simple_dram ≡ true
    → SimpleDram.process complete d.simple_dram (reset_ports d, []) ≡ some (dram, s, more)
    → process d ≡ some (record s.0 { simple_dram = dram; cycles = d.cycles + 1 }, s.1)
unfolding process
process-run d dram s more simple run = rw (run, simple) refl

-- Where the requests in the DRAM and the outstanding ones agree, `process` throws no exception, in
-- particular `write_complete` finds an outstanding write each time, and they agree again. No outstanding
-- read is lost or answered twice: for every weight of transactions, that of the responses and of what is
-- still outstanding is together that of what was outstanding.
pub process-IsConsistent :
    (weight : MemTransaction → ℕ) (d : DramInterface)
    → d.use_simple_dram ≡ true
    → 0 < d.simple_dram.epoch_length
    → IsConsistent d
    → (d' : DramInterface) × (sent : List MemTransaction) × (process d ≡ some (d', sent))
      × IsConsistent d'
      × (tally weight sent + outstanding weight d' ≡ outstanding weight d)
process-IsConsistent weight d simple positive (v, order) =
    let start : Holds weight (outstanding weight d) d.simple_dram.pq (reset_ports d, []) =
      (record { writes = v.writes; reads = v.reads; sorted_reads = v.sorted_reads }, omega arith) in
    let (dram, s, more, count, run, served, clock, again) =
      process-Serves complete (Holds weight (outstanding weight d))
        (complete-Holds weight (outstanding weight d)) d.simple_dram (reset_ports d, []) positive
        order start in
    let (done, parts, sum, (w, kept), due, bound, stop, order') = served in
    (
      record s.0 { simple_dram = dram; cycles = d.cycles + 1 },
      s.1,
      process-run d dram s more simple run,
      (record { writes = w.writes; reads = w.reads; sorted_reads = w.sorted_reads }, order'),
      kept,
    )
