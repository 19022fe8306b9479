-- ===== src/Cache/Mshr.antt =====
-- `enterMSHR` (sim/src/mem/cache.cpp) and the invariant of the MSHR.
use cisim.Prelude.{
  ℕ, ◌+◌, ◌≤◌, ◌≡◌, ◌⊎◌, inl, inr, refl, ap, arith, Bool, true, false, Bool-cases, leb, List, [],
  ◌∷◌, ◌++◌, length, Option, none, some,
}
use cisim.Prelude.Dict.{lookup}
use cisim.Prelude.Dict
use cisim.Prelude.DictSorted.{IsSorted, insert-IsSorted}
use cisim.Prelude.DictTotal.{total, weigh, total-insert}
use cisim.PriorityQueue.{tally, tally-append}
use cisim.MemTransaction.{MemTransaction}
use cisim.Cache.{Cache, line_of, enter_at, enter_mshr, retry}

-- Keys differ, since they rise, and no more lines are noted than there are entries.
pub record IsMshr (c : Cache) : Type 0 where
  pub sorted : IsSorted c.mshr
  pub bound : length c.mshr ≤ c.mshr_size

-- The weight of the transactions that wait in the MSHR.
abbrev pub waiting : (MemTransaction → ℕ) → List (ℕ × List MemTransaction) → ℕ
waiting weight m = total (tally weight) m

pub total-length {ℓ} : {A : Type ℓ} (m : List (ℕ × A)) → total (λ (a : A). 1) m ≡ length m
total-length [] = refl
total-length ((k, a) ∷ m) = omega (arith, total-length m)

weigh-one {ℓ} : {A : Type ℓ} (o : Option A) (a : A) → o ≡ some a → weigh (λ (a : A). 1) o ≡ 1
weigh-one o a e = ap (weigh (λ _. 1)) e

-- The cache with another MSHR and other requests to send.
abbrev pub noted : Cache → List (ℕ × List MemTransaction) → List MemTransaction → Cache
noted c m requests = record c { mshr = m; outcoming_requests = requests }

-- A transaction enters, or the MSHR is full and nothing changes.
abbrev pub Enters : (MemTransaction → ℕ) → Cache → MemTransaction → Cache × Bool → Type 0
Enters weight c t r =
    (r ≡ (c, true))
    ⊎ ((m : List (ℕ × List MemTransaction)) × (requests : List MemTransaction) × (r
          ≡ (noted c m requests, false))
        × IsMshr (noted c m requests)
        × (waiting weight m ≡ waiting weight c.mshr + weight t))

enter_at-Enters :
    (weight : MemTransaction → ℕ) (c : Cache) (t : MemTransaction)
    (o : Option (List MemTransaction))
    → IsMshr c
    → lookup (line_of c t.addr) c.mshr ≡ o
    → Enters weight c t (enter_at c t o)
enter_at-Enters weight c t none v e = elim (Bool-cases (leb c.mshr_size (length c.mshr))) [
  | inl full ↦ inl (rw full refl)
  | inr room ↦
      let m = Dict.insert (line_of c t.addr) (t ∷ []) c.mshr in
      inr (
        m,
        c.outcoming_requests ++ t ∷ [],
        rw room refl,
        record {
          sorted = insert-IsSorted (line_of c t.addr) (t ∷ []) c.mshr v.sorted;
          bound = ground (
            arith,
            room,
            total-insert (λ (ts : List MemTransaction). 1) (line_of c t.addr) (t ∷ []) c.mshr
                v.sorted,
            total-length c.mshr,
            total-length m,
          );
        },
        omega (
          arith,
          total-insert (tally weight) (line_of c t.addr) (t ∷ []) c.mshr v.sorted,
          ap (weigh (tally weight)) e,
        ),
      )
]
enter_at-Enters weight c t (some q) v e =
    let m = Dict.insert (line_of c t.addr) (q ++ t ∷ []) c.mshr in
    inr (
      m,
      c.outcoming_requests,
      refl,
      record {
        sorted = insert-IsSorted (line_of c t.addr) (q ++ t ∷ []) c.mshr v.sorted;
        bound = omega (
          arith,
          v.bound,
          total-insert (λ (ts : List MemTransaction). 1) (line_of c t.addr) (q ++ t ∷ []) c.mshr
              v.sorted,
          ap (weigh (λ (ts : List MemTransaction). 1)) e,
          total-length c.mshr,
          total-length m,
        );
      },
      omega (
        arith,
        total-insert (tally weight) (line_of c t.addr) (q ++ t ∷ []) c.mshr v.sorted,
        ap (weigh (tally weight)) e,
        tally-append weight q (t ∷ []),
      ),
    )

pub enter_mshr-Enters :
    (weight : MemTransaction → ℕ) (c : Cache) (t : MemTransaction)
    → IsMshr c
    → Enters weight c t (enter_mshr c t)
unfolding enter_mshr
enter_mshr-Enters weight c t v =
    enter_at-Enters weight c t (lookup (line_of c t.addr) c.mshr) v refl

-- The stalled transactions enter, or stay stalled.
pub retry-IsMshr :
    (weight : MemTransaction → ℕ) (kept ts : List MemTransaction) (c : Cache)
    → IsMshr c
    → (m : List (ℕ × List MemTransaction)) × (requests : List MemTransaction) × (stalled : List
        MemTransaction)
      × (retry kept ts c ≡ record (noted c m requests) { stalled_transactions = stalled })
      × IsMshr (noted c m requests)
      × (tally weight stalled + waiting weight m
          ≡ tally weight kept + tally weight ts + waiting weight c.mshr)
unfolding retry
retry-IsMshr weight kept [] c v = (c.mshr, c.outcoming_requests, kept, refl, v, omega arith)
retry-IsMshr weight kept (t ∷ ts) c v = elim (enter_mshr-Enters weight c t v) [
  | inl full ↦
      let (m, requests, stalled, run, v', sum) = retry-IsMshr weight (kept ++ t ∷ []) ts c v in
      (m, requests, stalled, rw full run, v', omega (arith, sum, tally-append weight kept (t ∷ [])))
  | inr (m, requests, entered, v', more) ↦
      let (m', requests', stalled, run, v'', sum) =
        retry-IsMshr weight kept ts (noted c m requests) v' in
      (m', requests', stalled, rw entered run, v'', omega (arith, sum, more))
]
