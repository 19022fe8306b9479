-- ===== src/Cache/Conserve.antt =====
-- `Cache::process` (sim/src/mem/cache.cpp) loses no transaction.
use cisim.Prelude.{
  ℕ, ◌+◌, ◌≤◌, ◌<◌, ◌^◌, ◌≡◌, inl, inr, refl, sym, ap, subst, ◌∙◌, arith, Bool, true, Bool-cases,
  ◌||◌, ◌&&◌, ◌==◌, ltb, if◌then◌else◌, List, [], ◌∷◌, All, length, some, ◌>>=◌,
}
use cisim.Prelude.DictSorted.{IsSorted}
use cisim.PriorityQueue.{tally, tally-append, IsOrdered}
use cisim.MemTransaction.{MemTransaction, is_evict}
use cisim.FunctionalCache.Valid
use cisim.FunctionalCache.Presence.{access_hits}
use cisim.Cache.{
  Cache, wait, passes_by, request_out, hit_response, count_access, count_miss, miss, serve_one,
  serve, process,
}
use cisim.Cache.Mshr.{IsMshr, waiting, noted, enter_mshr-Enters, retry-IsMshr}

-- A cache with an MSHR, whose lines are well formed.
pub record IsReady (level : ℕ) (c : Cache) : Type 0 where
  pub uses : c.use_mshr ≡ true
  pub at_level : c.level ≡ level
  pub mshr_ok : IsMshr c
  pub valid : Valid.IsValid c.fc

-- The weight of the transactions that wait for an answer or have one.
abbrev pub held : (MemTransaction → ℕ) → Cache → ℕ
held weight c =
    tally weight c.stalled_transactions + waiting weight c.mshr + tally weight c.outcoming_responses

abbrev pub queued : (MemTransaction → ℕ) → List (MemTransaction × ℕ) → ℕ
queued weight q = tally (λ (e : MemTransaction × ℕ). weight e.0) q

-- Evictions end here, and a prefetch of the first level is not waited for.
abbrev pub passes : ℕ → MemTransaction → Bool
passes level t = is_evict t || (level == 1 && t.is_prefetch)

module _ (over level : ℕ) (ahead : MemTransaction → MemTransaction → Bool) (small : over < 2)
    (weight : MemTransaction → ℕ)
    (ignores : (t : MemTransaction) → passes level t ≡ true → weight t ≡ 0) where
  -- A step on one transaction, after which it is held with those that were.
  abbrev Holds : Cache → MemTransaction → Cache → Type 0
  Holds c t c' =
      IsReady level c' × (held weight c' ≡ held weight c + weight t) × (c'.cycle ≡ c.cycle)

  wait-Holds : (c : Cache) (t : MemTransaction) → IsReady level c → Holds c t (wait c t)
  unfolding wait
  wait-Holds c t v = elim (enter_mshr-Enters weight c t v.mshr_ok) [
    | inl full ↦ rw full (
      record {
        uses = v.uses;
        at_level = v.at_level;
        mshr_ok = record { sorted = v.mshr_ok.sorted; bound = v.mshr_ok.bound };
        valid = v.valid;
      },
      omega (arith, tally-append weight c.stalled_transactions (t ∷ [])),
      refl,
    )
    | inr (m, requests, entered, v', more) ↦ rw entered (
      record { uses = v.uses; at_level = v.at_level; mshr_ok = v'; valid = v.valid },
      omega (arith, more),
      refl,
    )
  ]

  -- Other fields than those of the invariant.
  IsReady-fields :
      (c c' : Cache)
      → IsReady level c
      → c'.use_mshr ≡ c.use_mshr
      → c'.level ≡ c.level
      → c'.mshr ≡ c.mshr
      → c'.mshr_size ≡ c.mshr_size
      → Valid.IsValid c'.fc
      → IsReady level c'
  IsReady-fields c c' v uses at_level mshr size fc = record {
    uses = uses ∙ v.uses;
    at_level = at_level ∙ v.at_level;
    mshr_ok = record {
      sorted = subst IsSorted (sym mshr) v.mshr_ok.sorted;
      bound = ground (arith, v.mshr_ok.bound, ap length mshr, size);
    };
    valid = fc;
  }

  counted : (c : Cache) (t : MemTransaction) → IsReady level c → IsReady level (count_miss c t)
  counted c t v = IsReady-fields c (count_miss c t) v refl refl refl refl v.valid

  miss-Holds : (c : Cache) (t : MemTransaction) → IsReady level c → Holds c t (miss c t)
  unfolding miss
  miss-Holds c t v =
      let c' = record c { nmiss = c.nmiss + 1 } in
      let v' : IsReady level c' = IsReady-fields c c' v refl refl refl refl v.valid in
      let uses : miss c t ≡ count_miss (if passes_by c t then request_out c' t else wait c' t) t =
        ap
          (λ b.
            count_miss
              (if b
                then (if passes_by c t then request_out c' t else wait c' t)
                else request_out c' t)
              t)
          v.uses in
      elim (Bool-cases (passes_by c t)) [
        | inl by ↦
            let x = request_out c' t in
            let e : miss c t ≡ count_miss x t =
              uses ∙ ap (λ b. count_miss (if b then x else wait c' t) t) by in
            let nothing : weight t ≡ 0 = ignores t (ground (arith, by, v.at_level)) in
            subst (Holds c t) (sym e) (
              counted x t (IsReady-fields c x v refl refl refl refl v.valid),
              omega (arith, nothing),
              refl,
            )
        | inr stops ↦
            let x = wait c' t in
            let e : miss c t ≡ count_miss x t =
              uses ∙ ap (λ b. count_miss (if b then request_out c' t else x) t) stops in
            let (ready, sum, now) = wait-Holds c' t v' in
            subst (Holds c t) (sym e) (counted x t ready, sum, now)
      ]

  -- One transaction that is due is answered, waits, or is one that ends here.
  serve_one-Holds :
      (c : Cache) (t : MemTransaction)
      → IsReady level c
      → t.addr < 2 ^ 64
      → (c' : Cache) × (serve_one over ahead c t ≡ some c') × Holds c t c'
  unfolding serve_one
  serve_one-Holds c t v address =
      let (fc, hit, run, here, valid) =
        access_hits over c.fc t.addr small address v.valid t.dyn_id t.is_load_req in
      let x = record (count_access c t) { fc = fc } in
      let ready : IsReady level x = IsReady-fields c x v refl refl refl refl valid in
      elim (Bool-cases (is_evict t)) [
        | inl gone ↦
            let nothing : weight t ≡ 0 = ignores t (ground (arith, gone)) in
            (
              x,
              rw run (
                  ap some
                    (ap (λ b. if b then x else if hit then hit_response x t else miss x t) gone)),
              (ready, omega (arith, nothing), refl),
            )
        | inr stays ↦ elim (Bool-cases hit) [
          | inl found ↦
              let y = hit_response x t in
              (
                y,
                rw run (
                    ap some (
                      ap (λ b. if b then x else if hit then y else miss x t) stays
                      ∙ ap (λ b. if b then y else miss x t) found)),
                (
                  IsReady-fields x y ready refl refl refl refl valid,
                  omega (arith, tally-append weight c.outcoming_responses (t ∷ [])),
                  refl,
                ),
              )
          | inr missed ↦ (
            miss x t,
            rw run (
                ap some (
                  ap (λ b. if b then x else if hit then hit_response x t else miss x t) stays
                  ∙ ap (λ b. if b then hit_response x t else miss x t) missed)),
            miss-Holds x t ready,
          )
        ]
      ]

  all_late :
      (now cycle : ℕ) (rest : List (MemTransaction × ℕ))
      → now < cycle
      → All (λ (e : MemTransaction × ℕ). cycle ≤ e.1) rest
      → All (λ (e : MemTransaction × ℕ). now < e.1) rest
  all_late now cycle [] lt h = tt
  all_late now cycle (e ∷ rest) lt (le, h) = (omega arith, all_late now cycle rest lt h)

  -- The queue is served up to the present cycle.
  abbrev pub Conserves : List (MemTransaction × ℕ) → Cache → Cache → Type 0
  Conserves q c c' =
      IsReady level c'
      × (held weight c' + queued weight c'.pq ≡ held weight c + queued weight q)
      × All (λ (e : MemTransaction × ℕ). c.cycle < e.1) c'.pq
      × (c'.cycle ≡ c.cycle)

  serve-Conserves :
      (q : List (MemTransaction × ℕ)) (c : Cache)
      → IsReady level c
      → All (λ (e : MemTransaction × ℕ). e.0.addr < 2 ^ 64) q
      → IsOrdered (λ (e : MemTransaction × ℕ). e.1) q
      → (c' : Cache) × (serve over ahead q c ≡ some c') × Conserves q c c'
  unfolding serve
  serve-Conserves [] c v addresses order = (
    record c { pq = [] },
    refl,
    (IsReady-fields c (record c { pq = [] }) v refl refl refl refl v.valid, refl, tt, refl),
  )
  serve-Conserves ((t, cycle) ∷ q) c v (address, addresses) (least, order) =
      elim (Bool-cases (ltb c.cycle cycle)) [
        | inl early ↦
            let x = record c { pq = (t, cycle) ∷ q } in
            let later : c.cycle < cycle = ground (arith, early) in
            (
              x,
              ap
                  (λ b.
                    if b
                    then some x
                    else (serve_one over ahead c t >>= λ c'. serve over ahead q c'))
                  early,
              (
                IsReady-fields c x v refl refl refl refl v.valid,
                refl,
                (later, all_late c.cycle cycle q later least),
                refl,
              ),
            )
        | inr due ↦
            let (mid, step, (v', sum, now)) = serve_one-Holds c t v address in
            let (c', run, (v'', total_sum, late, same)) =
              serve-Conserves q mid v' addresses order in
            (
              c',
              ap
                    (λ b.
                      if b
                      then some (record c { pq = (t, cycle) ∷ q })
                      else (serve_one over ahead c t >>= λ c'. serve over ahead q c'))
                    due
                  ∙ ap (λ o. o >>= λ c'. serve over ahead q c') step
                  ∙ run,
              (
                v'',
                omega (arith, total_sum, sum),
                subst (λ (n : ℕ). All (λ (e : MemTransaction × ℕ). n < e.1) c'.pq) now late,
                same ∙ now,
              ),
            )
      ]

  -- On a cache with an MSHR, whose queue is in order and holds addresses below 2 ^ 64, `process` returns.
  -- No transaction is lost or doubled, but for evictions and the prefetches of the first level: for every
  -- weight that is 0 on these, the sum over those that are queued, stalled, in the MSHR or answered is
  -- what it was. None that is due is left in the queue, the MSHR notes no more lines than it has
  -- entries, and the lines stay well formed. `over` is what a shift by 64 gives, 0 or 1.
  pub process-Conserves :
      (c : Cache)
      → IsReady level c
      → All (λ (e : MemTransaction × ℕ). e.0.addr < 2 ^ 64) c.pq
      → IsOrdered (λ (e : MemTransaction × ℕ). e.1) c.pq
      → (c' : Cache) × (process over ahead c ≡ some c') × Conserves c.pq c c'
  unfolding process
  process-Conserves c v addresses order =
      let (m, requests, stalled, run, v', sum) =
        retry-IsMshr weight [] c.stalled_transactions c v.mshr_ok in
      let x = record (noted c m requests) { stalled_transactions = stalled } in
      let ready : IsReady level x = record {
        uses = v.uses;
        at_level = v.at_level;
        mshr_ok = record { sorted = v'.sorted; bound = v'.bound };
        valid = v.valid;
      } in
      let (c', served, (v'', sum', late, now)) = serve-Conserves c.pq x ready addresses order in
      (c', rw run served, (v'', omega (arith, sum', sum), late, now))
