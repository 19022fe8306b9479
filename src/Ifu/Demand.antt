-- ===== src/Ifu/Demand.antt =====
-- What `IFU::IF0` (sim/src/ifu.cpp) asks of the instruction cache.
use cisim.Prelude.{
  ℕ, ◌+◌, ◌-◌, ◌≤◌, ◌^◌, ◌%◌, ◌≡◌, ◌⊎◌, inl, inr, refl, sym, ap, ◌∙◌, arith, Bool, true, false, not,
  ◌&&◌, Bool-cases, ltb, leb, ltb→lt, List, [], ◌∷◌, ◌++◌, length, length-append, get_elem?,
  get_elem?-in, some,
}
use mathlib.Core.List.{append-nil, append_assoc}
use cisim.Operation.{Ops}
use cisim.MemTransaction.{MemTransaction}
use cisim.Cache.{Cache, will_accept_transaction, recv_request}
use cisim.Cache.FirstLevel.{sign_extend}
use cisim.Cache.Ports.{IsBounded, recv_request-Receives}
use cisim.Ifu.{
  Ifu, fetch_request, prefetch_request, is_prefetched, remember, send_req_to_cache, prefetch,
  demand, if0,
}

length-remember :
    (address : ℕ) (as' : List ℕ) → length as' ≤ 32 → length (remember address as') ≤ 32
length-remember address [] h = omega arith
length-remember address (a ∷ as') h = elim (Bool-cases (leb 32 (length (a ∷ as')))) [
  | inl full ↦ rw full (omega (arith, length-append as' (address % 2 ^ 32 ∷ [])))
  | inr room ↦ rw room (ground (arith, length-append as' (address % 2 ^ 32 ∷ [])))
]

module _ (ops : Ops) (uid : ℕ → ℕ) where
  -- Nothing is prefetched, or one of the targets that is not yet.
  abbrev pub Prefetches : Ifu → List ℕ → List MemTransaction → Type 0
  Prefetches u ftq sent =
      (sent ≡ [])
      ⊎ ((i op : ℕ) × (sent ≡ prefetch_request ops uid op ∷ [])
          × (get_elem? ftq i ≡ some op)
          × (is_prefetched (uid op) u.prefetched_addrs ≡ false))

  accepts_load : Cache → ℕ → Bool
  accepts_load cache op = will_accept_transaction cache (fetch_request ops uid op)

  -- What the second half leaves.
  abbrev After : Ifu → Cache → List ℕ → Ifu → Cache → Type 0
  After u cache ftq u' cache' =
      (sent : List MemTransaction) × Prefetches u ftq sent
      × (cache'.incoming_requests ≡ cache.incoming_requests ++ sent)
      × (u.occupied ≡ true → u'.occupied ≡ true)
      × ((op : ℕ)
          → will_accept_transaction cache (fetch_request ops uid op) ≡ false
          → (sent ≡ []) × (u'.occupied ≡ u.occupied))
      × (length u.prefetched_addrs ≤ 32 → length u'.prefetched_addrs ≤ 32)

  same_port :
      (cache : Cache) (op other : ℕ)
      → will_accept_transaction cache (prefetch_request ops uid op)
        ≡ will_accept_transaction cache (fetch_request ops uid other)
  unfolding will_accept_transaction
  same_port cache op other = refl

  prefetch-After :
      (u : Ifu) (cache : Cache) (ftq : List ℕ)
      → IsBounded cache
      → (u' : Ifu) × (cache' : Cache) × (prefetch ops uid u cache ftq ≡ some (u', cache'))
        × After u cache ftq u' cache'
  unfolding prefetch send_req_to_cache
  prefetch-After u cache ftq v = elim (Bool-cases (ltb (sign_extend u.pf_ptr) (length ftq))) [
    | inr out ↦ (
      u,
      cache,
      rw out refl,
      (
        [],
        inl refl,
        sym (append-nil cache.incoming_requests),
        (λ h. h),
        (λ op h. (refl, refl)),
        λ h. h,
      ),
    )
    | inl inside ↦
        let (op, read) = get_elem?-in ftq (sign_extend u.pf_ptr) (ltb→lt _ _ inside) in
        let p = prefetch_request ops uid op in
        elim (Bool-cases (is_prefetched (uid op) u.prefetched_addrs)) [
          | inl old ↦ (
            u,
            cache,
            rw (inside, read, old) refl,
            (
              [],
              inl refl,
              sym (append-nil cache.incoming_requests),
              (λ h. h),
              (λ op h. (refl, refl)),
              λ h. h,
            ),
          )
          | inr new ↦ elim (Bool-cases (will_accept_transaction cache p)) [
            | inr refuses ↦ (
              record u { prefetched_addrs = remember (uid op) u.prefetched_addrs },
              cache,
              rw (inside, read, new, refuses) refl,
              (
                [],
                inl refl,
                sym (append-nil cache.incoming_requests),
                (λ h. h),
                (λ op h. (refl, refl)),
                length-remember (uid op) u.prefetched_addrs,
              ),
            )
            | inl accepts ↦
                let (cache', received, (there, port, v')) =
                  recv_request-Receives cache p v (λ h. absurd (cc)) accepts in
                (
                  record u {
                    prefetched_addrs = remember (uid op) u.prefetched_addrs;
                    occupied = true;
                  },
                  cache',
                  rw (inside, read, new, accepts, received) refl,
                  (
                    p ∷ [],
                    inr (sign_extend u.pf_ptr, op, refl, read, new),
                    there,
                    (λ h. refl),
                    (λ other h. absurd (ground (arith, accepts, same_port cache op other, h))),
                    length-remember (uid op) u.prefetched_addrs,
                  ),
                )
          ]
        ]
  ]

  -- Either the oldest target is asked for and leaves the queue, or the queue stays.
  abbrev pub Asks : Ifu → Cache → ℕ → List ℕ → Ifu → Cache → List ℕ → Type 0
  Asks u cache op ftq u' cache' ftq' =
      (sent : List MemTransaction) × Prefetches u ftq' sent
      × (((u.occupied ≡ false)
            × (ftq' ≡ ftq)
            × (u'.occupied ≡ true)
            × (cache'.incoming_requests
                ≡ cache.incoming_requests ++ fetch_request ops uid op ∷ sent))
          ⊎ ((ftq' ≡ op ∷ ftq)
              × (cache'.incoming_requests ≡ cache.incoming_requests ++ sent)
              × (u.occupied ≡ false → (sent ≡ []) × (u'.occupied ≡ false))))

  kept-Asks :
      (u : Ifu) (cache : Cache) (op : ℕ) (ftq : List ℕ)
      → IsBounded cache
      → not u.occupied && will_accept_transaction cache (fetch_request ops uid op) ≡ false
      → (u' : Ifu) × (cache' : Cache) × (prefetch ops uid u cache (op ∷ ftq) ≡ some (u', cache'))
        × Asks u cache op ftq u' cache' (op ∷ ftq)
        × (length u.prefetched_addrs ≤ 32 → length u'.prefetched_addrs ≤ 32)
  kept-Asks u cache op ftq v closed =
      let (u', cache', run, (sent, which, there, busy, refused, short)) =
        prefetch-After u cache (op ∷ ftq) v in
      (
        u',
        cache',
        run,
        (
          sent,
          which,
          inr (
            refl,
            there,
            λ free.
                let (nothing, still) = refused op (ground (arith, closed, free)) in
                (nothing, still ∙ free),
          ),
        ),
        short,
      )

  if0_demand :
      (u : Ifu) (cache cache' : Cache) (op : ℕ) (ftq : List ℕ)
      → not u.occupied && will_accept_transaction cache (fetch_request ops uid op) ≡ true
      → recv_request cache (fetch_request ops uid op) ≡ some cache'
      → demand ops uid u cache op ftq
        ≡ some
            (record u { occupied = true; pf_ptr = (u.pf_ptr + 2 ^ 32 - 1) % 2 ^ 32 }, cache', ftq)
  unfolding demand send_req_to_cache
  if0_demand u cache cache' op ftq opens received = rw (opens, received) refl

  if0_kept :
      (u : Ifu) (cache : Cache) (op : ℕ) (ftq : List ℕ)
      → not u.occupied && will_accept_transaction cache (fetch_request ops uid op) ≡ false
      → demand ops uid u cache op ftq ≡ some (u, cache, op ∷ ftq)
  unfolding demand
  if0_kept u cache op ftq closed = rw closed refl

  -- Where the instruction cache has a bound on its ports, `IF0` fails no assertion on a queue that is not
  -- empty. Either no request was under way: then the oldest target is asked for, leaves the queue, and a
  -- request is under way; or the queue stays. In both cases at most one prefetch of a target in the queue
  -- follows, of an address that is not yet noted as prefetched. A prefetch alone, which is never answered,
  -- does not make the unit wait: without a request under way it is only sent after one. At most 32
  -- addresses stay noted.
  pub if0-Asks :
      (u : Ifu) (cache : Cache) (op : ℕ) (ftq : List ℕ)
      → IsBounded cache
      → (u' : Ifu) × (cache' : Cache) × (ftq' : List ℕ) × (if0 ops uid u cache (op ∷ ftq)
          ≡ some (u', cache', ftq'))
        × Asks u cache op ftq u' cache' ftq'
        × (length u.prefetched_addrs ≤ 32 → length u'.prefetched_addrs ≤ 32)
  unfolding if0
  if0-Asks u cache op ftq v =
      let w = record u { pf_ptr = (u.pf_ptr + 1) % 2 ^ 32 % 32 } in
      elim (Bool-cases
        (not u.occupied && will_accept_transaction cache (fetch_request ops uid op))) [
          | inr closed ↦
              let (u', cache', run, asks, short) = kept-Asks w cache op ftq v closed in
              (u', cache', op ∷ ftq, simp (if0_kept w cache op ftq closed, run), asks, short)
          | inl opens ↦
              let free : u.occupied ≡ false = ground (arith, opens) in
              let (mid, received, (there, port, v')) =
                recv_request-Receives cache (fetch_request ops uid op) v (λ h. absurd (cc))
                  (ground (arith, opens)) in
              let x = record w { occupied = true; pf_ptr = (w.pf_ptr + 2 ^ 32 - 1) % 2 ^ 32 } in
              let (u', cache', run, (sent, which, there', busy, refused, short)) =
                prefetch-After x mid ftq v' in
              (
                u',
                cache',
                ftq,
                simp (if0_demand w cache mid op ftq opens received, run),
                (
                  sent,
                  which,
                  inl (
                    free,
                    refl,
                    busy refl,
                    there'
                        ∙ ap (λ xs. xs ++ sent) there
                        ∙ append_assoc cache.incoming_requests (fetch_request ops uid op ∷ []) sent,
                  ),
                ),
                short,
              )
        ]
