-- ===== src/Cache/Ports.antt =====
-- Requests between two levels and the ports that they take (`sendRequests`, `willAcceptTransaction` and
-- `recvRequest` of sim/include/mem/cache.h and sim/src/mem/cache.cpp).
use cisim.Prelude.{
  ℕ, suc, ◌+◌, ◌-◌, ◌≡◌, inl, inr, refl, ap, ◌∙◌, arith, Bool, true, false, Bool-cases,
  if◌then◌else◌, List, [], ◌∷◌, ◌++◌, All, All-snoc, length, length-append, Option, none, some,
}
use cisim.PriorityQueue.{tally, tally-append}
use cisim.PortCount.{has_port}
use cisim.MemTransaction.{MemTransaction, is_evict}
use cisim.Cache.{
  Cache, recv_request, will_accept_transaction, send_to_next, evict_request, write_back,
}
use cisim.Cache.FirstLevel.{send_requests, write_back_all}

-- A bound on both kinds of ports, with the ports that are free.
pub record IsBounded (c : Cache) : Type 0 where
  pub loads : (n free : ℕ) × (c.load_ports ≡ some n) × (c.free_load_ports ≡ some free)
  pub stores : (n free : ℕ) × (c.store_ports ≡ some n) × (c.free_store_ports ≡ some free)

abbrev pub free_of : Option ℕ → ℕ
free_of none = 0
free_of (some n) = n

-- All the ports that are free.
abbrev pub slots : Cache → ℕ
slots c = free_of c.free_load_ports + free_of c.free_store_ports + c.free_prefetch_ports

-- An eviction is neither a load nor a prefetch.
abbrev pub IsProper : MemTransaction → Type 0
IsProper t = is_evict t ≡ true → (t.is_load_req ≡ false) × (t.is_prefetch ≡ false)

-- A request that is received takes one port.
abbrev pub Receives : Cache → MemTransaction → Cache → Type 0
Receives c t c' =
    (c'.incoming_requests ≡ c.incoming_requests ++ t ∷ []) × (slots c' + 1 ≡ slots c) × IsBounded c'

one_free :
    (n free : ℕ) {ports now : Option ℕ}
    → ports ≡ some n
    → now ≡ some free
    → has_port ports now ≡ true
    → free ≡ suc (free - 1)
one_free n free at now h = ground (arith, at, now, h)

module _ (c : Cache) (t : MemTransaction) (v : IsBounded c) where
  load-Receives :
      has_port c.load_ports c.free_load_ports ≡ true
      → t.is_load_req ≡ true
      → (c' : Cache) × (recv_request c t ≡ some c') × Receives c t c'
  unfolding recv_request
  load-Receives free load =
      let (n, free_ports, at, now) = v.loads in
      let k = free_ports - 1 in
      let taken : c.free_load_ports ≡ some (suc k) =
        now ∙ ap some (one_free n free_ports at now free) in
      let c' = record c {
        incoming_requests = c.incoming_requests ++ t ∷ [];
        free_load_ports = some k;
      } in
      (
        c',
        simp (load, taken),
        (
          refl,
          omega (arith, ap free_of taken),
          record { loads = (n, k, at, refl); stores = v.stores },
        ),
      )

  store-Receives :
      has_port c.store_ports c.free_store_ports ≡ true
      → t.is_load_req ≡ false
      → t.is_prefetch ≡ false
      → (c' : Cache) × (recv_request c t ≡ some c') × Receives c t c'
  unfolding recv_request
  store-Receives free other demand =
      let (n, free_ports, at, now) = v.stores in
      let k = free_ports - 1 in
      let taken : c.free_store_ports ≡ some (suc k) =
        now ∙ ap some (one_free n free_ports at now free) in
      let c' = record c {
        incoming_requests = c.incoming_requests ++ t ∷ [];
        free_store_ports = some k;
      } in
      (
        c',
        simp (other, demand, taken),
        (
          refl,
          omega (arith, ap free_of taken),
          record { loads = v.loads; stores = (n, k, at, refl) },
        ),
      )

  prefetch-Receives :
      (k : ℕ)
      → c.free_prefetch_ports ≡ suc k
      → t.is_load_req ≡ false
      → t.is_prefetch ≡ true
      → (c' : Cache) × (recv_request c t ≡ some c') × Receives c t c'
  unfolding recv_request
  prefetch-Receives k now other ahead =
      let c' = record c {
        incoming_requests = c.incoming_requests ++ t ∷ [];
        free_prefetch_ports = k;
      } in
      (
        c',
        simp (other, ahead, now),
        (refl, omega (arith, now), record { loads = v.loads; stores = v.stores }),
      )

  -- What is accepted can be received.
  pub recv_request-Receives :
      IsProper t
      → will_accept_transaction c t ≡ true
      → (c' : Cache) × (recv_request c t ≡ some c') × Receives c t c'
  unfolding will_accept_transaction
  recv_request-Receives proper accepts = elim (Bool-cases (is_evict t)) [
    | inl gone ↦ store-Receives (ground (arith, accepts, gone)) (proper gone).0 (proper gone).1
    | inr stays ↦ elim (Bool-cases t.is_load_req) [
      | inl load ↦ load-Receives (ground (arith, accepts, stays, load)) load
      | inr other ↦ elim (Bool-cases t.is_prefetch) [
        | inl ahead ↦
            prefetch-Receives (c.free_prefetch_ports - 1)
              (ground (arith, accepts, stays, other, ahead)) other ahead
        | inr demand ↦ store-Receives (ground (arith, accepts, stays, other, demand)) other demand
      ]
    ]
  ]

module _ (weight : MemTransaction → ℕ) where
  -- What has come to the next cache, with the ports that took.
  abbrev pub Delivers : Cache → ℕ → List MemTransaction → Cache → Type 0
  Delivers next owed kept next' =
      (tally weight kept + tally weight next'.incoming_requests
        ≡ owed + tally weight next.incoming_requests)
      × (length next'.incoming_requests + slots next' ≡ length next.incoming_requests + slots next)
      × IsBounded next'

  send_to_next-Delivers :
      (ts : List MemTransaction) (next : Cache)
      → IsBounded next
      → All IsProper ts
      → (kept : List MemTransaction) × (next' : Cache) × (send_to_next ts next
          ≡ some (kept, length kept, next'))
        × Delivers next (tally weight ts) kept next'
        × All IsProper kept
  unfolding send_to_next
  send_to_next-Delivers [] next v h = ([], next, refl, (refl, refl, v), tt)
  send_to_next-Delivers (t ∷ ts) next v (proper, h) =
      elim (Bool-cases (will_accept_transaction next t)) [
        | inl accepts ↦
            let (mid, received, (there, port, v')) =
              recv_request-Receives next t v proper accepts in
            let (kept, next', run, (sum, ports, v''), left) = send_to_next-Delivers ts mid v' h in
            (
              kept,
              next',
              rw (accepts, received) run,
              (
                omega (
                  arith,
                  sum,
                  ap (tally weight) there,
                  tally-append weight next.incoming_requests (t ∷ []),
                ),
                omega (
                  arith,
                  ports,
                  port,
                  ap length there,
                  length-append next.incoming_requests (t ∷ []),
                ),
                v'',
              ),
              left,
            )
        | inr refuses ↦
            let (kept, next', run, (sum, ports, v''), left) = send_to_next-Delivers ts next v h in
            (
              t ∷ kept,
              next',
              rw (refuses, run) (ap (λ n. some (t ∷ kept, n, next')) (omega arith)),
              (omega (arith, sum), ports, v''),
              (proper, left),
            )
      ]

  -- The weight of what is written back of the evicted lines: the dirty ones.
  abbrev pub dirty_weight : List (ℕ × Bool) → ℕ
  dirty_weight [] = 0
  dirty_weight ((addr, dirty) ∷ rest) =
      (if dirty then weight (evict_request addr) else 0) + dirty_weight rest

  evict-IsProper : (addr : ℕ) → IsProper (evict_request addr)
  evict-IsProper addr e = (refl, refl)

  write_back-Delivers :
      (c next : Cache) (addr : ℕ)
      → IsBounded next
      → All IsProper c.outcoming_requests
      → (requests : List MemTransaction) × (next' : Cache) × (write_back c next addr
          ≡ some (record c { outcoming_requests = requests }, next'))
        × Delivers next
            (tally weight c.outcoming_requests + weight (evict_request addr))
            requests
            next'
        × All IsProper requests
  unfolding write_back
  write_back-Delivers c next addr v proper =
      elim (Bool-cases (will_accept_transaction next (evict_request addr))) [
        | inl accepts ↦
            let (next', received, (there, port, v')) =
              recv_request-Receives next (evict_request addr) v (evict-IsProper addr) accepts in
            (
              c.outcoming_requests,
              next',
              rw (accepts, received) refl,
              (
                omega (
                  arith,
                  ap (tally weight) there,
                  tally-append weight next.incoming_requests (evict_request addr ∷ []),
                ),
                omega (
                  arith,
                  port,
                  ap length there,
                  length-append next.incoming_requests (evict_request addr ∷ []),
                ),
                v',
              ),
              proper,
            )
        | inr refuses ↦ (
          c.outcoming_requests ++ evict_request addr ∷ [],
          next,
          rw refuses refl,
          (
            omega (arith, tally-append weight c.outcoming_requests (evict_request addr ∷ [])),
            refl,
            v,
          ),
          All-snoc IsProper c.outcoming_requests (evict_request addr) proper (evict-IsProper addr),
        )
      ]

  write_back_all-Delivers :
      (evicted : List (ℕ × Bool)) (c next : Cache)
      → IsBounded next
      → All IsProper c.outcoming_requests
      → (requests : List MemTransaction) × (next' : Cache) × (write_back_all evicted c next
          ≡ some (record c { outcoming_requests = requests; evict_addresses = [] }, next'))
        × Delivers next (tally weight c.outcoming_requests + dirty_weight evicted) requests next'
        × All IsProper requests
  unfolding write_back_all
  write_back_all-Delivers [] c next v proper =
      (c.outcoming_requests, next, refl, (omega arith, refl, v), proper)
  write_back_all-Delivers ((addr, true) ∷ rest) c next v proper =
      let (mid, next', first, (sum, ports, v'), left) = write_back-Delivers c next addr v proper in
      let (requests, next'', run, (sum', ports', v''), left') =
        write_back_all-Delivers rest (record c { outcoming_requests = mid }) next' v' left in
      (
        requests,
        next'',
        rw first run,
        (omega (arith, sum, sum'), omega (arith, ports, ports'), v''),
        left',
      )
  write_back_all-Delivers ((addr, false) ∷ rest) c next v proper =
      let (requests, next', run, (sum, ports, v'), left) =
        write_back_all-Delivers rest c next v proper in
      (requests, next', run, (omega (arith, sum), ports, v'), left)

  -- Where the next cache has a bound on its ports and no waiting eviction says that it is a load or a
  -- prefetch, `sendRequests` of the first level fails no assertion, since it sends only what is accepted,
  -- and what waits stays so. Each request is received by the next cache or stays, and each
  -- dirty evicted line is received or becomes a waiting request, no other is, and no evicted line is left: for
  -- every weight of transactions the sums agree. Each request that is received takes one free port.
  pub send_requests-Delivers :
      (c next : Cache)
      → IsBounded next
      → All IsProper c.outcoming_requests
      → (c' : Cache) × (next' : Cache) × (send_requests c next ≡ some (c', next'))
        × Delivers next
            (tally weight c.outcoming_requests + dirty_weight c.evict_addresses)
            c'.outcoming_requests
            next'
        × All IsProper c'.outcoming_requests
        × (c'.evict_addresses ≡ [])
  unfolding send_requests
  send_requests-Delivers c next v proper =
      let (kept, mid, sent, (sum, ports, v'), left) =
        send_to_next-Delivers c.outcoming_requests next v proper in
      let c' = record c { outcoming_requests = kept; port_stall = c.port_stall + length kept } in
      let (requests, next', written, (sum', ports', v''), left') =
        write_back_all-Delivers c.evict_addresses c' mid v' left in
      (
        record c' { outcoming_requests = requests; evict_addresses = [] },
        next',
        rw sent written,
        (omega (arith, sum, sum'), omega (arith, ports, ports'), v''),
        left',
        refl,
      )
