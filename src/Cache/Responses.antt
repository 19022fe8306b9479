-- ===== src/Cache/Responses.antt =====
-- A response from the next level (`handleResponses` of sim/src/mem/cache.cpp): the line is filled and all
-- that waited for it are answered.
use cisim.Prelude.{ℕ, ◌≡◌, ◌⊎◌, Bool, true, false, [], ◌∷◌, ◌++◌, some}
use cisim.FunctionalCache.{FunctionalCache, present}
use cisim.FunctionalCache.Valid
use cisim.MemTransaction.{MemTransaction}
use cisim.Cache.{Cache}

-- At most one line leaves: it was there, is not any more, and is noted with whether it is dirty.
abbrev pub Notes : ℕ → Cache → Cache → Type 0
Notes over c c' =
    (c'.evict_addresses ≡ c.evict_addresses)
    ⊎ ((addr : ℕ) × (dirty : Bool) × (c'.evict_addresses ≡ c.evict_addresses ++ (addr, dirty) ∷ [])
        × (present over c.fc addr ≡ some true)
        × (present over c'.fc addr ≡ some false))
