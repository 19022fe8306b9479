-- ===== src/CacheSet/View.antt =====
-- The lines of a `CacheSet` (sim/src/mem/FunctionalCache.cpp) in the order of their use, and what the
-- operations of `Lru` find in them.
use cisim.Prelude.{
  ℕ, suc, ◌<◌, ◌≡◌, ◌≢◌, refl, ap, ap₂, arith, update, List, [], ◌∷◌, ◌++◌, map, length, none, some,
}
use cisim.Prelude.Dict.{lookup}
use cisim.CacheSet.{CacheSet, CacheLine}
use cisim.CacheSet.Lru
use cisim.CacheSet.Links.{count, count-append}
use cisim.CacheSet.Rep.{Rep}

abbrev pub view : CacheSet → List ℕ → List CacheLine
view s xs = map s.lines xs

pub map-update :
    (f : ℕ → CacheLine) (c : ℕ) (v : CacheLine) (xs : List ℕ)
    → count c xs ≡ 0
    → map (update f c v) xs ≡ map f xs
map-update f c v [] h = refl
map-update f c v (x ∷ xs) h =
    let here : update f c v x ≡ f x = ground arith in
    ap₂ ◌∷◌ here (map-update f c v xs (ground arith))

pub length-view : (s : CacheSet) (xs : List ℕ) → length (view s xs) ≡ length xs
length-view s [] = refl
length-view s (x ∷ xs) = ap suc (length-view s xs)

-- No line of the list has the address.
abbrev pub Misses : CacheSet → ℕ → List ℕ → Type 0
Misses s address xs = (d : ℕ) → 0 < count d xs → (s.lines d).addr ≢ address

pub find-Misses :
    (s : CacheSet) (address : ℕ) (xs : List ℕ)
    → Misses s address xs
    → Lru.find address (view s xs) ≡ none
unfolding Lru.find
find-Misses s address [] h = refl
find-Misses s address (x ∷ xs) h =
    ground (arith, h x, find-Misses s address xs (λ d e. h d (ground arith)))

pub find_middle :
    (s : CacheSet) (address c : ℕ) (ys zs : List ℕ)
    → Misses s address ys
    → (s.lines c).addr ≡ address
    → (Lru.find address (view s (ys ++ (c ∷ zs))) ≡ some (s.lines c))
      × (Lru.without address (view s (ys ++ (c ∷ zs))) ≡ view s (ys ++ zs))
unfolding Lru.find Lru.without
find_middle s address c [] zs h e = ground arith
find_middle s address c (y ∷ ys) zs h e =
    ground (arith, h y, find_middle s address c ys zs (λ d k. h d (ground arith)) e)

-- What the map says of an address holds of the list.
pub Misses-of_none :
    (s : CacheSet) (address : ℕ) (xs : List ℕ)
    → Rep s xs
    → lookup address s.addr_map ≡ none
    → Misses s address xs
Misses-of_none s address xs v e d h =
    λ same. ground (arith, v.resident d, v.entries d, ap (λ k. lookup k s.addr_map) same)

pub Misses-before :
    (s : CacheSet) (address c : ℕ) (xs ys zs : List ℕ)
    → Rep s xs
    → lookup address s.addr_map ≡ some c
    → xs ≡ ys ++ (c ∷ zs)
    → count c ys ≡ 0
    → Misses s address ys
Misses-before s address c xs ys zs v e split h d k = λ same. ground (
  arith,
  v.resident d,
  v.entries d,
  ap (λ (a : ℕ). lookup a s.addr_map) same,
  ap (count d) split,
  count-append d ys (c ∷ zs),
)
