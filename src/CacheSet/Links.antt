-- ===== src/CacheSet/Links.antt =====
-- The doubly linked list of `CacheSet` (sim/src/mem/FunctionalCache.cpp) under `deleteNode` and
-- `insertFront`.
use mathlib.Core.List.{append-nil}
use cisim.Prelude.{
  ℕ, ◌+◌, ◌≤◌, ◌<◌, ◌≡◌, ◌≢◌, refl, arith, ◌==◌, update, List, [], ◌∷◌, ◌++◌, Bool-cases, inl, inr,
  if◌then◌else◌, ap, sym, ◌∙◌, subst,
}

-- The nodes `xs` are linked in order between `a` and `b`, in both directions.
abbrev pub Seg : (ℕ → ℕ) → (ℕ → ℕ) → ℕ → List ℕ → ℕ → Type 0
Seg next prev a [] b = (next a ≡ b) × (prev b ≡ a)
Seg next prev a (x ∷ xs) b = (next a ≡ x) × (prev x ≡ a) × Seg next prev x xs b

-- How often `k` stands in the list.
abbrev pub count : ℕ → List ℕ → ℕ
count k [] = 0
count k (x ∷ xs) = (if x == k then 1 else 0) + count k xs

pub count-append : (k : ℕ) (xs ys : List ℕ) → count k (xs ++ ys) ≡ count k xs + count k ys
count-append k [] ys = omega arith
count-append k (x ∷ xs) ys = omega (arith, count-append k xs ys)

-- Where a node stands, its list splits.
pub split_at :
    (c : ℕ) (xs : List ℕ)
    → count c xs ≡ 1
    → (ys : List ℕ) × (zs : List ℕ) × (xs ≡ ys ++ (c ∷ zs)) × (count c ys ≡ 0) × (count c zs ≡ 0)
split_at c [] e = absurd (omega arith)
split_at c (x ∷ xs) e = elim (Bool-cases (x == c)) [
  | inl here ↦ ([], xs, ground (arith, here), refl, ground (arith, here))
  | inr there ↦
      let (ys, zs, same, before, after) = split_at c xs (ground (arith, there)) in
      (x ∷ ys, zs, ap (◌∷◌ x) same, ground (arith, there), after)
]

module _ (next prev : ℕ → ℕ) where
  pub Seg-split :
      (a c b : ℕ) (ys zs : List ℕ)
      → Seg next prev a (ys ++ (c ∷ zs)) b
      → Seg next prev a ys c × Seg next prev c zs b
  Seg-split a c b [] zs (n, p, rest) = ((n, p), rest)
  Seg-split a c b (y ∷ ys) zs (n, p, rest) =
      let (left, right) = Seg-split y c b ys zs rest in ((n, p, left), right)

  pub Seg-join :
      (a c b : ℕ) (ys zs : List ℕ)
      → Seg next prev a ys c
      → Seg next prev c zs b
      → Seg next prev a (ys ++ (c ∷ zs)) b
  Seg-join a c b [] zs (n, p) right = (n, p, right)
  Seg-join a c b (y ∷ ys) zs (n, p, left) right = (n, p, Seg-join y c b ys zs left right)

  -- The node before `c`, which `prev c` gives, is `a` or stands in the list.
  pub last-in : (a c : ℕ) (ys : List ℕ) → Seg next prev a ys c → 0 < count (prev c) (a ∷ ys)
  last-in a c [] (n, p) = ground arith
  last-in a c (y ∷ ys) (n, p, rest) = ground (arith, last-in y c ys rest)

  -- A write of `next` outside `a ∷ xs`, and one of `prev` outside `xs` and `b`, keep the links.
  pub Seg-frame :
      (u v w z a b : ℕ) (xs : List ℕ)
      → count u (a ∷ xs) ≡ 0
      → count w xs ≡ 0
      → w ≢ b
      → Seg next prev a xs b
      → Seg (update next u v) (update prev w z) a xs b
  Seg-frame u v w z a b [] hu hw ne (n, p) = (ground arith, ground arith)
  Seg-frame u v w z a b (x ∷ xs) hu hw ne (n, p, rest) =
      (ground arith, ground arith, Seg-frame u v w z x b xs (ground arith) (ground arith) ne rest)

  -- The list that ended at `c` ends at `f`, once the last node and `f` are linked.
  pub Seg-retarget :
      (a c f : ℕ) (ys : List ℕ)
      → ((k : ℕ) → count k (a ∷ ys) ≤ 1)
      → count f ys ≡ 0
      → Seg next prev a ys c
      → Seg (update next (prev c) f) (update prev f (prev c)) a ys f
  Seg-retarget a c f [] once hf (n, p) = (ground arith, ground arith)
  Seg-retarget a c f (y ∷ ys) once hf (n, p, rest) = (
    ground (arith, last-in y c ys rest, once a, once (prev c)),
    ground arith,
    Seg-retarget y c f ys (λ k. ground (arith, once k)) (ground arith) rest,
  )

module _ (next prev : ℕ → ℕ) where
  -- `deleteNode`, with `f` for `c->next`.
  Seg-unlink :
      (a c b f : ℕ) (ys zs : List ℕ)
      → next c ≡ f
      → ((k : ℕ) → count k (a ∷ ys ++ (c ∷ zs)) ≤ 1)
      → count b (a ∷ ys ++ (c ∷ zs)) ≡ 0
      → Seg next prev a ys c
      → Seg next prev c zs b
      → Seg (update next (prev c) f) (update prev f (prev c)) a (ys ++ zs) b
  Seg-unlink a c b f ys [] e once hb left (n, p) =
      rw (append-nil ys, sym e ∙ n)
        (Seg-retarget next prev a c b ys (λ k. ground (arith, once k, count-append k ys (c ∷ [])))
          (ground (arith, count-append b ys (c ∷ []))) left)
  Seg-unlink a c b f ys (z ∷ zs) e once hb left (n, p, rest) = rw (sym e ∙ n) (
      Seg-join (update next (prev c) z) (update prev z (prev c)) a z b ys zs
        (Seg-retarget next prev a c z ys
          (λ k. ground (arith, once k, count-append k ys (c ∷ z ∷ zs)))
          (ground (arith, once z, count-append z ys (c ∷ z ∷ zs))) left)
        (Seg-frame next prev (prev c) z z (prev c) z b zs
          (ground (
            arith,
            once (prev c),
            last-in next prev a c ys left,
            count-append (prev c) ys (c ∷ z ∷ zs),
          ))
          (ground (arith, once z, count-append z ys (c ∷ z ∷ zs)))
          (ground (arith, hb, count-append b ys (c ∷ z ∷ zs))) rest))

  pub Seg-delete :
      (a c b : ℕ) (ys zs : List ℕ)
      → ((k : ℕ) → count k (a ∷ ys ++ (c ∷ zs)) ≤ 1)
      → count b (a ∷ ys ++ (c ∷ zs)) ≡ 0
      → Seg next prev a (ys ++ (c ∷ zs)) b
      → Seg
          (update next (prev c) (next c))
          (update prev (update next (prev c) (next c) c) (prev c))
          a
          (ys ++ zs)
          b
  Seg-delete a c b ys zs once hb chain =
      let (left, right) = Seg-split next prev a c b ys zs chain in
      let same : update next (prev c) (next c) c ≡ next c =
        ground (arith, once c, last-in next prev a c ys left, count-append c ys (c ∷ zs)) in
      rw same (Seg-unlink a c b (next c) ys zs refl once hb left right)

  -- `insertFront` at the node `a`.
  pub Seg-insert :
      (a c b : ℕ) (xs : List ℕ)
      → ((k : ℕ) → count k (a ∷ xs) ≤ 1)
      → count c (a ∷ xs) ≡ 0
      → count b (a ∷ c ∷ xs) ≡ 0
      → Seg next prev a xs b
      → let next' = update (update next c (next a)) a c in
        Seg next' (update (update prev c a) (next' c) c) a (c ∷ xs) b
  Seg-insert a c b [] once hc hb (n, p) = (ground arith, ground arith, (ground arith, ground arith))
  Seg-insert a c b (x ∷ xs) once hc hb (n, p, rest) =
      let next' = update (update next c (next a)) a c in
      let same : next' c ≡ x = ground arith in
      subst (λ t. Seg next' (update (update prev c a) t c) a (c ∷ x ∷ xs) b) (sym same)
        (
          ground arith,
          ground arith,
          (
            ground arith,
            ground arith,
            Seg-frame (update next c (next a)) (update prev c a) a c x c x b xs
                (ground (arith, once a)) (ground (arith, once x)) (ground arith)
                (Seg-frame next prev c (next a) c a x b xs (ground arith) (ground arith)
                  (ground arith) rest),
          ),
        )
