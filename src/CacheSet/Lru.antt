-- ===== src/CacheSet/Lru.antt =====
-- What a set of the functional cache promises: a list of lines, the most recently used first.
use cisim.Prelude.{
  ℕ, Bool, true, false, ◌==◌, if◌then◌else◌, List, [], ◌∷◌, Option, none, some, length,
}
use cisim.CacheSet.{CacheLine}

unfoldable pub find : ℕ → List CacheLine → Option CacheLine
find address [] = none
find address (l ∷ ls) = if l.addr == address then some l else find address ls

-- The list without the first line of an address.
unfoldable pub without : ℕ → List CacheLine → List CacheLine
without address [] = []
without address (l ∷ ls) = if l.addr == address then ls else l ∷ without address ls

-- A hit moves its line to the front.
abbrev pub moved :
    (CacheLine → CacheLine) → ℕ → List CacheLine → Option CacheLine → List CacheLine × Bool
moved on_hit address ls none = (ls, false)
moved on_hit address ls (some l) = (on_hit l ∷ without address ls, true)

unfoldable pub access : (CacheLine → CacheLine) → ℕ → List CacheLine → List CacheLine × Bool
access on_hit address ls = moved on_hit address ls (find address ls)

-- All lines but the last, and the last.
unfoldable pub drop_last : List CacheLine → List CacheLine × Option CacheLine
drop_last [] = ([], none)
drop_last (l ∷ []) = ([], some l)
drop_last (l ∷ l' ∷ ls) = let (kept, last) = drop_last (l' ∷ ls) in (l ∷ kept, last)

-- A new line goes to the front; a full set gives up its last line.
unfoldable pub insert : ℕ → CacheLine → List CacheLine → List CacheLine × Option CacheLine
insert capacity line ls =
    let (kept, last) = drop_last ls in
    if length ls == capacity then (line ∷ kept, last) else (line ∷ ls, none)
