-- ===== src/Rcp/Dedup.antt =====
-- src/pic_agentic/rcp/state.py, `DedupStore`: the keys of the most recent messages. The `set` is a
-- list without order, the `deque` a list with its oldest key in front.
pub mod Window
use pic_agentic.Common.{
  ℕ, String, ◌≡◌, ◌↔◌, refl, Bool, true, false, ◌&&◌, ◌||◌, List, [], ◌∷◌, ◌++◌, arith, texts_eq,
  ltb, length, if◌then◌else◌,
}

abbrev pub Key : Type 0
Key = List String

-- `key in keys`
unfoldable pub has_key : Key → List Key → Bool
has_key k [] = false
has_key k (j ∷ js) = texts_eq j k || has_key k js

-- `keys.discard(key)`
unfoldable pub discard : Key → List Key → List Key
discard k [] = []
discard k (j ∷ js) = let rest = discard k js in if texts_eq j k then rest else j ∷ rest

pub record DedupStore : Type 0 where
  pub keys : List Key
  pub order : List Key
  pub maxlen : ℕ

abbrev pub empty_store : ℕ → DedupStore
empty_store maxlen = record { keys = []; order = []; maxlen = maxlen }

-- The last two lines of `seen`: the oldest key goes where there are too many.
unfoldable pub trim : DedupStore → List Key → DedupStore
trim s [] = s
trim s (oldest ∷ rest) =
    if ltb s.maxlen (length s.order)
    then record s { keys = discard oldest s.keys; order = rest }
    else s

-- Whether the key is new, and the store that has it.
unfoldable pub seen : Key → DedupStore → Bool × DedupStore
unfolding trim
seen key s =
    let appended = record s { keys = key ∷ s.keys; order = s.order ++ key ∷ [] } in
    if has_key key s.keys then (false, s) else (true, trim appended appended.order)
