-- ===== src/Server/Events/Condensed.antt =====
-- src/pic_agentic/server/simulation.py: the rows that `condense_events` returns.
use pic_agentic.Common.{
  ℕ, zero, suc, ◌≤◌, String, ◌≡◌, refl, sym, ap, ◌∙◌, true, false, Option, none, some, List, [],
  ◌∷◌, ◌++◌, inl, inr, arith, eq_iff, eq_refl, length, length-append, str_eq, Bool-cases,
  Option-cases,
}
use pic_agentic.Common.Value.{
  Value, null, bool, int, float, list, dict, str, Fields, end, field, get_field,
}
use pic_agentic.Rcp.Wire.{remove_field}
use pic_agentic.Rcp.Envelope.{RcpMessage}
use pic_agentic.Server.Registry.{text_of}
use pic_agentic.Server.Events.{
  Filter, selects, entry, is_state, push_row, condense, capped, max_event_page, last_rows,
  condense_events,
}

get_field-remove_field :
    (k j : String) (d : Fields)
    → str_eq k j ≡ false
    → get_field j (remove_field k d) ≡ get_field j d
unfolding get_field remove_field
get_field-remove_field k j end h = refl
get_field-remove_field k j (field i v rest) h =
    ground (arith, get_field-remove_field k j rest h, eq_iff i k, eq_iff i j, eq_iff k j)

get_field-entry : (m : RcpMessage) → get_field "state" (entry m) ≡ get_field "state" m.payload
unfolding entry get_field
get_field-entry m = elim (Option-cases (get_field "ts" m.payload)) [
  | inl absent ↦ rw (absent, get_field) refl
  | inr (v, here) ↦ rw (here, get_field) (get_field-remove_field "ts" "state" m.payload refl)
]

is_state_lem : (t : String) (o : Option Value) → is_state t o ≡ true → o ≡ some (str t)
is_state_lem t none h = cc
is_state_lem t (some (str s)) h = ap (λ (u : String). some (str u)) ((eq_iff s t).0 h)
is_state_lem t (some null) h = cc
is_state_lem t (some (bool b)) h = cc
is_state_lem t (some (int n)) h = cc
is_state_lem t (some (float x)) h = cc
is_state_lem t (some (list xs)) h = cc
is_state_lem t (some (dict d)) h = cc

-- Two rows that do not have the same text as their state.
abbrev pub Differs : Fields → Fields → Type 0
Differs a b = ¬ (
    (state : String) × (get_field "state" a ≡ some (str state))
    × (get_field "state" b ≡ some (str state)))

abbrev pub Alternates : List Fields → Type 0
Alternates [] = Unit
Alternates (a ∷ []) = Unit
Alternates (a ∷ b ∷ rows) = Differs a b × Alternates (b ∷ rows)

-- `str(...)` of a text is the text.
module _ (to_str : Value → String) (str_text : (s : String) → to_str (str s) ≡ s) where
  -- The test of the code, which does not find the state of `b` in `a`.
  abbrev Unlike : Fields → Fields → Type 0
  Unlike a b = is_state (text_of to_str "state" b) (get_field "state" a) ≡ false

  abbrev AreUnlike : List Fields → Type 0
  AreUnlike [] = Unit
  AreUnlike (a ∷ []) = Unit
  AreUnlike (a ∷ b ∷ rows) = Unlike a b × AreUnlike (b ∷ rows)

  -- The same of a list with the newest row in front.
  abbrev Falls : List Fields → Type 0
  Falls [] = Unit
  Falls (b ∷ []) = Unit
  Falls (b ∷ a ∷ rows) = Unlike a b × Falls (a ∷ rows)

  Unlike-entry :
      (m : RcpMessage) (a : Fields)
      → is_state (text_of to_str "state" m.payload) (get_field "state" a) ≡ false
      → Unlike a (entry m)
  unfolding text_of
  Unlike-entry m a h = rw (Unlike, text_of, get_field-entry m) h

  text_of-state :
      (t : String) (row : Fields)
      → is_state t (get_field "state" row) ≡ true
      → text_of to_str "state" row ≡ t
  unfolding text_of
  text_of-state t row here = rw (text_of, is_state_lem t (get_field "state" row) here) (str_text t)

  own_state :
      (t : String) (row a : Fields)
      → is_state t (get_field "state" row) ≡ true
      → Unlike a row
      → is_state t (get_field "state" a) ≡ false
  own_state t row a here d =
      sym (ap (λ (u : String). is_state u (get_field "state" a)) (text_of-state t row here)) ∙ d

  replaced :
      (m : RcpMessage) (row : Fields) (rows : List Fields)
      → is_state (text_of to_str "state" m.payload) (get_field "state" row) ≡ true
      → Falls (row ∷ rows)
      → Falls (entry m ∷ rows)
  replaced m row [] here h = tt
  replaced m row (a ∷ rows) here h = (Unlike-entry m a (own_state _ row a here h.0), h.1)

  push_row-Falls :
      (m : RcpMessage) (rows : List Fields) → Falls rows → Falls (push_row to_str m rows)
  unfolding push_row
  push_row-Falls m [] h = tt
  push_row-Falls m (row ∷ rows) h =
      elim (Bool-cases (is_state (text_of to_str "state" m.payload) (get_field "state" row))) [
        | inl same ↦ rw same (replaced m row rows same h)
        | inr other ↦ rw other (Unlike-entry m row other, h)
      ]

  condense-Falls :
      (f : Filter) (ms : List RcpMessage) (rows : List Fields)
      → Falls rows
      → Falls (condense to_str f ms rows)
  unfolding condense
  condense-Falls f [] rows h = h
  condense-Falls f (m ∷ ms) rows h = elim (Bool-cases (selects to_str f m)) [
    | inl here ↦ rw here (condense-Falls f ms (push_row to_str m rows) (push_row-Falls m rows h))
    | inr away ↦ rw away (condense-Falls f ms rows h)
  ]

  AreUnlike-snoc :
      (xs : List Fields) (a b : Fields)
      → AreUnlike (xs ++ a ∷ [])
      → Unlike a b
      → AreUnlike ((xs ++ a ∷ []) ++ b ∷ [])
  AreUnlike-snoc [] a b h d = (d, tt)
  AreUnlike-snoc (x ∷ []) a b h d = (h.0, (d, tt))
  AreUnlike-snoc (x ∷ y ∷ xs) a b h d = (h.0, AreUnlike-snoc (y ∷ xs) a b h.1 d)

  last_rows-AreUnlike : (n : ℕ) (rows : List Fields) → Falls rows → AreUnlike (last_rows n rows)
  unfolding last_rows
  last_rows-AreUnlike zero rows h = tt
  last_rows-AreUnlike (suc n) [] h = tt
  last_rows-AreUnlike (suc zero) (b ∷ rows) h = tt
  last_rows-AreUnlike (suc (suc n)) (b ∷ []) h = tt
  last_rows-AreUnlike (suc (suc n)) (b ∷ a ∷ rows) h =
      AreUnlike-snoc (last_rows n rows) a b (last_rows-AreUnlike (suc n) (a ∷ rows) h.1) h.0

  Unlike-Differs : (a b : Fields) → Unlike a b → Differs a b
  unfolding text_of
  Unlike-Differs a b unlike (t, of_a, of_b) =
      let own : text_of to_str "state" b ≡ t = rw (text_of, of_b) (str_text t) in
      let found : is_state t (get_field "state" a) ≡ true = rw of_a (eq_refl t) in
      let missed : is_state t (get_field "state" a) ≡ false = rw own at unlike in cc

  AreUnlike-Alternates : (rows : List Fields) → AreUnlike rows → Alternates rows
  AreUnlike-Alternates [] h = tt
  AreUnlike-Alternates (a ∷ []) h = tt
  AreUnlike-Alternates (a ∷ b ∷ rows) h =
      (Unlike-Differs a b h.0, AreUnlike-Alternates (b ∷ rows) h.1)

  length-last_rows : (n : ℕ) (rows : List Fields) → length (last_rows n rows) ≤ n
  unfolding last_rows
  length-last_rows zero rows = omega arith
  length-last_rows (suc n) [] = omega arith
  length-last_rows (suc n) (row ∷ rows) =
      omega (arith, length-append (last_rows n rows) (row ∷ []), length-last_rows n rows)

  -- Whatever the filter, no two neighbouring rows that are returned have the same text as their state, and
  -- there are at most `limit` rows and at most 200. `str` of a text is assumed to be the text. Rows
  -- whose state is absent or no text are not compared.
  pub condense_events-Alternates :
      (f : Filter) (limit : ℕ) (event_log : List RcpMessage)
      → Alternates (condense_events to_str f limit event_log)
        × (length (condense_events to_str f limit event_log) ≤ limit)
        × (length (condense_events to_str f limit event_log) ≤ max_event_page)
  unfolding condense_events
  condense_events-Alternates f limit event_log =
      let rows : List Fields = condense to_str f event_log [] in
      let few = length-last_rows (capped limit) rows in
      (
        AreUnlike-Alternates (condense_events to_str f limit event_log)
            (last_rows-AreUnlike (capped limit) rows (condense-Falls f event_log [] tt)),
        ground arith,
        ground arith,
      )
