-- ===== src/Rcp/Sequence.antt =====
-- src/pic_agentic/rcp/state.py, `SequenceState`: one counter for each simulation and sender role.
pub mod Order
use pic_agentic.Common.{
  ℕ, ◌+◌, String, ◌≡◌, refl, Bool, true, false, ◌&&◌, List, [], ◌∷◌, arith, str_eq, eq_iff, eq_refl,
  if◌then◌else◌,
}
use pic_agentic.Common.Float.{ℤ, pos, pos_part, ltb_ℤ}
use pic_agentic.Rcp.Envelope.{SenderRole, role_value}

-- `dict[tuple[str, str], int]`
pub record Counter : Type 0 where
  pub sim : String
  pub role : String
  pub value : ℕ

abbrev pub same_sender : String → String → Counter → Bool
same_sender sim role c = str_eq c.sim sim && str_eq c.role role

-- `self._counters.get(key, 0)`
unfoldable pub get_counter : String → String → List Counter → ℕ
get_counter sim role [] = 0
get_counter sim role (c ∷ cs) = if same_sender sim role c then c.value else get_counter sim role cs

-- `self._counters[key] = value`
unfoldable pub set_counter : String → String → ℕ → List Counter → List Counter
set_counter sim role v [] = record { sim = sim; role = role; value = v } ∷ []
set_counter sim role v (c ∷ cs) =
    if same_sender sim role c then record c { value = v } ∷ cs else c ∷ set_counter sim role v cs

pub record SequenceState : Type 0 where
  pub counters : List Counter

abbrev pub empty_sequences : SequenceState
empty_sequences = record { counters = [] }

unfoldable pub highest : String → SenderRole → SequenceState → ℕ
highest sim role s = get_counter sim (role_value role) s.counters

unfoldable pub next_seq : String → SenderRole → SequenceState → ℕ × SequenceState
next_seq sim role s =
    let value = get_counter sim (role_value role) s.counters + 1 in
    (value, record { counters = set_counter sim (role_value role) value s.counters })

-- A sequence number on the wire is any integer.
unfoldable pub observe : String → SenderRole → ℤ → SequenceState → SequenceState
observe sim role seq s =
    if ltb_ℤ (pos (get_counter sim (role_value role) s.counters)) seq
    then record { counters = set_counter sim (role_value role) (pos_part seq) s.counters }
    else s

pub get_counter-set_counter :
    (sim role sim' role' : String) (v : ℕ) (cs : List Counter)
    → get_counter sim' role' (set_counter sim role v cs)
      ≡ (if str_eq sim sim' && str_eq role role' then v else get_counter sim' role' cs)
unfolding get_counter set_counter
get_counter-set_counter sim role sim' role' v [] = refl
get_counter-set_counter sim role sim' role' v (c ∷ cs) = ground (
  arith,
  get_counter-set_counter sim role sim' role' v cs,
  eq_iff sim sim',
  eq_iff role role',
  eq_iff c.sim sim,
  eq_iff c.sim sim',
  eq_iff c.role role,
  eq_iff c.role role',
)
