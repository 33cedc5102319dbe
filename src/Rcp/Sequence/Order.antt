-- ===== src/Rcp/Sequence/Order.antt =====
-- src/pic_agentic/rcp/state.py: the counters under sequences of operations.
use pic_agentic.Common.{◌+◌, ◌≤◌, ◌<◌, String, ◌≡◌, refl, List, [], ◌∷◌, arith, eq_iff, eq_refl}
use Prim.Native.Nat.{max}
use pic_agentic.Common.Float.{ℤ, pos_part}
use pic_agentic.Rcp.Envelope.{SenderRole, role_value}
use pic_agentic.Rcp.Sequence.{
  SequenceState, highest, next_seq, observe, get_counter, get_counter-set_counter,
}

-- What one sender or one receiver does with its counters.
pub data Op : Type 0 where
  next : String → SenderRole → Op
  see : String → SenderRole → ℤ → Op

abbrev pub apply : Op → SequenceState → SequenceState
apply (next sim role) s = (next_seq sim role s).1
apply (see sim role seq) s = observe sim role seq s

pub run : List Op → SequenceState → SequenceState
run [] s = s
run (op ∷ ops) s = run ops (apply op s)

-- The next number is one above the highest, and is the highest from then on.
pub highest-next_seq :
    (sim : String) (role : SenderRole) (s : SequenceState)
    → ((next_seq sim role s).0 ≡ highest sim role s + 1)
      × (highest sim role (next_seq sim role s).1 ≡ highest sim role s + 1)
unfolding next_seq highest
highest-next_seq sim role s =
    let r = role_value role in
    let v = get_counter sim r s.counters + 1 in
    (refl, rw (get_counter-set_counter sim r sim r v s.counters, eq_refl sim, eq_refl r) refl)

-- An observation raises the highest number of its sender to the observed one, where that is greater.
pub highest-observe :
    (sim : String) (role : SenderRole) (seq : ℤ) (s : SequenceState)
    → highest sim role (observe sim role seq s) ≡ max (highest sim role s) (pos_part seq)
unfolding observe highest
highest-observe sim role seq s =
    let r = role_value role in
    ground
      (arith, get_counter-set_counter sim r sim r (pos_part seq) s.counters, eq_refl sim, eq_refl r)

highest_grows :
    (op : Op) (sim : String) (role : SenderRole) (s : SequenceState)
    → highest sim role s ≤ highest sim role (apply op s)
unfolding next_seq observe highest
highest_grows (next sim' role') sim role s =
    let r = role_value role in
    let r' = role_value role' in
    ground (
      arith,
      get_counter-set_counter sim' r' sim r (get_counter sim' r' s.counters + 1) s.counters,
      eq_iff sim' sim,
      eq_iff r' r,
    )
highest_grows (see sim' role' seq) sim role s =
    let r = role_value role in
    let r' = role_value role' in
    ground (
      arith,
      get_counter-set_counter sim' r' sim r (pos_part seq) s.counters,
      eq_iff sim' sim,
      eq_iff r' r,
    )

run_grows :
    (ops : List Op) (sim : String) (role : SenderRole) (s : SequenceState)
    → highest sim role s ≤ highest sim role (run ops s)
unfolding run
run_grows [] sim role s = omega arith
run_grows (op ∷ ops) sim role s =
    omega (arith, highest_grows op sim role s, run_grows ops sim role (apply op s))

-- Two numbers that one sender is given are different, whatever is sent and observed in between.
pub next_seq-lt-next_seq :
    (sim : String) (role : SenderRole) (ops : List Op) (s : SequenceState)
    → (next_seq sim role s).0 < (next_seq sim role (run ops (next_seq sim role s).1)).0
next_seq-lt-next_seq sim role ops s =
    let after = (next_seq sim role s).1 in
    omega (
      arith,
      (highest-next_seq sim role s).0,
      (highest-next_seq sim role s).1,
      (highest-next_seq sim role (run ops after)).0,
      run_grows ops sim role after,
    )
