-- ===== src/Agenda/Engine/Report/Totals.antt =====
-- src/pic_agentic/agenda/engine.py: the size of the compact report of failures.
use pic_agentic.Common.{
  ℕ, ◌+◌, ◌≤◌, String, ◌≡◌, refl, List, [], ◌∷◌, map, arith, inl, inr, char_count, take_chars,
  char_count-take_chars, char_count-concat, length-append, count_if, Bool-cases, leb, leb→le,
}
use pic_agentic.Agenda.Campaign.{Callback}
use pic_agentic.Agenda.Engine.{TickResult, FailureGroup}
use pic_agentic.Agenda.Engine.Report.{
  truncate, FailureKey, Groups, same_key, is_failed, failure_key, put_failure, group_failures,
  affected, compact_failures,
}

abbrev listed : Groups → List FailureGroup
listed groups = map (λ (entry : FailureKey × FailureGroup). entry.1) groups

affected-put_failure :
    (key : FailureKey) (path : String) (groups : Groups)
    → affected (listed (put_failure key path groups)) ≡ affected (listed groups) + 1
unfolding put_failure
affected-put_failure key path [] = refl
affected-put_failure key path ((k, g) ∷ groups) = elim (Bool-cases (same_key k key)) [
  | inl same ↦ rw (same) (omega (arith, length-append g.paths (path ∷ [])))
  | inr other ↦ rw (other) (omega (arith, affected-put_failure key path groups))
]

affected-group_failures :
    (callbacks : List Callback) (groups : Groups)
    → affected (listed (group_failures callbacks groups))
      ≡ affected (listed groups) + count_if is_failed callbacks
unfolding group_failures
affected-group_failures [] groups = omega arith
affected-group_failures (c ∷ callbacks) groups = elim (Bool-cases (is_failed c)) [
  | inl bad ↦
      let key = failure_key c in
      rw (bad) (
        omega (
          arith,
          affected-group_failures callbacks (put_failure key c.path groups),
          affected-put_failure key c.path groups,
        ))
  | inr fine ↦ rw (fine) (omega (arith, affected-group_failures callbacks groups))
]

-- The groups of a compact report name as many paths as the tick has failed callbacks.
pub affected-compact_failures :
    (decimal : ℕ → String) (r : TickResult)
    → affected (compact_failures decimal r).failure_groups ≡ count_if is_failed r.callbacks
unfolding compact_failures
affected-compact_failures decimal r = omega (arith, affected-group_failures r.callbacks [])

marker : char_count "...(truncated)" ≡ 14
unfolding char_count
marker = refl

-- A truncated text is never longer than the limit and the 14 characters of the marker.
pub char_count-truncate :
    (limit : ℕ) (text : String) → (char_count (truncate limit text) ≤ limit + 14)
unfolding truncate
char_count-truncate limit text = elim (Bool-cases (leb (char_count text) limit)) [
  | inl short ↦ rw (short) (omega (arith, leb→le (char_count text) limit short))
  | inr long ↦
      rw (long, char_count-concat (take_chars limit text) "...(truncated)")
        (omega (arith, char_count-take_chars limit text, marker))
]
