-- ===== src/Simclient/Follower/Progress.antt =====
-- src/pic_agentic/simclient/follow.py: the cadence of `_tail_progress`.
use pic_agentic.Common.{
  ℕ, ◌+◌, ◌≤◌, ◌≡◌, Bool, true, false, not, ◌&&◌, ◌||◌, Option, none, some, List, ◌++◌, inl, inr,
  arith, count_if, count_if-append, ltb, leb, is_some, Bool-cases, if◌then◌else◌,
}
use pic_agentic.Common.Float.{ℤ, pos, negsuc}
use pic_agentic.Protocol.{step_finished}
use pic_agentic.Simclient.Follower.{
  JobInfo, ProgressLine, TrackedSim, Emitted, Machine, percent_complete, bucket_of, observe_line,
  is_clean, is_cancelled, is_running, is_waiting, terminal_events, emit_terminal, observe_state,
  follow, run,
}
use pic_agentic.Simclient.Follower.Once.{follow-R}

-- A percentage below 100.
abbrev pub is_below : Option ℤ → Bool
is_below none = false
is_below (some (pos n)) = ltb n percent_complete
is_below (some (negsuc n)) = true

-- A progress event of a run that is not complete.
unfoldable pub is_partial_event : Emitted → Bool
is_partial_event e = elim e.state [ step_finished ↦ is_below e.fields.percent | other ↦ false ]

-- The last emitted quarter, 3 at most.
abbrev quarter : ℕ → ℕ
quarter b = if leb b 3 then b else 3

abbrev Paced : TrackedSim → List Emitted → TrackedSim → Type 0
Paced t made u =
    count_if is_partial_event made + quarter t.last_emitted_bucket ≤ quarter u.last_emitted_bucket

join-Paced :
    (t u v : TrackedSim) (a b : List Emitted) → Paced t a u → Paced u b v → Paced t (a ++ b) v
join-Paced t u v a b h g = omega (arith, count_if-append is_partial_event a b, h, g)

line_step :
    (percent old : ℕ)
    → ltb old (bucket_of percent) || leb percent_complete percent ≡ true
    → ((if ltb percent percent_complete then 1 else 0) + 0) + quarter old
      ≤ quarter (bucket_of percent)
line_step percent old h = ground arith

observe_line-Paced :
    (l : ProgressLine) (t : TrackedSim) → Paced t (observe_line l t).1 (observe_line l t).0
unfolding observe_line is_partial_event
observe_line-Paced l t =
    elim (Bool-cases
      (ltb t.last_emitted_bucket (bucket_of l.percent) || leb percent_complete l.percent)) [
        | inl crossed ↦ rw crossed (line_step l.percent t.last_emitted_bucket crossed)
        | inr within ↦ rw within (omega arith)
      ]

observe_state-Paced :
    (info : JobInfo) (t : TrackedSim) → Paced t (observe_state info t).2 (observe_state info t).0
unfolding observe_state is_partial_event
observe_state-Paced info t =
    elim (Bool-cases (is_running info.state && not t.job_running_emitted)) [
      | inl started ↦ rw started (omega arith)
      | inr other ↦ elim (Bool-cases (is_waiting info t)) [
        | inl waits ↦ rw (other, waits) (omega arith)
        | inr quiet ↦ rw (other, quiet) (omega arith)
      ]
    ]

module _ (m : Machine) where
  no_partial :
      (info : JobInfo) (t : TrackedSim) → count_if is_partial_event (terminal_events m info t) ≡ 0
  unfolding terminal_events is_partial_event
  no_partial info t = elim (Bool-cases (is_clean info)) [
    | inl clean ↦ elim (Bool-cases m.linked) [
      | inl linked ↦ rw (clean, linked) (omega arith)
      | inr unlinked ↦ rw (clean, unlinked) (omega arith)
    ]
    | inr broken ↦ elim (Bool-cases (is_cancelled info.state)) [
      | inl stopped ↦ rw (broken, stopped) (omega arith)
      | inr crashed ↦ rw (broken, crashed) (omega arith)
    ]
  ]

  emit_terminal-Paced :
      (info : JobInfo) (t : TrackedSim)
      → Paced t (emit_terminal m info t).1 (emit_terminal m info t).0
  unfolding emit_terminal
  emit_terminal-Paced info t = elim (Bool-cases t.terminal_emitted) [
    | inl old ↦ rw old (omega arith)
    | inr new ↦ rw new (omega (arith, no_partial info t))
  ]

  follow-Paced :
      (fuel initial maximum n current : ℕ) (t : TrackedSim)
      → let r = follow m fuel initial maximum n current t in Paced t r.emitted r.tracked
  follow-Paced =
      follow-R m Paced (λ t. omega arith) join-Paced observe_state-Paced (λ offset t. omega arith)
        observe_line-Paced emit_terminal-Paced

  -- Over a whole run, at most three progress events report less than 100 percent, whatever lines the
  -- output has.
  pub partial-run :
      (fuel initial maximum : ℕ) (t : TrackedSim)
      → count_if is_partial_event (run m fuel initial maximum t).emitted ≤ 3
  unfolding run
  partial-run fuel initial maximum t = elim (Bool-cases (is_some t.job_id)) [
    | inr nothing ↦ rw nothing (omega arith)
    | inl job ↦ rw job (ground (arith, follow-Paced fuel initial maximum 0 initial t))
  ]
