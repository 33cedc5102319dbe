-- ===== src/Simclient/Follower/Once.antt =====
-- src/pic_agentic/simclient/follow.py: how often an event is emitted, over all rounds of `_run`.
use pic_agentic.Common.{
  ℕ, zero, suc, ◌+◌, String, ◌≡◌, refl, Bool, true, false, not, ◌&&◌, ◌||◌, Option, none, some,
  List, [], ◌∷◌, ◌++◌, inl, inr, arith, count_if, count_if-append, ltb, leb, is_some, Bool-cases,
  if◌then◌else◌,
}
use pic_agentic.Protocol.{job_running, job_finished, job_failed, results_ready, cancelled}
use pic_agentic.Simclient.Follower.{
  terminal, JobInfo, ProgressLine, TrackedSim, Emitted, Machine, percent_complete, bucket_of,
  observe_line, observe_parsed, observe_lines, tail_progress, read_new_lines, is_clean,
  is_cancelled, is_running, is_waiting, terminal_events, emit_terminal, observe_state, observe_poll,
  Next, ended, sleeping, next_run, answered, round, backed_off, Run, follow, run,
}

-- A relation between two tracked states and the events between them that each part of a round keeps
-- is kept by the run.
module _ (m : Machine) (R : TrackedSim → List Emitted → TrackedSim → Type 0)
    (stay : (t : TrackedSim) → R t [] t)
    (join : (t u v : TrackedSim) (a b : List Emitted) → R t a u → R u b v → R t (a ++ b) v)
    (state : (info : JobInfo) (t : TrackedSim)
      → R t (observe_state info t).2 (observe_state info t).0)
    (read : (offset : ℕ) (t : TrackedSim) → R t [] (record t { stdout_offset = offset }))
    (line : (l : ProgressLine) (t : TrackedSim) → R t (observe_line l t).1 (observe_line l t).0)
    (close : (info : JobInfo) (t : TrackedSim)
      → R t (emit_terminal m info t).1 (emit_terminal m info t).0) where
  observe_parsed-R :
      (o : Option ProgressLine) (t : TrackedSim) → R t (observe_parsed o t).1 (observe_parsed o t).0
  observe_parsed-R none t = stay t
  observe_parsed-R (some l) t = line l t

  observe_lines-R :
      (lines : List String) (t : TrackedSim)
      → R t (observe_lines m lines t).1 (observe_lines m lines t).0
  unfolding observe_lines
  observe_lines-R [] t = stay t
  observe_lines-R (l ∷ lines) t =
      let seen : TrackedSim = (observe_parsed (m.parse l) t).0 in
      join t seen _ _ _ (observe_parsed-R (m.parse l) t) (observe_lines-R lines seen)

  tail : (n : ℕ) (t : TrackedSim) → R t (tail_progress m n t).1 (tail_progress m n t).0
  unfolding tail_progress
  tail n t =
      let consumed = read_new_lines (m.stdout n) t.stdout_offset in
      let u : TrackedSim = record t { stdout_offset = consumed.0 } in
      join t u _ [] _ (read consumed.0 t) (observe_lines-R (m.splitlines consumed.1) u)

  observe_poll-R :
      (n : ℕ) (info : JobInfo) (t : TrackedSim)
      → R t (observe_poll m n info t).2 (observe_poll m n info t).0
  unfolding observe_poll
  observe_poll-R n info t =
      let a : TrackedSim = (observe_state info t).0 in
      let b : TrackedSim = (tail_progress m n a).0 in
      let c : TrackedSim = (emit_terminal m info b).0 in
      elim (Bool-cases (terminal info.state)) [
        | inl over ↦
            rw over (join t b c _ _ (join t a b _ _ (state info t) (tail n a)) (close info b))
        | inr live ↦ rw live (join t a b _ _ (state info t) (tail n a))
      ]

  Relates : TrackedSim → Next → Type 0
  Relates t (ended after made) = R t made after
  Relates t (sleeping after now made) = R t made after

  answered-R :
      (initial n current : ℕ) (t : TrackedSim) (o : Option JobInfo)
      → Relates t (answered m initial n current t o)
  unfolding Relates
  answered-R initial n current t none = elim (Bool-cases (m.is_stopped n)) [
    | inl stopped ↦ rw stopped (stay t)
    | inr going ↦ rw going (stay t)
  ]
  answered-R initial n current t (some info) =
      elim (Bool-cases (terminal info.state || m.is_stopped n)) [
        | inl over ↦ rw over (observe_poll-R n info t)
        | inr live ↦ rw live (observe_poll-R n info t)
      ]

  round-R : (initial n current : ℕ) (t : TrackedSim) → Relates t (round m initial n current t)
  unfolding round Relates
  round-R initial n current t = elim (Bool-cases (m.is_stopped_before n)) [
    | inl stopped ↦ rw stopped (stay t)
    | inr going ↦ rw going (answered-R initial n current t (m.job_info n))
  ]

  next_run-R :
      (t : TrackedSim) (resume : TrackedSim → ℕ → Run)
      → ((u : TrackedSim) (now : ℕ) → R u (resume u now).emitted (resume u now).tracked)
      → (x : Next) → Relates t x
      → R t (next_run resume x).emitted (next_run resume x).tracked
  unfolding Relates
  next_run-R t resume h (ended after made) r = r
  next_run-R t resume h (sleeping after now made) r =
      join t after (resume after now).tracked made (resume after now).emitted r (h after now)

  pub follow-R :
      (fuel initial maximum n current : ℕ) (t : TrackedSim)
      → R t
          (follow m fuel initial maximum n current t).emitted
          (follow m fuel initial maximum n current t).tracked
  unfolding follow
  follow-R zero initial maximum n current t = stay t
  follow-R (suc fuel) initial maximum n current t =
      next_run-R t _ (λ u now. follow-R fuel initial maximum (suc n) (backed_off maximum now) u)
        (round m initial n current t) (round-R initial n current t)

-- The number of emitted events with a mark, against what the tracked state says of them.
abbrev pub Counted :
    (Emitted → Bool) → (TrackedSim → Bool) → TrackedSim → List Emitted → TrackedSim → Type 0
Counted p flag t made u = count_if p made + (if flag t then 1 else 0) ≡ (if flag u then 1 else 0)

join-Counted :
    (p : Emitted → Bool) (flag : TrackedSim → Bool) (t u v : TrackedSim) (a b : List Emitted)
    → Counted p flag t a u
    → Counted p flag u b v
    → Counted p flag t (a ++ b) v
join-Counted p flag t u v a b h g = omega (arith, count_if-append p a b, h, g)

unfoldable pub is_running_event : Emitted → Bool
is_running_event e = elim e.state [ job_running ↦ true | other ↦ false ]

-- The event that says how the job ended: results, a failure, a cancel, or no results to link.
unfoldable pub is_final_event : Emitted → Bool
is_final_event e = elim e.state [
  | results_ready ↦ true
  | job_failed ↦ true
  | cancelled ↦ true
  | job_finished ↦ is_some e.fields.results_linked
  | other ↦ false
]

abbrev pub was_running : TrackedSim → Bool
was_running t = t.job_running_emitted

abbrev pub has_ended : TrackedSim → Bool
has_ended t = t.terminal_emitted

observe_line-Counted :
    (l : ProgressLine) (t : TrackedSim)
    → Counted is_running_event was_running t (observe_line l t).1 (observe_line l t).0
      × Counted is_final_event has_ended t (observe_line l t).1 (observe_line l t).0
unfolding observe_line is_running_event is_final_event
observe_line-Counted l t =
    elim (Bool-cases
      (ltb t.last_emitted_bucket (bucket_of l.percent) || leb percent_complete l.percent)) [
        | inl crossed ↦ rw crossed (omega arith, omega arith)
        | inr within ↦ rw within (omega arith, omega arith)
      ]

observe_state-Counted :
    (info : JobInfo) (t : TrackedSim)
    → Counted is_running_event was_running t (observe_state info t).2 (observe_state info t).0
      × Counted is_final_event has_ended t (observe_state info t).2 (observe_state info t).0
unfolding observe_state is_running_event is_final_event
observe_state-Counted info t =
    elim (Bool-cases (is_running info.state && not t.job_running_emitted)) [
      | inl started ↦
          let first : t.job_running_emitted ≡ false = ground arith in
          rw (started, first) (omega arith, omega arith)
      | inr other ↦ elim (Bool-cases (is_waiting info t)) [
        | inl waits ↦ rw (other, waits) (omega arith, omega arith)
        | inr quiet ↦ rw (other, quiet) (omega arith, omega arith)
      ]
    ]

module _ (m : Machine) where
  terminal_events-Counted :
      (info : JobInfo) (t : TrackedSim)
      → (count_if is_running_event (terminal_events m info t) ≡ 0)
        × (count_if is_final_event (terminal_events m info t) ≡ 1)
  unfolding terminal_events is_running_event is_final_event
  terminal_events-Counted info t = elim (Bool-cases (is_clean info)) [
    | inl clean ↦ elim (Bool-cases m.linked) [
      | inl linked ↦ rw (clean, linked) (omega arith, omega arith)
      | inr unlinked ↦ rw (clean, unlinked) (omega arith, omega arith)
    ]
    | inr broken ↦ elim (Bool-cases (is_cancelled info.state)) [
      | inl stopped ↦ rw (broken, stopped) (omega arith, omega arith)
      | inr crashed ↦ rw (broken, crashed) (omega arith, omega arith)
    ]
  ]

  emit_terminal-Counted :
      (info : JobInfo) (t : TrackedSim)
      → Counted is_running_event was_running t (emit_terminal m info t).1 (emit_terminal m info t).0
        × Counted is_final_event has_ended t (emit_terminal m info t).1 (emit_terminal m info t).0
  unfolding emit_terminal
  emit_terminal-Counted info t = elim (Bool-cases t.terminal_emitted) [
    | inl old ↦ rw old (omega arith, omega arith)
    | inr new ↦
        let n = terminal_events-Counted info t in rw new (omega (arith, n.0), omega (arith, n.1))
  ]

  running_follow :
      (fuel initial maximum n current : ℕ) (t : TrackedSim)
      → let r = follow m fuel initial maximum n current t in
        Counted is_running_event was_running t r.emitted r.tracked
  running_follow =
      follow-R m (Counted is_running_event was_running) (λ t. omega arith)
        (join-Counted is_running_event was_running) (λ info t. (observe_state-Counted info t).0)
        (λ offset t. omega arith) (λ l t. (observe_line-Counted l t).0)
        (λ info t. (emit_terminal-Counted info t).0)

  pub final_follow :
      (fuel initial maximum n current : ℕ) (t : TrackedSim)
      → let r = follow m fuel initial maximum n current t in
        Counted is_final_event has_ended t r.emitted r.tracked
  final_follow =
      follow-R m (Counted is_final_event has_ended) (λ t. omega arith)
        (join-Counted is_final_event has_ended) (λ info t. (observe_state-Counted info t).1)
        (λ offset t. omega arith) (λ l t. (observe_line-Counted l t).1)
        (λ info t. (emit_terminal-Counted info t).1)

  -- Over a whole run that starts with both flags unset, the job's start is announced once if the flag for
  -- it is set at the end, and else never; so is the job's end. Whatever the scheduler answers, and
  -- whenever the follower is stopped.
  pub count-run :
      (fuel initial maximum : ℕ) (t : TrackedSim)
      → t.job_running_emitted ≡ false
      → t.terminal_emitted ≡ false
      → let r = run m fuel initial maximum t in
        (count_if is_running_event r.emitted ≡ (if r.tracked.job_running_emitted then 1 else 0))
        × (count_if is_final_event r.emitted ≡ (if r.tracked.terminal_emitted then 1 else 0))
  unfolding run
  count-run fuel initial maximum t starts unended = elim (Bool-cases (is_some t.job_id)) [
    | inr nothing ↦ rw (nothing, starts, unended) (refl, refl)
    | inl job ↦
        let first = running_follow fuel initial maximum 0 initial t in
        let last = final_follow fuel initial maximum 0 initial t in
        let no_start : (if was_running t then 1 else 0) ≡ 0 = rw starts refl in
        let no_end : (if has_ended t then 1 else 0) ≡ 0 = rw unended refl in
        rw job (counted _ _ _ first no_start, counted _ _ _ last no_end)
  ]
    where
      counted : (a b c : ℕ) → a + b ≡ c → b ≡ 0 → a ≡ c
      counted a b c h g = omega (arith, h, g)
