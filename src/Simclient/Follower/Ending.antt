-- ===== src/Simclient/Follower/Ending.antt =====
-- src/pic_agentic/simclient/follow.py: the end of `_run`, and the intervals that it sleeps.
use pic_agentic.Common.{
  ℕ, zero, suc, ◌+◌, ◌≤◌, ◌<◌, ◌≡◌, refl, sym, ◌∙◌, Bool, true, false, ◌||◌, Option, none, some,
  List, inl, inr, arith, All, count_if, is_some, nat_eq, Bool-cases, Option-cases, if◌then◌else◌,
}
use pic_agentic.Simclient.Follower.{
  terminal, JobInfo, TrackedSim, Machine, tail_progress, emit_terminal, observe_state, observe_poll,
  Next, ended, sleeping, next_run, answered, round, backed_off, Run, follow, run,
}
use pic_agentic.Simclient.Follower.Once.{is_final_event, has_ended, final_follow}

unfoldable is_ended : Next → Bool
is_ended (ended t made) = true
is_ended (sleeping t now made) = false

-- A round that ends has seen the end of the job.
abbrev Settled : Next → Type 0
Settled (ended t made) = has_ended t ≡ true
Settled (sleeping t now made) = Unit

-- Nobody calls `stop`.
pub record IsUndisturbed (m : Machine) : Type 0 where
  pub before : (n : ℕ) → m.is_stopped_before n ≡ false
  pub after : (n : ℕ) → m.is_stopped n ≡ false

module _ (m : Machine) (calm : IsUndisturbed m) where
  emit_terminal-has_ended :
      (info : JobInfo) (t : TrackedSim) → has_ended (emit_terminal m info t).0 ≡ true
  unfolding emit_terminal
  emit_terminal-has_ended info t = elim (Bool-cases t.terminal_emitted) [
    | inl old ↦ rw old refl
    | inr new ↦ rw new refl
  ]

  round-Settled : (initial n current : ℕ) (t : TrackedSim) → Settled (round m initial n current t)
  unfolding round
  round-Settled initial n current t = elim (Option-cases (m.job_info n)) [
    | inl silent ↦ rw (calm.before n, silent, calm.after n) tt
    | inr (info, answer) ↦ elim (Bool-cases (terminal info.state)) [
      | inl over ↦
          rw (calm.before n, answer, over)
            (emit_terminal-has_ended info (tail_progress m n (observe_state info t).0).0)
      | inr live ↦ rw (calm.before n, answer, live, calm.after n) tt
    ]
  ]

  round-is_ended :
      (initial n current : ℕ) (t : TrackedSim) (info : JobInfo)
      → m.job_info n ≡ some info
      → terminal info.state ≡ true
      → is_ended (round m initial n current t) ≡ true
  unfolding round is_ended
  round-is_ended initial n current t info answer over = rw (calm.before n, answer, over) refl

  -- A run that has come to its end, with the job's end reported.
  abbrev IsOver : Run → Type 0
  IsOver r = (r.finished ≡ true) × (has_ended r.tracked ≡ true)

  next_run-IsOver :
      (resume : TrackedSim → ℕ → Run) (x : Next)
      → Settled x
      → (is_ended x ≡ false → (u : TrackedSim) (now : ℕ) → IsOver (resume u now))
      → IsOver (next_run resume x)
  unfolding is_ended
  next_run-IsOver resume (ended t made) settled h = (refl, settled)
  next_run-IsOver resume (sleeping t now made) settled h = h refl t now

  follow-IsOver :
      (fuel initial maximum n current last : ℕ) (t : TrackedSim) (info : JobInfo)
      → n ≤ last
      → last < n + fuel
      → m.job_info last ≡ some info
      → terminal info.state ≡ true
      → IsOver (follow m fuel initial maximum n current t)
  unfolding follow
  follow-IsOver zero initial maximum n current last t info le lt answer over =
      let bad : ◌≡◌ {A = ℕ} 0 1 = omega (arith, le, lt) in cc
  follow-IsOver (suc fuel) initial maximum n current last t info le lt answer over =
      next_run-IsOver _ (round m initial n current t) (round-Settled initial n current t)
        (λ goes_on u now.
          follow-IsOver fuel initial maximum (suc n) (backed_off maximum now) last u info
            (later n last current t info le answer over goes_on) (omega (arith, lt)) answer over)
    where
      later :
          (n last current : ℕ) (t : TrackedSim) (info : JobInfo)
          → n ≤ last
          → m.job_info last ≡ some info
          → terminal info.state ≡ true
          → is_ended (round m initial n current t) ≡ false
          → suc n ≤ last
      later n last current t info le answer over goes_on = elim (Bool-cases (nat_eq n last)) [
        | inr other ↦ ground arith
        | inl same ↦
            let e : n ≡ last = ground arith in
            let done : is_ended (round m initial n current t) ≡ true =
              round-is_ended initial n current t info (rw e answer) over in
            let bad : false ≡ true = sym goes_on ∙ done in cc
      ]

  -- If nobody stops the follower of a job with an id and no end reported yet, and the poll numbered
  -- `last` finds the job in a terminal state, then with fuel for more than `last` polls the loop ends, and
  -- exactly one event tells how the job ended: results, a failure, a cancel, or no results to link.
  pub run-count_final :
      (fuel initial maximum last : ℕ) (t : TrackedSim) (info : JobInfo)
      → is_some t.job_id ≡ true
      → t.terminal_emitted ≡ false
      → m.job_info last ≡ some info
      → terminal info.state ≡ true
      → last < fuel
      → let r = run m fuel initial maximum t in
        (r.finished ≡ true) × (count_if is_final_event r.emitted ≡ 1)
  unfolding run
  run-count_final fuel initial maximum last t info job unended answer over enough =
      let is_over =
        follow-IsOver fuel initial maximum 0 initial last t info (omega arith)
          (omega (arith, enough)) answer over in
      let count = final_follow m fuel initial maximum 0 initial t in
      let no_end : ◌≡◌ {A = ℕ} (if has_ended t then 1 else 0) 0 = rw unended refl in
      let after : TrackedSim = (follow m fuel initial maximum 0 initial t).tracked in
      let ending : ◌≡◌ {A = ℕ} (if has_ended after then 1 else 0) 1 = rw is_over.1 refl in
      rw job (is_over.0, omega (arith, count, no_end, ending))

-- Each sleep of a run is within the two bounds.
abbrev pub Within : ℕ → ℕ → List ℕ → Type 0
Within initial maximum = All (λ (s : ℕ). (initial ≤ s) × (s ≤ maximum))

module _ (m : Machine) (initial maximum : ℕ) (order : initial ≤ maximum) where
  -- The interval that a round sleeps.
  abbrev Sleeps : Next → Type 0
  Sleeps (ended t made) = Unit
  Sleeps (sleeping t now made) = (initial ≤ now) × (now ≤ maximum)

  round-Sleeps :
      (n current : ℕ) (t : TrackedSim)
      → initial ≤ current
      → current ≤ maximum
      → Sleeps (round m initial n current t)
  unfolding round
  round-Sleeps n current t lo hi = elim (Bool-cases (m.is_stopped_before n)) [
    | inl stopped ↦ rw stopped tt
    | inr going ↦ rw going (by_answer (m.job_info n))
  ]
    where
      by_answer : (o : Option JobInfo) → Sleeps (answered m initial n current t o)
      by_answer none = elim (Bool-cases (m.is_stopped n)) [
        | inl stopped ↦ rw stopped tt
        | inr going ↦ rw going (lo, hi)
      ]
      by_answer (some info) = elim (Bool-cases (terminal info.state || m.is_stopped n)) [
        | inl over ↦ rw over tt
        | inr live ↦ elim (Bool-cases (observe_poll m n info t).1) [
          | inl reset ↦ rw (live, reset) (omega arith, order)
          | inr kept ↦ rw (live, kept) (lo, hi)
        ]
      ]

  next_run-Within :
      (resume : TrackedSim → ℕ → Run)
      → ((u : TrackedSim) (now : ℕ)
          → initial ≤ now
          → now ≤ maximum
          → Within initial maximum (resume u now).slept)
      → (x : Next) → Sleeps x
      → Within initial maximum (next_run resume x).slept
  next_run-Within resume h (ended t made) s = tt
  next_run-Within resume h (sleeping t now made) s = ((s.0, s.1), h t now s.0 s.1)

  follow-Within :
      (fuel n current : ℕ) (t : TrackedSim)
      → initial ≤ current
      → current ≤ maximum
      → Within initial maximum (follow m fuel initial maximum n current t).slept
  unfolding follow
  follow-Within zero n current t lo hi = tt
  follow-Within (suc fuel) n current t lo hi =
      next_run-Within _
        (λ u now l h.
          follow-Within fuel (suc n) (backed_off maximum now) u (ground (arith, order))
            (ground arith))
        (round m initial n current t) (round-Sleeps n current t lo hi)

  -- Every sleep of the loop is at least the initial and at most the maximal interval, if the first is not
  -- above the second.
  pub run-Within :
      (fuel : ℕ) (t : TrackedSim) → Within initial maximum (run m fuel initial maximum t).slept
  unfolding run
  run-Within fuel t = elim (Bool-cases (is_some t.job_id)) [
    | inr nothing ↦ rw nothing tt
    | inl job ↦ rw job (follow-Within fuel 0 initial t (omega arith) order)
  ]
