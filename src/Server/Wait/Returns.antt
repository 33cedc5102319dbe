-- ===== src/Server/Wait/Returns.antt =====
-- src/pic_agentic/server/simulation.py: `wait_for_state` comes to an end, and with which outcome.
use mathlib.Core.Path.{subst}
use pic_agentic.Common.{
  ℕ, zero, suc, ◌+◌, ◌≤◌, ◌<◌, String, ◌≡◌, refl, sym, ap, ◌∙◌, Bool, true, false, not, ◌&&◌,
  Option, none, some, List, inl, inr, ◌⊎◌, arith, elem, leb, nat_eq, Bool-cases, Option-cases,
  some-injective, is_some,
}
use pic_agentic.Common.Dict.{get}
use pic_agentic.Server.Registry.{SimRecord, is_terminal}
use pic_agentic.Server.Wait.{
  Result, returned, Verdict, judge, look, wait_loop, wait_outcome, wait_valid, Surroundings,
  WaitOutcome, exceeds_client_budget,
}

-- The verdict on what the look shows.
pub record IsRight (targets : List String) (o : Option SimRecord) (expired : Bool) (v : Verdict)
    : Type 0 where
  pub matches : v.matched ≡ (elim o [ none ↦ false | some r ↦ elem r.state targets ])
  pub observes : v.observed ≡ (elim o [ none ↦ "" | some r ↦ r.state ])
  pub expires :
      v.timed_out ≡ (not v.matched && not (elim o [ none ↦ false | some r ↦ is_terminal r.state ]))
  pub waited_out : (v.timed_out ≡ false) ⊎ (expired ≡ true)

judge-IsRight :
    (targets : List String) (o : Option SimRecord) (expired : Bool) (v : Verdict)
    → judge targets o expired ≡ some v
    → IsRight targets o expired v
unfolding judge
judge-IsRight targets none true v h =
    let e = some-injective h in
    subst (IsRight targets none true) e
      (record { matches = refl; observes = refl; expires = refl; waited_out = inr refl })
judge-IsRight targets none false v h = cc
judge-IsRight targets (some r) expired v h = elim (Bool-cases (elem r.state targets)) [
  | inl here ↦
      subst (IsRight targets (some r) expired) (some-injective (rw here at h))
        (record { matches = sym here; observes = refl; expires = refl; waited_out = inl refl })
  | inr away ↦ elim (Bool-cases (is_terminal r.state)) [
    | inl over ↦
        subst (IsRight targets (some r) expired) (some-injective (rw (away, over) at h)) (record {
          matches = sym away;
          observes = refl;
          expires = rw over refl;
          waited_out = inl refl;
        })
    | inr live ↦ elim (Bool-cases expired) [
      | inl late ↦
          subst (IsRight targets (some r) expired) (some-injective (rw (away, live, late) at h))
            (record {
              matches = sym away;
              observes = refl;
              expires = rw live refl;
              waited_out = inr late;
            })
      | inr early ↦
          let bad : ◌≡◌ {A = Option Verdict} none (some v) = rw (away, live, early) at h in cc
    ]
  ]
]

judge-expired :
    (targets : List String) (o : Option SimRecord) → is_some (judge targets o true) ≡ true
unfolding judge
judge-expired targets none = refl
judge-expired targets (some r) = ground arith

module _ (w : Surroundings) (sim_id : String) (targets : List String) (deadline : ℕ) where
  -- The first look with a verdict, among those numbered from `k` to `last`.
  pub record Ends (k last : ℕ) (r : Option (ℕ × Verdict)) : Type 0 where
    pub at : ℕ
    pub verdict : Verdict
    pub found : r ≡ some (at, verdict)
    pub from : k ≤ at
    pub to : at ≤ last
    pub judged : look w sim_id targets deadline at ≡ some verdict

  look-expired : (k : ℕ) → deadline ≤ w.now k → is_some (look w sim_id targets deadline k) ≡ true
  unfolding look
  look-expired k late =
      let past : leb deadline (w.now k) ≡ true = ground arith in
      rw past (judge-expired targets (get sim_id (w.registry k)))

  before_last :
      (k last : ℕ)
      → k ≤ last
      → deadline ≤ w.now last
      → look w sim_id targets deadline k ≡ none
      → k < last
  before_last k last le late waits = elim (Bool-cases (nat_eq k last)) [
    | inr other ↦ ground arith
    | inl same ↦
        let e : k ≡ last = ground arith in
        let shown : is_some (look w sim_id targets deadline k) ≡ true =
          look-expired k (rw e late) in
        let bad : false ≡ true = sym (ap is_some waits) ∙ shown in cc
  ]

  wait_loop-Ends :
      (fuel k last : ℕ)
      → k ≤ last
      → last < k + fuel
      → deadline ≤ w.now last
      → Ends k last (wait_loop w fuel sim_id targets deadline k)
  unfolding wait_loop
  wait_loop-Ends zero k last le lt late = let bad : ◌≡◌ {A = ℕ} 0 1 = omega (arith, le, lt) in cc
  wait_loop-Ends (suc fuel) k last le lt late =
      elim (Option-cases (look w sim_id targets deadline k)) [
        | inr (v, here) ↦
            rw (wait_loop, here)
              (record {
                at = k;
                verdict = v;
                found = refl;
                from = omega arith;
                to = le;
                judged = here;
              })
        | inl waits ↦
            let before : k < last = before_last k last le late waits in
            let h : Ends (suc k) last (wait_loop w fuel sim_id targets deadline (suc k)) =
              wait_loop-Ends fuel (suc k) last (omega (arith, before)) (omega (arith, lt)) late in
            rw (wait_loop, waits)
              (record {
                at = h.at;
                verdict = h.verdict;
                found = h.found;
                from = omega (arith, h.from);
                to = h.to;
                judged = h.judged;
              })
      ]

module _ (w : Surroundings) (sim_id : String) (targets : List String) (terminal_only : Bool)
    (timeout : ℕ) where
  -- What the caller is told: the outcome of a look not after `last`, with the verdict that is right
  -- for the record then.
  pub record Tells (last : ℕ) (answer : Option (Result WaitOutcome)) : Type 0 where
    pub at : ℕ
    pub to : at ≤ last
    pub verdict : Verdict
    pub told :
        answer ≡ some (returned (wait_outcome w sim_id targets terminal_only (w.now 0) at verdict))
    pub right :
        IsRight targets (get sim_id (w.registry at)) (leb (w.now 0 + timeout) (w.now at)) verdict

  -- A wait for a registered simulation that fits the client's budget returns at the latest with the first
  -- look at or after the deadline: if look `last` is one, and fuel allows for more than `last` looks, the
  -- outcome is that of a look not after `last`. It is matched exactly when the record then has a target
  -- state, it shows that state, and it is timed out exactly when the state is neither a target nor
  -- terminal, which happens only at or after the deadline.
  pub wait_valid-Tells :
      (client : Option ℕ) (fuel last : ℕ) (r : SimRecord)
      → get sim_id (w.registry 0) ≡ some r
      → exceeds_client_budget timeout client ≡ false
      → w.now 0 + timeout ≤ w.now last
      → last < fuel
      → Tells last (wait_valid w fuel sim_id targets terminal_only timeout client)
  unfolding wait_valid look
  wait_valid-Tells client fuel last r here fits late enough =
      let ends =
        wait_loop-Ends w sim_id targets (w.now 0 + timeout) fuel 0 last (omega arith)
          (omega (arith, enough)) late in
      record {
        at = ends.at;
        to = ends.to;
        verdict = ends.verdict;
        told = rw (wait_valid, here, fits, ends.found) refl;
        right = judge-IsRight targets (get sim_id (w.registry ends.at)) _ ends.verdict ends.judged;
      }
