-- ===== src/Agenda/Engine/Submit/Deferral.antt =====
-- src/pic_agentic/agenda/engine.py: `_record_deferral` and its window.
use pic_agentic.Common.{
  ℕ, ◌-◌, ◌≤◌, ◌<◌, String, ◌≡◌, refl, ◌∙◌, ap, ap₂, true, false, not, Option, none, some, List, [],
  ◌∷◌, ◌++◌, map, arith, ltb, is_empty, str_eq, Bool-cases, inl, inr, if◌then◌else◌,
}
use pic_agentic.Agenda.Model.{Status, failed, AgendaSim, AgendaGroup, Leaf, simulations}
use pic_agentic.Agenda.Addressing.{leaf_at, set_leaf}
use pic_agentic.Agenda.Addressing.Names.{IsTidy}
use pic_agentic.Agenda.Addressing.Update.{at, simulations-set_leaf}
use pic_agentic.Agenda.Campaign.{Callback, failed_callback, Campaign}
use pic_agentic.Agenda.Engine.{Engine}
use pic_agentic.Agenda.Engine.Submit.{record_deferral, is_expired, deferred_leaf, elapsed}

abbrev pub status_of : Leaf → String × Status
status_of (path, s) = (path, s.status)

abbrev pub fail_at : String → String × Status → String × Status
fail_at path (p, status) = (p, if str_eq p path then failed else status)

statuses-at :
    (path : String) (f : AgendaSim → AgendaSim) (g : String × Status → String × Status)
    → ((l : Leaf) → status_of (at path f l) ≡ g (status_of l))
    → (leaves : List Leaf) → map status_of (map (at path f) leaves) ≡ map g (map status_of leaves)
statuses-at path f g h [] = refl
statuses-at path f g h (l ∷ leaves) = ap₂ ◌∷◌ (h l) (statuses-at path f g h leaves)

map_id {ℓ} : {A : Type ℓ} (xs : List A) → map (λ x. x) xs ≡ xs
map_id [] = refl
map_id (x ∷ xs) = ap (◌∷◌ x) (map_id xs)

kept :
    (path : String) (f : AgendaSim → AgendaSim)
    → ((s : AgendaSim) → (f s).status ≡ s.status)
    → (l : Leaf) → status_of (at path f l) ≡ status_of l
kept path f h (p, s) = elim (Bool-cases (str_eq p path)) [
  | inl same ↦ rw (same, h s)
  | inr other ↦ rw (other)
]

failing :
    (path : String) (f : AgendaSim → AgendaSim)
    → ((s : AgendaSim) → (f s).status ≡ failed)
    → (l : Leaf) → status_of (at path f l) ≡ fail_at path (status_of l)
failing path f h (p, s) = elim (Bool-cases (str_eq p path)) [
  | inl same ↦ rw (same, h s)
  | inr other ↦ rw (other)
]

module _ (agenda : AgendaGroup) (path : String) (f : AgendaSim → AgendaSim)
    (tidy : IsTidy agenda) where
  same_statuses :
      ((s : AgendaSim) → (f s).status ≡ s.status)
      → map status_of (simulations (set_leaf agenda path f)) ≡ map status_of (simulations agenda)
  same_statuses h =
      ap (map status_of) (simulations-set_leaf agenda path f tidy)
      ∙ statuses-at path f (λ x. x) (kept path f h) (simulations agenda)
      ∙ map_id (map status_of (simulations agenda))

  failed_statuses :
      ((s : AgendaSim) → (f s).status ≡ failed)
      → map status_of (simulations (set_leaf agenda path f))
        ≡ map (fail_at path) (map status_of (simulations agenda))
  failed_statuses h =
      ap (map status_of) (simulations-set_leaf agenda path f tidy)
      ∙ statuses-at path f (fail_at path) (failing path f h) (simulations agenda)

module _ (e : Engine) where
  deferred_leaf-status :
      (sim_id : Option String) (now : ℕ) (s : AgendaSim)
      → (deferred_leaf e sim_id now s).status ≡ s.status
  unfolding deferred_leaf
  deferred_leaf-status sim_id now s = refl

  -- The time since the first lost acknowledgement of the leaf.
  expired_since :
      (sim_id : Option String) (now : ℕ) (leaf : AgendaSim) (since : String) (started : ℕ)
      → leaf.deferred_since ≡ some since
      → is_empty since ≡ false
      → e.parse_ts since ≡ some started
      → is_expired e now (deferred_leaf e sim_id now leaf)
        ≡ not (ltb (now - started) e.policy.deferred_outcome_timeout)
  unfolding is_expired deferred_leaf elapsed
  expired_since sim_id now leaf since started h text parsed = rw (h, text, parsed)

  inside : (n limit : ℕ) → n < limit → not (ltb n limit) ≡ false
  inside n limit h = ground arith

  outside : (n limit : ℕ) → limit ≤ n → not (ltb n limit) ≡ true
  outside n limit h = ground arith

  module _ (c : Campaign) (path message : String) (code sim_id : Option String) (now : ℕ)
      (leaf : AgendaSim) (since : String) (started : ℕ) (tidy : IsTidy c.agenda)
      (here : leaf_at c.agenda path ≡ some leaf) (h : leaf.deferred_since ≡ some since)
      (text : is_empty since ≡ false) (parsed : e.parse_ts since ≡ some started) where
    -- A leaf of a tidy agenda, whose acknowledgement was lost before at a readable time, loses it again
    -- less than the timeout later: no leaf changes its status, and no callback is added.
    pub record_deferral-retry :
        now - started < e.policy.deferred_outcome_timeout
        → let r = record_deferral e c path message code sim_id now in
          (map status_of (simulations r.campaign.agenda) ≡ map status_of (simulations c.agenda))
          × (r.failure ≡ none)
          × (r.campaign.callbacks ≡ c.callbacks)
    unfolding record_deferral
    record_deferral-retry early =
        let expired = expired_since sim_id now leaf since started h text parsed in
        rw (here, expired ∙ inside (now - started) e.policy.deferred_outcome_timeout early)
          (same_statuses c.agenda path _ tidy (deferred_leaf-status sim_id now), refl, refl)

    -- A leaf of a tidy agenda, whose acknowledgement was lost before at a readable time, loses it again
    -- when the timeout is over: it alone becomes failed, and one callback, of this failure, is added.
    pub record_deferral-give_up :
        e.policy.deferred_outcome_timeout ≤ now - started
        → let r = record_deferral e c path message code sim_id now in
          (map status_of (simulations r.campaign.agenda)
            ≡ map (fail_at path) (map status_of (simulations c.agenda)))
          × (b : Callback) × (r.failure ≡ some b)
          × (r.campaign.callbacks ≡ c.callbacks ++ b ∷ [])
          × (b.path ≡ path)
          × (b.kind ≡ failed_callback)
    unfolding record_deferral
    record_deferral-give_up late =
        let expired = expired_since sim_id now leaf since started h text parsed in
        rw (here, expired ∙ outside (now - started) e.policy.deferred_outcome_timeout late)
          (failed_statuses c.agenda path _ tidy (λ s. refl), _, refl, refl, refl, refl)
