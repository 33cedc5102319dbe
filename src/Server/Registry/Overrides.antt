-- ===== src/Server/Registry/Overrides.antt =====
-- src/pic_agentic/server/simulation.py: each attribute of a record under a stream of events.
use pic_agentic.Common.{
  String, ◌≡◌, refl, ap, ◌∙◌, not, ◌&&◌, Option, none, some, List, [], ◌∷◌, inl, inr, ◌⊎◌, elem,
  str_eq, Bool-cases,
}
use pic_agentic.Common.Value.{Value, null, bool, int, float, str, list, dict, Fields, get_field}
use pic_agentic.Rcp.Envelope.{RcpMessage}
use pic_agentic.Protocol.{results_ready, state_value}
use pic_agentic.Server.Registry.{
  event_field, project_field, carried, record_fields, running_or_later_states,
}

-- A function that keeps every value, or that forgets it.
abbrev pub Overrides : {A : Type 0} → (A → A) → Type 0
Overrides {A} f = ((v : A) → f v ≡ v) ⊎ ((v w : A) → f v ≡ f w)

carried-Overrides : (o : Option Value) → Overrides (carried o)
carried-Overrides none = inl (λ v. refl)
carried-Overrides (some null) = inl (λ v. refl)
carried-Overrides (some (bool b)) = inr (λ v w. refl)
carried-Overrides (some (int n)) = inr (λ v w. refl)
carried-Overrides (some (float x)) = inr (λ v w. refl)
carried-Overrides (some (str s)) = inr (λ v w. refl)
carried-Overrides (some (list xs)) = inr (λ v w. refl)
carried-Overrides (some (dict d)) = inr (λ v w. refl)

project_field-Overrides :
    (names : List String) (payload : Fields) (key : String)
    → Overrides (project_field names payload key)
unfolding project_field
project_field-Overrides names payload key = elim (Bool-cases (elem key names)) [
  | inl here ↦ rw here (carried-Overrides (get_field key payload))
  | inr away ↦ inl (λ v. rw away refl)
]

pub event_field-Overrides :
    (state : String) (payload : Fields) (key : String) → Overrides (event_field state payload key)
unfolding event_field
event_field-Overrides state payload key =
    elim (Bool-cases (str_eq key "suspect" && not (str_eq state (state_value results_ready)))) [
      | inl cleared ↦ inr (λ v w. rw cleared refl)
      | inr kept ↦
          elim (Bool-cases (str_eq key "slurm_reason" && elem state running_or_later_states)) [
            | inl stale ↦ inr (λ v w. rw (kept, stale) refl)
            | inr fresh ↦ rw (kept, fresh) (project_field-Overrides record_fields payload key)
          ]
    ]

-- One message after the other.
unfoldable pub fold_all : {A : Type 0} → (RcpMessage → A → A) → List RcpMessage → A → A
fold_all f [] a = a
fold_all f (m ∷ ms) a = fold_all f ms (f m a)

Overrides-fold_all :
    {A : Type 0} (f : RcpMessage → A → A)
    → ((m : RcpMessage) → Overrides (f m))
    → (ms : List RcpMessage) → Overrides (fold_all f ms)
unfolding fold_all
Overrides-fold_all f h [] = inl (λ v. refl)
Overrides-fold_all f h (m ∷ ms) = elim (Overrides-fold_all f h ms) [
  | inr forgets ↦ inr (λ v w. forgets (f m v) (f m w))
  | inl keeps ↦ elim (h m) [
    | inl holds ↦ inl (λ v. keeps (f m v) ∙ holds v)
    | inr forgets ↦ inr (λ v w. ap (fold_all f ms) (forgets v w))
  ]
]

pub fold_all-twice :
    {A : Type 0} (f : RcpMessage → A → A)
    → ((m : RcpMessage) → Overrides (f m))
    → (ms : List RcpMessage) (a : A) → fold_all f ms (fold_all f ms a) ≡ fold_all f ms a
fold_all-twice f h ms a = elim (Overrides-fold_all f h ms) [
  | inl keeps ↦ keeps (fold_all f ms a)
  | inr forgets ↦ forgets (fold_all f ms a) a
]
