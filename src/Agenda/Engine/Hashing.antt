-- ===== src/Agenda/Engine/Hashing.antt =====
-- src/pic_agentic/agenda/engine.py: the wire hash of a spec, the command id of a leaf and the
-- duplicate checks.
pub mod Duplicates
pub mod CommandIds
use pic_agentic.Common.{
  ℕ, String, Bool, true, false, not, Option, none, some, List, [], ◌∷◌, ◌++◌, ◌&&◌, str_eq, concat,
  if◌then◌else◌,
}
use pic_agentic.Common.Dict
use pic_agentic.Common.Value.{Value, null, dict, Fields, end, field, get_field}
use pic_agentic.Agenda.Model.{AgendaSim, Leaf, AgendaGroup, simulations}
use pic_agentic.Agenda.Campaign.{Campaign, truthy}
use pic_agentic.Agenda.Engine.{Engine}

-- `{"sim": spec["sim"]}`, or the whole spec where it has no `sim`
abbrev pub wire_payload : Fields → Option Value → Fields
wire_payload spec none = spec
wire_payload spec (some null) = spec
wire_payload spec (some v) = field "sim" v end

-- `payload["point"] = dict(point)`
unfoldable pub put_field : String → Value → Fields → Fields
put_field key v end = field key v end
put_field key v (field k w rest) =
    if str_eq k key then field k v rest else field k w (put_field key v rest)

abbrev pub with_point : Option Fields → Fields → Fields
with_point none payload = payload
with_point (some point) payload = put_field "point" (dict point) payload

module _ (e : Engine) where
  unfoldable pub wire_hash : Fields → Option Fields → String
  unfolding put_field get_field
  wire_hash spec point = e.spec_hash (with_point point (wire_payload spec (get_field "sim" spec)))

  unfoldable pub key_of : Fields → Option Fields → String
  key_of spec point = elim e.reuse_key [ none ↦ wire_hash spec point | some key ↦ key spec point ]

  -- the `seed` of `_idempotency_key_for`; the separator is the character 0
  unfoldable pub seed : Campaign → String → Fields → String
  seed c path spec = concat c.name (concat "\0" (concat path (concat "\0" (e.spec_hash spec))))

  -- `_idempotency_key_for`
  unfoldable pub idempotency_key : Campaign → String → Fields → String
  idempotency_key c path spec = e.digest (seed c path spec)

  -- The first leaf, of another path, with the same wire payload.
  unfoldable pub collision : String → String → List Leaf → Option String
  collision path digest [] = none
  collision path digest ((other, s) ∷ leaves) =
      if not (str_eq other path) && str_eq (wire_hash s.spec none) digest
      then some other
      else collision path digest leaves

  -- `[(path, sim) for path, sim in agenda.simulations() if sim.sim_id]`
  unfoldable pub with_sim_id : List Leaf → List Leaf
  with_sim_id [] = []
  with_sim_id ((path, s) ∷ leaves) =
      let rest = with_sim_id leaves in if truthy s.sim_id then (path, s) ∷ rest else rest

  -- `dict(campaign.agenda.simulations())[path]`: the last leaf of that path
  unfoldable pub leaf_by_path : String → List Leaf → Option AgendaSim
  leaf_by_path path [] = none
  leaf_by_path path ((q, s) ∷ leaves) = elim (leaf_by_path path leaves) [
    | some later ↦ some later
    | none ↦ if str_eq q path then some s else none
  ]

  unfoldable pub pending_leaves : List Leaf → List String → List Leaf
  pending_leaves leaves [] = []
  pending_leaves leaves (path ∷ paths) =
      let rest = pending_leaves leaves paths in
      elim (leaf_by_path path leaves) [ none ↦ rest | some s ↦ (path, s) ∷ rest ]

  -- The loop over `enumerate(pending)`: `before` is the submitted leaves and `pending[:index]`.
  unfoldable pub first_collision : List Leaf → List Leaf → Option (String × String)
  first_collision before [] = none
  first_collision before ((path, s) ∷ leaves) =
      let rest = first_collision (before ++ (path, s) ∷ []) leaves in
      elim (collision path (wire_hash s.spec none) before) [
        | some other ↦ some (path, other)
        | none ↦ rest
      ]

  -- `_reject_duplicate_specs`: the two paths of the `DuplicateSpecError`, if it is raised.
  unfoldable pub duplicate_specs : Campaign → List String → Option (String × String)
  duplicate_specs c submit_paths =
      let leaves = simulations c.agenda in
      first_collision (with_sim_id leaves) (pending_leaves leaves submit_paths)

  -- `_reject_duplicate_spec`
  unfoldable pub duplicate_spec : Campaign → String → Fields → Option String
  duplicate_spec c path spec =
      collision path (wire_hash spec none) (with_sim_id (simulations c.agenda))
