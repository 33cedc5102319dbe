-- ===== src/Agenda/Engine/Hashing/Duplicates.antt =====
-- src/pic_agentic/agenda/engine.py: `_reject_duplicate_specs`.
use pic_agentic.Common.{
  String, ◌≡◌, ◌≢◌, refl, sym, true, Option, none, some, List, [], ◌∷◌, ◌++◌, ◌⊎◌, inl, inr, ◌↔◌,
  arith, All, All-append, str_eq, eq_iff, Bool-cases,
}
use pic_agentic.Agenda.Model.{Leaf, simulations}
use pic_agentic.Agenda.Campaign.{Campaign}
use pic_agentic.Agenda.Engine.{Engine}
use pic_agentic.Agenda.Engine.Hashing.{
  wire_hash, collision, first_collision, with_sim_id, pending_leaves, duplicate_specs,
}

-- Each element bears `R` to every later one.
abbrev pub Pairwise : (Leaf → Leaf → Type 0) → List Leaf → Type 0
Pairwise R [] = Unit
Pairwise R (l ∷ ls) = All (R l) ls × Pairwise R ls

module _ (e : Engine) where
  -- Leaves of one path, or with different wire hashes.
  abbrev pub Apart : Leaf → Leaf → Type 0
  Apart (path, s) (other, t) =
      (str_eq other path ≡ true) ⊎ (wire_hash e t.spec none ≢ wire_hash e s.spec none)

  Apart-sym : (l m : Leaf) → Apart l m → Apart m l
  Apart-sym (path, s) (other, t) (inl same) =
      inl (ground (arith, eq_iff path other, eq_iff other path))
  Apart-sym (path, s) (other, t) (inr differ) = inr (λ same. differ (sym same))

  collision-Apart :
      (l : Leaf) (before : List Leaf)
      → collision e l.0 (wire_hash e l.1.spec none) before ≡ none
      → All (Apart l) before
  unfolding collision
  collision-Apart l [] h = tt
  collision-Apart (path, s) ((other, t) ∷ ms) h = (
    elim (Bool-cases (str_eq other path)) [
      | inl same ↦ inl same
      | inr differs ↦ inr (λ same.
          let equal = (eq_iff (wire_hash e t.spec none) (wire_hash e s.spec none)).1 same in
          absurd (ground arith))
    ],
    collision-Apart (path, s) ms (ground arith),
  )

  Apart-collision :
      (l : Leaf) (before : List Leaf)
      → All (Apart l) before
      → collision e l.0 (wire_hash e l.1.spec none) before ≡ none
  unfolding collision
  Apart-collision l [] h = refl
  Apart-collision (path, s) ((other, t) ∷ ms) (inl same, h) =
      rw (same) (Apart-collision (path, s) ms h)
  Apart-collision (path, s) ((other, t) ∷ ms) (inr differ, h) =
      let a = wire_hash e t.spec none in
      let b = wire_hash e s.spec none in
      let rest = Apart-collision (path, s) ms h in
      elim (Bool-cases (str_eq other path)) [
        | inl same ↦ rw (same) rest
        | inr differs ↦ elim (Bool-cases (str_eq a b)) [
          | inl equal ↦ absurd (differ ((eq_iff a b).0 equal))
          | inr apart ↦ rw (differs, apart) rest
        ]
      ]

  both_none :
      (path : String) (o : Option String) (rest : Option (String × String))
      → elim o [ some other ↦ some (path, other) | none ↦ rest ] ≡ none
      → (o ≡ none) × (rest ≡ none)
  both_none path none rest h = (refl, h)
  both_none path (some other) rest h = cc

  first_none :
      (path : String) (o : Option String) (rest : Option (String × String))
      → o ≡ none
      → rest ≡ none
      → elim o [ some other ↦ some (path, other) | none ↦ rest ] ≡ none
  first_none path none rest h k = k
  first_none path (some other) rest h k = cc

  -- Of `before ++ l ∷ []`, what concerns `before` and what concerns `l`.
  split_last :
      (before : List Leaf) (l m : Leaf)
      → All (Apart m) (before ++ l ∷ [])
      → All (Apart m) before × Apart l m
  split_last [] l m h = (tt, Apart-sym m l h.0)
  split_last (b ∷ before) l m h = let rest = split_last before l m h.1 in ((h.0, rest.0), rest.1)

  split_lasts :
      (before : List Leaf) (l : Leaf) (ls : List Leaf)
      → All (λ m. All (Apart m) (before ++ l ∷ [])) ls
      → All (λ m. All (Apart m) before) ls × All (Apart l) ls
  split_lasts before l [] h = (tt, tt)
  split_lasts before l (m ∷ ls) h =
      let here = split_last before l m h.0 in
      let rest = split_lasts before l ls h.1 in ((here.0, rest.0), (here.1, rest.1))

  join_lasts :
      (before : List Leaf) (l : Leaf) (ls : List Leaf)
      → All (λ m. All (Apart m) before) ls
      → All (Apart l) ls
      → All (λ m. All (Apart m) (before ++ l ∷ [])) ls
  join_lasts before l [] h k = tt
  join_lasts before l (m ∷ ls) h k = (
    All-append (Apart m) before (l ∷ []) h.0 (Apart-sym l m k.0, tt),
    join_lasts before l ls h.1 k.1,
  )

  first_collision-Pairwise :
      (before pending : List Leaf)
      → first_collision e before pending ≡ none
      → All (λ m. All (Apart m) before) pending × Pairwise Apart pending
  unfolding first_collision
  first_collision-Pairwise before [] h = (tt, tt)
  first_collision-Pairwise before ((path, s) ∷ ls) h =
      let both = both_none path _ _ h in
      let (old, pairs) = first_collision-Pairwise (before ++ (path, s) ∷ []) ls both.1 in
      let (olds, fresh) = split_lasts before (path, s) ls old in
      ((collision-Apart (path, s) before both.0, olds), (fresh, pairs))

  Pairwise-first_collision :
      (before pending : List Leaf)
      → All (λ m. All (Apart m) before) pending
      → Pairwise Apart pending
      → first_collision e before pending ≡ none
  unfolding first_collision
  Pairwise-first_collision before [] h k = refl
  Pairwise-first_collision before ((path, s) ∷ ls) h k =
      first_none path _ _ (Apart-collision (path, s) before h.0) (
        Pairwise-first_collision (before ++ (path, s) ∷ []) ls
          (join_lasts before (path, s) ls h.1 k.0) k.1)

  -- `_reject_duplicate_specs` does not raise exactly when every leaf about to be submitted has a wire
  -- hash unlike that of each leaf of another path that has a simulation id, and any two of the leaves
  -- about to be submitted have one path or different wire hashes.
  pub duplicate_specs-none_iff :
      (c : Campaign) (paths : List String)
      → let leaves = simulations c.agenda in
        let pending = pending_leaves e leaves paths in
        (duplicate_specs e c paths ≡ none)
        ↔ All (λ m. All (Apart m) (with_sim_id e leaves)) pending × Pairwise Apart pending
  unfolding duplicate_specs
  duplicate_specs-none_iff c paths = (
    first_collision-Pairwise (with_sim_id e (simulations c.agenda))
        (pending_leaves e (simulations c.agenda) paths),
    λ (old, pairs).
        Pairwise-first_collision (with_sim_id e (simulations c.agenda))
          (pending_leaves e (simulations c.agenda) paths) old pairs,
  )
