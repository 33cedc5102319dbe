-- ===== src/Common/Dict.antt =====
-- Python's `dict` with string keys, as the list of its items in insertion order.
use Prim.Native.String.{String}
use text.Mathlib.Text.{◌==◌ as str_eq}
use text.Mathlib.TextEquality.{eq_iff}
use text.Mathlib.TextPositions.{eq_refl}
use mathlib.Core.Path.{◌≡◌, refl}
use mathlib.Core.Option.{Option, none, some}
use mathlib.Core.List.{List, [], ◌∷◌}
use native.Mathlib.Omega.{arith}
use mathlib.Core.Path.{sym, ap, ◌∙◌, subst}
use mathlib.Core.Logic.{inl, inr}
use pic_agentic.Common.Tests.{if◌then◌else◌, Bool-cases, some-injective}
use pic_agentic.Common.Lists.{All}

abbrev pub Dict {ℓ} : Type ℓ → Type ℓ
Dict V = List (String × V)

module _ {ℓ} {V : Type ℓ} where
  -- `d.get(k)`
  unfoldable pub get : String → Dict V → Option V
  get k [] = none
  get k ((j, v) ∷ d) = if str_eq j k then some v else get k d

  -- `d[k] = v`: an old key keeps its place
  unfoldable pub put : String → V → Dict V → Dict V
  put k v [] = (k, v) ∷ []
  put k v ((j, w) ∷ d) = if str_eq j k then (j, v) ∷ d else (j, w) ∷ put k v d

  pub get-put :
      (k j : String) (v : V) (d : Dict V)
      → get j (put k v d) ≡ (if str_eq k j then some v else get j d)
  unfolding get put
  get-put k j v [] = refl
  get-put k j v ((i, w) ∷ d) = ground (arith, eq_iff k j, eq_iff i k, eq_iff i j, get-put k j v d)

  pub get-put_self : (k : String) (v : V) (d : Dict V) → get k (put k v d) ≡ some v
  get-put_self k v d = simp (get-put, eq_refl)

  pub put-put : (k : String) (v w : V) (d : Dict V) → put k w (put k v d) ≡ put k w d
  unfolding put
  put-put k v w [] = ground (arith, eq_refl k)
  put-put k v w ((j, u) ∷ d) = elim (Bool-cases (str_eq j k)) [
    | inl at ↦ rw (at, put, at) refl
    | inr off ↦ rw (off, put, off) (ap (λ (t : Dict V). (j, u) ∷ t) (put-put k v w d))
  ]

  pub put-get_same : (k : String) (v : V) (d : Dict V) → get k d ≡ some v → put k v d ≡ d
  unfolding get put
  put-get_same k v [] h = cc
  put-get_same k v ((j, u) ∷ d) h = elim (Bool-cases (str_eq j k)) [
    | inl at ↦ rw at (ap (λ (x : V). (j, x) ∷ d) (some-injective (sym h ∙ rw at)))
    | inr off ↦ rw off (ap (λ (t : Dict V). (j, u) ∷ t) (put-get_same k v d (rw off at h)))
  ]

-- A property of all the items of a dict.
module _ {ℓ κ} {V : Type ℓ} (P : String → V → Type κ) where
  abbrev pub AllItems : Dict V → Type κ
  AllItems d = All (λ (i : String × V). P i.0 i.1) d

  pub AllItems-put : (k : String) (v : V) (d : Dict V) → AllItems d → P k v → AllItems (put k v d)
  unfolding put
  AllItems-put k v [] h p = (p, tt)
  AllItems-put k v ((j, u) ∷ d) h p = elim (Bool-cases (str_eq j k)) [
    | inl at ↦ rw at (rw (sym ((eq_iff j k).0 at)) at p, h.1)
    | inr off ↦ rw off (h.0, AllItems-put k v d h.1 p)
  ]

  pub AllItems-get : (k : String) (v : V) (d : Dict V) → AllItems d → get k d ≡ some v → P k v
  unfolding get
  AllItems-get k v [] h e = cc
  AllItems-get k v ((j, u) ∷ d) h e = elim (Bool-cases (str_eq j k)) [
    | inl at ↦
        subst (λ (x : V). P k x) (some-injective (sym (rw at) ∙ e))
          (subst (λ (x : String). P x u) ((eq_iff j k).0 at) h.0)
    | inr off ↦ AllItems-get k v d h.1 (rw off at e)
  ]
