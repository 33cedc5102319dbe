-- ===== src/Agenda/Engine/Hashing/CommandIds.antt =====
-- src/pic_agentic/agenda/engine.py: the command ids of `_idempotency_key_for`.
use text.Mathlib.TextLemmas.{cons-append, nil-append, append_cancel_left}
use pic_agentic.Common.{
  String, ◌≡◌, refl, sym, ◌∙◌, ap, false, List, [], ◌∷◌, ◌++◌, concat, contains_char, split_char,
  split_char_plain, split_char-append, split_char-injective,
}
use pic_agentic.Common.Value.{Fields}
use pic_agentic.Agenda.Campaign.{Campaign}
use pic_agentic.Agenda.Engine.{Engine}
use pic_agentic.Agenda.Engine.Hashing.{seed, idempotency_key}

module _ {ℓ} {A : Type ℓ} where
  abbrev last_or : A → List A → A
  last_or x [] = x
  last_or x (y ∷ ys) = last_or y ys

  abbrev all_but_last : List A → List A
  all_but_last [] = []
  all_but_last (x ∷ []) = []
  all_but_last (x ∷ y ∷ ys) = x ∷ all_but_last (y ∷ ys)

  last_or-snoc : (d x : A) (xs : List A) → last_or d (xs ++ x ∷ []) ≡ x
  last_or-snoc d x [] = refl
  last_or-snoc d x (y ∷ ys) = last_or-snoc y x ys

  all_but_last-snoc : (x : A) (xs : List A) → all_but_last (xs ++ x ∷ []) ≡ xs
  all_but_last-snoc x [] = refl
  all_but_last-snoc x (y ∷ []) = refl
  all_but_last-snoc x (y ∷ z ∷ zs) = ap (◌∷◌ y) (all_but_last-snoc x (z ∷ zs))

separator : (s : String) → concat "\0" s ≡ String.◌∷◌ "\0" s
separator s = cons-append "\0" String.[] s ∙ ap (String.◌∷◌ "\0") (nil-append s)

-- A text that ends in a separator and a text without one, in its parts.
split_tail :
    (path hash : String)
    → contains_char b'\0' hash ≡ false
    → split_char b'\0' (concat path (concat "\0" hash)) ≡ split_char b'\0' path ++ hash ∷ []
split_tail path hash h =
    rw (separator hash, split_char-append "\0" path hash, split_char_plain "\0" hash h)

-- Within one campaign, where neither spec hash contains the character 0 and the digest does not collide
-- at the two seeds, two submissions with one command id have one path and one spec hash.
pub idempotency_key-injective :
    (e : Engine) (c : Campaign) (p q : String) (a b : Fields)
    → contains_char b'\0' (e.spec_hash a) ≡ false
    → contains_char b'\0' (e.spec_hash b) ≡ false
    → (e.digest (seed e c p a) ≡ e.digest (seed e c q b) → seed e c p a ≡ seed e c q b)
    → idempotency_key e c p a ≡ idempotency_key e c q b
    → (p ≡ q) × (e.spec_hash a ≡ e.spec_hash b)
unfolding idempotency_key seed
idempotency_key-injective e c p q a b ha hb apart same =
    let tails = append_cancel_left "\0" _ _ (append_cancel_left c.name _ _ (apart same)) in
    let parts : split_char b'\0' p ++ e.spec_hash a ∷ []
        ≡ split_char b'\0' q ++ e.spec_hash b ∷ [] =
      sym (split_tail p (e.spec_hash a) ha)
      ∙ ap (split_char b'\0') tails
      ∙ split_tail q (e.spec_hash b) hb in
    let paths =
      sym (all_but_last-snoc (e.spec_hash a) (split_char b'\0' p))
      ∙ ap all_but_last parts
      ∙ all_but_last-snoc (e.spec_hash b) (split_char b'\0' q) in
    let hashes =
      sym (last_or-snoc "" (e.spec_hash a) (split_char b'\0' p))
      ∙ ap (last_or "") parts
      ∙ last_or-snoc "" (e.spec_hash b) (split_char b'\0' q) in
    (split_char-injective "\0" p q paths, hashes)
