-- ===== src/Common/Texts.antt =====
-- Lists of texts compared whole, and texts split at one character.
use Prim.Native.Char.{Char, code}
use Prim.Native.String.{String}
use text.Mathlib.Text.{◌==◌ as str_eq}
use text.Mathlib.TextEquality.{eq_iff, Char-path}
use text.Mathlib.TextLemmas.{cons-append, nil-append}
use mathlib.Core.Path.{◌≡◌, refl, ap, ap₂, sym, ◌∙◌}
use mathlib.Core.Logic.{◌↔◌, inl, inr}
use mathlib.Core.Bool.{Bool, true, false, ◌&&◌}
use mathlib.Core.List.{List, [], ◌∷◌, ◌++◌}
use native.Mathlib.Omega.{arith}
use pic_agentic.Common.Tests.{nat_eq, Bool-cases}
use pic_agentic.Common.Text.{concat, contains_char, split_char, push_char}

-- Equality of two tuples or lists of texts.
unfoldable pub texts_eq : List String → List String → Bool
texts_eq [] [] = true
texts_eq (a ∷ xs) (b ∷ ys) = str_eq a b && texts_eq xs ys
texts_eq _ _ = false

pub texts_eq_iff : (a b : List String) → (texts_eq a b ≡ true) ↔ (a ≡ b)
unfolding texts_eq
texts_eq_iff [] [] = ((λ h. refl), (λ h. refl))
texts_eq_iff [] (b ∷ ys) = ((λ h. cc), (λ h. cc))
texts_eq_iff (a ∷ xs) [] = ((λ h. cc), (λ h. cc))
texts_eq_iff (a ∷ xs) (b ∷ ys) = (
  (λ h. ground (arith, eq_iff a b, texts_eq_iff xs ys)),
  (λ h. ground (arith, eq_iff a b, texts_eq_iff xs ys)),
)

-- The separator is a character `c`, by its code.
module _ (c : Char) where
  pub split_char_plain :
      (s : String) → contains_char (code c) s ≡ false → split_char (code c) s ≡ s ∷ []
  unfolding split_char contains_char
  split_char_plain String.[] h = refl
  split_char_plain (String.◌∷◌ d s) h = ground (arith, split_char_plain s)

  pub split_char-cons :
      (s : String) → (x : String) × (xs : List String) × (split_char (code c) s ≡ x ∷ xs)
  unfolding split_char push_char
  split_char-cons String.[] = (String.[], [], refl)
  split_char-cons (String.◌∷◌ d s) =
      let (x, xs, e) = split_char-cons s in
      elim (Bool-cases (nat_eq (code d) (code c))) [
        | inl at ↦ (String.[], split_char (code c) s, rw at)
        | inr off ↦ (String.◌∷◌ d x, xs, rw (off, e))
      ]

  push_char-append :
      (d : Char) (l ys : List String)
      → ((x : String) × (xs : List String) × (l ≡ x ∷ xs))
      → push_char d (l ++ ys) ≡ push_char d l ++ ys
  unfolding push_char
  push_char-append d l ys (x, xs, e) = rw e

  pub split_char-append :
      (s t : String)
      → split_char (code c) (concat s (String.◌∷◌ c t))
        ≡ split_char (code c) s ++ split_char (code c) t
  unfolding split_char
  split_char-append String.[] t = rw (nil-append (String.◌∷◌ c t)) (ground arith)
  split_char-append (String.◌∷◌ d s) t =
      rw (cons-append d s (String.◌∷◌ c t), split_char-append s t)
        (elim (Bool-cases (nat_eq (code d) (code c))) [
          | inl at ↦ rw at
          | inr off ↦ rw off (
              push_char-append d (split_char (code c) s) (split_char (code c) t)
                (split_char-cons s))
        ])

  -- Puts the separator back.
  unsplit : List String → String
  unsplit [] = String.[]
  unsplit (x ∷ []) = x
  unsplit (x ∷ y ∷ ys) = concat x (String.◌∷◌ c (unsplit (y ∷ ys)))

  unsplit-push_char :
      (d : Char) (l : List String)
      → ((x : String) × (xs : List String) × (l ≡ x ∷ xs))
      → unsplit (push_char d l) ≡ String.◌∷◌ d (unsplit l)
  unfolding unsplit push_char
  unsplit-push_char d l (x, [], e) = rw e
  unsplit-push_char d l (x, y ∷ ys, e) = rw e (cons-append d x _)

  unsplit_empty :
      (l : List String)
      → ((x : String) × (xs : List String) × (l ≡ x ∷ xs))
      → unsplit (String.[] ∷ l) ≡ String.◌∷◌ c (unsplit l)
  unfolding unsplit
  unsplit_empty l (x, xs, e) = rw e (nil-append _)

  unsplit-split_char : (s : String) → unsplit (split_char (code c) s) ≡ s
  unfolding split_char unsplit
  unsplit-split_char String.[] = refl
  unsplit-split_char (String.◌∷◌ d s) = elim (Bool-cases (nat_eq (code d) (code c))) [
    | inl at ↦
        let same : code c ≡ code d = ground arith in
        rw at (
          unsplit_empty (split_char (code c) s) (split_char-cons s)
          ∙ ap₂ String.◌∷◌ (Char-path c d same) (unsplit-split_char s))
    | inr off ↦ rw off (
        unsplit-push_char d (split_char (code c) s) (split_char-cons s)
        ∙ ap (String.◌∷◌ d) (unsplit-split_char s))
  ]

  pub split_char-injective : (s t : String) → split_char (code c) s ≡ split_char (code c) t → s ≡ t
  split_char-injective s t h = sym (unsplit-split_char s) ∙ ap unsplit h ∙ unsplit-split_char t
