-- ===== src/Common/Float.antt =====
-- Python's `float`: the finite values are integer multiples of one fixed unit, added and compared
-- exactly (rounding is not modelled); `nan` and the infinities behave as in IEEE 754.
use Prim.Native.Nat.{ℕ, suc, ◌+◌, ◌-◌, ◌≤◌}
use mathlib.Core.Path.{◌≡◌, refl}
use mathlib.Core.Logic.{◌⊎◌, inl, inr}
use mathlib.Core.Bool.{Bool, true, false, not}
use native.Mathlib.Omega.{arith}
use pic_agentic.Common.Tests.{ltb, leb, if◌then◌else◌}

-- `negsuc n` is -(n + 1).
pub data ℤ : Type 0 where
  pos : ℕ → ℤ
  negsuc : ℕ → ℤ

abbrev pub pos_part : ℤ → ℕ
pos_part (pos n) = n
pos_part (negsuc n) = 0

abbrev pub neg_part : ℤ → ℕ
neg_part (pos n) = 0
neg_part (negsuc n) = suc n

-- a - b, as an integer.
abbrev pub sub_ℕ : ℕ → ℕ → ℤ
sub_ℕ a b = if leb b a then pos (a - b) else negsuc (b - a - 1)

infixl 65 ◌+ℤ◌
unfoldable pub ◌+ℤ◌ : ℤ → ℤ → ℤ
a +ℤ b = sub_ℕ (pos_part a + pos_part b) (neg_part a + neg_part b)

unfoldable pub neg : ℤ → ℤ
neg a = sub_ℕ (neg_part a) (pos_part a)

abbrev pub ltb_ℤ : ℤ → ℤ → Bool
ltb_ℤ a b = ltb (pos_part a + neg_part b) (pos_part b + neg_part a)

pub data Float : Type 0 where
  nan : Float
  inf : Float
  neg_inf : Float
  fin : ℤ → Float

abbrev pub zero_f : Float
zero_f = fin (pos 0)

-- `x + y`
unfoldable pub add : Float → Float → Float
add nan y = nan
add inf nan = nan
add inf neg_inf = nan
add inf y = inf
add neg_inf nan = nan
add neg_inf inf = nan
add neg_inf y = neg_inf
add (fin a) nan = nan
add (fin a) inf = inf
add (fin a) neg_inf = neg_inf
add (fin a) (fin b) = fin (a +ℤ b)

-- `-x`
unfoldable pub negate : Float → Float
negate nan = nan
negate inf = neg_inf
negate neg_inf = inf
negate (fin a) = fin (neg a)

-- `x - y`
unfoldable pub sub : Float → Float → Float
sub x y = add x (negate y)

-- `x > y`: false as soon as one side is `nan`
unfoldable pub gtb : Float → Float → Bool
gtb nan y = false
gtb inf nan = false
gtb inf inf = false
gtb inf y = true
gtb neg_inf y = false
gtb (fin a) nan = false
gtb (fin a) inf = false
gtb (fin a) neg_inf = true
gtb (fin a) (fin b) = ltb_ℤ b a

-- `x <= y`: false as soon as one side is `nan`
unfoldable pub le_float : Float → Float → Bool
le_float nan y = false
le_float x nan = false
le_float (fin a) (fin b) = not (ltb_ℤ b a)
le_float neg_inf y = true
le_float inf inf = true
le_float inf y = false
le_float (fin a) inf = true
le_float (fin a) neg_inf = false

-- The order of the finite and infinite values. `nan` is neither below nor above anything.
unfoldable pub IsAtMost : Float → Float → Type 0
IsAtMost neg_inf neg_inf = Unit
IsAtMost neg_inf (fin b) = Unit
IsAtMost neg_inf inf = Unit
IsAtMost neg_inf nan = ⊥
IsAtMost (fin a) neg_inf = ⊥
IsAtMost (fin a) (fin b) = pos_part a + neg_part b ≤ pos_part b + neg_part a
IsAtMost (fin a) inf = Unit
IsAtMost (fin a) nan = ⊥
IsAtMost inf neg_inf = ⊥
IsAtMost inf (fin b) = ⊥
IsAtMost inf inf = Unit
IsAtMost inf nan = ⊥
IsAtMost nan y = ⊥

pub le_float→IsAtMost : (x y : Float) → le_float x y ≡ true → IsAtMost x y
unfolding le_float IsAtMost
le_float→IsAtMost nan y h = cc
le_float→IsAtMost neg_inf nan h = cc
le_float→IsAtMost neg_inf neg_inf h = tt
le_float→IsAtMost neg_inf (fin b) h = tt
le_float→IsAtMost neg_inf inf h = tt
le_float→IsAtMost (fin a) nan h = cc
le_float→IsAtMost (fin a) neg_inf h = cc
le_float→IsAtMost (fin a) (fin b) h = ground arith
le_float→IsAtMost (fin a) inf h = tt
le_float→IsAtMost inf nan h = cc
le_float→IsAtMost inf neg_inf h = cc
le_float→IsAtMost inf (fin b) h = cc
le_float→IsAtMost inf inf h = tt

pub IsAtMost→le_float : (x y : Float) → IsAtMost x y → le_float x y ≡ true
unfolding le_float IsAtMost
IsAtMost→le_float nan y h = absurd h
IsAtMost→le_float neg_inf nan h = absurd h
IsAtMost→le_float neg_inf neg_inf h = refl
IsAtMost→le_float neg_inf (fin b) h = refl
IsAtMost→le_float neg_inf inf h = refl
IsAtMost→le_float (fin a) nan h = absurd h
IsAtMost→le_float (fin a) neg_inf h = absurd h
IsAtMost→le_float (fin a) (fin b) h = ground arith
IsAtMost→le_float (fin a) inf h = refl
IsAtMost→le_float inf nan h = absurd h
IsAtMost→le_float inf neg_inf h = absurd h
IsAtMost→le_float inf (fin b) h = absurd h
IsAtMost→le_float inf inf h = refl

-- `x > y` is false for ordered values, and as soon as one of them is `nan`.
pub gtb→IsAtMost : (x y : Float) → gtb x y ≡ false → IsAtMost x y ⊎ ((x ≡ nan) ⊎ (y ≡ nan))
unfolding gtb IsAtMost
gtb→IsAtMost nan y h = inr (inl refl)
gtb→IsAtMost neg_inf nan h = inr (inr refl)
gtb→IsAtMost neg_inf neg_inf h = inl tt
gtb→IsAtMost neg_inf (fin b) h = inl tt
gtb→IsAtMost neg_inf inf h = inl tt
gtb→IsAtMost (fin a) nan h = inr (inr refl)
gtb→IsAtMost (fin a) neg_inf h = cc
gtb→IsAtMost (fin a) (fin b) h = inl (ground arith)
gtb→IsAtMost (fin a) inf h = inl tt
gtb→IsAtMost inf nan h = inr (inr refl)
gtb→IsAtMost inf neg_inf h = cc
gtb→IsAtMost inf (fin b) h = cc
gtb→IsAtMost inf inf h = inl tt

gtb-ordered : (x y : Float) → IsAtMost x y → gtb x y ≡ false
unfolding gtb IsAtMost
gtb-ordered nan y h = refl
gtb-ordered neg_inf y h = refl
gtb-ordered (fin a) nan h = refl
gtb-ordered (fin a) neg_inf h = absurd h
gtb-ordered (fin a) (fin b) h = ground arith
gtb-ordered (fin a) inf h = refl
gtb-ordered inf nan h = refl
gtb-ordered inf neg_inf h = absurd h
gtb-ordered inf (fin b) h = absurd h
gtb-ordered inf inf h = refl

gtb-nan : (x : Float) → gtb x nan ≡ false
unfolding gtb
gtb-nan nan = refl
gtb-nan neg_inf = refl
gtb-nan (fin a) = refl
gtb-nan inf = refl

gtb-nan_left : (y : Float) → gtb nan y ≡ false
unfolding gtb
gtb-nan_left y = refl

pub IsAtMost→gtb : (x y : Float) → IsAtMost x y ⊎ ((x ≡ nan) ⊎ (y ≡ nan)) → gtb x y ≡ false
IsAtMost→gtb x y (inl le) = gtb-ordered x y le
IsAtMost→gtb x y (inr (inl e)) = rw e (gtb-nan_left y)
IsAtMost→gtb x y (inr (inr e)) = rw e (gtb-nan x)

-- `max(0.0, x)`: the first argument unless the second is greater
unfoldable pub clamp : Float → Float
clamp x = if gtb x zero_f then x else zero_f

-- `math.isfinite(x)`
abbrev pub is_finite : Float → Bool
is_finite (fin a) = true
is_finite _ = false

-- A cost that is corrected to what it was estimated to be stays as it is.
pub add-sub_cancel : (a e : ℤ) → add (fin a) (sub (fin e) (fin e)) ≡ fin a
unfolding add sub negate neg ◌+ℤ◌
add-sub_cancel a e = ground arith

pub add-zero_f : (x : Float) → add x zero_f ≡ x
unfolding add ◌+ℤ◌
add-zero_f nan = refl
add-zero_f inf = refl
add-zero_f neg_inf = refl
add-zero_f (fin a) = ground arith
