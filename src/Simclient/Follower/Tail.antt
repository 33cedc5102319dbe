-- ===== src/Simclient/Follower/Tail.antt =====
-- src/pic_agentic/simclient/follow.py: `_read_new_lines` on a file that grows.
use pic_agentic.Common.{
  ℕ, zero, suc, ◌+◌, ◌-◌, ◌≤◌, ◌≡◌, refl, sym, ap, ◌∙◌, false, some, List, [], ◌∷◌, ◌++◌, inl, inr,
  arith, length, length-append, ltb, nat_eq, Bool-cases,
}
use pic_agentic.Simclient.Follower.{whole_lines, take, drop, read_from, read_new_lines}

whole_lines-le : (bs : List ℕ) → whole_lines bs ≤ length bs
unfolding whole_lines
whole_lines-le [] = omega arith
whole_lines-le (b ∷ bs) = ground (arith, whole_lines-le bs)

length-drop : (n : ℕ) (bs : List ℕ) → length (drop n bs) ≡ length bs - n
length-drop n [] = omega arith
length-drop zero (b ∷ bs) = omega arith
length-drop (suc n) (b ∷ bs) = omega (arith, length-drop n bs)

drop_zero : (bs : List ℕ) → drop 0 bs ≡ bs
drop_zero [] = refl
drop_zero (b ∷ bs) = refl

drop-append : (n : ℕ) (xs ys : List ℕ) → n ≤ length xs → drop n (xs ++ ys) ≡ drop n xs ++ ys
drop-append zero xs ys h = drop_zero (xs ++ ys) ∙ sym (ap (λ (l : List ℕ). l ++ ys) (drop_zero xs))
drop-append (suc n) [] ys h = let bad : ◌≡◌ {A = ℕ} 0 1 = omega (arith, h) in cc
drop-append (suc n) (x ∷ xs) ys h = drop-append n xs ys (omega (arith, h))

drop-drop : (n k : ℕ) (bs : List ℕ) → drop k (drop n bs) ≡ drop (n + k) bs
drop-drop n k [] = refl
drop-drop zero k (b ∷ bs) = ap (λ (j : ℕ). drop j (b ∷ bs)) (omega arith)
drop-drop (suc n) k (b ∷ bs) = drop-drop n k bs ∙ ap (λ (j : ℕ). drop j (b ∷ bs)) (plus n k)
  where
    plus : (n k : ℕ) → suc (n + k) ≡ suc n + k
    plus n k = omega arith

take-append :
    (n k : ℕ) (xs ys : List ℕ)
    → n ≤ length xs
    → take (n + k) (xs ++ ys) ≡ take n xs ++ take k (drop n xs ++ ys)
take-append zero k xs ys h = take_zero xs ∙ rw (nothing xs, drop_zero xs) refl
  where
    nothing : (xs : List ℕ) → take 0 xs ≡ []
    nothing [] = refl
    nothing (x ∷ xs) = refl

    take_zero : (xs : List ℕ) → take (0 + k) (xs ++ ys) ≡ take k (xs ++ ys)
    take_zero xs = ap (λ (j : ℕ). take j (xs ++ ys)) (omega arith)
take-append (suc n) k [] ys h = let bad : ◌≡◌ {A = ℕ} 0 1 = omega (arith, h) in cc
take-append (suc n) k (x ∷ xs) ys h =
    ap (λ (j : ℕ). take j (x ∷ xs ++ ys)) (plus n k)
    ∙ ap (λ (l : List ℕ). x ∷ l) (take-append n k xs ys (omega (arith, h)))
  where
    plus : (n k : ℕ) → suc n + k ≡ suc (n + k)
    plus n k = omega arith

-- The newline that ends the whole lines of the first part is not passed over by the second.
whole_lines-append :
    (xs ys : List ℕ)
    → whole_lines (xs ++ ys) ≡ whole_lines xs + whole_lines (drop (whole_lines xs) xs ++ ys)
unfolding whole_lines
whole_lines-append [] ys = omega arith
whole_lines-append (x ∷ xs) ys =
    let ih = whole_lines-append xs ys in
    elim (Bool-cases (ltb 0 (whole_lines xs))) [
      | inl some_line ↦ rw some_line (ground (arith, ih))
      | inr no_line ↦ elim (Bool-cases (nat_eq x b'\n')) [
        | inl newline ↦ rw (no_line, newline, drop_zero xs) (ground arith)
        | inr other ↦ rw (no_line, other) (ground (arith, other))
      ]
    ]

-- Reading a file, and reading again when it has grown, consumes what one reading of the grown file from
-- the same offset consumes, with the same offset afterwards, if the file was not shorter than the
-- offset.
pub read_new_lines-append :
    (file more : List ℕ) (offset : ℕ)
    → offset ≤ length file
    → let first = read_new_lines (some file) offset in
      let second = read_new_lines (some (file ++ more)) first.0 in
      let once = read_new_lines (some (file ++ more)) offset in
      (second.0 ≡ once.0) × (first.1 ++ second.1 ≡ once.1)
unfolding read_new_lines read_from
read_new_lines-append file more offset h =
    let start : List ℕ = drop offset file in
    let n : ℕ = whole_lines start in
    let few : n ≤ length start = whole_lines-le start in
    let size : length start ≡ length file - offset = length-drop offset file in
    let in_file : ltb (length file) offset ≡ false = ground arith in
    let in_whole : ltb (length (file ++ more)) offset ≡ false =
      ground (arith, length-append file more) in
    let next_in : ltb (length (file ++ more)) (offset + n) ≡ false =
      ground (arith, length-append file more) in
    let grown : drop offset (file ++ more) ≡ start ++ more = drop-append offset file more h in
    let rest : drop (offset + n) (file ++ more) ≡ drop n start ++ more =
      drop-append (offset + n) file more (omega (arith, few, size, h))
      ∙ ap (λ (l : List ℕ). l ++ more) (sym (drop-drop offset n file)) in
    rw (in_file, in_whole, next_in, grown, rest)
      (
        rw (whole_lines-append start more) (omega arith),
        rw (whole_lines-append start more) (sym (take-append n _ start more few)),
      )
