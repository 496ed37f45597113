-- ===== src/Utf8/Padding.antt =====
-- Zero padding behind a text: it stays valid UTF-8, and trimming takes it off again.
use oasis_nvr.Prelude.{
  ℕ, zero, suc, ◌-◌, ◌≤◌, ◌≡◌, refl, ap, true, List, [], ◌∷◌, ◌++◌, arith, length, replicate, ◌==◌,
  ◌∙◌, Bool-cases, inl, inr,
}
use oasis_nvr.Utf8.{
  Text, Expect, start, one, two, after_three, after_four, at_start, next_expect, utf8_from, is_utf8,
  trim_zeros, drop_zero,
}

utf8_zeros : (n : ℕ) → utf8_from start (replicate n 0) ≡ true
unfolding utf8_from next_expect at_start
utf8_zeros zero = refl
utf8_zeros (suc n) = utf8_zeros n

utf8_from-append_zeros :
    (e : Expect) (xs : Text) (n : ℕ)
    → utf8_from e xs ≡ true
    → utf8_from e (xs ++ replicate n 0) ≡ true
unfolding utf8_from at_start
utf8_from-append_zeros start [] n h = utf8_zeros n
utf8_from-append_zeros one [] n h = cc h
utf8_from-append_zeros two [] n h = cc h
utf8_from-append_zeros (after_three a) [] n h = cc h
utf8_from-append_zeros (after_four a) [] n h = cc h
utf8_from-append_zeros e (x ∷ xs) n h =
    ground (arith, utf8_from-append_zeros (next_expect e x).1 xs n)

pub is_utf8-append_zeros :
    (xs : Text) (n : ℕ) → is_utf8 xs ≡ true → is_utf8 (xs ++ replicate n 0) ≡ true
unfolding is_utf8
is_utf8-append_zeros xs n h = utf8_from-append_zeros start xs n h

trim_zeros-zeros : (n : ℕ) → trim_zeros (replicate n 0) ≡ []
unfolding trim_zeros
trim_zeros-zeros zero = refl
trim_zeros-zeros (suc n) = rw (trim_zeros-zeros n)

pub trim_zeros-append_zeros : (xs : Text) (n : ℕ) → trim_zeros (xs ++ replicate n 0) ≡ trim_zeros xs
unfolding trim_zeros
trim_zeros-append_zeros [] n = trim_zeros-zeros n
trim_zeros-append_zeros (x ∷ xs) n = rw (trim_zeros-append_zeros xs n)

-- A text in a field of `n` bytes, filled up with zeros.
abbrev pub padded : ℕ → Text → List ℕ
padded n xs = xs ++ replicate (n - length xs) 0

padded-cons : (n x : ℕ) (xs : Text) → padded (suc n) (x ∷ xs) ≡ x ∷ padded n xs
padded-cons n x xs =
    let e : suc n - suc (length xs) ≡ n - length xs = omega arith in
    ap (λ (k : ℕ). x ∷ (xs ++ replicate k 0)) e

padded-nil : (n : ℕ) → padded (suc n) [] ≡ 0 ∷ padded n []
padded-nil n = let e : suc n - 0 ≡ suc (n - 0) = omega arith in ap (λ (k : ℕ). replicate k 0) e

drop_zero-padded :
    (n x : ℕ) (xs rest : Text) → padded n rest ≡ xs → padded (suc n) (drop_zero x rest) ≡ x ∷ xs
unfolding drop_zero
drop_zero-padded n x xs [] e = elim (Bool-cases (x == 0)) [
  | inl t ↦ let z : x ≡ 0 = ground arith in rw (t, z) (padded-nil n ∙ ap (◌∷◌ 0) e)
  | inr f ↦ rw f (padded-cons n x [] ∙ ap (◌∷◌ x) e)
]
drop_zero-padded n x xs (c ∷ cs) e = padded-cons n x (c ∷ cs) ∙ ap (◌∷◌ x) e

-- In its field a text and the text without the zeros at its end look the same.
pub trim_zeros-padded : (n : ℕ) (xs : Text) → length xs ≤ n → padded n (trim_zeros xs) ≡ padded n xs
unfolding trim_zeros
trim_zeros-padded n [] h = refl
trim_zeros-padded zero (x ∷ xs) h = absurd (omega arith)
trim_zeros-padded (suc n) (x ∷ xs) h =
    rw (padded-cons n x xs)
      (drop_zero-padded n x (padded n xs) (trim_zeros xs) (trim_zeros-padded n xs (omega arith)))

drop_zero-length-le : (x n : ℕ) (rest : Text) → length rest ≤ n → length (drop_zero x rest) ≤ suc n
unfolding drop_zero
drop_zero-length-le x n [] h = ground arith
drop_zero-length-le x n (c ∷ cs) h = omega arith

pub length-trim_zeros-le : (xs : Text) → length (trim_zeros xs) ≤ length xs
unfolding trim_zeros
length-trim_zeros-le [] = omega arith
length-trim_zeros-le (x ∷ xs) =
    drop_zero-length-le x (length xs) (trim_zeros xs) (length-trim_zeros-le xs)
