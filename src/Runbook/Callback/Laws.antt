-- ===== src/Runbook/Callback/Laws.antt =====
-- What the buffer of runbook/callback_context_handler_unix.go keeps of what a script writes.
use jec.Prelude.{
  ℕ, zero, suc, ◌-◌, ◌<◌, ◌≤◌, ◌≡◌, ◌∙◌, refl, ap, List, [], ◌∷◌, ◌++◌, replicate, length, take,
  All, arith,
}
use jec.Runbook.Callback.{copy, trim_left, trim_right, trim, put_back}

-- A text without the byte 0.
abbrev pub NoZero : List ℕ → Type 0
NoZero = All (λ b. 0 < b)

copy_zeros :
    (n : ℕ) (xs : List ℕ) → copy (replicate n 0) xs ≡ take n xs ++ replicate (n - length xs) 0
unfolding copy
copy_zeros zero xs = ground arith
copy_zeros (suc n) [] = let e : suc n ≡ suc n - 0 = omega arith in ap (λ m. replicate m 0) e
copy_zeros (suc n) (x ∷ xs) =
    ap (λ l. x ∷ l) (copy_zeros n xs)
    ∙ (let e : n - length xs ≡ suc n - suc (length xs) = omega arith in
        ap (λ m. x ∷ (take n xs ++ replicate m 0)) e)

trim_right_zeros : (n : ℕ) → trim_right (replicate n 0) ≡ []
unfolding trim_right
trim_right_zeros zero = refl
trim_right_zeros (suc n) = rw (trim_right_zeros n) refl

put_back_some : (x : ℕ) (ys : List ℕ) → 0 < x → put_back x ys ≡ x ∷ ys
put_back_some x [] h = ground arith
put_back_some x (y ∷ ys) h = refl

trim_left_some : (x : ℕ) (ys : List ℕ) → 0 < x → trim_left (x ∷ ys) ≡ x ∷ ys
unfolding trim_left
trim_left_some x ys h = ground arith

trim_right_pad : (xs : List ℕ) (n : ℕ) → NoZero xs → trim_right (xs ++ replicate n 0) ≡ xs
unfolding trim_right
trim_right_pad [] n clean = trim_right_zeros n
trim_right_pad (x ∷ xs) n (some_bit, clean) =
    rw (trim_right_pad xs n clean) (put_back_some x xs some_bit)

trim_left_zeros : (n : ℕ) → trim_left (replicate n 0) ≡ []
unfolding trim_left
trim_left_zeros zero = refl
trim_left_zeros (suc n) = trim_left_zeros n

trim_pad : (xs : List ℕ) (n : ℕ) → NoZero xs → trim (xs ++ replicate n 0) ≡ xs
unfolding trim trim_left
trim_pad [] n clean = ap trim_right (trim_left_zeros n)
trim_pad (x ∷ xs) n (some_bit, clean) =
    ap trim_right (trim_left_some x (xs ++ replicate n 0) some_bit)
    ∙ trim_right_pad (x ∷ xs) n (some_bit, clean)

pub trim_zeros : (n : ℕ) → trim (replicate n 0) ≡ []
trim_zeros n = trim_pad [] n tt

take-NoZero : (n : ℕ) (xs : List ℕ) → NoZero xs → NoZero (take n xs)
take-NoZero zero xs clean = tt
take-NoZero (suc n) [] clean = tt
take-NoZero (suc n) (x ∷ xs) (some_bit, clean) = (some_bit, take-NoZero n xs clean)

pub take_all : (n : ℕ) (xs : List ℕ) → length xs ≤ n → take n xs ≡ xs
take_all zero [] h = refl
take_all zero (x ∷ xs) h = absurd (omega arith)
take_all (suc n) [] h = refl
take_all (suc n) (x ∷ xs) h = ap (λ l. x ∷ l) (take_all n xs (omega arith))

-- What a trimmed buffer gives back of a text without the byte 0: the text, cut at the size of the buffer.
pub trim-copy : (n : ℕ) (xs : List ℕ) → NoZero xs → trim (copy (replicate n 0) xs) ≡ take n xs
trim-copy n xs clean =
    ap trim (copy_zeros n xs) ∙ trim_pad (take n xs) (n - length xs) (take-NoZero n xs clean)
