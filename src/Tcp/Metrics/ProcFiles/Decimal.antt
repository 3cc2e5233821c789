-- ===== src/Tcp/Metrics/ProcFiles/Decimal.antt =====
-- Decimal numbers in a text, and what an extraction makes of them.
use grpccapnp.Base.{
  ℕ, zero, suc, ◌+◌, ◌-◌, ◌*◌, ◌/◌, ◌%◌, ◌^◌, ◌<◌, ◌≡◌, refl, ap, ◌∙◌, Byte, Bytes, [], ◌∷◌, ◌++◌,
  true, false, arith, ltb, is_empty, All, Bool-cases, inl, inr, if◌then◌else◌,
}
use grpccapnp.Tcp.Metrics.ProcFiles.{
  is_space, is_digit, skip_spaces, leading_digits, number_from, split_sign, store_unsigned,
  read_unsigned,
}

-- With fuel for the number of digits.
unfoldable pub decimal_from : ℕ → ℕ → Bytes
decimal_from zero n = []
decimal_from (suc fuel) n =
    let more = decimal_from fuel (n / 10) in
    if ltb n 10 then (48 + n) ∷ [] else more ++ (48 + n % 10) ∷ []

-- A number as the system prints it.
unfoldable pub decimal : ℕ → Bytes
unfolding decimal_from
decimal n = decimal_from (suc n) n

number_from-append :
    (acc : ℕ) (xs : Bytes) (c : Byte)
    → number_from acc (xs ++ c ∷ []) ≡ 10 * number_from acc xs + (c - 48)
unfolding number_from
number_from-append acc [] c = refl
number_from-append acc (x ∷ xs) c = number_from-append (10 * acc + (x - 48)) xs c

number_from-decimal : (fuel n : ℕ) → n < fuel → number_from 0 (decimal_from fuel n) ≡ n
unfolding decimal_from number_from
number_from-decimal zero n h = absurd (omega arith)
number_from-decimal (suc fuel) n h = ground (
  arith,
  number_from-decimal fuel (n / 10),
  number_from-append 0 (decimal_from fuel (n / 10)) (48 + n % 10),
)

AllDigits-append :
    (xs : Bytes) (c : Byte)
    → All (λ d. is_digit d ≡ true) xs
    → is_digit c ≡ true
    → All (λ d. is_digit d ≡ true) (xs ++ c ∷ [])
AllDigits-append [] c h e = (e, tt)
AllDigits-append (x ∷ xs) c (h, hs) e = (h, AllDigits-append xs c hs e)

AllDigits-decimal : (fuel n : ℕ) → All (λ d. is_digit d ≡ true) (decimal_from fuel n)
unfolding decimal_from
AllDigits-decimal zero n = tt
AllDigits-decimal (suc fuel) n = elim (Bool-cases (ltb n 10)) [
  | inl small ↦ simp (small, if◌then◌else◌) (ground arith)
  | inr large ↦
      simp (large, if◌then◌else◌)
        (AllDigits-append (decimal_from fuel (n / 10)) (48 + n % 10)
          (AllDigits-decimal fuel (n / 10)) (ground arith))
]

is_empty-decimal : (fuel n : ℕ) → is_empty (decimal_from (suc fuel) n) ≡ false
unfolding decimal_from
is_empty-decimal fuel n = elim (Bool-cases (ltb n 10)) [
  | inl small ↦ simp (small, if◌then◌else◌) refl
  | inr large ↦ simp (large, if◌then◌else◌) (is_empty-append (decimal_from fuel (n / 10)) _)
]
  where
    is_empty-append : (xs : Bytes) (c : Byte) → is_empty (xs ++ c ∷ []) ≡ false
    is_empty-append [] c = refl
    is_empty-append (x ∷ xs) c = refl

-- The digits end at the next space.
leading_digits-space :
    (ds t : Bytes) → All (λ d. is_digit d ≡ true) ds → leading_digits (ds ++ 32 ∷ t) ≡ (ds, 32 ∷ t)
unfolding leading_digits
leading_digits-space [] t h = refl
leading_digits-space (d ∷ ds) t (h, hs) = simp (h, if◌then◌else◌, leading_digits-space ds t hs) refl

split_sign-digit :
    (d : Byte) (cs : Bytes) → is_digit d ≡ true → split_sign (d ∷ cs) ≡ (false, d ∷ cs)
unfolding split_sign
split_sign-digit d cs h = ground arith

store_value :
    (digits : Bytes)
    → is_empty digits ≡ false
    → number_from 0 digits < 2 ^ 64
    → store_unsigned false digits ≡ (number_from 0 digits, false)
unfolding store_unsigned
store_value digits e h = ground arith

read_digits :
    (old : ℕ) (r ds t : Bytes)
    → is_empty ds ≡ false
    → All (λ d. is_digit d ≡ true) ds
    → number_from 0 ds < 2 ^ 64
    → skip_spaces r ≡ ds ++ 32 ∷ t
    → read_unsigned old (record { rest = r; failed = false })
      ≡ (record { rest = 32 ∷ t; failed = false }, number_from 0 ds)
unfolding read_unsigned
read_digits old r [] t e h small is = absurd (ground (arith, e))
read_digits old r (d ∷ ds) t e h small is =
    simp
      (
        is,
        split_sign-digit d (ds ++ 32 ∷ t) h.0,
        leading_digits-space (d ∷ ds) t h,
        store_value (d ∷ ds) e small,
      )
      refl

-- Behind any spaces, a number that the system prints is read back.
pub read_unsigned-decimal :
    (old : ℕ) (r t : Bytes) (n : ℕ)
    → n < 2 ^ 64
    → skip_spaces r ≡ decimal n ++ 32 ∷ t
    → read_unsigned old (record { rest = r; failed = false })
      ≡ (record { rest = 32 ∷ t; failed = false }, n)
unfolding decimal
read_unsigned-decimal old r t n small is =
    let value = number_from-decimal (suc n) n (omega arith) in
    read_digits old r (decimal_from (suc n) n) t (is_empty-decimal n n)
      (AllDigits-decimal (suc n) n) (omega (arith, value, small)) is
    ∙ ap (λ q. (record { rest = 32 ∷ t; failed = false }, q)) value

skip_spaces-digits :
    (ds t : Bytes)
    → is_empty ds ≡ false
    → All (λ d. is_digit d ≡ true) ds
    → skip_spaces (ds ++ t) ≡ ds ++ t
unfolding skip_spaces
skip_spaces-digits [] t e h = absurd (ground (arith, e))
skip_spaces-digits (d ∷ ds) t e (h, hs) =
    let shown : is_space d ≡ false = ground (arith, h) in simp (shown, if◌then◌else◌) refl

pub skip_spaces-decimal : (n : ℕ) (t : Bytes) → skip_spaces (decimal n ++ t) ≡ decimal n ++ t
unfolding decimal
skip_spaces-decimal n t =
    skip_spaces-digits (decimal_from (suc n) n) t (is_empty-decimal n n)
      (AllDigits-decimal (suc n) n)
