-- ===== src/Base/Chunks.antt =====
-- A list cut into pieces of `n` items, the last one perhaps shorter.
use Prim.Native.Nat.{ℕ, zero, suc, ◌+◌, ◌*◌, ◌≤◌, ◌<◌}
use mathlib.Core.Path.{◌≡◌, refl, ap, ◌∙◌}
use mathlib.Core.List.{List, [], ◌∷◌, ◌++◌, flatten}
use native.Mathlib.Omega.{arith}
use grpccapnp.Base.Lists.{length, take, drop, length-take, length-drop, take-append-drop, drop-all}
use native.Mathlib.Decide.{dec_le}

-- `k` is `len` divided by `n`, rounded up.
abbrev pub IsCeiling : ℕ → ℕ → ℕ → Type 0
IsCeiling n len k = (len ≤ k * n) × (k * n < len + n)

module _ {ℓ} {A : Type ℓ} where
  -- With fuel for the number of pieces.
  unfoldable pub pieces : ℕ → ℕ → List A → List (List A)
  pieces zero n xs = []
  pieces (suc fuel) n [] = []
  pieces (suc fuel) n (x ∷ xs) = take n (x ∷ xs) ∷ pieces fuel n (drop n (x ∷ xs))

  pub pieces_fuel :
      (f g n : ℕ) (xs : List A)
      → 0 < n
      → length xs ≤ f
      → length xs ≤ g
      → pieces f n xs ≡ pieces g n xs
  unfolding pieces
  pieces_fuel zero zero n [] p h k = refl
  pieces_fuel zero (suc g) n [] p h k = refl
  pieces_fuel (suc f) zero n [] p h k = refl
  pieces_fuel (suc f) (suc g) n [] p h k = refl
  pieces_fuel zero g n (x ∷ xs) p h k = absurd (omega arith)
  pieces_fuel (suc f) zero n (x ∷ xs) p h k = absurd (omega arith)
  pieces_fuel (suc f) (suc g) n (x ∷ xs) p h k = ap (◌∷◌ (take n (x ∷ xs))) (
      pieces_fuel f g n (drop n (x ∷ xs)) p (omega (arith, length-drop n (x ∷ xs)))
        (omega (arith, length-drop n (x ∷ xs))))

  unfoldable pub chunks_of : ℕ → List A → List (List A)
  chunks_of n xs = pieces (length xs) n xs

  pub chunks_of-nil : (n : ℕ) → chunks_of n [] ≡ []
  unfolding chunks_of pieces
  chunks_of-nil n = refl

  pub chunks_of-cons :
      (n : ℕ) (x : A) (xs : List A)
      → 0 < n
      → chunks_of n (x ∷ xs) ≡ take n (x ∷ xs) ∷ chunks_of n (drop n (x ∷ xs))
  unfolding chunks_of pieces
  chunks_of-cons n x xs p = ap (◌∷◌ (take n (x ∷ xs))) (
      pieces_fuel (length xs) (length (drop n (x ∷ xs))) n (drop n (x ∷ xs)) p
        (omega (arith, length-drop n (x ∷ xs))) (omega arith))

  flatten-pieces : (f n : ℕ) (xs : List A) → 0 < n → length xs ≤ f → flatten (pieces f n xs) ≡ xs
  unfolding pieces flatten
  flatten-pieces zero n [] p h = refl
  flatten-pieces zero n (x ∷ xs) p h = absurd (omega arith)
  flatten-pieces (suc f) n [] p h = refl
  flatten-pieces (suc f) n (x ∷ xs) p h =
      ap (◌++◌ (take n (x ∷ xs)))
        (flatten-pieces f n (drop n (x ∷ xs)) p (omega (arith, length-drop n (x ∷ xs))))
      ∙ take-append-drop n (x ∷ xs)

  -- The pieces put together are the list.
  pub flatten-chunks_of : (n : ℕ) (xs : List A) → 0 < n → flatten (chunks_of n xs) ≡ xs
  unfolding chunks_of
  flatten-chunks_of n xs p = flatten-pieces (length xs) n xs p (omega arith)

  -- Every piece but the last has `n` items, and the last one has 1 to `n`.
  abbrev pub IsCut : ℕ → List (List A) → Type 0
  IsCut n [] = Unit {0}
  IsCut n (c ∷ []) = (0 < length c) × (length c ≤ n)
  IsCut n (c ∷ d ∷ cs) = (length c ≡ n) × IsCut n (d ∷ cs)

  IsCut-cons :
      (n : ℕ) (xs : List A) (cs : List (List A))
      → 0 < n
      → 0 < length xs
      → (length xs ≤ n → cs ≡ [])
      → IsCut n cs
      → IsCut n (take n xs ∷ cs)
  IsCut-cons n xs [] p q h k = omega (arith, length-take n xs)
  IsCut-cons n xs (c ∷ cs) p q h k = elim (dec_le (length xs) n) [
    | yes short ↦ absurd (omega (arith, ap length (h short)))
    | no long ↦ (omega (arith, length-take n xs), k)
  ]

  pieces-nil : (f n : ℕ) → pieces f n [] ≡ []
  unfolding pieces
  pieces-nil zero n = refl
  pieces-nil (suc f) n = refl

  pieces-IsCut : (f n : ℕ) (xs : List A) → 0 < n → length xs ≤ f → IsCut n (pieces f n xs)
  unfolding pieces
  pieces-IsCut zero n xs p h = tt
  pieces-IsCut (suc f) n [] p h = tt
  pieces-IsCut (suc f) n (x ∷ xs) p h =
      IsCut-cons n (x ∷ xs) (pieces f n (drop n (x ∷ xs))) p (omega arith)
        (λ short. ap (pieces f n) (drop-all n (x ∷ xs) short) ∙ pieces-nil f n)
        (pieces-IsCut f n (drop n (x ∷ xs)) p (omega (arith, length-drop n (x ∷ xs))))

  pub chunks_of-IsCut : (n : ℕ) (xs : List A) → 0 < n → IsCut n (chunks_of n xs)
  unfolding chunks_of
  chunks_of-IsCut n xs p = pieces-IsCut (length xs) n xs p (omega arith)

  length-pieces :
      (f n : ℕ) (xs : List A)
      → 0 < n
      → length xs ≤ f
      → IsCeiling n (length xs) (length (pieces f n xs))
  unfolding pieces
  length-pieces zero n [] p h = omega arith
  length-pieces zero n (x ∷ xs) p h = absurd (omega arith)
  length-pieces (suc f) n [] p h = omega arith
  length-pieces (suc f) n (x ∷ xs) p h =
      let ih = length-pieces f n (drop n (x ∷ xs)) p (omega (arith, length-drop n (x ∷ xs))) in
      elim (dec_le (length (x ∷ xs)) n) [
        | yes short ↦
            let none_left : length (pieces f n (drop n (x ∷ xs))) ≡ 0 =
              ap length (ap (pieces f n) (drop-all n (x ∷ xs) short) ∙ pieces-nil f n) in
            rw none_left (omega arith)
        | no long ↦ omega (arith, ih, length-drop n (x ∷ xs))
      ]

  pub length-chunks_of :
      (n : ℕ) (xs : List A) → 0 < n → IsCeiling n (length xs) (length (chunks_of n xs))
  unfolding chunks_of
  length-chunks_of n xs p = length-pieces (length xs) n xs p (omega arith)
