-- ===== src/Common/Lists.antt =====
-- Lists measured by native numbers, under the library's names, and slices of them: the bytes of a C
-- object are a list, and a pointer into it is an offset.
use Prim.Native.Nat.{ℕ, zero, suc, ◌+◌, ◌-◌, ◌≤◌, min}
use Prim.Native.Nat.add
use mathlib.Core.Path.{◌≡◌, refl, ap}
use mathlib.Core.List.{List, [], ◌∷◌, ◌++◌}
use native.Mathlib.Omega.{arith}

module _ {ℓ} {A : Type ℓ} where
  abbrev pub length : List A → ℕ
  length [] = 0
  length (x ∷ xs) = suc (length xs)

  abbrev pub take : ℕ → List A → List A
  take zero xs = []
  take (suc n) [] = []
  take (suc n) (x ∷ xs) = x ∷ take n xs

  abbrev pub drop : ℕ → List A → List A
  drop zero xs = xs
  drop (suc n) [] = []
  drop (suc n) (x ∷ xs) = drop n xs

  abbrev pub replicate : ℕ → A → List A
  replicate zero a = []
  replicate (suc n) a = a ∷ replicate n a

module _ {ℓ} {A : Type ℓ} where
  pub length-append : (xs ys : List A) → length (xs ++ ys) ≡ length xs + length ys
  length-append [] ys = omega arith
  length-append (x ∷ xs) ys = omega (arith, length-append xs ys)

  pub length-take : (n : ℕ) (xs : List A) → length (take n xs) ≡ min n (length xs)
  length-take zero xs = omega arith
  length-take (suc n) [] = omega arith
  length-take (suc n) (x ∷ xs) = omega (arith, length-take n xs)

  pub length-drop : (n : ℕ) (xs : List A) → length (drop n xs) ≡ length xs - n
  length-drop zero xs = omega arith
  length-drop (suc n) [] = omega arith
  length-drop (suc n) (x ∷ xs) = omega (arith, length-drop n xs)

  pub length-replicate : (n : ℕ) (a : A) → length (replicate n a) ≡ n
  length-replicate zero a = refl
  length-replicate (suc n) a = ap suc (length-replicate n a)

  pub take-append : (n : ℕ) (xs ys : List A) → n ≡ length xs → take n (xs ++ ys) ≡ xs
  take-append zero [] ys e = refl
  take-append zero (x ∷ xs) ys e = absurd (omega arith)
  take-append (suc n) [] ys e = absurd (omega arith)
  take-append (suc n) (x ∷ xs) ys e = ap (λ t. x ∷ t) (take-append n xs ys (omega arith))

  pub drop-append : (n : ℕ) (xs ys : List A) → n ≡ length xs → drop n (xs ++ ys) ≡ ys
  drop-append zero [] ys e = refl
  drop-append zero (x ∷ xs) ys e = absurd (omega arith)
  drop-append (suc n) [] ys e = absurd (omega arith)
  drop-append (suc n) (x ∷ xs) ys e = drop-append n xs ys (omega arith)

  pub take_all : (n : ℕ) (xs : List A) → length xs ≤ n → take n xs ≡ xs
  take_all zero [] h = refl
  take_all zero (x ∷ xs) h = absurd (omega arith)
  take_all (suc n) [] h = refl
  take_all (suc n) (x ∷ xs) h = ap (λ t. x ∷ t) (take_all n xs (omega arith))

  -- `xs[i .. i + n]`
  abbrev pub slice : ℕ → ℕ → List A → List A
  slice i n xs = take n (drop i xs)

  -- Overwrites the elements from the offset on. What would lie past the end is dropped.
  unfoldable pub patch : ℕ → List A → List A → List A
  patch i ys [] = []
  patch zero [] (x ∷ xs) = x ∷ xs
  patch zero (y ∷ ys) (x ∷ xs) = y ∷ patch zero ys xs
  patch (suc i) ys (x ∷ xs) = x ∷ patch i ys xs

module _ {ℓ} {A : Type ℓ} where
  pub length-slice : (i n : ℕ) (xs : List A) → i + n ≤ length xs → length (slice i n xs) ≡ n
  length-slice i n xs h = omega (arith, length-take n (drop i xs), length-drop i xs)

  pub drop-add : (i j : ℕ) (xs : List A) → drop (i + j) xs ≡ drop j (drop i xs)
  drop-add zero j xs = ap (λ t. drop t xs) (add.zero j)
  drop-add (suc i) zero [] = rw add.suc
  drop-add (suc i) (suc j) [] = rw add.suc
  drop-add (suc i) j (x ∷ xs) = rw add.suc (drop-add i j xs)

  pub take-drop-take :
      (w i n : ℕ) (xs : List A) → i + w ≤ n → take w (drop i (take n xs)) ≡ take w (drop i xs)
  take-drop-take zero i n xs h = refl
  take-drop-take (suc w) i zero xs h = absurd (omega arith)
  take-drop-take (suc w) zero (suc n) [] h = refl
  take-drop-take (suc w) zero (suc n) (x ∷ xs) h =
      ap (λ t. x ∷ t) (take-drop-take w zero n xs (omega arith))
  take-drop-take (suc w) (suc i) (suc n) [] h = refl
  take-drop-take (suc w) (suc i) (suc n) (x ∷ xs) h = take-drop-take (suc w) i n xs (omega arith)

  pub slice-slice :
      (i w o n : ℕ) (xs : List A) → i + w ≤ n → slice i w (slice o n xs) ≡ slice (o + i) w xs
  slice-slice i w o n xs h = rw drop-add (take-drop-take w i n (drop o xs) h)

  pub length-patch : (i : ℕ) (ys xs : List A) → length (patch i ys xs) ≡ length xs
  unfolding patch
  length-patch i ys [] = refl
  length-patch zero [] (x ∷ xs) = refl
  length-patch zero (y ∷ ys) (x ∷ xs) = ap suc (length-patch zero ys xs)
  length-patch (suc i) ys (x ∷ xs) = ap suc (length-patch i ys xs)

  pub slice-patch_self :
      (i n : ℕ) (ys xs : List A)
      → n ≡ length ys
      → i + n ≤ length xs
      → slice i n (patch i ys xs) ≡ ys
  unfolding patch
  slice-patch_self zero zero [] [] e h = refl
  slice-patch_self zero (suc n) ys [] e h = absurd (omega arith)
  slice-patch_self zero zero (y ∷ ys) xs e h = absurd (omega arith)
  slice-patch_self zero zero [] (x ∷ xs) e h = refl
  slice-patch_self zero (suc n) [] (x ∷ xs) e h = absurd (omega arith)
  slice-patch_self zero (suc n) (y ∷ ys) (x ∷ xs) e h =
      ap (λ t. y ∷ t) (slice-patch_self zero n ys xs (omega arith) (omega arith))
  slice-patch_self (suc i) n ys [] e h = absurd (omega arith)
  slice-patch_self (suc i) n ys (x ∷ xs) e h = slice-patch_self i n ys xs e (omega arith)

  pub slice-patch_before :
      (i n o : ℕ) (ys xs : List A) → i + n ≤ o → slice i n (patch o ys xs) ≡ slice i n xs
  unfolding patch
  slice-patch_before i n o ys [] h = refl
  slice-patch_before zero zero o ys (x ∷ xs) h = refl
  slice-patch_before (suc i) n zero ys (x ∷ xs) h = absurd (omega arith)
  slice-patch_before zero (suc n) zero ys (x ∷ xs) h = absurd (omega arith)
  slice-patch_before zero (suc n) (suc o) ys (x ∷ xs) h =
      ap (λ t. x ∷ t) (slice-patch_before zero n o ys xs (omega arith))
  slice-patch_before (suc i) n (suc o) ys (x ∷ xs) h = slice-patch_before i n o ys xs (omega arith)

  pub slice-patch_after :
      (i n o : ℕ) (ys xs : List A) → o + length ys ≤ i → slice i n (patch o ys xs) ≡ slice i n xs
  unfolding patch
  slice-patch_after i n o ys [] h = refl
  slice-patch_after i n zero [] (x ∷ xs) h = refl
  slice-patch_after zero n zero (y ∷ ys) (x ∷ xs) h = absurd (omega arith)
  slice-patch_after (suc i) n zero (y ∷ ys) (x ∷ xs) h =
      slice-patch_after i n zero ys xs (omega arith)
  slice-patch_after zero n (suc o) ys (x ∷ xs) h = absurd (omega arith)
  slice-patch_after (suc i) n (suc o) ys (x ∷ xs) h = slice-patch_after i n o ys xs (omega arith)

  pub patch_whole : (ys xs : List A) → length ys ≡ length xs → patch 0 ys xs ≡ ys
  unfolding patch
  patch_whole [] [] h = refl
  patch_whole [] (x ∷ xs) h = absurd (omega arith)
  patch_whole (y ∷ ys) [] h = absurd (omega arith)
  patch_whole (y ∷ ys) (x ∷ xs) h = ap (λ t. y ∷ t) (patch_whole ys xs (omega arith))
