-- ===== src/Prelude/Lists.antt =====
-- Lists measured and cut by native numbers, under the library's names.
use Prim.Native.Nat.{ℕ, zero, suc, ◌+◌, ◌-◌, ◌≤◌, ◌<◌, min}
use mathlib.Core.Path.{◌≡◌, refl, ap}
use mathlib.Core.Logic.{◌≢◌}
use mathlib.Core.Bool.{Bool, true, false, ◌&&◌}
use mathlib.Core.List.{List, [], ◌∷◌, ◌++◌}
use mathlib.Core.Option.{Option, none, some}
use native.Mathlib.Omega.{arith}

module _ {ℓ} {A : Type ℓ} where
  abbrev pub length : List A → ℕ
  length [] = 0
  length (x ∷ xs) = suc (length xs)

  abbrev pub get_elem? : List A → ℕ → Option A
  get_elem? [] i = none
  get_elem? (x ∷ xs) zero = some x
  get_elem? (x ∷ xs) (suc i) = get_elem? xs i

  abbrev pub take : ℕ → List A → List A
  take zero xs = []
  take (suc n) [] = []
  take (suc n) (x ∷ xs) = x ∷ take n xs

  abbrev pub drop : ℕ → List A → List A
  drop zero xs = xs
  drop (suc n) [] = []
  drop (suc n) (x ∷ xs) = drop n xs

  -- The last element, and all but the last: the two halves of a pop.
  abbrev pub last? : List A → Option A
  last? [] = none
  last? (x ∷ []) = some x
  last? (x ∷ y ∷ ys) = last? (y ∷ ys)

  abbrev pub init : List A → List A
  init [] = []
  init (x ∷ []) = []
  init (x ∷ y ∷ ys) = x ∷ init (y ∷ ys)

  -- A pop from the end, so many times.
  abbrev pub pop_times : ℕ → List A → List A
  pop_times zero xs = xs
  pop_times (suc n) xs = pop_times n (init xs)

  abbrev pub is_empty : List A → Bool
  is_empty [] = true
  is_empty (_ ∷ _) = false

  -- `iter().all(p)`.
  abbrev pub all : (A → Bool) → List A → Bool
  all p [] = true
  all p (x ∷ xs) = p x && all p xs

  pub length-append : (xs ys : List A) → length (xs ++ ys) ≡ length xs + length ys
  length-append [] ys = omega arith
  length-append (x ∷ xs) ys = omega (arith, length-append xs ys)

  pub take-append-drop : (n : ℕ) (xs : List A) → take n xs ++ drop n xs ≡ xs
  take-append-drop zero xs = refl
  take-append-drop (suc n) [] = refl
  take-append-drop (suc n) (x ∷ xs) = ap (λ t. x ∷ t) (take-append-drop n xs)

  pub length-take : (n : ℕ) (xs : List A) → length (take n xs) ≡ min n (length xs)
  length-take zero xs = omega arith
  length-take (suc n) [] = omega arith
  length-take (suc n) (x ∷ xs) = omega (arith, length-take n xs)

  pub length-drop : (n : ℕ) (xs : List A) → length (drop n xs) ≡ length xs - n
  length-drop zero xs = omega arith
  length-drop (suc n) [] = omega arith
  length-drop (suc n) (x ∷ xs) = omega (arith, length-drop n xs)

  pub take_all : (n : ℕ) (xs : List A) → length xs ≤ n → take n xs ≡ xs
  take_all zero [] h = refl
  take_all zero (x ∷ xs) h = absurd (omega arith)
  take_all (suc n) [] h = refl
  take_all (suc n) (x ∷ xs) h = ap (λ t. x ∷ t) (take_all n xs (omega arith))

  pub drop_all : (xs : List A) → drop (length xs) xs ≡ []
  drop_all [] = refl
  drop_all (x ∷ xs) = drop_all xs

  pub take-length_append : (xs ys : List A) → take (length xs) (xs ++ ys) ≡ xs
  take-length_append [] ys = refl
  take-length_append (x ∷ xs) ys = ap (λ t. x ∷ t) (take-length_append xs ys)

  pub drop-length_append : (xs ys : List A) → drop (length xs) (xs ++ ys) ≡ ys
  drop-length_append [] ys = refl
  drop-length_append (x ∷ xs) ys = drop-length_append xs ys

  pub length-init : (xs : List A) → length (init xs) ≡ length xs - 1
  length-init [] = omega arith
  length-init (x ∷ []) = omega arith
  length-init (x ∷ y ∷ ys) = omega (arith, length-init (y ∷ ys))

  pub last?-ne-none : (x : A) (xs : List A) → last? (x ∷ xs) ≢ none
  last?-ne-none x [] e = cc
  last?-ne-none x (y ∷ ys) e = last?-ne-none y ys e

  pub last?-eq-none : (xs : List A) → last? xs ≡ none → xs ≡ []
  last?-eq-none [] e = refl
  last?-eq-none (x ∷ xs) e = absurd (last?-ne-none x xs e)

  -- A list that pops is its front followed by what popped.
  pub init-append-last : (xs : List A) (a : A) → last? xs ≡ some a → init xs ++ a ∷ [] ≡ xs
  init-append-last [] a e = cc
  init-append-last (x ∷ []) a e = cc
  init-append-last (x ∷ y ∷ ys) a e = ap (λ t. x ∷ t) (init-append-last (y ∷ ys) a e)

  pub take-init : (n : ℕ) (xs : List A) → n < length xs → take n (init xs) ≡ take n xs
  take-init zero xs h = refl
  take-init (suc n) [] h = absurd (omega arith)
  take-init (suc n) (x ∷ []) h = absurd (omega arith)
  take-init (suc n) (x ∷ y ∷ ys) h = ap (λ t. x ∷ t) (take-init n (y ∷ ys) (omega arith))

  pub drop-init_append :
      (n : ℕ) (xs : List A) (a : A)
      → n < length xs
      → last? xs ≡ some a
      → drop n (init xs) ++ a ∷ [] ≡ drop n xs
  drop-init_append zero xs a h e = init-append-last xs a e
  drop-init_append (suc n) [] a h e = absurd (omega arith)
  drop-init_append (suc n) (x ∷ []) a h e = absurd (omega arith)
  drop-init_append (suc n) (x ∷ y ∷ ys) a h e = drop-init_append n (y ∷ ys) a (omega arith) e

  pub last?-append : (xs : List A) (a : A) → last? (xs ++ a ∷ []) ≡ some a
  last?-append [] a = refl
  last?-append (x ∷ []) a = refl
  last?-append (x ∷ y ∷ ys) a = last?-append (y ∷ ys) a

  pub init-append : (xs : List A) (a : A) → init (xs ++ a ∷ []) ≡ xs
  init-append [] a = refl
  init-append (x ∷ []) a = refl
  init-append (x ∷ y ∷ ys) a = ap (λ t. x ∷ t) (init-append (y ∷ ys) a)

  -- Cancelling a common prefix.
  pub append-left_cancel : (xs : List A) {ys zs : List A} → xs ++ ys ≡ xs ++ zs → ys ≡ zs
  append-left_cancel [] e = e
  append-left_cancel (x ∷ xs) e = append-left_cancel xs (ap (drop 1) e)

-- A test of every number below a bound.
abbrev pub all_below : ℕ → (ℕ → Bool) → Bool
all_below zero p = true
all_below (suc n) p = p n && all_below n p

pub all_below_sound : (n : ℕ) (p : ℕ → Bool) (x : ℕ) → all_below n p ≡ true → x < n → p x ≡ true
all_below_sound zero p x h lt = absurd (omega arith)
all_below_sound (suc n) p x h lt = ground (arith, all_below_sound n p x)

-- `iter().sum()`.
abbrev pub sum : List ℕ → ℕ
sum [] = 0
sum (x ∷ xs) = x + sum xs

pub sum-append : (xs ys : List ℕ) → sum (xs ++ ys) ≡ sum xs + sum ys
sum-append [] ys = omega arith
sum-append (x ∷ xs) ys = omega (arith, sum-append xs ys)
