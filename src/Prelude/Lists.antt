-- ===== src/Prelude/Lists.antt =====
-- Lists measured by native numbers, and predicates on them by recursion.
use Prim.Native.Nat.{ℕ, zero, suc, ◌+◌, ◌≤◌, ◌<◌}
use mathlib.Core.Path.{◌≡◌, refl, ap}
use mathlib.Core.Bool.{Bool, true, false, ◌&&◌, ◌||◌}
use mathlib.Core.Option.{Option, none, some}
use mathlib.Core.List.{List, [], ◌∷◌, ◌++◌, map}
use native.Mathlib.Omega.{arith}

module _ {ℓ} {A : Type ℓ} where
  abbrev pub length : List A → ℕ
  length [] = 0
  length (x ∷ xs) = suc (length xs)

  abbrev pub get_elem? : List A → ℕ → Option A
  get_elem? [] i = none
  get_elem? (x ∷ xs) zero = some x
  get_elem? (x ∷ xs) (suc i) = get_elem? xs i

  abbrev pub take : ℕ → List A → List A
  take zero xs = []
  take (suc n) [] = []
  take (suc n) (x ∷ xs) = x ∷ take n xs

  abbrev pub drop : ℕ → List A → List A
  drop zero xs = xs
  drop (suc n) [] = []
  drop (suc n) (x ∷ xs) = drop n xs

  abbrev pub replicate : ℕ → A → List A
  replicate zero a = []
  replicate (suc n) a = a ∷ replicate n a

  abbrev pub is_empty : List A → Bool
  is_empty [] = true
  is_empty (x ∷ xs) = false

  abbrev pub all : (A → Bool) → List A → Bool
  all p [] = true
  all p (x ∷ xs) = p x && all p xs

  abbrev pub any : (A → Bool) → List A → Bool
  any p [] = false
  any p (x ∷ xs) = p x || any p xs

  pub length-append : (xs ys : List A) → length (xs ++ ys) ≡ length xs + length ys
  length-append [] ys = omega arith
  length-append (x ∷ xs) ys = omega (arith, length-append xs ys)

  pub length-take-le : (n : ℕ) (xs : List A) → length (take n xs) ≤ n
  length-take-le zero xs = omega arith
  length-take-le (suc n) [] = omega arith
  length-take-le (suc n) (x ∷ xs) = omega (arith, length-take-le n xs)

  pub length-take : (n : ℕ) (xs : List A) → n ≤ length xs → length (take n xs) ≡ n
  length-take zero xs h = refl
  length-take (suc n) [] h = absurd (omega arith)
  length-take (suc n) (x ∷ xs) h = omega (arith, length-take n xs)

  pub take-append-drop : (n : ℕ) (xs : List A) → take n xs ++ drop n xs ≡ xs
  take-append-drop zero xs = refl
  take-append-drop (suc n) [] = refl
  take-append-drop (suc n) (x ∷ xs) = ap (◌∷◌ x) (take-append-drop n xs)

pub length-map {ℓ κ} :
    {A : Type ℓ} {B : Type κ} (xs : List A) (f : A → B) → length (map f xs) ≡ length xs
length-map [] f = refl
length-map (x ∷ xs) f = ap suc (length-map xs f)

module _ {ℓ κ} {A : Type ℓ} (P : A → Type κ) where
  abbrev pub All : List A → Type κ
  All [] = Unit
  All (x ∷ xs) = P x × All xs

  pub All-append : (xs ys : List A) → All xs → All ys → All (xs ++ ys)
  All-append [] ys h k = k
  All-append (x ∷ xs) ys h k = (h.0, All-append xs ys h.1 k)

pub All-map {ℓ κ ι} :
    {A : Type ℓ} {P : A → Type κ} {Q : A → Type ι} (f : (a : A) → P a → Q a) (xs : List A)
    → All P xs
    → All Q xs
All-map f [] h = tt
All-map f (x ∷ xs) h = (f x h.0, All-map f xs h.1)

pub All-unit {ℓ} : {A : Type ℓ} (xs : List A) → All {ℓ, 0} (λ x. Unit) xs
All-unit [] = tt
All-unit (x ∷ xs) = (tt, All-unit xs)

pub All-of_map {ℓ κ ι} :
    {A : Type ℓ} {B : Type κ} (P : B → Type ι) (f : A → B) (xs : List A)
    → All (λ x. P (f x)) xs
    → All P (map f xs)
All-of_map P f [] h = tt
All-of_map P f (x ∷ xs) h = (h.0, All-of_map P f xs h.1)

module _ {ℓ κ ι} {A : Type ℓ} (P : A → Type κ) (Q : A → Type ι) where
  pub All-both : (xs : List A) → All P xs → All Q xs → All (λ x. P x × Q x) xs
  All-both [] h k = tt
  All-both (x ∷ xs) h k = ((h.0, k.0), All-both xs h.1 k.1)

module _ {ℓ κ} {A : Type ℓ} {S : Type κ} (step : S → A → S) where
  -- `for x in xs`: the state after the rounds of a loop.
  unfoldable pub fold : S → List A → S
  fold s [] = s
  fold s (x ∷ xs) = fold (step s x) xs

  pub fold-append : (s : S) (xs ys : List A) → fold s (xs ++ ys) ≡ fold (fold s xs) ys
  unfolding fold
  fold-append s [] ys = refl
  fold-append s (x ∷ xs) ys = fold-append (step s x) xs ys

  -- What every round keeps holds behind the loop.
  pub fold-invariant {ι η} :
      (I : S → Type ι) (Q : A → Type η)
      → ((s : S) (x : A) → Q x → I s → I (step s x))
      → (xs : List A) → All Q xs
      → (s : S) → I s
      → I (fold s xs)
  unfolding fold
  fold-invariant I Q keep [] q s i = i
  fold-invariant I Q keep (x ∷ xs) q s i =
      fold-invariant I Q keep xs q.1 (step s x) (keep s x q.0 i)

module _ {ℓ} {A : Type ℓ} where
  -- The element stands in the list.
  abbrev pub IsIn : List A → A → Type ℓ
  IsIn xs x = (before : List A) × (after : List A) × (xs ≡ before ++ x ∷ after)

  pub All-IsIn : (xs : List A) → All (IsIn xs) xs
  All-IsIn [] = tt
  All-IsIn (x ∷ xs) = (
    ([], xs, refl),
    All-map (λ y (before, after, e). (x ∷ before, after, ap (λ l. x ∷ l) e)) xs (All-IsIn xs),
  )

-- `range(start, start + count)`
unfoldable pub range : ℕ → ℕ → List ℕ
range start zero = []
range start (suc n) = start ∷ range (start + 1) n

All-range :
    (start n total : ℕ) → start + n ≤ total → All (λ i. start ≤ i × i < total) (range start n)
unfolding range
All-range start zero total h = tt
All-range start (suc n) total h = (
  (omega arith, omega arith),
  All-map (λ i k. (omega arith, k.1)) (range (start + 1) n)
      (All-range (start + 1) n total (omega arith)),
)

module _ {ℓ} {A : Type ℓ} where
  pub any-append : (p : A → Bool) (xs ys : List A) → any p (xs ++ ys) ≡ (any p xs || any p ys)
  any-append p [] ys = refl
  any-append p (x ∷ xs) ys = ground (arith, any-append p xs ys)

  pub any_or : (p q : A → Bool) (xs : List A) → any (λ x. p x || q x) xs ≡ (any p xs || any q xs)
  any_or p q [] = refl
  any_or p q (x ∷ xs) = ground (arith, any_or p q xs)
