-- ===== src/Base/Rows.antt =====
-- Tables as lists of rows: SELECT … fetchone, UPDATE … WHERE, COUNT and ORDER BY … LIMIT 1.
use Prim.Native.Nat.{ℕ, ◌+◌}
use mathlib.Core.Path.{◌≡◌, refl, subst}
use mathlib.Core.Logic.{◌⊎◌, inl, inr}
use mathlib.Core.Bool.{Bool, true, false}
use mathlib.Core.Option.{Option, none, some}
use mathlib.Core.List.{List, [], ◌∷◌}
use native.Mathlib.Omega.{arith}
use leon_ai_assistant.Base.Tests.{if◌then◌else◌, Bool-cases}
use leon_ai_assistant.Base.Lists.{All, All-map_of, length}

module _ {ℓ} {A : Type ℓ} where
  unfoldable pub find : (A → Bool) → List A → Option A
  find p [] = none
  find p (x ∷ xs) = if p x then some x else find p xs

  unfoldable pub update : (A → Bool) → (A → A) → List A → List A
  update p f [] = []
  update p f (x ∷ xs) = (if p x then f x else x) ∷ update p f xs

  unfoldable pub count : (A → Bool) → List A → ℕ
  count p [] = 0
  count p (x ∷ xs) = (if p x then 1 else 0) + count p xs

  unfoldable pub total : (A → ℕ) → List A → ℕ
  total f [] = 0
  total f (x ∷ xs) = f x + total f xs

  unfoldable pub where_rows : (A → Bool) → List A → List A
  where_rows p [] = []
  where_rows p (x ∷ xs) = let rest = where_rows p xs in if p x then x ∷ rest else rest

  better : (A → A → Bool) → A → Option A → A
  better lt x none = x
  better lt x (some y) = if lt y x then y else x

  -- The first row in the order `lt`; of two equal ones, the earlier in the table.
  unfoldable pub first_by : (A → A → Bool) → List A → Option A
  unfolding better
  first_by lt [] = none
  first_by lt (x ∷ xs) = some (better lt x (first_by lt xs))

module _ {ℓ} {A : Type ℓ} (p : A → Bool) where
  pub find-test : (xs : List A) (x : A) → find p xs ≡ some x → p x ≡ true
  unfolding find
  find-test [] x h = ground arith
  find-test (y ∷ xs) x h = ground (arith, find-test xs x)

  pub find-All {κ} : (P : A → Type κ) (xs : List A) (x : A) → All P xs → find p xs ≡ some x → P x
  unfolding find
  find-All P [] x a h = absurd (ground arith)
  find-All P (y ∷ xs) x a h = elim (Bool-cases (p y)) [
    | inl e ↦ let q : y ≡ x = ground arith in rw q at (a.0)
    | inr e ↦ find-All P xs x a.1 (ground arith)
  ]

  pub find-eq-none : (xs : List A) → All (λ x. p x ≡ false) xs → find p xs ≡ none
  unfolding find
  find-eq-none [] a = refl
  find-eq-none (x ∷ xs) a = rw a.0 (find-eq-none xs a.1)

  pub count-eq-zero : (xs : List A) → All (λ x. p x ≡ false) xs → count p xs ≡ 0
  unfolding count
  count-eq-zero [] a = refl
  count-eq-zero (x ∷ xs) a = rw a.0 (ground (arith, count-eq-zero xs a.1))

  pub find-none-All : (xs : List A) → find p xs ≡ none → All (λ x. p x ≡ false) xs
  unfolding find
  find-none-All [] h = tt
  find-none-All (x ∷ xs) h = elim (Bool-cases (p x)) [
    | inl e ↦ absurd (ground arith)
    | inr e ↦ (e, find-none-All xs (ground arith))
  ]

  pub find-update_ne :
      (q : A → Bool) (f : A → A) (xs : List A)
      → ((x : A) → p (f x) ≡ p x)
      → ((x : A) → p x ≡ true → q x ≡ false)
      → find p (update q f xs) ≡ find p xs
  unfolding find update
  find-update_ne q f [] h k = refl
  find-update_ne q f (x ∷ xs) h k = ground (arith, h x, k x, find-update_ne q f xs h k)

  pub update-All {κ} :
      (P Q : A → Type κ) (f : A → A) (xs : List A)
      → ((x : A) → P x → p x ≡ true → Q (f x))
      → ((x : A) → P x → p x ≡ false → Q x)
      → All P xs
      → All Q (update p f xs)
  unfolding update
  update-All P Q f [] hit miss a = tt
  update-All P Q f (x ∷ xs) hit miss a = elim (Bool-cases (p x)) [
    | inl e ↦ (rw e (hit x a.0 e), update-All P Q f xs hit miss a.1)
    | inr e ↦ (rw e (miss x a.0 e), update-All P Q f xs hit miss a.1)
  ]

  pub length-update : (f : A → A) (xs : List A) → length (update p f xs) ≡ length xs
  unfolding update
  length-update f [] = refl
  length-update f (x ∷ xs) = omega (arith, length-update f xs)

  pub where_rows-of {κ} :
      (P : A → Type κ) (xs : List A) → All P (where_rows p xs) → All (λ x. p x ≡ true → P x) xs
  unfolding where_rows
  where_rows-of P [] a = tt
  where_rows-of P (x ∷ xs) a = elim (Bool-cases (p x)) [
    | inl e ↦ let b = rw e at a in (λ _. b.0, where_rows-of P xs b.1)
    | inr e ↦ let b = rw e at a in (λ t. absurd (cc (e, t)), where_rows-of P xs b)
  ]

  pub where_rows-All {κ} :
      (P : A → Type κ) (xs : List A) → All P xs → All (λ x. (p x ≡ true) × P x) (where_rows p xs)
  unfolding where_rows
  where_rows-All P [] a = tt
  where_rows-All P (x ∷ xs) a = elim (Bool-cases (p x)) [
    | inl e ↦ rw e ((e, a.0), where_rows-All P xs a.1)
    | inr e ↦ rw e (where_rows-All P xs a.1)
  ]

module _ {ℓ} {A : Type ℓ} (lt : A → A → Bool) where
  better-cases : (x : A) (o : Option A) → (better lt x o ≡ x) ⊎ (o ≡ some (better lt x o))
  unfolding better
  better-cases x none = inl refl
  better-cases x (some y) = ground arith

  -- What ORDER BY … LIMIT 1 returns has what all rows have.
  pub first_by-All {κ} :
      (P : A → Type κ) (xs : List A) (x : A) → All P xs → first_by lt xs ≡ some x → P x
  unfolding first_by
  first_by-All P [] x a h = absurd (ground arith)
  first_by-All P (y ∷ xs) x a h = elim (better-cases y (first_by lt xs)) [
    | inl e ↦ let q : y ≡ x = ground (arith, e) in rw q at (a.0)
    | inr e ↦ first_by-All P xs x a.1 (ground (arith, e))
  ]

  irreflexive : ((x y : A) → lt x y ≡ true → lt y x ≡ false) → (z : A) → lt z z ≡ false
  irreflexive asym z = elim (Bool-cases (lt z z)) [ inl e ↦ asym z z e | inr e ↦ e ]

  -- No row comes before what ORDER BY … LIMIT 1 returns.
  pub first_by-least :
      ((x y : A) → lt x y ≡ true → lt y x ≡ false)
      → ((x y z : A) → lt x y ≡ false → lt y z ≡ false → lt x z ≡ false)
      → (xs : List A) (x : A) → first_by lt xs ≡ some x
      → All (λ y. lt y x ≡ false) xs
  unfolding first_by
  first_by-least asym trans [] x h = tt
  first_by-least asym trans (y ∷ []) x h =
      let q : y ≡ x = ground arith in (subst (λ z. lt y z ≡ false) q (irreflexive asym y), tt)
  first_by-least asym trans (y ∷ z ∷ zs) x h =
      let m = better lt z (first_by lt zs) in
      let rest = first_by-least asym trans (z ∷ zs) m refl in
      elim (Bool-cases (lt m y)) [
        | inl e ↦
            let q : m ≡ x = ground (arith, e) in
            subst (λ w. All (λ v. lt v w ≡ false) (y ∷ z ∷ zs)) q (asym m y e, rest)
        | inr e ↦
            let q : y ≡ x = ground (arith, e) in
            subst (λ w. All (λ v. lt v w ≡ false) (y ∷ z ∷ zs)) q
              (
                irreflexive asym y,
                All-map_of (λ v. lt v m ≡ false) (λ v. lt v y ≡ false) (z ∷ zs)
                    (λ v k. trans v m y k e) rest,
              )
      ]
