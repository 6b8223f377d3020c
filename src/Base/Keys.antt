-- ===== src/Base/Keys.antt =====
-- Tables with a unique key: the row that SELECT finds is the only one that UPDATE changes.
use Prim.Native.Nat.{ℕ, ◌+◌, ◌≤◌}
use mathlib.Core.Path.{◌≡◌, refl}
use mathlib.Core.Logic.{inl, inr, ◌≢◌}
use mathlib.Core.Bool.{Bool, true, false}
use mathlib.Core.Option.{Option, none, some}
use mathlib.Core.List.{List, [], ◌∷◌}
use native.Mathlib.Omega.{arith}
use leon_ai_assistant.Base.Tests.{if◌then◌else◌, Bool-cases, ◌==◌, is_some, ==_refl}
use leon_ai_assistant.Base.Lists.{All, All-map_of, All-both}
use leon_ai_assistant.Base.Rows.{find, update, count, total}

module _ {ℓ} {A : Type ℓ} (key : A → ℕ) where
  -- the row with a key
  abbrev pub by_key : ℕ → List A → Option A
  by_key k = find (λ x. key x == k)

  -- no row has the key
  abbrev pub Absent : ℕ → List A → Type 0
  Absent k = All (λ x. (key x == k) ≡ false)

  abbrev pub Unique : List A → Type 0
  Unique [] = Unit
  Unique (x ∷ xs) = Absent (key x) xs × Unique xs

  pub by_key-none_iff_right : (k : ℕ) (xs : List A) → by_key k xs ≡ none → Absent k xs
  unfolding find
  by_key-none_iff_right k [] h = tt
  by_key-none_iff_right k (x ∷ xs) h = elim (Bool-cases (key x == k)) [
    | inl e ↦ absurd (ground arith)
    | inr e ↦ (e, by_key-none_iff_right k xs (ground arith))
  ]

  pub Absent→none : (k : ℕ) (xs : List A) → Absent k xs → by_key k xs ≡ none
  unfolding find
  Absent→none k [] a = refl
  Absent→none k (x ∷ xs) a = rw a.0 (Absent→none k xs a.1)

  update-Absent {κ} :
      (P Q : A → Type κ) (k : ℕ) (f : A → A) (xs : List A)
      → Absent k xs
      → ((x : A) → P x → key x ≢ k → Q x)
      → All P xs
      → All Q (update (λ x. key x == k) f xs)
  unfolding update
  update-Absent P Q k f [] u miss a = tt
  update-Absent P Q k f (x ∷ xs) u miss a =
      (rw u.0 (miss x a.0 (ground (arith, u.0))), update-Absent P Q k f xs u.1 miss a.1)

  -- An update of the row that `by_key` finds: the row's own new value is all that is to be shown,
  -- besides that the other rows keep what they had.
  pub update-by_key {κ} :
      (P Q : A → Type κ) (k : ℕ) (row : A) (f : A → A) (xs : List A)
      → Unique xs
      → by_key k xs ≡ some row
      → (P row → Q (f row))
      → ((x : A) → P x → key x ≢ k → Q x)
      → All P xs
      → All Q (update (λ x. key x == k) f xs)
  unfolding find update
  update-by_key P Q k row f [] u e hit miss a = tt
  update-by_key P Q k row f (x ∷ xs) u e hit miss a = elim (Bool-cases (key x == k)) [
    | inl t ↦
        let same : x ≡ row = ground (arith, t) in
        let kk : key x ≡ k = ground (arith, t) in
        rw t (rw same (hit (rw same at (a.0))), update-Absent P Q k f xs (rw kk at (u.0)) miss a.1)
    | inr t ↦ rw t (
      miss x a.0 (ground (arith, t)),
      update-by_key P Q k row f xs u.1 (ground arith) hit miss a.1,
    )
  ]

  Absent-update :
      (p : A → Bool) (m : ℕ) (f : A → A) (xs : List A)
      → ((x : A) → key (f x) ≡ key x)
      → Absent m xs
      → Absent m (update p f xs)
  unfolding update
  Absent-update p m f [] same a = tt
  Absent-update p m f (x ∷ xs) same a =
      (ground (arith, a.0, same x), Absent-update p m f xs same a.1)

  key-update :
      (p : A → Bool) (f : A → A) (x : A)
      → ((x : A) → key (f x) ≡ key x)
      → key (if p x then f x else x) ≡ key x
  key-update p f x same = ground (arith, same x)

  -- An update of any rows that keeps the keys keeps them unique.
  pub Unique-update :
      (p : A → Bool) (f : A → A) (xs : List A)
      → ((x : A) → key (f x) ≡ key x)
      → Unique xs
      → Unique (update p f xs)
  unfolding update
  Unique-update p f [] same u = tt
  Unique-update p f (x ∷ xs) same u = (
    rw (key-update p f x same) (Absent-update p (key x) f xs same u.0),
    Unique-update p f xs same u.1,
  )

  -- What SELECT finds after an UPDATE.
  pub by_key-update_self :
      (k : ℕ) (f : A → A) (row : A) (xs : List A)
      → ((x : A) → key (f x) ≡ key x)
      → by_key k xs ≡ some row
      → by_key k (update (λ x. key x == k) f xs) ≡ some (f row)
  unfolding find update
  by_key-update_self k f row [] same e = absurd (ground arith)
  by_key-update_self k f row (x ∷ xs) same e =
      ground (arith, same x, by_key-update_self k f row xs same)

  pub by_key-update_ne :
      (k m : ℕ) (f : A → A) (xs : List A)
      → ((x : A) → key (f x) ≡ key x)
      → k ≢ m
      → by_key m (update (λ x. key x == k) f xs) ≡ by_key m xs
  unfolding find update
  by_key-update_ne k m f [] same n = refl
  by_key-update_ne k m f (x ∷ xs) same n = ground (arith, same x, by_key-update_ne k m f xs same n)

  pub is_some-by_key-update :
      (k m : ℕ) (f : A → A) (xs : List A)
      → ((x : A) → key (f x) ≡ key x)
      → is_some (by_key m (update (λ x. key x == k) f xs)) ≡ is_some (by_key m xs)
  unfolding find update
  is_some-by_key-update k m f [] same = refl
  is_some-by_key-update k m f (x ∷ xs) same =
      ground (arith, same x, is_some-by_key-update k m f xs same)

  count-update-Absent :
      (p : A → Bool) (k : ℕ) (f : A → A) (xs : List A)
      → Absent k xs
      → count p (update (λ x. key x == k) f xs) ≡ count p xs
  unfolding count update
  count-update-Absent p k f [] u = refl
  count-update-Absent p k f (x ∷ xs) u = ground (arith, u.0, count-update-Absent p k f xs u.1)

  -- An update that does not bring its row into a class does not make the class larger.
  pub count-update-le :
      (p : A → Bool) (k : ℕ) (row : A) (f : A → A) (xs : List A)
      → Unique xs
      → by_key k xs ≡ some row
      → (p (f row) ≡ true → p row ≡ true)
      → count p (update (λ x. key x == k) f xs) ≤ count p xs
  unfolding count update find
  count-update-le p k row f [] u e h = omega arith
  count-update-le p k row f (x ∷ xs) u e h = elim (Bool-cases (key x == k)) [
    | inl t ↦
        let same : x ≡ row = ground (arith, t) in
        let kk : key x ≡ k = ground (arith, t) in
        let rest = count-update-Absent p k f xs (rw kk at (u.0)) in
        rw t (rw same (ground (arith, rest)))
    | inr t ↦ rw t (ground (arith, count-update-le p k row f xs u.1 (ground arith) h))
  ]

  -- Under a unique key, SELECT by a row's own key finds the row.
  pub by_key_self : (xs : List A) → Unique xs → All (λ x. by_key (key x) xs ≡ some x) xs
  unfolding find
  by_key_self [] u = tt
  by_key_self (x ∷ xs) u = (
    rw (==_refl (key x)) refl,
    All-map_of (λ y. ((key y == key x) ≡ false) × (by_key (key y) xs ≡ some y))
        (λ y. by_key (key y) (x ∷ xs) ≡ some y) xs (λ y h. ground (arith, h.0, h.1))
        (All-both (λ y. (key y == key x) ≡ false) (λ y. by_key (key y) xs ≡ some y) xs u.0
          (by_key_self xs u.1)),
  )

  total-update-Absent :
      (g : A → ℕ) (k : ℕ) (f : A → A) (xs : List A)
      → Absent k xs
      → total g (update (λ x. key x == k) f xs) ≡ total g xs
  unfolding total update
  total-update-Absent g k f [] u = refl
  total-update-Absent g k f (x ∷ xs) u = rw u.0 (omega (arith, total-update-Absent g k f xs u.1))

  -- A sum over all rows changes by what the updated row contributes.
  pub total-update :
      (g : A → ℕ) (k : ℕ) (row : A) (f : A → A) (xs : List A)
      → Unique xs
      → by_key k xs ≡ some row
      → total g (update (λ x. key x == k) f xs) + g row ≡ total g xs + g (f row)
  unfolding total update find
  total-update g k row f [] u e = absurd (ground arith)
  total-update g k row f (x ∷ xs) u e = elim (Bool-cases (key x == k)) [
    | inl t ↦
        let same : x ≡ row = ground (arith, t) in
        let kk : key x ≡ k = ground (arith, t) in
        rw t (rw same (omega (arith, total-update-Absent g k f xs (rw kk at (u.0)))))
    | inr t ↦ rw t (omega (arith, total-update g k row f xs u.1 (ground (arith, t))))
  ]
