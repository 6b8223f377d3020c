-- ===== src/Approvals/Names.antt =====
-- src/leon_control_plane/store.py: the loop in `create_approval` that looks for an unused id. The ids
-- that it tries are `candidate 0`, `candidate 1`, …: the slug of the summary, then with `-2`, `-3`, ….
use leon_ai_assistant.Base.{
  ℕ, zero, suc, ◌+◌, ◌≤◌, ◌<◌, ◌≡◌, refl, inl, inr, ◌≢◌, Bool, true, false, List, [], ◌∷◌, Option,
  none, some, arith, Bool-cases, length, any, ◌==◌, if◌then◌else◌,
}

-- `while … : suffix += 1`, with fuel
unfoldable pub free_name : (ℕ → Bool) → (ℕ → ℕ) → (fuel suffix : ℕ) → Option ℕ
free_name taken candidate zero k = none
free_name taken candidate (suc fuel) k =
    let rest = free_name taken candidate fuel (suc k) in
    if taken (candidate k) then rest else some (candidate k)

-- What the loop returns is unused.
pub free_name-free :
    (taken : ℕ → Bool) (candidate : ℕ → ℕ) (fuel k id : ℕ)
    → free_name taken candidate fuel k ≡ some id
    → taken id ≡ false
unfolding free_name
free_name-free taken candidate zero k id h = absurd (ground arith)
free_name-free taken candidate (suc fuel) k id h = elim (Bool-cases (taken (candidate k))) [
  | inl e ↦ free_name-free taken candidate fuel (suc k) id (ground (arith, e))
  | inr e ↦ let q : candidate k ≡ id = ground (arith, e) in rw q at e
]

has : ℕ → List ℕ → Bool
has x = any (λ y. y == x)

without : ℕ → List ℕ → List ℕ
without x [] = []
without x (y ∷ ys) = if y == x then ys else y ∷ without x ys

length-without : (x : ℕ) (ys : List ℕ) → has x ys ≡ true → length ys ≡ suc (length (without x ys))
unfolding has without
length-without x [] h = absurd (ground arith)
length-without x (y ∷ ys) h = elim (Bool-cases (y == x)) [
  | inl e ↦ rw e refl
  | inr e ↦ rw e (ground (arith, e, length-without x ys))
]

has-without : (x z : ℕ) (ys : List ℕ) → z ≢ x → has z ys ≡ true → has z (without x ys) ≡ true
unfolding has without
has-without x z [] n h = absurd (ground arith)
has-without x z (y ∷ ys) n h = elim (Bool-cases (y == x)) [
  | inl e ↦ rw e (ground (arith, e))
  | inr e ↦ rw e (ground (arith, e, has-without x z ys n))
]

-- Distinct ids that are all in use are no more than the ids in use.
pigeonhole :
    (candidate : ℕ → ℕ)
    → ((i j : ℕ) → candidate i ≡ candidate j → i ≡ j)
    → (n k : ℕ) (ys : List ℕ) → ((i : ℕ) → i < n → has (candidate (k + i)) ys ≡ true)
    → n ≤ length ys
pigeonhole candidate inj zero k ys h = omega arith
pigeonhole candidate inj (suc n) k ys h = omega (
  arith,
  pigeonhole candidate inj n k (without (candidate (k + n)) ys) (λ i l.
      has-without (candidate (k + n)) (candidate (k + i)) ys
        (λ e. let q = inj (k + i) (k + n) e in absurd (omega (arith, q))) (h i (omega arith))),
  length-without (candidate (k + n)) ys (h n (omega arith)),
)

first :
    (taken : ℕ → Bool) (candidate : ℕ → ℕ) (fuel k : ℕ)
    → free_name taken candidate (suc fuel) k ≡ none
    → taken (candidate k) ≡ true
unfolding free_name
first taken candidate fuel k h = ground arith

-- While the loop has not found an id, all it tried are in use.
tried :
    (taken : ℕ → Bool) (candidate : ℕ → ℕ) (fuel k : ℕ)
    → free_name taken candidate fuel k ≡ none
    → (i : ℕ) → i < fuel
    → taken (candidate (k + i)) ≡ true
unfolding free_name
tried taken candidate zero k h i l = absurd (omega arith)
tried taken candidate (suc fuel) k h zero l =
    let e : k + 0 ≡ k = omega arith in rw e (first taken candidate fuel k h)
tried taken candidate (suc fuel) k h (suc i) l =
    let e : k + suc i ≡ suc k + i = omega arith in
    let t = first taken candidate fuel k h in
    rw e (tried taken candidate fuel (suc k) (ground (arith, t)) i (omega arith))

-- With one round more than there are ids in use, the loop finds an id.
pub free_name-ne-none :
    (ids : List ℕ) (candidate : ℕ → ℕ) (fuel k : ℕ)
    → ((i j : ℕ) → candidate i ≡ candidate j → i ≡ j)
    → length ids < fuel
    → free_name (λ x. any (λ y. y == x) ids) candidate fuel k ≢ none
unfolding has
free_name-ne-none ids candidate fuel k inj l h =
    let p =
      pigeonhole candidate inj fuel k ids (tried (λ x. any (λ y. y == x) ids) candidate fuel k h) in
    omega (arith, p)
