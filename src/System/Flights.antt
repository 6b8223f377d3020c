-- ===== src/System/Flights.antt =====
-- The list of requests in flight: what dropping one leaves.
use leon_ai_assistant.Base.{
  ℕ, ◌≡◌, subst, inl, inr, ◌≢◌, true, false, List, [], ◌∷◌, arith, Bool-cases, ◌==◌, All,
  All-map_of,
}
use leon_ai_assistant.Base.Keys.{Unique}
use leon_ai_assistant.Db.{Db}
use leon_ai_assistant.System.{remove, flies}
use leon_ai_assistant.System.Ledger.{Flying}

-- The list of flights without one.
pub remove-All {ℓ} : (P : ℕ → Type ℓ) (id : ℕ) (ids : List ℕ) → All P ids → All P (remove id ids)
unfolding remove
remove-All P id [] a = tt
remove-All P id (x ∷ ids) a = elim (Bool-cases (x == id)) [
  | inl e ↦ rw e a.1
  | inr e ↦ rw e (a.0, remove-All P id ids a.1)
]

pub remove-Unique :
    (id : ℕ) (ids : List ℕ)
    → Unique (λ (x : ℕ). x) ids
    → Unique (λ (x : ℕ). x) (remove id ids) × All (λ k. k ≢ id) (remove id ids)
unfolding remove
remove-Unique id [] u = (tt, tt)
remove-Unique id (x ∷ ids) u = elim (Bool-cases (x == id)) [
  | inl e ↦
      let q : x ≡ id = ground (arith, e) in
      rw e (
        u.1,
        All-map_of (λ k. (k == x) ≡ false) (λ k. k ≢ id) ids (λ k n p. ground (arith, n, q, p)) u.0,
      )
  | inr e ↦
      let (d, n) = remove-Unique id ids u.1 in
      rw e ((remove-All (λ k. (k == x) ≡ false) id ids u.0, d), ((λ p. ground (arith, e, p)), n))
]

pub flies-Flying :
    (db : Db) (id : ℕ) (ids : List ℕ) → flies id ids ≡ true → All (Flying db) ids → Flying db id
flies-Flying db id [] h a = absurd (ground arith)
flies-Flying db id (x ∷ ids) h a = elim (Bool-cases (x == id)) [
  | inl e ↦ let q : x ≡ id = ground (arith, e) in subst (Flying db) q a.0
  | inr e ↦ flies-Flying db id ids (ground (arith, e)) a.1
]
