-- ===== src/Base/Pigeonhole.antt =====
-- More numbers below a bound than the bound.
use jn_server_cc.Base.{ℕ, zero, suc, ◌≡◌, ◌≢◌, ◌≤◌, ◌<◌, ◌⊎◌, inl, inr, ◌==◌, if◌then◌else◌, arith}

eq_or_ne : (a b : ℕ) → (a ≡ b) ⊎ (a ≢ b)
eq_or_ne a b = ground arith

below_suc :
    (k v : ℕ) (f : ℕ → ℕ) → ((i : ℕ) → i < k → f i ≢ v) → f k ≢ v → (i : ℕ) → i < suc k → f i ≢ v
below_suc k v f none_below ne i h = elim (eq_or_ne i k) [
  | inl e ↦ rw e ne
  | inr apart ↦ none_below i (omega arith)
]

find_equal : (k v : ℕ) (f : ℕ → ℕ) → ((i : ℕ) × (i < k) × (f i ≡ v)) ⊎ ((i : ℕ) → i < k → f i ≢ v)
find_equal zero v f = inr (λ i h. absurd (omega (arith, h)))
find_equal (suc k) v f = elim (find_equal k v f) [
  | inl (i, h, e) ↦ inl (i, omega (arith, h), e)
  | inr none_below ↦ elim (eq_or_ne (f k) v) [
    | inl e ↦ inl (k, omega arith, e)
    | inr ne ↦ inr (below_suc k v f none_below ne)
  ]
]

-- The value at the last place stands in for the bound.
abbrev moved : ℕ → (ℕ → ℕ) → ℕ → ℕ
moved n f i = if f i == n then f (suc n) else f i

moved_below :
    (n : ℕ) (f : ℕ → ℕ) (i : ℕ)
    → f i < suc n
    → f (suc n) < suc n
    → f i ≢ f (suc n)
    → moved n f i < n
moved_below n f i a b ne = ground arith

unmoved :
    (n : ℕ) (f : ℕ → ℕ) (i j : ℕ)
    → f i ≢ f (suc n)
    → f j ≢ f (suc n)
    → moved n f i ≡ moved n f j
    → f i ≡ f j
unmoved n f i j a b e = ground arith

pub pigeonhole :
    (n : ℕ) (f : ℕ → ℕ)
    → ((i : ℕ) → i ≤ n → f i < n)
    → (i : ℕ) × (j : ℕ) × (i < j) × (j ≤ n) × (f i ≡ f j)
pigeonhole zero f h = absurd (omega (arith, h 0 (omega arith)))
pigeonhole (suc n) f h = elim (find_equal (suc n) (f (suc n)) f) [
  | inl (i, lt, e) ↦ (i, suc n, lt, omega arith, e)
  | inr apart ↦
      let below : (i : ℕ) → i ≤ n → moved n f i < n = λ i le.
        moved_below n f i (h i (omega (arith, le))) (h (suc n) (omega arith))
          (apart i (omega (arith, le))) in
      let (i, j, lt, le, e) = pigeonhole n (moved n f) below in
      (
        i,
        j,
        lt,
        omega (arith, le),
        unmoved n f i j (apart i (omega (arith, lt, le))) (apart j (omega (arith, le))) e,
      )
]
