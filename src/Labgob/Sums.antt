-- ===== src/Labgob/Sums.antt =====
-- Sums over the types that are checked (src/labgob/labgob.go).
use mit_distribution.Base.{
  ℕ, zero, suc, ◌+◌, ◌<◌, ◌≤◌, ◌≡◌, refl, sym, ap, ap₂, ◌∙◌, Bool, true, false, if◌then◌else◌,
  update, update_at, update_other, arith,
}
use native.Mathlib.Decide.{ℕ_discrete}

-- The sum of `g` over the numbers below `n` that pass the test.
unfoldable pub sum_where : ℕ → (ℕ → Bool) → (ℕ → ℕ) → ℕ
sum_where zero c g = 0
sum_where (suc n) c g = sum_where n c g + (if c n then g n else 0)

sum_where-above :
    (n t : ℕ) (c : ℕ → Bool) (g : ℕ → ℕ) → n ≤ t → sum_where n (update c t true) g ≡ sum_where n c g
unfolding sum_where
sum_where-above zero t c g h = refl
sum_where-above (suc n) t c g h =
    ap₂ (λ a b. a + (if b then g n else 0)) (sum_where-above n t c g (omega (arith, h)))
      (update_other c t n true (λ same. omega (arith, h, same)))

-- One more number below `n` adds its own summand.
pub sum_where-update :
    (n t : ℕ) (c : ℕ → Bool) (g : ℕ → ℕ)
    → t < n
    → c t ≡ false
    → sum_where n (update c t true) g ≡ sum_where n c g + g t
unfolding sum_where
sum_where-update zero t c g lt off = absurd (omega (arith, lt))
sum_where-update (suc n) t c g lt off = elim (ℕ_discrete t n) [
  | yes last ↦
      (let below = sum_where-above n t c g (omega (arith, last)) in
        let on = update_at c t n true last in
        let was : c n ≡ false = ap c (sym last) ∙ off in
        let same : g n ≡ g t = ap g (sym last) in ground (arith, below, on, was, same))
  | no before ↦
      (let below = sum_where-update n t c g (omega (arith, lt, before)) off in
        let other = update_other c t n true before in ground (arith, below, other))
]

-- A sum of ones is no more than the number of summands.
pub sum_where-le : (n : ℕ) (c : ℕ → Bool) → sum_where n c (λ x. 1) ≤ n
unfolding sum_where
sum_where-le zero c = omega arith
sum_where-le (suc n) c = let below = sum_where-le n c in ground (arith, below)

pub sum_where-none : (n : ℕ) (g : ℕ → ℕ) → sum_where n (λ x. false) g ≡ 0
unfolding sum_where
sum_where-none zero g = refl
sum_where-none (suc n) g = let below = sum_where-none n g in omega (arith, below)
