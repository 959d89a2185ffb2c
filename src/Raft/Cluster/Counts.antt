-- ===== src/Raft/Cluster/Counts.antt =====
-- How many of the peers below `n` pass a test.
use native.Mathlib.Decide.{dec_lt}
use mit_distribution.Base.{
  sym, ap, ◌∙◌, ℕ, zero, suc, ◌+◌, ◌<◌, ◌≤◌, ◌≡◌, Bool, true, false, arith, if◌then◌else◌,
}

unfoldable pub count : ℕ → (ℕ → Bool) → ℕ
count zero p = 0
count (suc n) p = let rest = count n p in if p n then rest + 1 else rest

pub count-le :
    (n : ℕ) (p q : ℕ → Bool) → ((j : ℕ) → p j ≡ true → q j ≡ true) → count n p ≤ count n q
unfolding count
count-le zero p q h = omega arith
count-le (suc n) p q h = ground (arith, h n, count-le n p q h)

-- One more passes the second test.
pub count-lt :
    (n : ℕ) (p q : ℕ → Bool) (c : ℕ)
    → ((j : ℕ) → p j ≡ true → q j ≡ true)
    → c < n
    → p c ≡ false
    → q c ≡ true
    → count n p < count n q
unfolding count
count-lt zero p q c h lt no_p yes_q = absurd (omega arith)
count-lt (suc n) p q c h lt no_p yes_q = elim (dec_lt c n) [
  | yes below ↦ ground (arith, h n, count-lt n p q c h below no_p yes_q)
  | no last ↦
      (let here : c ≡ n = omega arith in
        ground (arith, sym (ap p here) ∙ no_p, sym (ap q here) ∙ yes_q, count-le n p q h))
]

-- Tests that exclude one another.
pub count-add_le :
    (n : ℕ) (p q : ℕ → Bool) → ((j : ℕ) → p j ≡ true → q j ≡ false) → count n p + count n q ≤ n
unfolding count
count-add_le zero p q h = omega arith
count-add_le (suc n) p q h = ground (arith, h n, count-add_le n p q h)
