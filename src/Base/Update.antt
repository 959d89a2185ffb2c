-- ===== src/Base/Update.antt =====
-- A table with numbered slots, as a function.
use Prim.Native.Nat.{ℕ}
use mathlib.Core.Path.{◌≡◌}
use mathlib.Core.Logic.{◌≢◌, ◌⊎◌, inl, inr}
use native.Mathlib.Omega.{arith}
use mit_distribution.Base.Tests.{◌==◌, if◌then◌else◌, Bool-cases, ==→eq}

-- The table after a write to one slot.
abbrev pub update {ℓ} : {B : Type ℓ} → (ℕ → B) → ℕ → B → ℕ → B
update f i b j = if i == j then b else f j

pub update_cases {ℓ} :
    {B : Type ℓ} (f : ℕ → B) (i j : ℕ) (b : B)
    → ((i ≡ j) × (update f i b j ≡ b)) ⊎ ((i ≢ j) × (update f i b j ≡ f j))
update_cases f i j b = elim (Bool-cases (i == j)) [
  | inl same ↦ inl (==→eq i j same, rw same)
  | inr other ↦ inr (λ e. absurd (ground (arith, other, e)), rw other)
]

pub update_other {ℓ} : {B : Type ℓ} (f : ℕ → B) (i j : ℕ) (b : B) → i ≢ j → update f i b j ≡ f j
update_other f i j b h = elim (update_cases f i j b) [
  | inl (same, e) ↦ absurd (h same)
  | inr (other, e) ↦ e
]

pub update_at {ℓ} : {B : Type ℓ} (f : ℕ → B) (i j : ℕ) (b : B) → i ≡ j → update f i b j ≡ b
update_at f i j b h = elim (update_cases f i j b) [
  | inl (same, e) ↦ e
  | inr (other, e) ↦ absurd (other h)
]
