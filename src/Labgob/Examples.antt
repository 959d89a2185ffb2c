-- ===== src/Labgob/Examples.antt =====
-- A list node: a struct with an upper-case pointer to its own type and a lower-case field
-- (src/labgob/labgob.go).
use mathlib.Core.List.{Memᴰ}
use mathlib.Core.List.Memᴰ
use mit_distribution.Base.{ℕ, zero, suc, ◌<◌, ◌≡◌, ◌↔◌, inl, inr, true, false, some, [], ◌∷◌, arith}
use mit_distribution.Labgob.{Kind, struct, elem_of, plain, State, empty_state, check_type}
use mit_distribution.Labgob.Sums.{sum_where}
use mit_distribution.Labgob.Search.{parts, lower_fields, Reaches, check_type_lem}

abbrev node : ℕ → Kind
node zero =
    struct (record { is_upper = true; type_of = 1 } ∷ record { is_upper = false; type_of = 2 } ∷ [])
node (suc zero) = elem_of 0
node (suc (suc t)) = plain

node-small : (x y : ℕ) → x < 3 → Memᴰ y (parts (node x)) → y < 3
node-small zero y lt m = elim (Memᴰ.cases_cons m) [
  | inl first ↦ omega (arith, first)
  | inr rest ↦ omega (arith, Memᴰ.eq_of_singleton rest)
]
node-small (suc zero) y lt m = omega (arith, Memᴰ.eq_of_singleton m)
node-small (suc (suc t)) y lt m = absurd (Memᴰ.not-nil m)

check_type_lem_example :
    (s : State) × (check_type node 4 0 empty_state ≡ some s)
    × ((x : ℕ) → (s.checked x ≡ true) ↔ Reaches node 0 x)
    × (s.error_count ≡ sum_where 3 s.checked (λ x. lower_fields (node x)))
check_type_lem_example = check_type_lem node 3 0 node-small (omega arith)
