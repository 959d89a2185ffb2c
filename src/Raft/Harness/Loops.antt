-- ===== src/Raft/Harness/Loops.antt =====
-- The loops of `connect` and `disconnect` over the ends (src/raft/config.go).
use mit_distribution.Base.{
  ℕ, zero, suc, ◌<◌, ◌≡◌, ◌≢◌, refl, sym, ap, ◌∙◌, inl, inr, Bool, true, false, Option, none, some,
  arith, if◌then◌else◌, ◌==◌, Bool-cases, Option-cases, ==→eq,
}
use native.Mathlib.Decide.{ℕ_discrete}
use mit_distribution.Labrpc.Network.{Network}
use mit_distribution.Raft.Harness.{for_each, enable_end}

-- One loop of `connect` or `disconnect`: the body's test, and the end of each round.
abbrev pub set_ends : ℕ → (ℕ → Bool) → (ℕ → Option ℕ) → Bool → Network → Network
unfolding for_each
set_ends m test ends answer =
    for_each m (λ j rn. if test j then enable_end (ends j) answer rn else rn)

abbrev set_end : Bool → Option ℕ → Bool → Network → Network
set_end t o answer rn = if t then enable_end o answer rn else rn

set_end_stays :
    (t : Bool) (o : Option ℕ) (answer : Bool) (rn : Network) (x : ℕ)
    → rn.enabled x ≡ answer
    → (set_end t o answer rn).enabled x ≡ answer
unfolding enable_end
set_end_stays false o answer rn x e = e
set_end_stays true none answer rn x e = e
set_end_stays true (some y) answer rn x e = ground (arith, e)

set_end_hit :
    (t : Bool) (o : Option ℕ) (answer : Bool) (rn : Network) (x : ℕ)
    → t ≡ true
    → o ≡ some x
    → (set_end t o answer rn).enabled x ≡ answer
unfolding enable_end
set_end_hit t o answer rn x on there = ground (arith, on, there)

set_end_miss :
    (t : Bool) (o : Option ℕ) (answer : Bool) (rn : Network) (x : ℕ)
    → (t ≡ true → o ≢ some x)
    → (set_end t o answer rn).enabled x ≡ rn.enabled x
unfolding enable_end
set_end_miss false o answer rn x h = refl
set_end_miss true none answer rn x h = refl
set_end_miss true (some y) answer rn x h = elim (Bool-cases (y == x)) [
  | inl same ↦ absurd (h refl (ap some (==→eq y x same)))
  | inr other ↦ ground (arith, other)
]

module _ (test : ℕ → Bool) (ends : ℕ → Option ℕ) (answer : Bool) where
  pub set_ends_stays :
      (m : ℕ) (rn : Network) (x : ℕ)
      → rn.enabled x ≡ answer
      → (set_ends m test ends answer rn).enabled x ≡ answer
  unfolding for_each
  set_ends_stays zero rn x e = e
  set_ends_stays (suc m) rn x e =
      set_end_stays (test m) (ends m) answer (set_ends m test ends answer rn) x
        (set_ends_stays m rn x e)

  pub set_ends_hit :
      (m : ℕ) (rn : Network) (j x : ℕ)
      → j < m
      → test j ≡ true
      → ends j ≡ some x
      → (set_ends m test ends answer rn).enabled x ≡ answer
  unfolding for_each
  set_ends_hit zero rn j x lt on there = absurd (omega (arith, lt))
  set_ends_hit (suc m) rn j x lt on there = elim (ℕ_discrete j m) [
    | yes last ↦
        set_end_hit (test m) (ends m) answer (set_ends m test ends answer rn) x
          (ap test (sym last) ∙ on) (ap ends (sym last) ∙ there)
    | no before ↦
        set_end_stays (test m) (ends m) answer (set_ends m test ends answer rn) x
          (set_ends_hit m rn j x (omega (arith, lt, before)) on there)
  ]

  pub set_ends_miss :
      (m : ℕ) (rn : Network) (x : ℕ)
      → ((j : ℕ) → j < m → test j ≡ true → ends j ≢ some x)
      → (set_ends m test ends answer rn).enabled x ≡ rn.enabled x
  unfolding for_each
  set_ends_miss zero rn x h = refl
  set_ends_miss (suc m) rn x h =
      set_end_miss (test m) (ends m) answer (set_ends m test ends answer rn) x (h m (omega arith))
      ∙ set_ends_miss m rn x (λ j lt. h j (omega (arith, lt)))

  -- The other tables stay as they are.
  pub set_ends_tables :
      (m : ℕ) (rn : Network)
      → ((set_ends m test ends answer rn).ends ≡ rn.ends)
        × ((set_ends m test ends answer rn).connections ≡ rn.connections)
        × ((set_ends m test ends answer rn).servers ≡ rn.servers)
        × ((set_ends m test ends answer rn).reliable ≡ rn.reliable)
  unfolding for_each enable_end
  set_ends_tables zero rn = (refl, refl, refl, refl)
  set_ends_tables (suc m) rn = elim (Bool-cases (test m)) [
    | inl on ↦ elim (Option-cases (ends m)) [
      | inl free ↦ ground (arith, on, free, set_ends_tables m rn)
      | inr (y, there) ↦ ground (arith, on, there, set_ends_tables m rn)
    ]
    | inr off ↦ ground (arith, off, set_ends_tables m rn)
  ]
