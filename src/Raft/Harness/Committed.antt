-- ===== src/Raft/Harness/Committed.antt =====
-- `nCommitted` (src/raft/config.go) on logs that agree.
use mit_distribution.Base.{
  ℕ, zero, suc, ◌+◌, ◌<◌, ◌≡◌, refl, ap, ◌∙◌, ◌↔◌, inl, inr, Bool, true, Option, none, some, arith,
  Option-cases,
}
use native.Mathlib.Decide.{ℕ_discrete}
use mit_distribution.Raft.Harness.{Config, is_some}
use mit_distribution.Raft.Cluster.Counts.{count}
use mit_distribution.Raft.Harness.Apply.{n_committed, Consistent}

module _ {A : Type 0} (same : A → A → Bool)
    (same_iff : (a b : A) → (same a b ≡ true) ↔ (a ≡ b)) where
  -- What `nCommitted` has found so far.
  record Found (m index : ℕ) (cfg : Config A) (n : ℕ) (cmd : Option A) : Type 0 where
    counted : n ≡ count m (λ i. is_some (cfg.logs i index))
    common : (i : ℕ) (v : A) → i < m → cfg.logs i index ≡ some v → cmd ≡ some v
    source : (v : A) → cmd ≡ some v → (i : ℕ) × (i < m) × (cfg.logs i index ≡ some v)
    empty : cmd ≡ none → n ≡ 0

  n_committed-Found :
      (m index : ℕ) (cfg : Config A)
      → m < cfg.n + 1
      → Consistent cfg
      → (n : ℕ) × (cmd : Option A) × (n_committed same m index cfg.logs ≡ some (n, cmd))
        × Found m index cfg n cmd
  unfolding n_committed count
  n_committed-Found zero index cfg lt c = (
    0,
    none,
    refl,
    record {
      counted = refl;
      common = λ i v h. absurd (omega (arith, h));
      source = λ v e. absurd (cc);
      empty = λ e. refl;
    },
  )
  n_committed-Found (suc m) index cfg lt c =
      let (n, cmd, run, f) = n_committed-Found m index cfg (omega (arith, lt)) c in
      elim (Option-cases (cfg.logs m index)) [
        | inl free ↦ (
          n,
          cmd,
          ground (arith, run, free),
          record {
            counted = ground (arith, f.counted, free);
            common = λ i v h e. elim (ℕ_discrete i m) [
              | yes last ↦ absurd (ground (arith, free, e, ap (λ k. cfg.logs k index) last))
              | no before ↦ f.common i v (omega (arith, h, before)) e
            ];
            source = λ v e. (let (i, h, there) = f.source v e in (i, omega (arith, h), there));
            empty = f.empty;
          },
        )
        | inr (v, there) ↦ (
          n + 1,
          some v,
          elim (Option-cases cmd) [
            | inl nil ↦ ground (arith, run, there, nil, f.empty nil)
            | inr (old, kept) ↦
                (let (i, h, e) = f.source old kept in
                  let equal : same old v ≡ true =
                    (same_iff old v).1 (
                      c.agree i m index old v (omega (arith, h, lt)) (omega (arith, lt)) e there) in
                  ground (arith, run, there, kept, equal))
          ],
          record {
            counted = ground (arith, f.counted, there);
            common = λ i w h e.
                ap some (c.agree m i index v w (omega (arith, lt)) (omega (arith, h, lt)) there e);
            source = λ w e. (m, omega arith, there ∙ e);
            empty = λ e. absurd (cc);
          },
        )
      ]

  -- In such a configuration `nCommitted` finds no error: it counts the servers that have committed the index,
  -- and gives the command that all of them have there.
  pub n_committed_lem :
      (index : ℕ) (cfg : Config A)
      → Consistent cfg
      → (cmd : Option A) × (n_committed same cfg.n index cfg.logs
          ≡ some (count cfg.n (λ i. is_some (cfg.logs i index)), cmd))
        × ((i : ℕ) (v : A) → i < cfg.n → cfg.logs i index ≡ some v → cmd ≡ some v)
  n_committed_lem index cfg c =
      let (n, cmd, run, f) = n_committed-Found cfg.n index cfg (omega arith) c in
      (cmd, run ∙ ap (λ k. some (k, cmd)) f.counted, f.common)
