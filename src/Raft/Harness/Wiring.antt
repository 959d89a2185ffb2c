-- ===== src/Raft/Harness/Wiring.antt =====
-- Which ends are enabled after peers have been cut off and attached (src/raft/config.go).
use mit_distribution.Base.{
  ℕ, ◌<◌, ◌≡◌, ◌≢◌, refl, sym, ap, ◌∙◌, ◌⊎◌, inl, inr, Bool, true, false, ◌&&◌, some, arith, update,
  Bool-cases,
}
use native.Mathlib.Decide.{ℕ_discrete}
use mit_distribution.Labrpc.Network.{Network}
use mit_distribution.Raft.Harness.{Config, end_of, attach, disconnect}
use mit_distribution.Raft.Harness.Loops.{
  set_ends, set_ends_stays, set_ends_hit, set_ends_miss, set_ends_tables,
}

-- Every started peer has an end for each peer; the names are all different, and the end for a peer leads to
-- that peer and is enabled exactly if both peers are connected.
pub record Wired {A : Type 0} (cfg : Config A) : Type 0 where
  pub on :
      (i j x : ℕ)
      → i < cfg.n
      → j < cfg.n
      → end_of cfg.endnames i j ≡ some x
      → cfg.net.enabled x ≡ (cfg.connected i && cfg.connected j)
  pub leads :
      (i j x : ℕ)
      → i < cfg.n
      → j < cfg.n
      → end_of cfg.endnames i j ≡ some x
      → cfg.net.connections x ≡ some j
  pub known :
      (i j x : ℕ) → i < cfg.n → j < cfg.n → end_of cfg.endnames i j ≡ some x → cfg.net.ends x ≡ true
  pub apart :
      (i j i' j' x : ℕ)
      → i < cfg.n
      → j < cfg.n
      → i' < cfg.n
      → j' < cfg.n
      → end_of cfg.endnames i j ≡ some x
      → end_of cfg.endnames i' j' ≡ some x
      → (i ≡ i') × (j ≡ j')

module _ {A : Type 0} (cfg : Config A) (v : Wired cfg) (i : ℕ) (lt_i : i < cfg.n) where
  -- The two loops, for the ends of the peer and for those that lead to it.
  abbrev both_loops : (ℕ → Bool) → Bool → Network
  both_loops test answer =
      set_ends cfg.n test (λ j. end_of cfg.endnames j i) answer
        (set_ends cfg.n test (λ j. end_of cfg.endnames i j) answer cfg.net)

  -- An end of this peer, or to it, whose other peer passes the test is set.
  loops_hit :
      (test : ℕ → Bool) (answer : Bool) (p q x : ℕ)
      → p < cfg.n
      → q < cfg.n
      → end_of cfg.endnames p q ≡ some x
      → ((i ≡ p) × (test q ≡ true)) ⊎ ((i ≡ q) × (test p ≡ true))
      → (both_loops test answer).enabled x ≡ answer
  loops_hit test answer p q x lt_p lt_q there (inl (mine, on)) =
      set_ends_stays test (λ j. end_of cfg.endnames j i) answer cfg.n _ x
        (set_ends_hit test (λ j. end_of cfg.endnames i j) answer cfg.n cfg.net q x lt_q on
          (ap (λ k. end_of cfg.endnames k q) mine ∙ there))
  loops_hit test answer p q x lt_p lt_q there (inr (mine, on)) =
      set_ends_hit test (λ j. end_of cfg.endnames j i) answer cfg.n _ p x lt_p on
        (ap (end_of cfg.endnames p) mine ∙ there)

  -- Any other end stays as it is.
  loops_miss :
      (test : ℕ → Bool) (answer : Bool) (p q x : ℕ)
      → p < cfg.n
      → q < cfg.n
      → end_of cfg.endnames p q ≡ some x
      → (i ≡ p → test q ≢ true)
      → (i ≡ q → test p ≢ true)
      → (both_loops test answer).enabled x ≡ cfg.net.enabled x
  loops_miss test answer p q x lt_p lt_q there not_out not_in =
      set_ends_miss test (λ j. end_of cfg.endnames j i) answer cfg.n _ x
        (λ j lt on e.
          (let same = v.apart j i p q x lt lt_i lt_p lt_q e there in
            not_in same.1 (ap test (sym same.0) ∙ on)))
      ∙ set_ends_miss test (λ j. end_of cfg.endnames i j) answer cfg.n cfg.net x
          (λ j lt on e.
            (let same = v.apart i j p q x lt_i lt lt_p lt_q e there in
              not_out same.0 (ap test (sym same.1) ∙ on)))

  connect_on :
      (p q x : ℕ)
      → p < cfg.n
      → q < cfg.n
      → end_of cfg.endnames p q ≡ some x
      → (attach i cfg).net.enabled x ≡ ((attach i cfg).connected p && (attach i cfg).connected q)
  unfolding attach
  connect_on p q x lt_p lt_q there =
      let test : ℕ → Bool = update cfg.connected i true in
      let old = v.on p q x lt_p lt_q there in
      elim (Bool-cases (test p && test q)) [
        | inl both ↦ elim (ℕ_discrete i p) [
          | yes mine ↦
              loops_hit test true p q x lt_p lt_q there (inl (mine, ground (arith, both)))
              ∙ sym both
          | no not_p ↦ elim (ℕ_discrete i q) [
            | yes mine ↦
                loops_hit test true p q x lt_p lt_q there (inr (mine, ground (arith, both)))
                ∙ sym both
            | no not_q ↦
                loops_miss test true p q x lt_p lt_q there (λ e. absurd (not_p e))
                  (λ e. absurd (not_q e))
                ∙ ground (arith, old, not_p, not_q)
          ]
        ]
        | inr not_both ↦
            loops_miss test true p q x lt_p lt_q there (λ e on. ground (arith, not_both, on, e))
              (λ e on. ground (arith, not_both, on, e))
            ∙ ground (arith, old, not_both)
      ]

  disconnect_on :
      (p q x : ℕ)
      → p < cfg.n
      → q < cfg.n
      → end_of cfg.endnames p q ≡ some x
      → (disconnect i cfg).net.enabled x
        ≡ ((disconnect i cfg).connected p && (disconnect i cfg).connected q)
  unfolding disconnect
  disconnect_on p q x lt_p lt_q there =
      let old = v.on p q x lt_p lt_q there in
      elim (ℕ_discrete i p) [
        | yes mine ↦
            loops_hit (λ j. true) false p q x lt_p lt_q there (inl (mine, refl))
            ∙ ground (arith, mine)
        | no not_p ↦ elim (ℕ_discrete i q) [
          | yes mine ↦
              loops_hit (λ j. true) false p q x lt_p lt_q there (inr (mine, refl))
              ∙ ground (arith, mine)
          | no not_q ↦
              loops_miss (λ j. true) false p q x lt_p lt_q there (λ e. absurd (not_p e))
                (λ e. absurd (not_q e))
              ∙ ground (arith, old, not_p, not_q)
        ]
      ]

  loops_tables :
      (test : ℕ → Bool) (answer : Bool)
      → ((both_loops test answer).ends ≡ cfg.net.ends)
        × ((both_loops test answer).connections ≡ cfg.net.connections)
  loops_tables test answer =
      let first = set_ends_tables test (λ j. end_of cfg.endnames i j) answer cfg.n cfg.net in
      let second =
        set_ends_tables test (λ j. end_of cfg.endnames j i) answer cfg.n
          (set_ends cfg.n test (λ j. end_of cfg.endnames i j) answer cfg.net) in
      (second.0 ∙ first.0, second.1 ∙ first.1)

  pub attach-Wired : Wired (attach i cfg)
  unfolding attach
  attach-Wired =
      let same = loops_tables (update cfg.connected i true) true in
      record {
        on = connect_on;
        leads = λ p q x lt_p lt_q e. ap (λ t. t x) same.1 ∙ v.leads p q x lt_p lt_q e;
        known = λ p q x lt_p lt_q e. ap (λ t. t x) same.0 ∙ v.known p q x lt_p lt_q e;
        apart = v.apart;
      }

  pub disconnect-Wired : Wired (disconnect i cfg)
  unfolding disconnect
  disconnect-Wired =
      let same = loops_tables (λ j. true) false in
      record {
        on = disconnect_on;
        leads = λ p q x lt_p lt_q e. ap (λ t. t x) same.1 ∙ v.leads p q x lt_p lt_q e;
        known = λ p q x lt_p lt_q e. ap (λ t. t x) same.0 ∙ v.known p q x lt_p lt_q e;
        apart = v.apart;
      }
