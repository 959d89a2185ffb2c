-- ===== src/Raft/Harness/Apply.antt =====
-- The listener on the apply channel of each peer (src/raft/config.go, `start1`), and `nCommitted`.
-- Go's `==` on commands is a parameter.
use mit_distribution.Base.{
  ℕ, zero, suc, ◌+◌, ◌-◌, ◌<◌, ◌≡◌, sym, ap, subst, ◌∙◌, ◌⊎◌, ◌↔◌, inl, inr, Bool, true, false,
  ◌&&◌, ◌||◌, not, Option, none, some, arith, update, update_cases, if◌then◌else◌, ltb, Bool-cases,
  Option-cases,
}
use native.Mathlib.Decide.{ℕ_discrete}
use mit_distribution.Raft.Replicate.{ApplyMsg}
use mit_distribution.Raft.Harness.{Config, is_some}

module _ {A : Type 0} (same : A → A → Bool) where
  -- Has any of the first `m` servers committed another value at the index?
  unfoldable pub conflict : ℕ → (ℕ → ℕ → Option A) → ℕ → A → Bool
  conflict zero logs index v = false
  conflict (suc m) logs index v =
      conflict m logs index v
      || (elim (logs m index) [ none ↦ false | some old ↦ not (same old v) ])

  -- A command that server `i` applies; an error ends the program.
  unfoldable pub apply_command : ℕ → (index : ℕ) → A → Config A → Option (Config A)
  unfolding conflict
  apply_command i index v cfg =
      let prev_ok = is_some (cfg.logs i (index - 1)) in
      if conflict cfg.n cfg.logs index v || (ltb 1 index && not prev_ok)
      then none
      else some (record cfg {
        logs = update cfg.logs i (update (cfg.logs i) index (some v));
        max_index = (if ltb cfg.max_index index then index else cfg.max_index);
      })

  -- `nCommitted` over the first `m` servers: how many have committed the index, and what.
  unfoldable pub n_committed : ℕ → ℕ → (ℕ → ℕ → Option A) → Option (ℕ × Option A)
  n_committed zero index logs = some (0, none)
  n_committed (suc m) index logs = elim (n_committed m index logs) [
    | none ↦ none
    | some (n, cmd) ↦ elim (logs m index) [
      | none ↦ some (n, cmd)
      | some v ↦ elim cmd [
        | none ↦ (if ltb 0 n then none else some (n + 1, some v))
        | some old ↦ (if ltb 0 n && not (same old v) then none else some (n + 1, some v))
      ]
    ]
  ]

-- One message of the channel of server `i`. The log keeps the message's command, nil included.
unfoldable pub apply_msg :
    {A : Type 0}
    → (Option A → Option A → Bool)
    → ℕ
    → ApplyMsg A
    → Config (Option A)
    → Option (Config (Option A))
unfolding apply_command
apply_msg same i m cfg =
    if not m.command_valid then some cfg else apply_command same i m.command_index m.command cfg

-- No two servers have committed different values at one index, and no server has left an index out.
pub record Consistent {A : Type 0} (cfg : Config A) : Type 0 where
  pub agree :
      (i j index : ℕ) (a b : A)
      → i < cfg.n
      → j < cfg.n
      → cfg.logs i index ≡ some a
      → cfg.logs j index ≡ some b
      → a ≡ b
  pub gapless :
      (i index : ℕ) (a : A)
      → cfg.logs i (suc (suc index)) ≡ some a
      → (b : A) × (cfg.logs i (suc index) ≡ some b)

module _ {A : Type 0} (same : A → A → Bool)
    (same_iff : (a b : A) → (same a b ≡ true) ↔ (a ≡ b)) where
  conflict_free :
      (m : ℕ) (logs : ℕ → ℕ → Option A) (index : ℕ) (v : A)
      → conflict same m logs index v ≡ false
      → (j : ℕ) (b : A) → j < m
      → logs j index ≡ some b
      → b ≡ v
  unfolding conflict
  conflict_free zero logs index v free j b lt e = absurd (omega (arith, lt))
  conflict_free (suc m) logs index v free j b lt e = elim (ℕ_discrete j m) [
    | yes last ↦
        (let here : logs m index ≡ some b = ap (λ k. logs k index) (sym last) ∙ e in
          (same_iff b v).0 (ground (arith, free, here)))
    | no before ↦
        conflict_free m logs index v (ground (arith, free)) j b (omega (arith, lt, before)) e
  ]

  -- What a log holds after a command.
  log_cases :
      (logs : ℕ → ℕ → Option A) (i index : ℕ) (v : A) (p k : ℕ) (a : A)
      → update logs i (update (logs i) index (some v)) p k ≡ some a
      → ((i ≡ p) × (index ≡ k) × (v ≡ a)) ⊎ (logs p k ≡ some a)
  log_cases logs i index v p k a e = elim (update_cases logs i p (update (logs i) index (some v))) [
    | inl (mine, e₁) ↦ elim (update_cases (logs i) index k (some v)) [
      | inl (here, e₂) ↦ inl (mine, here, ground (arith, sym e₂ ∙ sym (ap (λ t. t k) e₁) ∙ e))
      | inr (there, e₂) ↦ inr (ap (λ q. logs q k) (sym mine) ∙ sym e₂ ∙ sym (ap (λ t. t k) e₁) ∙ e)
    ]
    | inr (other, e₁) ↦ inr (sym (ap (λ t. t k) e₁) ∙ e)
  ]

  -- What was there is still there, if perhaps with another value.
  log_stays :
      (logs : ℕ → ℕ → Option A) (i index : ℕ) (v : A) (p k : ℕ) (a : A)
      → logs p k ≡ some a
      → (b : A) × (update logs i (update (logs i) index (some v)) p k ≡ some b)
  log_stays logs i index v p k a e = elim (update_cases logs i p (update (logs i) index (some v))) [
    | inl (mine, e₁) ↦ elim (update_cases (logs i) index k (some v)) [
      | inl (here, e₂) ↦ (v, ap (λ t. t k) e₁ ∙ e₂)
      | inr (there, e₂) ↦ (a, ap (λ t. t k) e₁ ∙ e₂ ∙ ap (λ q. logs q k) mine ∙ e)
    ]
    | inr (other, e₁) ↦ (a, ap (λ t. t k) e₁ ∙ e)
  ]

  module _ (cfg : Config A) (i index : ℕ) (v : A) where
    abbrev after : Config A
    after = record cfg {
      logs = update cfg.logs i (update (cfg.logs i) index (some v));
      max_index = (if ltb cfg.max_index index then index else cfg.max_index);
    }

    after-Consistent :
        i < cfg.n
        → Consistent cfg
        → conflict same cfg.n cfg.logs index v ≡ false
        → (1 < index → (b : A) × (cfg.logs i (index - 1) ≡ some b))
        → Consistent after
    after-Consistent lt c free prev = record {
      agree = λ p q k a b lt_p lt_q e e'. elim (log_cases cfg.logs i index v p k a e) [
        | inl (mine, here, is_v) ↦ elim (log_cases cfg.logs i index v q k b e') [
          | inl (mine', here', is_v') ↦ sym is_v ∙ is_v'
          | inr old' ↦
              sym is_v
              ∙ sym
                  (conflict_free cfg.n cfg.logs index v free q b lt_q (ap (cfg.logs q) here ∙ old'))
        ]
        | inr old ↦ elim (log_cases cfg.logs i index v q k b e') [
          | inl (mine', here', is_v') ↦
              conflict_free cfg.n cfg.logs index v free p a lt_p (ap (cfg.logs p) here' ∙ old)
              ∙ is_v'
          | inr old' ↦ c.agree p q k a b lt_p lt_q old old'
        ]
      ];
      gapless = λ p k a e. elim (log_cases cfg.logs i index v p (suc (suc k)) a e) [
        | inl (mine, here, is_v) ↦
            (let (b, before) = prev (omega (arith, here)) in
              let at : index - 1 ≡ suc k = omega (arith, here) in
              log_stays cfg.logs i index v p (suc k) b
                (ap (λ q. cfg.logs q (suc k)) (sym mine) ∙ ap (cfg.logs i) (sym at) ∙ before))
        | inr old ↦
            (let (b, before) = c.gapless p k a old in
              log_stays cfg.logs i index v p (suc k) b before)
      ];
    }

  -- As long as the listeners find no error, no two servers have committed different commands at one index, and
  -- no server has left an index out: one more command keeps this.
  pub apply_command-Consistent :
      (cfg cfg' : Config A) (i index : ℕ) (v : A)
      → i < cfg.n
      → Consistent cfg
      → apply_command same i index v cfg ≡ some cfg'
      → Consistent cfg'
  unfolding apply_command
  apply_command-Consistent cfg cfg' i index v lt c e =
      elim (Bool-cases (conflict same cfg.n cfg.logs index v)) [
        | inl clash ↦ absurd (ground (arith, clash))
        | inr free ↦
            (let prev : 1 < index → (b : A) × (cfg.logs i (index - 1) ≡ some b) = λ late.
                elim (Option-cases (cfg.logs i (index - 1))) [
                  | inl gap ↦ absurd (ground (arith, free, gap, late))
                  | inr before ↦ before
                ] in
              let same' : after cfg i index v ≡ cfg' =
                elim (Bool-cases (ltb 1 index && not (is_some (cfg.logs i (index - 1))))) [
                  | inl gap ↦ absurd (ground (arith, free, gap))
                  | inr fine ↦ ground (arith, free, fine)
                ] in
              subst Consistent same' (after-Consistent cfg i index v lt c free prev))
      ]
