-- ===== src/Raft/Harness/Submitted.antt =====
-- What `one` (src/raft/config.go) has seen when it returns.
use mathlib.Core.List.{Memᴰ}
use mit_distribution.Base.{
  ℕ, zero, suc, ◌+◌, ◌%◌, ◌<◌, ◌≤◌, ◌≡◌, refl, ap, subst, ◌∙◌, ◌⊎◌, ◌↔◌, inl, inr, Bool, true, ◌&&◌,
  Option, some, List, [], ◌∷◌, ltb, leb, arith, Bool-cases, Option-cases,
}
use mit_distribution.Raft.Cluster.Counts.{count}
use mit_distribution.Raft.Harness.{Config, is_some}
use mit_distribution.Raft.Harness.Apply.{n_committed, Consistent}
use mit_distribution.Raft.Harness.Committed.{n_committed_lem}
use mit_distribution.Raft.Harness.Agreement.{
  Looking, agreed, gave_up, clash, looks_on, reached, try_starts, Attempt, is_command, look_for,
  one,
}

Looking-cases : (x : Looking) → (x ≡ agreed) ⊎ ((x ≡ gave_up) ⊎ ((x ≡ clash) ⊎ (x ≡ looks_on)))
Looking-cases agreed = inl refl
Looking-cases gave_up = inr (inl refl)
Looking-cases clash = inr (inr (inl refl))
Looking-cases looks_on = inr (inr (inr refl))

try_starts-source :
    (n left starts starts' index : ℕ) (is_ready : ℕ → Bool) (start : ℕ → Option ℕ)
    → try_starts n left starts is_ready start ≡ (starts', some index)
    → (server : ℕ) × (is_ready server ≡ true) × (start server ≡ some index)
unfolding try_starts
try_starts-source n zero starts starts' index is_ready start e = absurd (ground (arith, e))
try_starts-source n (suc left) starts starts' index is_ready start e =
    let next = (starts + 1) % n in
    elim (Option-cases (start next)) [
      | inl follows ↦
          try_starts-source n left next starts' index is_ready start (ground (arith, follows, e))
      | inr (i, leads) ↦ elim (Bool-cases (is_ready next)) [
        | inl ready ↦
            (let same : i ≡ index = ground (arith, leads, ready, e) in
              (next, ready, leads ∙ ap some same))
        | inr away ↦
            try_starts-source n left next starts' index is_ready start
              (ground (arith, leads, away, e))
      ]
    ]

module _ {A : Type 0} (same : A → A → Bool)
    (same_iff : (a b : A) → (same a b ≡ true) ↔ (a ≡ b)) where
  -- At the index, enough servers have committed the command, and none another one.
  pub record Agreed (cmd : A) (expected index : ℕ) (cfg : Config A) : Type 0 where
    pub enough : expected ≤ count cfg.n (λ i. is_some (cfg.logs i index))
    pub any : 0 < count cfg.n (λ i. is_some (cfg.logs i index))
    pub common : (i : ℕ) (v : A) → i < cfg.n → cfg.logs i index ≡ some v → v ≡ cmd

  look-Agreed :
      (cmd : A) (expected index : ℕ) (cfg : Config A) (nd : ℕ) (cmd₁ : Option A)
      → Consistent cfg
      → n_committed same cfg.n index cfg.logs ≡ some (nd, cmd₁)
      → (ltb 0 nd && leb expected nd && is_command same cmd cmd₁) ≡ true
      → Agreed cmd expected index cfg
  look-Agreed cmd expected index cfg nd cmd₁ c run right =
      let (cmd₂, run', common) = n_committed_lem same same_iff index cfg c in
      let counted : count cfg.n (λ i. is_some (cfg.logs i index)) ≡ nd =
        ground (arith, run, run') in
      let found : cmd₂ ≡ cmd₁ = ground (arith, run, run') in
      elim (Option-cases cmd₁) [
        | inl nil ↦ absurd (ground (arith, nil, right))
        | inr (v, there) ↦
            (let ours : same v cmd ≡ true = ground (arith, there, right) in
              record {
                enough = ground (arith, right, counted);
                any = ground (arith, right, counted);
                common = λ i w lt e.
                    (let is_v : w ≡ v = ground (arith, common i w lt e, found, there) in
                      is_v ∙ (same_iff v cmd).0 ours);
              })
      ]

  look_for-Agreed :
      (cmd : A) (expected index : ℕ) (looks : List (ℕ × Config A))
      → ((look : ℕ × Config A) → Memᴰ look looks → Consistent look.1)
      → look_for same cmd expected index looks ≡ agreed
      → (look : ℕ × Config A) × Memᴰ look looks × Agreed cmd expected index look.1
  unfolding look_for
  look_for-Agreed cmd expected index [] fine e = absurd (ground (arith, e))
  look_for-Agreed cmd expected index (look ∷ looks) fine e = elim (Bool-cases (ltb look.0 2000)) [
    | inr over ↦ absurd (ground (arith, over, e))
    | inl early ↦ elim (Option-cases (n_committed same look.1.n index look.1.logs)) [
      | inl differ ↦ absurd (ground (arith, early, differ, e))
      | inr ((nd, cmd₁), run) ↦
          elim (Bool-cases (ltb 0 nd && leb expected nd && is_command same cmd cmd₁)) [
            | inl right ↦ (
              look,
              Memᴰ.head refl,
              look-Agreed cmd expected index look.1 nd cmd₁ (fine look (Memᴰ.head refl)) run right,
            )
            | inr wrong ↦
                (let (l, m, a) =
                    look_for-Agreed cmd expected index looks (λ l m. fine l (Memᴰ.tail m))
                      (ground (arith, early, run, wrong, e)) in
                  (l, Memᴰ.tail m, a))
          ]
    ]
  ]

  -- A server said that it leads and gave the index for the command, and in the same round this was agreed on.
  pub record Submitted (cmd : A) (expected index : ℕ) (attempts : List (Attempt A)) : Type 0 where
    pub attempt : Attempt A
    pub made : Memᴰ attempt attempts
    pub server : ℕ
    pub ready : attempt.is_ready server ≡ true
    pub leads : attempt.start server ≡ some index
    pub look : ℕ × Config A
    pub seen : Memᴰ look attempt.looks
    pub agreement : Agreed cmd expected index look.1

  Submitted-tail :
      (cmd : A) (expected index : ℕ) (a : Attempt A) (attempts : List (Attempt A))
      → Submitted cmd expected index attempts
      → Submitted cmd expected index (a ∷ attempts)
  Submitted-tail cmd expected index a attempts s = record {
    attempt = s.attempt;
    made = Memᴰ.tail s.made;
    server = s.server;
    ready = s.ready;
    leads = s.leads;
    look = s.look;
    seen = s.seen;
    agreement = s.agreement;
  }

  -- When `one` returns an index, in one of its rounds a server that is connected said that it leads and gave this
  -- index for the command; and then, in a configuration that was seen in the same round, at least as many servers as
  -- expected have committed the command at this index, at least one, and no server has committed another command
  -- there. This is for logs that agree.
  pub one-Submitted :
      (cmd : A) (expected : ℕ) (retry : Bool) (starts index : ℕ) (attempts : List (Attempt A))
      → ((a : Attempt A) (look : ℕ × Config A)
          → Memᴰ a attempts
          → Memᴰ look a.looks
          → Consistent look.1)
      → one same cmd expected retry starts attempts ≡ reached index
      → Submitted cmd expected index attempts
  unfolding one
  one-Submitted cmd expected retry starts index [] fine e = absurd (ground (arith, e))
  one-Submitted cmd expected retry starts index (a ∷ attempts) fine e =
      elim (Bool-cases (ltb a.since 10000)) [
        | inr over ↦ absurd (ground (arith, over, e))
        | inl early ↦
            (let tried = try_starts a.n a.n starts a.is_ready a.start in
              let later = λ (e' : one same cmd expected retry tried.0 attempts ≡ reached index).
                Submitted-tail cmd expected index a attempts (
                  one-Submitted cmd expected retry tried.0 index attempts
                    (λ x l m. fine x l (Memᴰ.tail m)) e') in
              elim (Option-cases tried.1) [
                | inl nobody ↦ later (ground (arith, early, nobody, e))
                | inr (i, found) ↦ elim (Looking-cases (look_for same cmd expected i a.looks)) [
                  | inr (inl over) ↦ elim (Bool-cases retry) [
                    | inl again ↦ later (ground (arith, early, found, over, again, e))
                    | inr once ↦ absurd (ground (arith, early, found, over, once, e))
                  ]
                  | inr (inr (inl bad)) ↦ absurd (ground (arith, early, found, bad, e))
                  | inr (inr (inr on)) ↦ absurd (ground (arith, early, found, on, e))
                  | inl yes_agreed ↦
                      (let here : i ≡ index = ground (arith, early, found, yes_agreed, e) in
                        let (server, ready, leads) =
                          try_starts-source a.n a.n starts tried.0 i a.is_ready a.start
                            (ap (λ o. (tried.0, o)) found) in
                        let (look, seen, agreement) =
                          look_for-Agreed cmd expected i a.looks
                            (λ l m. fine a l (Memᴰ.head refl) m) yes_agreed in
                        record {
                          attempt = a;
                          made = Memᴰ.head refl;
                          server = server;
                          ready = ready;
                          leads = leads ∙ ap some here;
                          look = look;
                          seen = seen;
                          agreement = subst (λ k. Agreed cmd expected k look.1) here agreement;
                        })
                ]
              ])
      ]
