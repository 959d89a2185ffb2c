-- ===== src/Raft/Harness/Ends.antt =====
-- The ends that `start1` makes for a peer (src/raft/config.go).
use mit_distribution.Base.{
  ℕ, zero, suc, ◌<◌, ◌≡◌, ◌≢◌, refl, sym, ap, subst, ◌∙◌, ◌⊎◌, inl, inr, true, false, none, some,
  arith, update, Bool-cases, Option-cases,
}
use native.Mathlib.Decide.{ℕ_discrete}
use mit_distribution.Labrpc.Network.{Network, make_end, connect as connect_end}
use mit_distribution.Raft.Harness.{make_ends}

-- What the new ends are like: not used before, all different, disabled, and each leads to its peer.
pub record Fresh (m : ℕ) (names : ℕ → ℕ) (rn rn' : Network) : Type 0 where
  pub unused : (j : ℕ) → j < m → rn.ends (names j) ≡ false
  pub different : (j k : ℕ) → j < m → k < m → names j ≡ names k → j ≡ k
  pub there : (j : ℕ) → j < m → rn'.ends (names j) ≡ true
  pub off : (j : ℕ) → j < m → rn'.enabled (names j) ≡ false
  pub leads : (j : ℕ) → j < m → rn'.connections (names j) ≡ some j
  pub others :
      (x : ℕ)
      → ((j : ℕ) → j < m → names j ≢ x)
      → (rn'.ends x ≡ rn.ends x)
        × (rn'.enabled x ≡ rn.enabled x)
        × (rn'.connections x ≡ rn.connections x)
  pub servers : rn'.servers ≡ rn.servers

-- The network with one more end.
abbrev end_added : ℕ → ℕ → Network → Network
end_added x j rn = record rn {
  ends = update rn.ends x true;
  enabled = update rn.enabled x false;
  connections = update (update rn.connections x none) x (some j);
}

lt_suc_cases : (j m : ℕ) → j < suc m → (j < m) ⊎ (j ≡ m)
lt_suc_cases j m h = elim (ℕ_discrete j m) [ yes e ↦ inr e | no ne ↦ inl (omega (arith, h, ne)) ]

Fresh-suc :
    (m : ℕ) (names : ℕ → ℕ) (rn rn₁ : Network)
    → Fresh m names rn rn₁
    → rn₁.ends (names m) ≡ false
    → Fresh (suc m) names rn (end_added (names m) m rn₁)
Fresh-suc m names rn rn₁ f free =
    let new : (j : ℕ) → j < m → names j ≢ names m =
      λ j lt e. absurd (ground (arith, free, f.there j lt, ap rn₁.ends e)) in
    record {
      unused = λ j lt. elim (lt_suc_cases j m lt) [
        | inl before ↦ f.unused j before
        | inr last ↦ ap (λ k. rn.ends (names k)) last ∙ sym (f.others (names m) new).0 ∙ free
      ];
      different = λ j k lt_j lt_k e. elim (lt_suc_cases j m lt_j) [
        | inl before_j ↦ elim (lt_suc_cases k m lt_k) [
          | inl before_k ↦ f.different j k before_j before_k e
          | inr last_k ↦ absurd (new j before_j (e ∙ ap names last_k))
        ]
        | inr last_j ↦ elim (lt_suc_cases k m lt_k) [
          | inl before_k ↦ absurd (new k before_k (sym e ∙ ap names last_j))
          | inr last_k ↦ last_j ∙ sym last_k
        ]
      ];
      there = λ j lt. elim (lt_suc_cases j m lt) [
        | inl before ↦ ground (arith, f.there j before)
        | inr last ↦ ground (arith, last)
      ];
      off = λ j lt. elim (lt_suc_cases j m lt) [
        | inl before ↦ ground (arith, f.off j before)
        | inr last ↦ ground (arith, last)
      ];
      leads = λ j lt. elim (lt_suc_cases j m lt) [
        | inl before ↦ ground (arith, f.leads j before, new j before)
        | inr last ↦ ground (arith, last)
      ];
      others = λ x h.
          (let h' : names m ≢ x = h m (omega arith) in
            let o = f.others x (λ j lt. h j (omega (arith, lt))) in
            (ground (arith, o.0, h'), ground (arith, o.1, h'), ground (arith, o.2, h')));
      servers = f.servers;
    }

pub make_ends-Fresh :
    (m : ℕ) (names : ℕ → ℕ) (rn rn' : Network)
    → make_ends m names rn ≡ some rn'
    → Fresh m names rn rn'
unfolding make_ends make_end connect_end
make_ends-Fresh zero names rn rn' e =
    let same : rn ≡ rn' = ground arith in
    subst (λ s. Fresh 0 names rn s) same
      (record {
        unused = λ j lt. absurd (omega (arith, lt));
        different = λ j k lt. absurd (omega (arith, lt));
        there = λ j lt. absurd (omega (arith, lt));
        off = λ j lt. absurd (omega (arith, lt));
        leads = λ j lt. absurd (omega (arith, lt));
        others = λ x h. (refl, refl, refl);
        servers = refl;
      })
make_ends-Fresh (suc m) names rn rn' e = elim (Option-cases (make_ends m names rn)) [
  | inl taken ↦ absurd (ground (arith, taken))
  | inr (rn₁, made) ↦
      (let f = make_ends-Fresh m names rn rn₁ made in
        elim (Bool-cases (rn₁.ends (names m))) [
          | inl taken ↦ absurd (ground (arith, made, taken))
          | inr free ↦
              subst (λ s. Fresh (suc m) names rn s) (ground (arith, made, free))
                (Fresh-suc m names rn rn₁ f free)
        ])
]
