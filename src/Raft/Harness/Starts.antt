-- ===== src/Raft/Harness/Starts.antt =====
-- Crashing and starting a peer (src/raft/config.go) keeps the ends in order.
use mit_distribution.Base.{
  ℕ, ◌<◌, ◌≡◌, ◌≢◌, refl, sym, ap, subst, ◌∙◌, inl, inr, true, false, ◌&&◌, Option, none, some,
  arith, update, update_other, update_at, Option-cases,
}
use native.Mathlib.Decide.{ℕ_discrete}
use mit_distribution.Labrpc.Network.{Network, delete_server}
use mit_distribution.Raft.Harness.{
  Config, end_of, make_ends, install, disconnect, kill_raft, keep_raft_state, crash1,
  only_raft_state, start1,
}
use mit_distribution.Raft.Harness.Wiring.{Wired, disconnect-Wired}
use mit_distribution.Raft.Harness.Ends.{Fresh, make_ends-Fresh}

abbrev nth_end : ℕ → Option (ℕ → ℕ) → Option ℕ
nth_end q none = none
nth_end q (some names) = some (names q)

end_of-nth_end :
    (endnames : ℕ → Option (ℕ → ℕ)) (p q : ℕ) → end_of endnames p q ≡ nth_end q (endnames p)
end_of-nth_end endnames p q =
    elim (endnames p)
      as (λ o.
        (elim o as (λ _. Option ℕ) [ none ↦ none | some names ↦ some (names q) ]) ≡ nth_end q o) [
          | none ↦ refl
          | some names ↦ refl
        ]

end_of_new :
    (endnames : ℕ → Option (ℕ → ℕ)) (i p q : ℕ) (names : ℕ → ℕ)
    → i ≡ p
    → end_of (update endnames i (some names)) p q ≡ some (names q)
end_of_new endnames i p q names e =
    end_of-nth_end (update endnames i (some names)) p q
    ∙ ap (nth_end q) (update_at endnames i p (some names) e)

end_of_old :
    (endnames : ℕ → Option (ℕ → ℕ)) (i p q : ℕ) (names : ℕ → ℕ)
    → i ≢ p
    → end_of (update endnames i (some names)) p q ≡ end_of endnames p q
end_of_old endnames i p q names ne =
    end_of-nth_end (update endnames i (some names)) p q
    ∙ ap (nth_end q) (update_other endnames i p (some names) ne)
    ∙ sym (end_of-nth_end endnames p q)

some_inj : (a b : ℕ) → some a ≡ some b → a ≡ b
some_inj a b e = ground arith

-- What the ends depend on is unchanged.
record Same {A : Type 0} (cfg cfg' : Config A) : Type 0 where
  peers : cfg'.n ≡ cfg.n
  endnames : cfg'.endnames ≡ cfg.endnames
  connected : cfg'.connected ≡ cfg.connected
  on : cfg'.net.enabled ≡ cfg.net.enabled
  known : cfg'.net.ends ≡ cfg.net.ends
  leads : cfg'.net.connections ≡ cfg.net.connections

Wired-Same : {A : Type 0} (cfg cfg' : Config A) → Same cfg cfg' → Wired cfg → Wired cfg'
Wired-Same cfg cfg' s v =
    let lt : (i : ℕ) → i < cfg'.n → i < cfg.n = λ i h. omega (arith, h, s.peers) in
    let named : (i j x : ℕ) → end_of cfg'.endnames i j ≡ some x → end_of cfg.endnames i j ≡ some x =
      λ i j x e. ap (λ t. end_of t i j) (sym s.endnames) ∙ e in
    record {
      on = λ i j x h k e.
          ap (λ t. t x) s.on
          ∙ v.on i j x (lt i h) (lt j k) (named i j x e)
          ∙ ap (λ t. t i && t j) (sym s.connected);
      leads =
          λ i j x h k e. ap (λ t. t x) s.leads ∙ v.leads i j x (lt i h) (lt j k) (named i j x e);
      known =
          λ i j x h k e. ap (λ t. t x) s.known ∙ v.known i j x (lt i h) (lt j k) (named i j x e);
      apart = λ i j i' j' x h k h' k' e e'.
          v.apart i j i' j' x (lt i h) (lt j k) (lt i' h') (lt j' k') (named i j x e)
            (named i' j' x e');
    }

Same-trans : {A : Type 0} (a b c : Config A) → Same a b → Same b c → Same a c
Same-trans a b c s t = record {
  peers = t.peers ∙ s.peers;
  endnames = t.endnames ∙ s.endnames;
  connected = t.connected ∙ s.connected;
  on = t.on ∙ s.on;
  known = t.known ∙ s.known;
  leads = t.leads ∙ s.leads;
}

Same-refl : {A : Type 0} (cfg : Config A) → Same cfg cfg
Same-refl cfg = record {
  peers = refl;
  endnames = refl;
  connected = refl;
  on = refl;
  known = refl;
  leads = refl;
}

module _ {A : Type 0} where
  kill_raft-Same : (i : ℕ) (cfg : Config A) → Same cfg (kill_raft i cfg)
  unfolding kill_raft
  kill_raft-Same i cfg =
      elim (cfg.rafts i)
        as (λ o. Same cfg (elim o [
          | none ↦ cfg
          | some r ↦ record cfg {
            rafts = update cfg.rafts i none;
            instances = update cfg.instances r (record (cfg.instances r) { is_killed = true });
          }
        ])) [
          | none ↦ Same-refl cfg
          | some r ↦ record {
            peers = refl;
            endnames = refl;
            connected = refl;
            on = refl;
            known = refl;
            leads = refl;
          }
        ]

  pub keep_raft_state-none :
      (i : ℕ) (cfg : Config A) → cfg.saved i ≡ none → keep_raft_state i cfg ≡ cfg
  unfolding keep_raft_state
  keep_raft_state-none i cfg e = ground (arith, e)

  pub keep_raft_state-some :
      (i : ℕ) (cfg : Config A) (a : ℕ)
      → cfg.saved i ≡ some a
      → keep_raft_state i cfg ≡ record cfg {
        saved = update cfg.saved i (some (only_raft_state a cfg.store).1);
        store = (only_raft_state a cfg.store).0;
      }
  unfolding keep_raft_state
  keep_raft_state-some i cfg a e = ground (arith, e)

  keep_raft_state-Same : (i : ℕ) (cfg : Config A) → Same cfg (keep_raft_state i cfg)
  unfolding keep_raft_state
  keep_raft_state-Same i cfg = elim (Option-cases (cfg.saved i)) [
    | inl never ↦ subst (Same cfg) (sym (keep_raft_state-none i cfg never)) (Same-refl cfg)
    | inr (a, there) ↦ subst (Same cfg) (sym (keep_raft_state-some i cfg a there)) (record {
      peers = refl;
      endnames = refl;
      connected = refl;
      on = refl;
      known = refl;
      leads = refl;
    })
  ]

  crash1-Same : (i : ℕ) (cfg : Config A) → Same (disconnect i cfg) (crash1 i cfg)
  unfolding crash1 delete_server
  crash1-Same i cfg =
      let cut : Config A = disconnect i cfg in
      let gone : Config A = record cut { net = delete_server i cut.net } in
      let off : Same cut gone = record {
        peers = refl;
        endnames = refl;
        connected = refl;
        on = refl;
        known = refl;
        leads = refl;
      } in
      Same-trans cut gone (crash1 i cfg) off (
        Same-trans gone (kill_raft i gone) (crash1 i cfg) (kill_raft-Same i gone)
          (keep_raft_state-Same i (kill_raft i gone)))

  pub crash1-Wired : (i : ℕ) (cfg : Config A) → i < cfg.n → Wired cfg → Wired (crash1 i cfg)
  crash1-Wired i cfg lt v =
      Wired-Same (disconnect i cfg) (crash1 i cfg) (crash1-Same i cfg) (disconnect-Wired cfg v i lt)

  crash1_off : (i : ℕ) (cfg : Config A) → (crash1 i cfg).connected i ≡ false
  unfolding disconnect
  crash1_off i cfg = ap (λ t. t i) (crash1-Same i cfg).connected ∙ ground arith

  install-Same : (i : ℕ) (cfg : Config A) → Same cfg (install i cfg)
  unfolding install
  install-Same i cfg = record {
    peers = refl;
    endnames = refl;
    connected = refl;
    on = refl;
    known = refl;
    leads = refl;
  }

  -- A disconnected peer gets new ends.
  new_ends-Wired :
      (i : ℕ) (names : ℕ → ℕ) (cfg : Config A) (rn : Network)
      → cfg.connected i ≡ false
      → Fresh cfg.n names cfg.net rn
      → Wired cfg
      → Wired (record cfg { net = rn; endnames = update cfg.endnames i (some names) })
  new_ends-Wired i names cfg rn off f v =
      let named : ℕ → ℕ → Option ℕ = end_of (update cfg.endnames i (some names)) in
      let mine : (p q x : ℕ) → i ≡ p → named p q ≡ some x → names q ≡ x = λ p q x e there.
        some_inj (names q) x (sym (end_of_new cfg.endnames i p q names e) ∙ there) in
      let old : (p q x : ℕ) → i ≢ p → named p q ≡ some x → end_of cfg.endnames p q ≡ some x =
        λ p q x ne there. sym (end_of_old cfg.endnames i p q names ne) ∙ there in
      let unlike : (p q x j : ℕ)
          → p < cfg.n
          → q < cfg.n
          → i ≢ p
          → named p q ≡ some x
          → j < cfg.n
          → names j ≢ x =
        λ p q x j h k ne there lt e. absurd (
          ground
            (arith, f.unused j lt, v.known p q x h k (old p q x ne there), ap cfg.net.ends e)) in
      record {
        on = λ p q x h k there. elim (ℕ_discrete i p) [
          | yes e ↦
              ap rn.enabled (sym (mine p q x e there))
              ∙ f.off q k
              ∙ ground (arith, off, ap cfg.connected e)
          | no ne ↦
              (f.others x (λ j lt. unlike p q x j h k ne there lt)).1
              ∙ v.on p q x h k (old p q x ne there)
        ];
        leads = λ p q x h k there. elim (ℕ_discrete i p) [
          | yes e ↦ ap rn.connections (sym (mine p q x e there)) ∙ f.leads q k
          | no ne ↦
              (f.others x (λ j lt. unlike p q x j h k ne there lt)).2
              ∙ v.leads p q x h k (old p q x ne there)
        ];
        known = λ p q x h k there. elim (ℕ_discrete i p) [
          | yes e ↦ ap rn.ends (sym (mine p q x e there)) ∙ f.there q k
          | no ne ↦
              (f.others x (λ j lt. unlike p q x j h k ne there lt)).0
              ∙ v.known p q x h k (old p q x ne there)
        ];
        apart = λ p q p' q' x h k h' k' there there'. elim (ℕ_discrete i p) [
          | yes e ↦ elim (ℕ_discrete i p') [
            | yes e' ↦ (
              sym e ∙ e',
              f.different q q' k k' (mine p q x e there ∙ sym (mine p' q' x e' there')),
            )
            | no ne' ↦ absurd (unlike p' q' x q h' k' ne' there' k (mine p q x e there))
          ]
          | no ne ↦ elim (ℕ_discrete i p') [
            | yes e' ↦ absurd (unlike p q x q' h k ne there k' (mine p' q' x e' there'))
            | no ne' ↦ v.apart p q p' q' x h k h' k' (old p q x ne there) (old p' q' x ne' there')
          ]
        ];
      }

  -- A started peer has new ends, which are disabled until it is connected.
  pub start1-Wired :
      (i : ℕ) (names : ℕ → ℕ) (cfg cfg' : Config A)
      → i < cfg.n
      → Wired cfg
      → start1 i names cfg ≡ some cfg'
      → Wired cfg'
  unfolding start1
  start1-Wired i names cfg cfg' lt v e =
      let down : Config A = crash1 i cfg in
      elim (Option-cases (make_ends down.n names down.net)) [
        | inl taken ↦ absurd (ground (arith, taken))
        | inr (rn, made) ↦
            (let mid : Config A = record down {
              net = rn;
              endnames = update down.endnames i (some names);
            } in
              let same : install i mid ≡ cfg' = ground (arith, made) in
              subst Wired same (
                Wired-Same mid (install i mid) (install-Same i mid) (
                  new_ends-Wired i names down rn (crash1_off i cfg)
                    (make_ends-Fresh down.n names down.net rn made) (crash1-Wired i cfg lt v))))
      ]

  pub start1-n :
      (i : ℕ) (names : ℕ → ℕ) (cfg cfg' : Config A)
      → start1 i names cfg ≡ some cfg'
      → cfg'.n ≡ cfg.n
  unfolding start1 disconnect
  start1-n i names cfg cfg' e =
      let down : Config A = crash1 i cfg in
      elim (Option-cases (make_ends down.n names down.net)) [
        | inl taken ↦ absurd (ground (arith, taken))
        | inr (rn, made) ↦
            (let mid : Config A = record down {
              net = rn;
              endnames = update down.endnames i (some names);
            } in
              let same : install i mid ≡ cfg' = ground (arith, made) in
              ap (λ (c : Config A). c.n) (sym same)
              ∙ (install-Same i mid).peers
              ∙ (crash1-Same i cfg).peers)
      ]
