-- ===== src/Raft/Harness/Partition.antt =====
-- Who can reach whom, after any use of the test configuration (src/raft/config.go) on its network
-- (src/labrpc/labrpc.go).
use mit_distribution.Base.{
  update, ℕ, zero, suc, ◌+◌, ◌<◌, ◌≡◌, sym, ap, subst, ◌∙◌, ◌↔◌, Bool, true, some, arith,
  Option-cases, Bool-cases, inl, inr, ◌==◌,
}
use mit_distribution.Labrpc.Network.{Network, ReqMsg, Draws, admitted, admit, read_endname_info}
use mit_distribution.Labrpc.Requests.{admit-LeadsTo, admit_inv}
use mit_distribution.Raft.Harness.{
  Config, end_of, all_named, attach, connect, connect_all, disconnect, crash1, start1, empty_config,
  start_all, make_config,
}
use mit_distribution.Raft.Harness.Wiring.{Wired, attach-Wired, disconnect-Wired}
use mit_distribution.Raft.Harness.Starts.{crash1-Wired, start1-Wired, start1-n}

-- A configuration that tests have brought about.
pub data Used {A : Type 0} : Config A → Type 0 where
  fresh : (n : ℕ) (unreliable : Bool) → Used (empty_config n unreliable)
  attaches :
      (i : ℕ) {cfg cfg' : Config A} → Used cfg → i < cfg.n → connect i cfg ≡ some cfg' → Used cfg'
  detaches : (i : ℕ) {cfg : Config A} → Used cfg → i < cfg.n → Used (disconnect i cfg)
  crashes : (i : ℕ) {cfg : Config A} → Used cfg → i < cfg.n → Used (crash1 i cfg)
  starts :
      (i : ℕ) (names : ℕ → ℕ) {cfg cfg' : Config A}
      → Used cfg
      → i < cfg.n
      → start1 i names cfg ≡ some cfg'
      → Used cfg'

module _ {A : Type 0} where
  empty-Wired : (n : ℕ) (unreliable : Bool) → Wired (empty_config {A = A} n unreliable)
  unfolding empty_config
  empty-Wired n unreliable = record {
    on = λ i j x h k e. absurd (cc);
    leads = λ i j x h k e. absurd (cc);
    known = λ i j x h k e. absurd (cc);
    apart = λ i j i' j' x h k h' k' e e'. absurd (cc);
  }

  connect_inv : (i : ℕ) (cfg cfg' : Config A) → connect i cfg ≡ some cfg' → attach i cfg ≡ cfg'
  unfolding connect
  connect_inv i cfg cfg' e =
      elim (Bool-cases (all_named cfg.n (update cfg.connected i true) cfg.endnames)) [
        | inl named ↦ ground (arith, named)
        | inr unnamed ↦ absurd (ground (arith, unnamed))
      ]

  Used-Wired : {cfg : Config A} → Used cfg → Wired cfg
  Used-Wired (fresh n unreliable) = empty-Wired n unreliable
  Used-Wired (attaches i {cfg} {cfg'} u lt e) =
      subst Wired (connect_inv i cfg cfg' e) (attach-Wired cfg (Used-Wired u) i lt)
  Used-Wired (detaches i {cfg} u lt) = disconnect-Wired cfg (Used-Wired u) i lt
  Used-Wired (crashes i {cfg} u lt) = crash1-Wired i cfg lt (Used-Wired u)
  Used-Wired (starts i names {cfg} {cfg'} u lt e) =
      start1-Wired i names cfg cfg' lt (Used-Wired u) e

  -- After any sequence of starting, crashing, attaching and detaching peers, a request on the end that one
  -- peer has for another is handed to the other's server object exactly if both peers are attached. This is for
  -- a reliable network on which the other's server is present.
  pub admitted_iff :
      (cfg : Config A) {T : Type 0} (req : ReqMsg T) (draws : Draws) (later : Network)
      (i j server : ℕ)
      → Used cfg
      → i < cfg.n
      → j < cfg.n
      → end_of cfg.endnames i j ≡ some req.endname
      → cfg.net.reliable ≡ true
      → cfg.net.servers j ≡ some server
      → (admit cfg.net req draws later ≡ admitted j server (read_endname_info cfg.net req.endname))
        ↔ ((cfg.connected i ≡ true) × (cfg.connected j ≡ true))
  admitted_iff cfg req draws later i j server u lt_i lt_j there calm found =
      let v = Used-Wired u in
      let on = v.on i j req.endname lt_i lt_j there in
      (
        λ e.
            (let leads =
                (admit_inv cfg.net req draws later j server (read_endname_info cfg.net req.endname)
                  e).0 in
              ground (arith, on, leads.is_enabled)),
        λ both. admit-LeadsTo cfg.net req draws later j server calm (record {
          is_enabled = ground (arith, on, both);
          named = v.leads i j req.endname lt_i lt_j there;
          found = found;
        }),
      )

  start_all-Used :
      (m n : ℕ) (unreliable : Bool) (names : ℕ → ℕ → ℕ) (cfg : Config A)
      → (m < n + 1)
      → start_all m names (empty_config n unreliable) ≡ some cfg
      → Used cfg × (cfg.n ≡ n)
  unfolding start_all empty_config
  start_all-Used zero n unreliable names cfg lt e =
      let same : empty_config n unreliable ≡ cfg = ground arith in
      (subst Used same (fresh n unreliable), ap (λ (c : Config A). c.n) (sym same))
  start_all-Used (suc m) n unreliable names cfg lt e =
      elim (Option-cases (start_all m names (empty_config {A = A} n unreliable))) [
        | inl failed ↦ absurd (ground (arith, failed))
        | inr (before, made) ↦
            (let (u, same) = start_all-Used m n unreliable names before (omega (arith, lt)) made in
              let e' : start1 m (names m) before ≡ some cfg = ground (arith, made) in
              (
                starts m (names m) u (omega (arith, lt, same)) e',
                start1-n m (names m) before cfg e' ∙ same,
              ))
      ]

  connect_all-Used :
      (m : ℕ) (cfg cfg' : Config A)
      → m < cfg.n + 1
      → Used cfg
      → connect_all m cfg ≡ some cfg'
      → Used cfg' × (cfg'.n ≡ cfg.n) × ((i : ℕ) → i < m → cfg'.connected i ≡ true)
  unfolding connect_all attach
  connect_all-Used zero cfg cfg' lt u e =
      let same : cfg ≡ cfg' = ground arith in
      (subst Used same u, ap (λ (c : Config A). c.n) (sym same), λ i h. absurd (omega (arith, h)))
  connect_all-Used (suc m) cfg cfg' lt u e = elim (Option-cases (connect_all m cfg)) [
    | inl failed ↦ absurd (ground (arith, failed))
    | inr (before, made) ↦
        (let (u', same, on) = connect_all-Used m cfg before (omega (arith, lt)) u made in
          let e' : connect m before ≡ some cfg' = ground (arith, made) in
          let is = connect_inv m before cfg' e' in
          (
            attaches m u' (omega (arith, lt, same)) e',
            ap (λ (c : Config A). c.n) (sym is) ∙ same,
            λ i h. ap (λ (c : Config A). c.connected i) (sym is) ∙ elim (Bool-cases (m == i)) [
              | inl last ↦ ground (arith, last)
              | inr other ↦ ground (arith, other, h, on i)
            ],
          ))
  ]

  -- After `make_config`, where it ends without an error, every peer is attached.
  pub make_config-Used :
      (n : ℕ) (unreliable : Bool) (names : ℕ → ℕ → ℕ) (cfg : Config A)
      → make_config n unreliable names ≡ some cfg
      → Used cfg × (cfg.n ≡ n) × ((i : ℕ) → i < n → cfg.connected i ≡ true)
  unfolding make_config
  make_config-Used n unreliable names cfg e =
      elim (Option-cases (start_all n names (empty_config {A = A} n unreliable))) [
        | inl failed ↦ absurd (ground (arith, failed))
        | inr (started, made) ↦
            (let (u, size) = start_all-Used n n unreliable names started (omega arith) made in
              let e' : connect_all n started ≡ some cfg = ground (arith, made) in
              let (u', same, on) = connect_all-Used n started cfg (omega (arith, size)) u e' in
              (u', same ∙ size, on))
      ]
