-- ===== src/KvRaft/Started.antt =====
-- The servers that `make_config` starts one after another (src/kvraft/config.go).
use mit_distribution.Base.{
  ℕ, zero, suc, ◌<◌, ◌≤◌, ◌≡◌, ◌≢◌, refl, sym, ap, ◌∙◌, inl, inr, false, some, List, [], ◌∷◌, ◌++◌,
  arith, ℤ, Option-cases, update, update_at, update_other,
}
use native.Mathlib.Decide.{ℕ_discrete}
use mit_distribution.Labrpc.Network.{
  Network, make_network, make_end, connect as connect_end, add_server,
}
use mit_distribution.Raft.Harness.{make_ends}
use mit_distribution.Raft.Harness.Ends.{make_ends-Fresh}
use mit_distribution.KvRaft.{Config, up_to, serve, start_server, start_each, empty_config}

-- The names of the ends are all different.
pub record Distinct (n : ℕ) (names : ℕ → ℕ → ℕ) : Type 0 where
  pub same :
      (i j i' j' : ℕ)
      → i < n
      → j < n
      → i' < n
      → j' < n
      → names i j ≡ names i' j'
      → (i ≡ i') × (j ≡ j')

make_ends_lem :
    (m : ℕ) (names : ℕ → ℕ) (rn : Network)
    → ((j : ℕ) → j < m → rn.ends (names j) ≡ false)
    → ((j k : ℕ) → j < m → k < m → names j ≡ names k → j ≡ k)
    → (rn' : Network) × (make_ends m names rn ≡ some rn')
unfolding make_ends make_end
make_ends_lem zero names rn unused different = (rn, refl)
make_ends_lem (suc m) names rn unused different =
    let (rn₁, made) =
      make_ends_lem m names rn (λ j lt. unused j (omega (arith, lt)))
        (λ j k lt_j lt_k. different j k (omega (arith, lt_j)) (omega (arith, lt_k))) in
    let f = make_ends-Fresh m names rn rn₁ made in
    let free : rn₁.ends (names m) ≡ false =
      (f.others (names m)
        (λ j lt e. absurd (omega (arith, lt, different j m (omega (arith, lt)) (omega arith) e)))).0
      ∙ unused m (omega arith) in
    elim (Option-cases (make_end (names m) rn₁)) [
      | inl taken ↦ absurd (ground (arith, free, taken))
      | inr (rn₂, there) ↦ (connect_end (names m) m rn₂, ground (arith, made, there))
    ]

-- The first `m` servers have been started.
pub record Started (n m : ℕ) (names : ℕ → ℕ → ℕ) (cfg : Config) : Type 0 where
  pub size : cfg.n ≡ n
  pub named : (i : ℕ) → i < m → cfg.endnames i ≡ some (names i)
  pub leads : (i j : ℕ) → i < m → j < n → cfg.net.connections (names i j) ≡ some j
  pub unused : (i j : ℕ) → m ≤ i → i < n → j < n → cfg.net.ends (names i j) ≡ false
  pub runs : (i : ℕ) → i < m → (a : ℕ) × (cfg.kvservers i ≡ some a) × (cfg.net.servers i ≡ some a)

serve_lem :
    (i : ℕ) (cfg : Config)
    → ((serve i cfg).n ≡ cfg.n)
      × ((serve i cfg).endnames ≡ cfg.endnames)
      × ((serve i cfg).net ≡ add_server i cfg.next_instance cfg.net)
      × ((serve i cfg).kvservers ≡ update cfg.kvservers i (some cfg.next_instance))
unfolding serve
serve_lem i cfg = (refl, refl, refl, refl)

module _ {n : ℕ} {names : ℕ → ℕ → ℕ} (d : Distinct n names) where
  -- The names of the next server's ends are not those of an earlier server's.
  other_names : (m i j k : ℕ) → i < m → m < n → j < n → k < n → names m k ≢ names i j
  other_names m i j k lt lt_m lt_j lt_k e =
      absurd (omega (arith, lt, (d.same m k i j lt_m lt_k (omega (arith, lt, lt_m)) lt_j e).0))

  start_server_lem :
      (m : ℕ) (cfg : Config)
      → m < n
      → Started n m names cfg
      → (cfg' : Config) × (start_server m (names m) cfg ≡ some cfg') × Started n (suc m) names cfg'
  unfolding start_server add_server
  start_server_lem m cfg lt s =
      let (rn, made) =
        make_ends_lem cfg.n (names m) cfg.net
          (λ j h. s.unused m j (omega arith) lt (omega (arith, h, s.size)))
          (λ j k lt_j lt_k e.
            (d.same m j m k lt (omega (arith, lt_j, s.size)) lt (omega (arith, lt_k, s.size))
              e).1) in
      let f = make_ends-Fresh cfg.n (names m) cfg.net rn made in
      let ready : Config = record cfg {
        net = rn;
        endnames = update cfg.endnames m (some (names m));
      } in
      let (size, named, net, kv) = serve_lem m ready in
      let connections = ap (λ (t : Network). t.connections) net in
      let ends = ap (λ (t : Network). t.ends) net in
      let servers = ap (λ (t : Network). t.servers) net in
      (
        serve m ready,
        ground (arith, made),
        record {
          size = size ∙ s.size;
          named = λ i h. ap (λ t. t i) named ∙ elim (ℕ_discrete m i) [
            | yes e ↦ update_at cfg.endnames m i (some (names m)) e ∙ ap (λ k. some (names k)) e
            | no ne ↦
                update_other cfg.endnames m i (some (names m)) ne ∙ s.named i (omega (arith, h, ne))
          ];
          leads = λ i j h lt_j. ap (λ t. t (names i j)) connections ∙ elim (ℕ_discrete m i) [
            | yes e ↦
                ap (λ k. rn.connections (names k j)) (sym e)
                ∙ f.leads j (omega (arith, lt_j, s.size))
            | no ne ↦
                (f.others (names i j) (λ k lt_k.
                  other_names m i j k (omega (arith, h, ne)) lt lt_j
                    (omega (arith, lt_k, s.size)))).2
                ∙ s.leads i j (omega (arith, h, ne)) lt_j
          ];
          unused = λ i j le lt_i lt_j.
              ap (λ t. t (names i j)) ends
              ∙ (f.others (names i j) (λ k lt_k e. absurd (
                  omega (
                    arith,
                    le,
                    (d.same m k i j lt (omega (arith, lt_k, s.size)) lt_i lt_j e).0,
                  )))).0
              ∙ s.unused i j (omega (arith, le)) lt_i lt_j;
          runs = λ i h. elim (ℕ_discrete m i) [
            | yes e ↦ (
              cfg.next_instance,
              ap (λ t. t i) kv ∙ update_at cfg.kvservers m i (some cfg.next_instance) e,
              ap (λ t. t i) servers ∙ update_at rn.servers m i (some cfg.next_instance) e,
            )
            | no ne ↦
                (let (a, there, found) = s.runs i (omega (arith, h, ne)) in
                  (
                    a,
                    ap (λ t. t i) kv
                        ∙ update_other cfg.kvservers m i (some cfg.next_instance) ne
                        ∙ there,
                    ap (λ t. t i) servers
                        ∙ update_other rn.servers m i (some cfg.next_instance) ne
                        ∙ ap (λ t. t i) f.servers
                        ∙ found,
                  ))
          ];
        },
      )

  start_each-append :
      (is : List ℕ) (i : ℕ) (cfg cfg' cfg'' : Config)
      → start_each names is cfg ≡ some cfg'
      → start_server i (names i) cfg' ≡ some cfg''
      → start_each names (is ++ (i ∷ [])) cfg ≡ some cfg''
  unfolding start_each
  start_each-append [] i cfg cfg' cfg'' e next =
      let same : cfg ≡ cfg' = ground (arith, e) in
      let next' : start_server i (names i) cfg ≡ some cfg'' =
        ap (start_server i (names i)) same ∙ next in
      ground (arith, next')
  start_each-append (k ∷ is) i cfg cfg' cfg'' e next =
      elim (Option-cases (start_server k (names k) cfg)) [
        | inl failed ↦ absurd (ground (arith, failed, e))
        | inr (cfg₁, ran) ↦
            ground
              (arith, ran, start_each-append is i cfg₁ cfg' cfg'' (ground (arith, ran, e)) next)
      ]

  pub started_lem :
      (maxraftstate : ℤ) (m : ℕ)
      → m ≤ n
      → (cfg : Config) × (start_each names (up_to m) (empty_config n maxraftstate) ≡ some cfg)
        × Started n m names cfg
  unfolding start_each up_to empty_config make_network
  started_lem maxraftstate zero le = (
    empty_config n maxraftstate,
    refl,
    record {
      size = refl;
      named = λ i h. absurd (omega (arith, h));
      leads = λ i j h. absurd (omega (arith, h));
      unused = λ i j le lt_i lt_j. refl;
      runs = λ i h. absurd (omega (arith, h));
    },
  )
  started_lem maxraftstate (suc m) le =
      let (cfg, ran, s) = started_lem maxraftstate m (omega (arith, le)) in
      let (cfg', ran', s') = start_server_lem m cfg (omega (arith, le)) s in
      (cfg', start_each-append (up_to m) m (empty_config n maxraftstate) cfg cfg' ran ran', s')
