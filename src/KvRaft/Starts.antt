-- ===== src/KvRaft/Starts.antt =====
-- What `make_config` leaves (src/kvraft/config.go), where the random names of the ends are all different.
use mit_distribution.Base.{
  ℕ, ◌<◌, ◌≡◌, refl, sym, ap, ◌∙◌, Bool, false, ◌&&◌, ◌||◌, not, Option, none, some, List, [], ◌∷◌,
  arith, ℤ,
}
use mit_distribution.Labrpc.Network.{Network, set_reliable}
use mit_distribution.Raft.Harness.{end_of}
use mit_distribution.KvRaft.{Config, end_at, up_to, all, connect_each, connect_all, make_config}
use mit_distribution.KvRaft.Links.{
  Below, mem, SameTables, SameTables-trans, SameTables-refl, Named, Lit, Lit-cong,
  connect_unlocked_lem,
}
use mit_distribution.KvRaft.Partition.{Ready}
use mit_distribution.KvRaft.Minority.{Running, up_to-Below, mem-up_to}
use mit_distribution.Labrpc.Requests.{LeadsTo}
use mit_distribution.KvRaft.Started.{Distinct, Started, started_lem}

end_at_range :
    (n : ℕ) (endnames : ℕ → Option (ℕ → ℕ)) (i j x : ℕ)
    → end_at n endnames i j ≡ some x
    → (i < n) × (j < n) × (end_of endnames i j ≡ some x)
unfolding end_at
end_at_range n endnames i j x e = ground (arith, e)

end_at_within :
    (n : ℕ) (endnames : ℕ → Option (ℕ → ℕ)) (i j : ℕ) (names : ℕ → ℕ)
    → i < n
    → j < n
    → endnames i ≡ some names
    → end_at n endnames i j ≡ some (names j)
unfolding end_at
end_at_within n endnames i j names lt_i lt_j there = ground (arith, lt_i, lt_j, there)

module _ {n : ℕ} {names : ℕ → ℕ → ℕ} (d : Distinct n names) (cfg : Config)
    (s : Started n n names cfg) where
  end_at-names :
      (i j x : ℕ) → end_at cfg.n cfg.endnames i j ≡ some x → (i < n) × (j < n) × (names i j ≡ x)
  end_at-names i j x e =
      let (lt_i, lt_j, there) = end_at_range cfg.n cfg.endnames i j x e in
      let lt : i < n = omega (arith, lt_i, s.size) in
      (lt, omega (arith, lt_j, s.size), ground (arith, there, s.named i lt))

  Started-Ready : Ready cfg
  Started-Ready = record {
    named = record {
      started = λ i lt. (names i, s.named i (omega (arith, lt, s.size)));
      apart = λ i j i' j' x e e'.
          (let (lt_i, lt_j, at) = end_at-names i j x e in
            let (lt_i', lt_j', at') = end_at-names i' j' x e' in
            d.same i j i' j' lt_i lt_j lt_i' lt_j' (at ∙ sym at'));
    };
    leads = λ i j x e.
        (let (lt_i, lt_j, at) = end_at-names i j x e in
          ap cfg.net.connections (sym at) ∙ s.leads i j lt_i lt_j);
  }

-- The links of listed servers are set by `ConnectAll`.
abbrev connected : List ℕ → List ℕ → (ℕ → ℕ → Bool) → ℕ → ℕ → Bool
connected is every e p q = ((mem p is && mem q every) || (mem q is && mem p every)) || e p q

connect_each_lem :
    (is : List ℕ) (cfg : Config) (e : ℕ → ℕ → Bool) (v : Named cfg.n cfg.endnames)
    → Below cfg.n is
    → Below cfg.n (up_to cfg.n)
    → Lit cfg.n cfg.endnames cfg.net e
    → (rn : Network) × (connect_each is cfg ≡ some (record cfg { net = rn }))
      × SameTables cfg.net rn
      × Lit cfg.n cfg.endnames rn (connected is (up_to cfg.n) e)
unfolding connect_each all
connect_each_lem [] cfg e v below every lit = (cfg.net, refl, SameTables-refl cfg.net, lit)
connect_each_lem (i ∷ is) cfg e v (lt, below) every lit =
    let (rn, ran, same, lit₁) = connect_unlocked_lem cfg v i (up_to cfg.n) e lt every lit in
    let (rn', ran', same', lit₂) =
      connect_each_lem is (record cfg { net = rn }) _ v below every lit₁ in
    (
      rn',
      ground (arith, ran, ran'),
      SameTables-trans same same',
      Lit-cong v rn' _ _ (λ p q. ground arith) lit₂,
    )

-- `make_config` with names that are all different does not panic. All servers are then running and ready, and a
-- request from any server to any other finds its end enabled and the other's instance.
pub make_config_lem :
    (n : ℕ) (unreliable : Bool) (maxraftstate : ℤ) (names : ℕ → ℕ → ℕ)
    → Distinct n names
    → (i j : ℕ) → i < n
    → j < n
    → (cfg : Config) × (make_config n unreliable maxraftstate names ≡ some cfg)
      × (cfg.n ≡ n)
      × (cfg.net.reliable ≡ not unreliable)
      × Running cfg
      × Ready cfg
      × (end_at cfg.n cfg.endnames i j ≡ some (names i j))
      × (server : ℕ) × (cfg.kvservers j ≡ some server)
      × LeadsTo cfg.net (names i j) j server
unfolding make_config connect_all all set_reliable
make_config_lem n unreliable maxraftstate names d i j lt_i lt_j =
    let (cfg, ran, s) = started_lem d maxraftstate n (omega arith) in
    let ready = Started-Ready d cfg s in
    let every = up_to-Below cfg.n in
    let (rn, ran', same, lit) =
      connect_each_lem (up_to cfg.n) cfg
        (λ p q. elim (end_at cfg.n cfg.endnames p q) [ none ↦ false | some x ↦ cfg.net.enabled x ])
        ready.named every every (λ p q x e. ground (arith, e)) in
    let cfg' : Config = record cfg { net = set_reliable (not unreliable) rn } in
    let there : end_at cfg.n cfg.endnames i j ≡ some (names i j) =
      end_at_within cfg.n cfg.endnames i j (names i) (omega (arith, lt_i, s.size))
        (omega (arith, lt_j, s.size)) (s.named i lt_i) in
    let (a, runs, found) = s.runs j lt_j in
    (
      cfg',
      ground (arith, ran, ran'),
      s.size,
      refl,
      (λ k h. (let (b, runs, found) = s.runs k (omega (arith, h, s.size)) in (b, runs))),
      record {
        named = ready.named;
        leads = λ p q x e. ap (λ t. t x) same.connections ∙ ready.leads p q x e;
      },
      there,
      a,
      runs,
      record {
        is_enabled =
            lit i j (names i j) there
            ∙ ground (arith, mem-up_to i cfg.n, mem-up_to j cfg.n, lt_i, lt_j, s.size);
        named = ap (λ t. t (names i j)) same.connections ∙ s.leads i j lt_i lt_j;
        found = ap (λ t. t j) same.servers ∙ found;
      },
    )
