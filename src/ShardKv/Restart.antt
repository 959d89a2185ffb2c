-- ===== src/ShardKv/Restart.antt =====
-- A server that is shut down and started again (src/shardkv/config.go).
use mit_distribution.Base.{
  ℕ, zero, suc, ◌+◌, ◌<◌, ◌≡◌, ◌≢◌, refl, sym, ap, subst, ◌∙◌, inl, inr, true, false, none, some,
  arith, update, update_at, Option-cases, Bool-cases,
}
use native.Mathlib.Decide.{ℕ_discrete}
use mit_distribution.Labrpc.Network.{Network, make_end, connect, enable, add_server, delete_server}
use mit_distribution.Raft.Persister.{copy, allocate}
use mit_distribution.Raft.Harness.{Instance}
use mit_distribution.ShardKv.{
  Config, Group, open_ends, install, retire, serve, shutdown_server, start_server,
}
use mit_distribution.ShardKv.Panics.{start_server_inv}
use mit_distribution.ShardKv.Shutdown.{silenced, shutdown_server_inv}

-- What the loop that opens ends does: each leads to its server and is enabled, and ends that were there before stay.
record Opened (m : ℕ) (names servers : ℕ → ℕ) (rn rn' : Network) : Type 0 where
  there : (j : ℕ) → j < m → rn'.ends (names j) ≡ true
  on : (j : ℕ) → j < m → rn'.enabled (names j) ≡ true
  leads : (j : ℕ) → j < m → rn'.connections (names j) ≡ some (servers j)
  kept :
      (x : ℕ)
      → rn.ends x ≡ true
      → (rn'.ends x ≡ true)
        × (rn'.enabled x ≡ rn.enabled x)
        × (rn'.connections x ≡ rn.connections x)

Opened-suc :
    (m : ℕ) (names servers : ℕ → ℕ) (rn rn₁ : Network)
    → Opened m names servers rn rn₁
    → rn₁.ends (names m) ≡ false
    → Opened (suc m) names servers rn (record rn₁ {
      ends = update rn₁.ends (names m) true;
      enabled = update (update rn₁.enabled (names m) false) (names m) true;
      connections = update (update rn₁.connections (names m) none) (names m) (some (servers m));
    })
Opened-suc m names servers rn rn₁ o free =
    let other : (x : ℕ) → rn₁.ends x ≡ true → names m ≢ x =
      λ x h e. absurd (ground (arith, free, h, ap rn₁.ends e)) in
    record {
      there = λ j lt. elim (ℕ_discrete j m) [
        | yes last ↦ update_at rn₁.ends (names m) (names j) true (ap names (sym last))
        | no before ↦ ground (arith, o.there j (omega (arith, lt, before)))
      ];
      on = λ j lt. elim (ℕ_discrete j m) [
        | yes last ↦
            update_at (update rn₁.enabled (names m) false) (names m) (names j) true
              (ap names (sym last))
        | no before ↦ ground (arith, o.on j (omega (arith, lt, before)))
      ];
      leads = λ j lt. elim (ℕ_discrete j m) [
        | yes last ↦
            update_at (update rn₁.connections (names m) none) (names m) (names j) (some (servers m))
              (ap names (sym last))
            ∙ ap (λ k. some (servers k)) (sym last)
        | no before ↦
            (let lt' : j < m = omega (arith, lt, before) in
              ground (arith, o.leads j lt', other (names j) (o.there j lt')))
      ];
      kept = λ x h.
          (let (ends, enabled, connections) = o.kept x h in
            let ne = other x ends in
            (ground (arith, ends), ground (arith, enabled, ne), ground (arith, connections, ne)));
    }

open_ends-Opened :
    (m : ℕ) (names servers : ℕ → ℕ) (rn rn' : Network)
    → open_ends m names servers rn ≡ some rn'
    → Opened m names servers rn rn'
unfolding open_ends make_end connect enable
open_ends-Opened zero names servers rn rn' e =
    let same : rn ≡ rn' = ground (arith, e) in
    subst (Opened zero names servers rn) same (record {
      there = λ j lt. absurd (omega (arith, lt));
      on = λ j lt. absurd (omega (arith, lt));
      leads = λ j lt. absurd (omega (arith, lt));
      kept = λ x h. (h, refl, refl);
    })
open_ends-Opened (suc m) names servers rn rn' e =
    elim (Option-cases (open_ends m names servers rn)) [
      | inl taken ↦ absurd (ground (arith, taken, e))
      | inr (rn₁, made) ↦ elim (Bool-cases (rn₁.ends (names m))) [
        | inl taken ↦ absurd (ground (arith, made, taken, e))
        | inr free ↦
            subst (Opened (suc m) names servers rn) (ground (arith, made, free, e)) (
              Opened-suc m names servers rn rn₁ (open_ends-Opened m names servers rn rn₁ made) free)
      ]
    ]

-- The groups and the master servers use only addresses that have been given out.
pub record Allocated (cfg : Config) : Type 0 where
  pub saved :
      (g k : ℕ) (x : Group) (b : ℕ)
      → cfg.groups g ≡ some x
      → x.saved k ≡ some b
      → b < cfg.store.next
  pub runs :
      (g k : ℕ) (x : Group) (s : ℕ)
      → cfg.groups g ≡ some x
      → x.servers k ≡ some s
      → s < cfg.next_instance
  pub masters : (k s : ℕ) → cfg.masterservers k ≡ some s → s < cfg.next_instance

module _ (mastername : ℕ → ℕ) (servername : ℕ → ℕ → ℕ) where
  -- What a shutdown leaves of a group: the names, and a copy of the saved persister at a new address.
  retired :
      (gi i : ℕ) (gg : Group) (cfg : Config) (a : ℕ)
      → gg.saved i ≡ some a
      → (gg₁ : Group) × ((retire gi i gg cfg).groups gi ≡ some gg₁)
        × (gg₁.gid ≡ gg.gid)
        × (gg₁.saved i ≡ some cfg.store.next)
        × ((retire gi i gg cfg).store.at cfg.store.next ≡ cfg.store.at a)
        × ((retire gi i gg cfg).store.next ≡ cfg.store.next + 1)
        × ((retire gi i gg cfg).n ≡ cfg.n)
        × ((retire gi i gg cfg).next_instance ≡ cfg.next_instance)
        × ((old : ℕ)
            → gg.servers i ≡ some old
            → ((retire gi i gg cfg).instances old).is_killed ≡ true)
  unfolding retire copy allocate
  retired gi i gg cfg a saved = (
    record gg {
      saved = update gg.saved i (some cfg.store.next);
      servers = update gg.servers i none;
    },
    ground (arith, saved),
    refl,
    ground (arith, saved),
    ground (arith, saved),
    ground (arith, saved),
    refl,
    refl,
    λ old runs. ground (arith, runs),
  )

  -- What a start makes of a group whose server has a saved persister.
  served :
      (gi i : ℕ) (gg : Group) (names mnames : ℕ → ℕ) (cfg : Config) (a : ℕ)
      → gg.saved i ≡ some a
      → let cfg' = serve mastername servername gi i gg names mnames cfg in
        (gg' : Group) × (cfg'.groups gi ≡ some gg')
        × (gg'.saved i ≡ some cfg.store.next)
        × (cfg'.store.at cfg.store.next ≡ cfg.store.at a)
        × (gg'.servers i ≡ some cfg.next_instance)
        × (cfg'.instances cfg.next_instance
            ≡ record { persister = cfg.store.next; is_killed = false })
        × (cfg'.net ≡ add_server (servername gg.gid i) cfg.next_instance cfg.net)
        × (cfg'.next_instance ≡ cfg.next_instance + 1)
        × (cfg'.store.next ≡ cfg.store.next + 1)
        × ((x : ℕ) → x < cfg.next_instance → cfg'.instances x ≡ cfg.instances x)
  unfolding serve install copy allocate
  served gi i gg names mnames cfg a saved = (
    record gg {
      endnames = update gg.endnames i (some names);
      mendnames = update gg.mendnames i (some mnames);
      saved = update gg.saved i (some cfg.store.next);
      servers = update gg.servers i (some cfg.next_instance);
    },
    ground (arith, saved),
    ground (arith, saved),
    ground (arith, saved),
    ground (arith, saved),
    ground (arith, saved),
    refl,
    refl,
    refl,
    λ x lt.
        (let other : cfg.next_instance ≢ x = λ e. omega (arith, lt, e) in ground (arith, other)),
  )

  -- Where the groups and the master servers use only addresses that have been given out, a server that is shut
  -- down and started again has a new instance: no server of any group and no master server had its address
  -- before. It is not killed, the network knows it by the server's name, and the instance that ran
  -- before is killed. Its persister is an object that no server of any group had before, with the content that
  -- was saved before, so what the old instance writes to its own persister is not seen. Each of the
  -- server's ends for its group is enabled and leads to the server it is for. Both addresses count as given out
  -- afterwards.
  pub restart_keeps :
      (gi i : ℕ) (names mnames : ℕ → ℕ) (cfg cfg₁ cfg₂ : Config) (gg : Group) (a j : ℕ)
      → cfg.groups gi ≡ some gg
      → gg.saved i ≡ some a
      → Allocated cfg
      → shutdown_server mastername servername gi i cfg ≡ some cfg₁
      → start_server mastername servername gi i names mnames cfg₁ ≡ some cfg₂
      → j < cfg.n
      → (gg₂ : Group) × (b : ℕ) × (s : ℕ) × (cfg₂.groups gi ≡ some gg₂)
        × (gg₂.saved i ≡ some b)
        × ((g k : ℕ) (x : Group)
            → cfg.groups g ≡ some x
            → (x.saved k ≢ some b) × (x.servers k ≢ some s))
        × ((k : ℕ) → cfg.masterservers k ≢ some s)
        × (b < cfg₂.store.next)
        × (s < cfg₂.next_instance)
        × ((old : ℕ) → gg.servers i ≡ some old → (cfg₂.instances old).is_killed ≡ true)
        × (cfg₂.store.at b ≡ cfg.store.at a)
        × (gg₂.servers i ≡ some s)
        × (cfg₂.instances s ≡ record { persister = b; is_killed = false })
        × (cfg₂.net.servers (servername gg.gid i) ≡ some s)
        × (cfg₂.net.enabled (names j) ≡ true)
        × (cfg₂.net.connections (names j) ≡ some (servername gg.gid j))
  unfolding add_server
  restart_keeps gi i names mnames cfg cfg₁ cfg₂ gg a j there saved given down up lt =
      let (old, named, is) =
        shutdown_server_inv mastername servername gi i cfg cfg₁ gg there down in
      let quiet : Config = record cfg {
        net = delete_server (servername gg.gid i) (silenced cfg old (gg.mendnames i));
      } in
      let (gg₁, there₁, gid₁, saved₁, content₁, next₁, size₁, same_next, killed) =
        retired gi i gg quiet a saved in
      let (gg', rn, rn', there', made, made', lt_i, is') =
        start_server_inv mastername servername gi i names mnames cfg₁ cfg₂ up in
      let same : gg' ≡ gg₁ =
        ground (arith, sym there' ∙ ap (λ (c : Config). c.groups gi) is ∙ there₁) in
      let ready : Config = record cfg₁ { net = rn' } in
      let saved' : gg'.saved i ≡ some cfg.store.next =
        ap (λ (t : Group). t.saved i) same ∙ saved₁ in
      let (gg₂, there₂, saved₂, content₂, serves, instance_is, net₂, next_s, next_b, stays) =
        served gi i gg' names mnames ready cfg.store.next saved' in
      let gid : gg'.gid ≡ gg.gid = ap (λ (t : Group). t.gid) same ∙ gid₁ in
      let next : cfg₁.store.next ≡ cfg.store.next + 1 =
        ap (λ (c : Config). c.store.next) is ∙ next₁ in
      let size : j < cfg₁.n = omega (arith, lt, ap (λ (c : Config). c.n) is, size₁) in
      let address : cfg₁.next_instance ≡ cfg.next_instance =
        ap (λ (c : Config). c.next_instance) is ∙ same_next in
      let o = open_ends-Opened cfg₁.n names (servername gg'.gid) cfg₁.net rn made in
      let o' = open_ends-Opened cfg₁.nmasters mnames mastername rn rn' made' in
      let (ends, enabled, connections) = o'.kept (names j) (o.there j size) in
      let net : cfg₂.net ≡ add_server (servername gg'.gid i) cfg₁.next_instance rn' =
        ap (λ (c : Config). c.net) is' ∙ net₂ in
      (
        gg₂,
        cfg₁.store.next,
        cfg₁.next_instance,
        ap (λ (c : Config). c.groups gi) is' ∙ there₂,
        saved₂,
        λ g k x known. (
          λ e. omega (arith, given.saved g k x cfg₁.store.next known e, next),
          λ e. omega (arith, given.runs g k x cfg₁.next_instance known e, address),
        ),
        λ k e. omega (arith, given.masters k cfg₁.next_instance e, address),
        omega (arith, ap (λ (c : Config). c.store.next) is' ∙ next_b),
        omega (arith, ap (λ (c : Config). c.next_instance) is' ∙ next_s),
        λ old runs.
            (let below : old < cfg₁.next_instance =
                omega (arith, given.runs gi i gg old there runs, address) in
              ap (λ (c : Config). (c.instances old).is_killed) is'
              ∙ ap (λ (x : Instance). x.is_killed) (stays old below)
              ∙ ap (λ (c : Config). (c.instances old).is_killed) is
              ∙ killed old runs),
        ap (λ (c : Config). c.store.at cfg₁.store.next) is'
            ∙ content₂
            ∙ ap (λ (c : Config). c.store.at cfg.store.next) is
            ∙ content₁,
        serves,
        ap (λ (c : Config). c.instances cfg₁.next_instance) is' ∙ instance_is,
        ap (λ (t : Network). t.servers (servername gg.gid i)) net
            ∙ update_at rn'.servers (servername gg'.gid i) (servername gg.gid i)
                (some cfg₁.next_instance) (ap (λ k. servername k i) gid),
        ap (λ (t : Network). t.enabled (names j)) net ∙ enabled ∙ o.on j size,
        ap (λ (t : Network). t.connections (names j)) net
            ∙ connections
            ∙ o.leads j size
            ∙ ap (λ k. some (servername k j)) gid,
      )
