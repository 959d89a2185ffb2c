-- ===== src/ShardKv.antt =====
-- The test configuration of the sharded store (src/shardkv/config.go): three master servers, and groups of
-- servers that are started and shut down. Slices are functions of the index. Names of ends and of servers are
-- numbers. `none` is a panic: an index out of range, a nil slice, or a name that is taken.
pub mod Setup
pub mod Panics
pub mod Shutdown
pub mod Restart
mod Examples
use mit_distribution.Base.{
  ℕ, zero, suc, ◌+◌, ◌*◌, Bool, true, false, not, Option, none, some, List, [], ◌∷◌, ◌++◌, update,
  if◌then◌else◌, ltb, ℤ, pos, negsuc, length,
}
use mit_distribution.Labrpc.Network.{Network, make_end, connect, enable, add_server, delete_server}
use mit_distribution.Raft.Persister.{
  Persister, make_persister, copy, raft_state_size, read_snapshot, Store, allocate,
}
use mit_distribution.Raft.Harness.{Instance}

-- `type group struct`
pub record Group : Type 0 where
  pub gid : ℕ
  pub servers : ℕ → Option ℕ
  pub saved : ℕ → Option ℕ
  pub endnames : ℕ → Option (ℕ → ℕ)
  pub mendnames : ℕ → Option (ℕ → ℕ)

-- `type config struct`, without the clock. A server object is known by its address, and a clerk by its client
-- number.
pub record Config : Type 0 where
  pub net : Network
  pub nmasters : ℕ
  pub masterservers : ℕ → Option ℕ
  pub ngroups : ℕ
  pub n : ℕ
  pub groups : ℕ → Option Group
  pub instances : ℕ → Instance
  pub next_instance : ℕ
  pub store : Store
  pub clerks : ℕ → Option (ℕ → ℕ)
  pub next_client_id : ℕ
  pub maxraftstate : ℤ

-- `for j := 0; j < m; j++`: an end for each of `m` servers, connected and enabled.
unfoldable pub open_ends : ℕ → (names servers : ℕ → ℕ) → Network → Option Network
unfolding make_end connect enable
open_ends zero names servers rn = some rn
open_ends (suc m) names servers rn = elim (open_ends m names servers rn) [
  | none ↦ none
  | some rn₁ ↦ elim (make_end (names m) rn₁) [
    | none ↦ none
    | some rn₂ ↦ some (enable (names m) true (connect (names m) (servers m) rn₂))
  ]
]

-- The loops that prevent a server from sending.
unfoldable pub disable_ends : ℕ → (ℕ → ℕ) → Network → Network
unfolding enable
disable_ends zero names rn = rn
disable_ends (suc m) names rn = enable (names m) false (disable_ends m names rn)

-- A persister for a new instance: a copy, or an empty one at the first start.
abbrev pub next_persister : Option ℕ → Store → Persister
unfolding copy make_persister
next_persister none store = make_persister
next_persister (some a) store = copy (store.at a)

abbrev pub with_group : ℕ → Group → Config → Config
with_group gi gg cfg = record cfg { groups = update cfg.groups gi (some gg) }

-- An instance that is made with a persister and served.
unfoldable pub install : ℕ → ℕ → Config → Config × ℕ
unfolding add_server
install name persister cfg =
    let a = cfg.next_instance in
    (
      record cfg {
        instances = update cfg.instances a (record { persister = persister; is_killed = false });
        next_instance = a + 1;
        net = add_server name a cfg.net;
      },
      a,
    )

-- The end of `ShutdownServer`: a fresh persister with the content of the old one, and the instance is killed.
unfoldable pub retire : ℕ → ℕ → Group → Config → Config
unfolding copy allocate
retire gi i gg cfg =
    let (saved, store) = elim (gg.saved i) as (λ _. (ℕ → Option ℕ) × Store) [
      | none ↦ (gg.saved, cfg.store)
      | some a ↦
          (let (store', b) = allocate (copy (cfg.store.at a)) cfg.store in
            (update gg.saved i (some b), store'))
    ] in
    let instances = elim (gg.servers i) as (λ _. ℕ → Instance) [
      | none ↦ cfg.instances
      | some a ↦ update cfg.instances a (record (cfg.instances a) { is_killed = true })
    ] in
    with_group gi (record gg { saved = saved; servers = update gg.servers i none })
      (record cfg { store = store; instances = instances })

-- `mastername` and `servername` are the numbers of the names that the functions of these names build.
module _ (mastername : ℕ → ℕ) (servername : ℕ → ℕ → ℕ) where
  -- `ShutdownServer`: both lists of names are read at the server's index.
  unfoldable pub shutdown_server : ℕ → ℕ → Config → Option Config
  unfolding disable_ends delete_server retire
  shutdown_server gi i cfg = elim (cfg.groups gi) [
    | none ↦ none
    | some gg ↦ elim (gg.endnames i) [
      | none ↦ none
      | some names ↦
          (let quiet = disable_ends cfg.n names cfg.net in
            let silent : Network = elim (gg.mendnames i) [
              | none ↦ quiet
              | some mnames ↦ disable_ends cfg.nmasters mnames quiet
            ] in
            if ltb i cfg.nmasters
            then some
                (retire gi i gg (record cfg { net = delete_server (servername gg.gid i) silent }))
            else none)
    ]
  ]

  -- The loop of `ShutdownGroup`.
  unfoldable pub shutdown_each : ℕ → ℕ → Config → Option Config
  unfolding shutdown_server
  shutdown_each gi zero cfg = some cfg
  shutdown_each gi (suc i) cfg = elim (shutdown_each gi i cfg) [
    | none ↦ none
    | some cfg' ↦ shutdown_server gi i cfg'
  ]

  unfoldable pub shutdown_group : ℕ → Config → Option Config
  unfolding shutdown_each
  shutdown_group gi cfg = shutdown_each gi cfg.n cfg

  -- `StartServer` after its ends have been made.
  unfoldable pub serve : ℕ → ℕ → Group → (names mnames : ℕ → ℕ) → Config → Config
  unfolding allocate install
  serve gi i gg names mnames cfg =
      let (store', b) = allocate (next_persister (gg.saved i) cfg.store) cfg.store in
      let (served, a) = install (servername gg.gid i) b (record cfg { store = store' }) in
      with_group gi
        (record gg {
          endnames = update gg.endnames i (some names);
          mendnames = update gg.mendnames i (some mnames);
          saved = update gg.saved i (some b);
          servers = update gg.servers i (some a);
        })
        served

  -- `StartServer`; the random names of the ends are arguments. `mendnames` has as many places as there are
  -- master servers.
  unfoldable pub start_server : ℕ → ℕ → (names mnames : ℕ → ℕ) → Config → Option Config
  unfolding open_ends serve
  start_server gi i names mnames cfg = elim (cfg.groups gi) [
    | none ↦ none
    | some gg ↦ elim (open_ends cfg.n names (servername gg.gid) cfg.net) [
      | none ↦ none
      | some rn ↦
          (let ends = open_ends cfg.nmasters mnames mastername rn in
            if ltb i cfg.nmasters
            then elim ends [
              | none ↦ none
              | some rn' ↦ some (serve gi i gg names mnames (record cfg { net = rn' }))
            ]
            else none)
    ]
  ]

  -- The loop of `StartGroup`, and of `make_config`: the names are those of each server's ends.
  unfoldable pub start_each : ℕ → (names mnames : ℕ → ℕ → ℕ) → ℕ → Config → Option Config
  unfolding start_server
  start_each gi names mnames zero cfg = some cfg
  start_each gi names mnames (suc i) cfg = elim (start_each gi names mnames i cfg) [
    | none ↦ none
    | some cfg' ↦ start_server gi i (names i) (mnames i) cfg'
  ]

  unfoldable pub start_group : ℕ → (names mnames : ℕ → ℕ → ℕ) → Config → Option Config
  unfolding start_each
  start_group gi names mnames cfg = start_each gi names mnames cfg.n cfg

  -- `StartMasterServer`
  unfoldable pub start_master_server : ℕ → (ℕ → ℕ) → Config → Option Config
  unfolding open_ends allocate make_persister install
  start_master_server i names cfg = elim (open_ends cfg.nmasters names mastername cfg.net) [
    | none ↦ none
    | some rn ↦
        (let (store', b) = allocate make_persister cfg.store in
          let (served, a) = install (mastername i) b (record cfg { net = rn; store = store' }) in
          some (record served { masterservers = update served.masterservers i (some a) }))
  ]

  -- `shardclerk`: what it does to the network.
  unfoldable pub shardclerk : (ℕ → ℕ) → Config → Option Config
  unfolding open_ends
  shardclerk names cfg = elim (open_ends cfg.nmasters names mastername cfg.net) [
    | none ↦ none
    | some rn ↦ some (record cfg { net = rn })
  ]

  -- `makeClient`: the slice of the names has `n` places.
  unfoldable pub make_client : (ℕ → ℕ) → Config → Option (Config × ℕ)
  unfolding open_ends
  make_client names cfg =
      let ends = open_ends cfg.nmasters names mastername cfg.net in
      let ck = cfg.next_client_id in
      if ltb cfg.n cfg.nmasters then none else elim ends [
        | none ↦ none
        | some rn ↦ some (
          record cfg {
            net = rn;
            clerks = update cfg.clerks ck (some names);
            next_client_id = ck + 1;
          },
          ck,
        )
      ]

  -- The function that `makeClient` and `StartServer` give to the service, for an end to a named server.
  unfoldable pub make_end_to : (name servername : ℕ) → Config → Option Config
  unfolding make_end connect enable
  make_end_to name server cfg = elim (make_end name cfg.net) [
    | none ↦ none
    | some rn ↦ some (record cfg { net = enable name true (connect name server rn) })
  ]

  -- `for i := 0; i < n; i++ { servernames[i] = cfg.servername(gid, i) }`
  unfoldable pub servernames : ℕ → ℕ → List ℕ
  servernames gid zero = []
  servernames gid (suc i) = servernames gid i ++ (servername gid i ∷ [])

  -- The map that `joinm` hands to `Join`.
  unfoldable pub joinm : List ℕ → Config → (ℕ → Option (List ℕ)) → Option (ℕ → Option (List ℕ))
  unfolding servernames
  joinm [] cfg m = some m
  joinm (g ∷ gis) cfg m = elim (cfg.groups g) [
    | none ↦ none
    | some gg ↦ joinm gis cfg (update m gg.gid (some (servernames gg.gid cfg.n)))
  ]

unfoldable pub delete_client : ℕ → Config → Config
delete_client ck cfg = record cfg { clerks = update cfg.clerks ck none }

-- The list that `leavem` hands to `Leave`.
unfoldable pub leavem : List ℕ → Config → Option (List ℕ)
leavem [] cfg = some []
leavem (g ∷ gis) cfg = elim (cfg.groups g) [
  | none ↦ none
  | some gg ↦ elim (leavem gis cfg) [ none ↦ none | some gids ↦ some (gg.gid ∷ gids) ]
]

-- The two tests of `checklogs` for one server.
unfoldable pub log_is_small : ℤ → Persister → Bool
unfolding raft_state_size read_snapshot
log_is_small (pos most) ps = not (ltb (8 * most) (raft_state_size ps))
log_is_small (negsuc k) ps = not (ltb 0 (length (read_snapshot ps)))
