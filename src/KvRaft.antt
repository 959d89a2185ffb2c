-- ===== src/KvRaft.antt =====
-- The test configuration of the key/value service (src/kvraft/config.go): servers on a simulated network that
-- tests partition, shut down and start again, and clerks with ends of their own. Slices are functions of the
-- index. `none` is a panic: an index out of range, a nil slice, or a name that is taken.
pub mod Leader
pub mod Sizes
pub mod Links
pub mod Partition
pub mod Halves
pub mod Minority
pub mod Started
pub mod Starts
mod Examples
use mit_distribution.Base.{
  ℕ, zero, suc, ◌+◌, ◌-◌, Bool, true, false, ◌&&◌, not, Option, none, some, List, [], ◌∷◌, ◌++◌,
  update, if◌then◌else◌, ltb, leb, ℤ,
}
use mit_distribution.Labrpc.Network.{
  Network, make_network, enable, add_server, delete_server, set_reliable,
}
use mit_distribution.Raft.Persister.{Persister, make_persister, copy, Store, allocate}
use mit_distribution.Raft.Harness.{Instance, end_of, make_ends}

-- `type config struct`, without the clock and the statistics. Names of ends are numbers. A server object is known
-- by its address, and a clerk by its client number.
pub record Config : Type 0 where
  pub n : ℕ
  pub net : Network
  pub kvservers : ℕ → Option ℕ
  pub instances : ℕ → Instance
  pub next_instance : ℕ
  pub saved : ℕ → Option ℕ
  pub store : Store
  pub endnames : ℕ → Option (ℕ → ℕ)
  pub clerks : ℕ → Option (ℕ → ℕ)
  pub next_client_id : ℕ
  pub maxraftstate : ℤ

-- `cfg.endnames[i][j]`, with `n` servers.
unfoldable pub end_at : ℕ → (ℕ → Option (ℕ → ℕ)) → ℕ → ℕ → Option ℕ
end_at n endnames i j = if ltb i n && ltb j n then end_of endnames i j else none

-- A loop over a list of servers that sets the end for each.
unfoldable pub enable_all : (ℕ → Option ℕ) → Bool → List ℕ → Network → Option Network
unfolding enable
enable_all ends answer [] rn = some rn
enable_all ends answer (j ∷ js) rn = elim (ends j) [
  | none ↦ none
  | some x ↦ enable_all ends answer js (enable x answer rn)
]

-- `connectUnlocked`
unfoldable pub connect_unlocked : ℕ → List ℕ → Config → Option Config
unfolding enable_all end_at
connect_unlocked i to cfg = elim (enable_all (λ j. end_at cfg.n cfg.endnames i j) true to cfg.net) [
  | none ↦ none
  | some outgoing ↦ elim (enable_all (λ j. end_at cfg.n cfg.endnames j i) true to outgoing) [
    | none ↦ none
    | some both ↦ some (record cfg { net = both })
  ]
]

-- The second loop of `disconnectUnlocked`: it tests `endnames[j]`, where `j` is the place in the list and not the
-- server there.
unfoldable pub disable_incoming : Config → ℕ → ℕ → List ℕ → Network → Option Network
unfolding end_at enable
disable_incoming cfg i place [] rn = some rn
disable_incoming cfg i place (j ∷ js) rn =
    if leb cfg.n place then none else elim (cfg.endnames place) [
      | none ↦ disable_incoming cfg i (suc place) js rn
      | some names ↦ elim (end_at cfg.n cfg.endnames j i) [
        | none ↦ none
        | some x ↦ disable_incoming cfg i (suc place) js (enable x false rn)
      ]
    ]

-- The first loop of `disconnectUnlocked`.
unfoldable pub disable_outgoing : Config → ℕ → List ℕ → Network → Option Network
unfolding enable_all end_at
disable_outgoing cfg i [] rn = some rn
disable_outgoing cfg i (j ∷ from) rn = if leb cfg.n i then none else elim (cfg.endnames i) [
  | none ↦ some rn
  | some names ↦ enable_all (λ j'. end_at cfg.n cfg.endnames i j') false (j ∷ from) rn
]

unfoldable pub disconnect_unlocked : ℕ → List ℕ → Config → Option Config
unfolding disable_outgoing disable_incoming
disconnect_unlocked i from cfg = elim (disable_outgoing cfg i from cfg.net) [
  | none ↦ none
  | some outgoing ↦ elim (disable_incoming cfg i 0 from outgoing) [
    | none ↦ none
    | some both ↦ some (record cfg { net = both })
  ]
]

-- `for i := 0; i < m; i++ { all[i] = i }`
unfoldable pub up_to : ℕ → List ℕ
up_to zero = []
up_to (suc m) = up_to m ++ (m ∷ [])

-- `All`
unfoldable pub all : Config → List ℕ
unfolding up_to
all cfg = up_to cfg.n

-- One loop of `ConnectAll`.
unfoldable pub connect_each : List ℕ → Config → Option Config
unfolding connect_unlocked all
connect_each [] cfg = some cfg
connect_each (i ∷ is) cfg = elim (connect_unlocked i (all cfg) cfg) [
  | none ↦ none
  | some cfg' ↦ connect_each is cfg'
]

-- `ConnectAll`
unfoldable pub connect_all : Config → Option Config
unfolding connect_each
connect_all cfg = connect_each (all cfg) cfg

-- One loop of `partition`, over the servers of one side.
unfoldable pub separate : List ℕ → (own other : List ℕ) → Config → Option Config
unfolding disconnect_unlocked connect_unlocked
separate [] own other cfg = some cfg
separate (i ∷ is) own other cfg = elim (disconnect_unlocked i other cfg) [
  | none ↦ none
  | some cut ↦ elim (connect_unlocked i own cut) [
    | none ↦ none
    | some joined ↦ separate is own other joined
  ]
]

-- `partition`
unfoldable pub partition : (p1 p2 : List ℕ) → Config → Option Config
unfolding separate
partition p1 p2 cfg = elim (separate p1 p1 p2 cfg) [
  | none ↦ none
  | some cfg' ↦ separate p2 p2 p1 cfg'
]

-- `cfg.clerks[ck][j]`
unfoldable pub client_end : Config → ℕ → ℕ → Option ℕ
client_end cfg ck j = if ltb j cfg.n then end_of cfg.clerks ck j else none

unfoldable pub connect_client_unlocked : ℕ → List ℕ → Config → Option Config
unfolding enable_all client_end
connect_client_unlocked ck to cfg = elim (enable_all (λ j. client_end cfg ck j) true to cfg.net) [
  | none ↦ none
  | some rn ↦ some (record cfg { net = rn })
]

unfoldable pub disconnect_client_unlocked : ℕ → List ℕ → Config → Option Config
unfolding enable_all client_end
disconnect_client_unlocked ck from cfg =
    elim (enable_all (λ j. client_end cfg ck j) false from cfg.net) [
      | none ↦ none
      | some rn ↦ some (record cfg { net = rn })
    ]

-- `makeClient`; the random names are an argument. The clerk gets its ends in a random order, which nothing here
-- depends on.
unfoldable pub make_client : (ℕ → ℕ) → List ℕ → Config → Option (Config × ℕ)
unfolding make_ends connect_client_unlocked
make_client names to cfg = elim (make_ends cfg.n names cfg.net) [
  | none ↦ none
  | some rn ↦
      (let ck = cfg.next_client_id in
        let made = record cfg {
          net = rn;
          clerks = update cfg.clerks ck (some names);
          next_client_id = ck + 1;
        } in
        elim (connect_client_unlocked ck to made) [ none ↦ none | some cfg' ↦ some (cfg', ck) ])
]

-- `deleteClient`; it also removes files of the names of the ends.
unfoldable pub delete_client : ℕ → Config → Config
delete_client ck cfg = record cfg { clerks = update cfg.clerks ck none }

-- The fresh persister of `ShutdownServer`.
unfoldable pub detach_persister : ℕ → Config → Config
unfolding copy allocate
detach_persister i cfg = elim (cfg.saved i) [
  | none ↦ cfg
  | some a ↦
      (let (store', b) = allocate (copy (cfg.store.at a)) cfg.store in
        record cfg { saved = update cfg.saved i (some b); store = store' })
]

-- `kv.Kill()`, and the slot is emptied.
unfoldable pub kill_server : ℕ → Config → Config
kill_server i cfg = elim (cfg.kvservers i) [
  | none ↦ cfg
  | some a ↦ record cfg {
    kvservers = update cfg.kvservers i none;
    instances = update cfg.instances a (record (cfg.instances a) { is_killed = true });
  }
]

-- `ShutdownServer`
unfoldable pub shutdown_server : ℕ → Config → Option Config
unfolding disconnect_unlocked all detach_persister kill_server delete_server
shutdown_server i cfg = elim (disconnect_unlocked i (all cfg) cfg) [
  | none ↦ none
  | some cut ↦
      some (kill_server i (detach_persister i (record cut { net = delete_server i cut.net })))
]

-- `StartKVServer` and the services, with the persister for the new instance: a copy, or an empty one at the
-- first start.
unfoldable pub serve : ℕ → Config → Config
unfolding copy allocate make_persister add_server
serve i cfg =
    let ps : Persister = elim (cfg.saved i) [
      | none ↦ make_persister
      | some a ↦ copy (cfg.store.at a)
    ] in
    let (store', b) = allocate ps cfg.store in
    let a = cfg.next_instance in
    record cfg {
      saved = update cfg.saved i (some b);
      store = store';
      kvservers = update cfg.kvservers i (some a);
      instances = update cfg.instances a (record { persister = b; is_killed = false });
      next_instance = a + 1;
      net = add_server i a cfg.net;
    }

-- `StartServer`; the random names of the ends are an argument.
unfoldable pub start_server : ℕ → (ℕ → ℕ) → Config → Option Config
unfolding make_ends serve
start_server i names cfg = elim (make_ends cfg.n names cfg.net) [
  | none ↦ none
  | some rn ↦
      some (serve i (record cfg { net = rn; endnames = update cfg.endnames i (some names) }))
]

-- `make_config` before the servers are started.
unfoldable pub empty_config : ℕ → ℤ → Config
unfolding make_network make_persister
empty_config n maxraftstate = record {
  n = n;
  net = make_network;
  kvservers = λ i. none;
  instances = λ a. record { persister = 0; is_killed = true };
  next_instance = 0;
  saved = λ i. none;
  store = record { at = λ a. make_persister; next = 0 };
  endnames = λ i. none;
  clerks = λ ck. none;
  next_client_id = n + 1000;
  maxraftstate = maxraftstate;
}

-- Its loop: `names` has the ends of each server.
unfoldable pub start_each : (ℕ → ℕ → ℕ) → List ℕ → Config → Option Config
unfolding start_server
start_each names [] cfg = some cfg
start_each names (i ∷ is) cfg = elim (start_server i (names i) cfg) [
  | none ↦ none
  | some cfg' ↦ start_each names is cfg'
]

unfoldable pub make_config : ℕ → Bool → ℤ → (ℕ → ℕ → ℕ) → Option Config
unfolding empty_config start_each connect_all all set_reliable
make_config n unreliable maxraftstate names =
    elim (start_each names (up_to n) (empty_config n maxraftstate)) [
      | none ↦ none
      | some cfg ↦ elim (connect_all cfg) [
        | none ↦ none
        | some cfg' ↦ some (record cfg' { net = set_reliable (not unreliable) cfg'.net })
      ]
    ]
