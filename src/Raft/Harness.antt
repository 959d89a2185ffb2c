-- ===== src/Raft/Harness.antt =====
-- The test configuration of Raft (src/raft/config.go): a set of peers on a simulated network that
-- can be cut off, crashed and restarted. Slices are functions of the index. `none` is a panic or a
-- fatal error.
pub mod Apply
pub mod Committed
pub mod Checks
pub mod Leaders
pub mod Loops
pub mod Wiring
pub mod Ends
pub mod Starts
pub mod Partition
pub mod Restart
pub mod Agreement
pub mod Submitted
mod Examples
use mit_distribution.Base.{
  ℕ, zero, suc, ◌+◌, Bool, true, false, ◌&&◌, ◌||◌, not, Option, none, some, List, [], ◌∷◌, update,
  if◌then◌else◌,
}
use mit_distribution.Labrpc.Network.{
  Network, make_network, make_end, connect as connect_end, enable, add_server, delete_server,
  set_reliable, set_long_delays,
}
use mit_distribution.Raft.Persister.{
  Persister, make_persister, copy, save_raft_state, read_raft_state, Store, allocate, modify,
}

-- What the configuration keeps of a Raft instance: the persister that it was made with, and whether it was
-- killed.
pub record Instance : Type 0 where
  pub persister : ℕ
  pub is_killed : Bool

-- `type config struct`, without the clock and the statistics. Names of ends are numbers, and the address of a
-- server object is that of the Raft instance that it serves.
pub record Config (A : Type 0) : Type 0 where
  pub n : ℕ
  pub net : Network
  pub rafts : ℕ → Option ℕ
  pub instances : ℕ → Instance
  pub next_instance : ℕ
  pub connected : ℕ → Bool
  pub saved : ℕ → Option ℕ
  pub store : Store
  pub endnames : ℕ → Option (ℕ → ℕ)
  pub logs : ℕ → ℕ → Option A
  pub max_index : ℕ

-- `for j := 0; j < n; j++ { … }`
unfoldable pub for_each {ℓ} : {S : Type ℓ} → ℕ → (ℕ → S → S) → S → S
for_each zero body s = s
for_each (suc n) body s = body n (for_each n body s)

-- The end that the peer `i` has for the peer `j`; a peer that never started has none.
abbrev pub end_of : (ℕ → Option (ℕ → ℕ)) → ℕ → ℕ → Option ℕ
end_of endnames i j = elim (endnames i) [ none ↦ none | some names ↦ some (names j) ]

abbrev pub is_some {ℓ} : {A : Type ℓ} → Option A → Bool
is_some none = false
is_some (some a) = true

-- Has each attached peer up to `n` been started?
unfoldable pub all_named : ℕ → (ℕ → Bool) → (ℕ → Option (ℕ → ℕ)) → Bool
all_named zero connected endnames = true
all_named (suc n) connected endnames =
    all_named n connected endnames && (not (connected n) || is_some (endnames n))

unfoldable pub enable_end : Option ℕ → Bool → Network → Network
unfolding enable
enable_end none answer rn = rn
enable_end (some name) answer rn = enable name answer rn

-- The fresh ends of a peer: `none` where a name is taken.
unfoldable pub make_ends : ℕ → (ℕ → ℕ) → Network → Option Network
unfolding make_end connect_end
make_ends zero names rn = some rn
make_ends (suc n) names rn = elim (make_ends n names rn) [
  | none ↦ none
  | some rn₁ ↦ elim (make_end (names n) rn₁) [
    | none ↦ none
    | some rn₂ ↦ some (connect_end (names n) n rn₂)
  ]
]

-- A copy of a persister, and then a new one which keeps only the Raft state of the copy.
unfoldable pub only_raft_state : ℕ → Store → Store × ℕ
unfolding copy allocate read_raft_state save_raft_state make_persister
only_raft_state a store =
    let (store₁, b) = allocate (copy (store.at a)) store in
    allocate (save_raft_state (read_raft_state (store₁.at b)) make_persister) store₁

module _ {A : Type 0} where
  -- The two loops of `connect`: the ends in both directions between this peer and each attached one.
  unfoldable pub attach : ℕ → Config A → Config A
  unfolding for_each enable_end
  attach i cfg =
      let connected = update cfg.connected i true in
      let outgoing =
        for_each cfg.n
          (λ j rn. if connected j then enable_end (end_of cfg.endnames i j) true rn else rn)
          cfg.net in
      let both =
        for_each cfg.n
          (λ j rn. if connected j then enable_end (end_of cfg.endnames j i) true rn else rn)
          outgoing in
      record cfg { connected = connected; net = both }

  -- `connect`: the loops read the ends of every attached peer, so one that never started is a panic.
  unfoldable pub connect : ℕ → Config A → Option (Config A)
  unfolding attach all_named
  connect i cfg =
      if all_named cfg.n (update cfg.connected i true) cfg.endnames
      then some (attach i cfg)
      else none

  unfoldable pub disconnect : ℕ → Config A → Config A
  unfolding for_each enable_end
  disconnect i cfg =
      let outgoing = for_each cfg.n (λ j. enable_end (end_of cfg.endnames i j) false) cfg.net in
      let both = for_each cfg.n (λ j. enable_end (end_of cfg.endnames j i) false) outgoing in
      record cfg { connected = update cfg.connected i false; net = both }

  -- The persister of a crashed peer. The source copies it before it kills the instance, and reads the copy
  -- after that; `Kill` does not touch persisters.
  unfoldable pub keep_raft_state : ℕ → Config A → Config A
  unfolding only_raft_state
  keep_raft_state i cfg = elim (cfg.saved i) [
    | none ↦ cfg
    | some a ↦
        (let (store', c) = only_raft_state a cfg.store in
          record cfg { saved = update cfg.saved i (some c); store = store' })
  ]

  -- `rf.Kill()`, and the slot is emptied.
  unfoldable pub kill_raft : ℕ → Config A → Config A
  kill_raft i cfg = elim (cfg.rafts i) [
    | none ↦ cfg
    | some r ↦ record cfg {
      rafts = update cfg.rafts i none;
      instances = update cfg.instances r (record (cfg.instances r) { is_killed = true });
    }
  ]

  -- `crash1`
  unfoldable pub crash1 : ℕ → Config A → Config A
  unfolding disconnect kill_raft keep_raft_state delete_server
  crash1 i cfg =
      let cut = disconnect i cfg in
      keep_raft_state i (kill_raft i (record cut { net = delete_server i cut.net }))

  -- The persister for the new instance: a copy, or an empty one at the first start.
  unfoldable pub fresh_persister : ℕ → Config A → Config A × ℕ
  unfolding copy allocate make_persister
  fresh_persister i cfg =
      let ps : Persister = elim (cfg.saved i) [
        | none ↦ make_persister
        | some a ↦ copy (cfg.store.at a)
      ] in
      let (store', b) = allocate ps cfg.store in
      (record cfg { saved = update cfg.saved i (some b); store = store' }, b)

  -- The second half of `start1`: the instance is made with its persister, and served.
  unfoldable pub install : ℕ → Config A → Config A
  unfolding fresh_persister add_server
  install i cfg =
      let (ready, ps) = fresh_persister i cfg in
      let r = ready.next_instance in
      record ready {
        rafts = update ready.rafts i (some r);
        instances = update ready.instances r (record { persister = ps; is_killed = false });
        next_instance = r + 1;
        net = add_server i r ready.net;
      }

  -- `start1`; the random names of the ends are an argument.
  unfoldable pub start1 : ℕ → (ℕ → ℕ) → Config A → Option (Config A)
  unfolding crash1 make_ends install
  start1 i names cfg =
      let down = crash1 i cfg in
      elim (make_ends down.n names down.net) [
        | none ↦ none
        | some rn ↦
            some
              (install i (record down { net = rn; endnames = update down.endnames i (some names) }))
      ]

  -- `make_config` before the peers are started.
  unfoldable pub empty_config : ℕ → Bool → Config A
  unfolding make_network set_reliable set_long_delays make_persister
  empty_config n unreliable = record {
    n = n;
    net = set_long_delays true (set_reliable (not unreliable) make_network);
    rafts = λ i. none;
    instances = λ r. record { persister = 0; is_killed = true };
    next_instance = 0;
    connected = λ i. false;
    saved = λ i. none;
    store = record { at = λ a. make_persister; next = 0 };
    endnames = λ i. none;
    logs = λ i index. none;
    max_index = 0;
  }

  -- The loops of `make_config`: `names` has the ends of each peer.
  unfoldable pub start_all : ℕ → (ℕ → ℕ → ℕ) → Config A → Option (Config A)
  unfolding start1
  start_all zero names cfg = some cfg
  start_all (suc i) names cfg = elim (start_all i names cfg) [
    | none ↦ none
    | some cfg' ↦ start1 i (names i) cfg'
  ]

  unfoldable pub connect_all : ℕ → Config A → Option (Config A)
  unfolding connect
  connect_all zero cfg = some cfg
  connect_all (suc i) cfg = elim (connect_all i cfg) [ none ↦ none | some cfg' ↦ connect i cfg' ]

  unfoldable pub make_config : ℕ → Bool → (ℕ → ℕ → ℕ) → Option (Config A)
  unfolding empty_config start_all connect_all
  make_config n unreliable names = elim (start_all n names (empty_config n unreliable)) [
    | none ↦ none
    | some cfg ↦ connect_all n cfg
  ]
