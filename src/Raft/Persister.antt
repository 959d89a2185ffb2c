-- ===== src/Raft/Persister.antt =====
-- The persister (src/raft/persister.go): two byte strings under a lock. Objects are told apart by
-- their addresses in a store, since a copy and its original are written separately.
use mit_distribution.Base.{ℕ, ◌+◌, List, [], length, update}

-- `type Persister struct`
pub record Persister : Type 0 where
  pub raftstate : List ℕ
  pub snapshot : List ℕ

unfoldable pub make_persister : Persister
make_persister = record { raftstate = []; snapshot = [] }

-- `Copy` shares the slices, which nobody writes to.
unfoldable pub copy : Persister → Persister
unfolding make_persister
copy ps = record make_persister { raftstate = ps.raftstate; snapshot = ps.snapshot }

unfoldable pub save_raft_state : List ℕ → Persister → Persister
save_raft_state state ps = record ps { raftstate = state }

unfoldable pub read_raft_state : Persister → List ℕ
read_raft_state ps = ps.raftstate

unfoldable pub raft_state_size : Persister → ℕ
raft_state_size ps = length ps.raftstate

unfoldable pub save_state_and_snapshot : (state snapshot : List ℕ) → Persister → Persister
save_state_and_snapshot state snapshot ps = record ps { raftstate = state; snapshot = snapshot }

unfoldable pub read_snapshot : Persister → List ℕ
read_snapshot ps = ps.snapshot

unfoldable pub snapshot_size : Persister → ℕ
snapshot_size ps = length ps.snapshot

-- The persister objects by address; the addresses from `next` on are free.
pub record Store : Type 0 where
  pub at : ℕ → Persister
  pub next : ℕ

-- A new object.
unfoldable pub allocate : Persister → Store → Store × ℕ
allocate ps store =
    (record { at = update store.at store.next ps; next = store.next + 1 }, store.next)

-- A method called on the object at an address.
unfoldable pub modify : ℕ → (Persister → Persister) → Store → Store
modify a f store = record store { at = update store.at a (f (store.at a)) }
