-- ===== src/KvRaft/Sizes.antt =====
-- `LogSize` and `SnapshotSize` (src/kvraft/config.go).
use mit_distribution.Base.{ℕ, Option, none, some, List, [], ◌∷◌, if◌then◌else◌, ltb}
use mit_distribution.Raft.Persister.{Persister, raft_state_size, snapshot_size as size_of_snapshot}
use mit_distribution.KvRaft.{Config, all}

-- The largest size over the servers; `saved[i]` is nil before the first start.
unfoldable pub largest : (Persister → ℕ) → Config → List ℕ → ℕ → Option ℕ
largest size cfg [] most = some most
largest size cfg (i ∷ is) most = elim (cfg.saved i) [
  | none ↦ none
  | some a ↦ (let m = size (cfg.store.at a) in largest size cfg is (if ltb most m then m else most))
]

-- `LogSize`
unfoldable pub log_size : Config → Option ℕ
unfolding largest all raft_state_size
log_size cfg = largest raft_state_size cfg (all cfg) 0

-- `SnapshotSize`
unfoldable pub snapshot_size : Config → Option ℕ
unfolding largest all size_of_snapshot
snapshot_size cfg = largest size_of_snapshot cfg (all cfg) 0
