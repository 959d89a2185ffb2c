-- ===== src/KvRaft/Leader.antt =====
-- `Leader` and `make_partition` (src/kvraft/config.go).
use mit_distribution.Base.{
  ℕ, ◌+◌, ◌-◌, ◌/◌, Bool, true, false, Option, none, some, List, [], ◌∷◌, if◌then◌else◌, ltb, ◌==◌,
  length, set, replicate,
}
use mit_distribution.KvRaft.{Config, up_to, all}

-- The loop of `Leader` from a server on; `leads` is what `GetState` reports for a server object.
unfoldable pub leader_from : (ℕ → Bool) → Config → List ℕ → Option (Bool × ℕ)
leader_from leads cfg [] = some (false, 0)
leader_from leads cfg (i ∷ is) = elim (cfg.kvservers i) [
  | none ↦ none
  | some a ↦ (let rest = leader_from leads cfg is in if leads a then some (true, i) else rest)
]

-- `Leader`
unfoldable pub leader : (ℕ → Bool) → Config → Option (Bool × ℕ)
unfolding leader_from all
leader leads cfg = leader_from leads cfg (all cfg)

-- One round of the loop of `make_partition` with the leader `l`: `j` servers have found a place.
unfoldable pub place : ℕ → ℕ → ℕ → List ℕ → List ℕ → Option (ℕ × List ℕ × List ℕ)
place l i j p1 p2 =
    if i == l
    then some (j, p1, p2)
    else if ltb j (length p1)
    then some (j + 1, set p1 j i, p2)
    else if ltb (j - length p1) (length p2)
    then some (j + 1, p1, set p2 (j - length p1) i)
    else none

unfoldable pub deal : ℕ → List ℕ → ℕ → List ℕ → List ℕ → Option (List ℕ × List ℕ)
unfolding place
deal l [] j p1 p2 = some (p1, p2)
deal l (i ∷ is) j p1 p2 = elim (place l i j p1 p2) [
  | none ↦ none
  | some (j', p1', p2') ↦ deal l is j' p1' p2'
]

-- The last place of the second side is the leader's.
unfoldable pub seat_leader : ℕ → List ℕ → Option (List ℕ)
seat_leader l p2 = if length p2 == 0 then none else some (set p2 (length p2 - 1) l)

-- `make_partition` for the leader that `Leader` found.
unfoldable pub halves : ℕ → ℕ → Option (List ℕ × List ℕ)
unfolding deal seat_leader up_to
halves n l = elim (deal l (up_to n) 0 (replicate (n / 2 + 1) 0) (replicate (n / 2) 0)) [
  | none ↦ none
  | some (p1, p2) ↦ elim (seat_leader l p2) [ none ↦ none | some p2' ↦ some (p1, p2') ]
]

-- `make_partition`
unfoldable pub make_partition : (ℕ → Bool) → Config → Option (List ℕ × List ℕ)
unfolding leader halves
make_partition leads cfg = elim (leader leads cfg) [
  | none ↦ none
  | some found ↦ halves cfg.n found.1
]
