-- ===== src/Raft/Commit.antt =====
-- The leader's commit rule: the counting loop of `RequestHeartBeat` (src/raft/raft.go) and the number
-- of peers that hold an entry.
use mit_distribution.Base.{
  ℕ, zero, suc, ◌+◌, ◌/◌, ◌<◌, ◌≡◌, refl, ◌⊎◌, inl, inr, Bool, ◌||◌, ◌&&◌, none, some, List, [],
  ◌∷◌, arith, Option-cases, Bool-cases, get_elem?, length, if◌then◌else◌, ltb, ◌==◌,
  lt_of_get_elem?, set, ◌≢◌,
}
use mit_distribution.Raft.State.{Log, Raft}
use mit_distribution.Raft.Replicate.{count_matches, advance_commit}

module _ {A : Type 0} where
  -- The loop commits the index or changes nothing.
  pub count_matches_effect :
      (rf rf' : Raft A) (cmt i count : ℕ) (ms : List ℕ)
      → count_matches rf cmt i count ms ≡ some rf'
      → (rf' ≡ rf) ⊎ ((cmt < length rf.log) × (rf' ≡ record rf { commit_index = cmt }))
  unfolding count_matches
  count_matches_effect rf rf' cmt i count [] e = inl (ground arith)
  count_matches_effect rf rf' cmt i count (m ∷ ms) e = elim (Option-cases (get_elem? rf.log cmt)) [
    | inl out ↦ ground (
      arith,
      count_matches_effect rf rf' cmt (i + 1) count ms,
      count_matches_effect rf rf' cmt (i + 1) (count + 1) ms,
    )
    | inr (x, there) ↦ ground (
      arith,
      lt_of_get_elem? rf.log cmt x there,
      count_matches_effect rf rf' cmt (i + 1) count ms,
      count_matches_effect rf rf' cmt (i + 1) (count + 1) ms,
    )
  ]

  pub advance_commit_effect :
      (cmt : ℕ) (rf rf' : Raft A)
      → advance_commit cmt rf ≡ some rf'
      → (rf' ≡ rf)
        ⊎ ((rf.commit_index < cmt)
            × (cmt < length rf.log)
            × (rf' ≡ record rf { commit_index = cmt }))
  unfolding advance_commit
  advance_commit_effect cmt rf rf' e =
      ground (arith, count_matches_effect rf rf' cmt 0 1 rf.match_index)

-- How many entries of `matchIndex`, from index `i` on, are at least `cmt`, `me` aside.
abbrev pub replicas : ℕ → ℕ → ℕ → List ℕ → ℕ
replicas me cmt i [] = 0
replicas me cmt i (m ∷ ms) =
    let rest = replicas me cmt (i + 1) ms in if i == me || ltb m cmt then rest else rest + 1

-- The match index of some other peer has reached the entry, and with this peer those whose match index has are
-- more than half. A match index may be stale, so such a peer need not hold the entry.
abbrev pub majority : {A : Type 0} → ℕ → Raft A → Bool
majority cmt rf =
    let others = replicas rf.me cmt 0 rf.match_index in
    ltb 0 others && ltb (rf.peers / 2) (others + 1)

module _ {A : Type 0} where
  -- The loop once the entry to commit has been read.
  count_matches_lem :
      (rf : Raft A) (cmt i count : ℕ) (ms : List ℕ) (x : Log A)
      → get_elem? rf.log cmt ≡ some x
      → count_matches rf cmt i count ms
        ≡ some (
            if ltb 0 (replicas rf.me cmt i ms)
              && (ltb (rf.peers / 2) (count + replicas rf.me cmt i ms)
                  && (x.term == rf.current_term))
            then record rf { commit_index = cmt }
            else rf)
  unfolding count_matches
  count_matches_lem rf cmt i count [] x e = refl
  count_matches_lem rf cmt i count (m ∷ ms) x e = elim (Bool-cases (i == rf.me || ltb m cmt)) [
    | inl skip ↦ rw skip (count_matches_lem rf cmt (i + 1) count ms x e)
    | inr next ↦ rw next (ground (arith, e, count_matches_lem rf cmt (i + 1) (count + 1) ms x e))
  ]

  -- The commit rule: an entry of the log beyond the commit index is committed exactly when it is of the current
  -- term and more than half of the peers count for it: this peer, and the other peers whose match index has
  -- reached it, one other at least.
  pub advance_commit_lem :
      (cmt : ℕ) (rf : Raft A) (x : Log A)
      → get_elem? rf.log cmt ≡ some x
      → advance_commit cmt rf
        ≡ some (
            if ltb rf.commit_index cmt && (majority cmt rf && (x.term == rf.current_term))
            then record rf { commit_index = cmt }
            else rf)
  unfolding advance_commit
  advance_commit_lem cmt rf x e = ground (arith, count_matches_lem rf cmt 0 1 rf.match_index x e)

  -- Without an entry at the index, a majority makes the loop read out of range.
  pub count_matches_panics :
      (rf : Raft A) (cmt i count : ℕ) (ms : List ℕ)
      → get_elem? rf.log cmt ≡ none
      → 0 < replicas rf.me cmt i ms
      → rf.peers / 2 < count + replicas rf.me cmt i ms
      → count_matches rf cmt i count ms ≡ none
  unfolding count_matches
  count_matches_panics rf cmt i count [] e h k = absurd (omega arith)
  count_matches_panics rf cmt i count (m ∷ ms) e h k = elim (Bool-cases (i == rf.me || ltb m cmt)) [
    | inl skip ↦ ground (arith, count_matches_panics rf cmt (i + 1) count ms e)
    | inr next ↦ ground (arith, count_matches_panics rf cmt (i + 1) (count + 1) ms e)
  ]

-- A peer that is known to hold the entry is counted.
pub replicas-set_pos :
    (me cmt i server : ℕ) (ms : List ℕ)
    → server < length ms
    → i + server ≢ me
    → 0 < replicas me cmt i (set ms server cmt)
replicas-set_pos me cmt i server [] h ne = elim h [ ]
replicas-set_pos me cmt i zero (m ∷ ms) h ne = ground arith
replicas-set_pos me cmt i (suc server) (m ∷ ms) h ne =
    ground (arith, replicas-set_pos me cmt (i + 1) server ms)
