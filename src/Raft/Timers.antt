-- ===== src/Raft/Timers.antt =====
-- One round of each timer loop, `electionLoop` and `leaderBeatLoop` (src/raft/raft.go). The time, in
-- milliseconds, and the random number are arguments; the sleep between rounds is not modelled.
use mit_distribution.Base.{
  ℕ, ◌+◌, Bool, true, false, ◌||◌, not, Option, none, some, if◌then◌else◌, ltb,
}
use mit_distribution.Raft.State.{Raft, is_leader, start_election}

-- `randElectionTimeout`, from a value of `rf.rand.Intn(100)`.
abbrev pub rand_election_timeout : ℕ → ℕ
rand_election_timeout r = 150 + r

abbrev pub rand_leader_timeout : ℕ
rand_leader_timeout = 100

-- What a round leaves: the peer, the loop's deadline, and whether requests are sent to the peers.
pub record Tick (A : Type 0) : Type 0 where
  pub peer : Raft A
  pub deadline : ℕ
  pub sends : Bool

module _ {A : Type 0} where
  -- The `select` at the head of a round empties the channel and moves the deadline.
  unfoldable pub take_reset : ℕ → ℕ → ℕ → Raft A → Raft A × ℕ
  take_reset now r deadline rf =
      if rf.election_reset
      then (record rf { election_reset = false }, now + rand_election_timeout r)
      else (rf, deadline)

  -- One round of `electionLoop`; `none` when the loop ends. `r` and `r'` are the two random values.
  -- A round with `sends` continues with `RequestVote`, unless the peer came to lead in between.
  unfoldable pub election_round : ℕ → ℕ → ℕ → ℕ → Raft A → Option (Tick A)
  unfolding take_reset start_election
  election_round now r r' deadline rf =
      if rf.dead || is_leader rf.state
      then none
      else (let (rf', deadline') = take_reset now r deadline rf in
          if ltb deadline' now
          then some (record {
            peer = start_election rf';
            deadline = now + rand_election_timeout r';
            sends = true;
          })
          else some (record { peer = rf'; deadline = deadline'; sends = false }))

  -- One round of `leaderBeatLoop`; `none` when the loop ends.
  unfoldable pub beat_round : ℕ → ℕ → Raft A → Option (Tick A)
  beat_round now deadline rf =
      if rf.dead || not (is_leader rf.state)
      then none
      else if ltb deadline now
      then some (record { peer = rf; deadline = now + rand_leader_timeout; sends = true })
      else some (record { peer = rf; deadline = deadline; sends = false })
