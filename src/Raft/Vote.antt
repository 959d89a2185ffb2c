-- ===== src/Raft/Vote.antt =====
-- Elections (src/raft/raft.go): the arguments of a vote request, the handler `RequestVoteReply`, and
-- what a candidate does with a reply.
use mit_distribution.Base.{
  ℕ, ◌+◌, ◌-◌, ◌/◌, Bool, true, false, ◌&&◌, ◌||◌, not, none, some, ℤ, pos, minus_one, eqb_ℤ, ltb_ℤ,
  length, get_elem?, List, map, if◌then◌else◌, ltb, leb, ◌==◌,
}
use mit_distribution.Raft.State.{Log, Raft, leader, follower, is_candidate, reset_election_timer}

pub record RequestVoteArgs : Type 0 where
  pub term : ℕ
  pub candidate_id : ℕ
  pub last_log_index : ℕ
  pub last_log_term : ℤ

pub record RequestVoteReply : Type 0 where
  pub term : ℕ
  pub vote_granted : Bool

module _ {A : Type 0} where
  -- The term of the entry at an index, as an integer; -1 where there is none.
  abbrev pub term_at : List (Log A) → ℕ → ℤ
  term_at log i = elim (get_elem? log i) [ none ↦ minus_one | some e ↦ pos e.term ]

  -- `LastLogTerm`: -1 for a log that holds no more than the entry 0.
  unfoldable pub last_log_term : List (Log A) → ℤ
  last_log_term log = if ltb 1 (length log) then term_at log (length log - 1) else minus_one

  -- The first critical section of `RequestVote`, which fills in the arguments.
  unfoldable pub request_vote_args : Raft A → RequestVoteArgs
  unfolding last_log_term
  request_vote_args rf = record {
    term = rf.current_term;
    candidate_id = rf.me;
    last_log_index = length rf.log - 1;
    last_log_term = last_log_term rf.log;
  }

  -- A higher term makes the handler a follower of that term that has not voted.
  unfoldable pub adopt_term : ℕ → Raft A → Raft A
  adopt_term term rf =
      if ltb rf.current_term term
      then record rf { current_term = term; vote_for = minus_one; state = follower }
      else rf

  -- Is the candidate's log at least as new as this one, by the test of the handler?
  unfoldable pub up_to_date : RequestVoteArgs → List (Log A) → Bool
  unfolding last_log_term
  up_to_date args log =
      length log == 1
      || (ltb_ℤ (last_log_term log) args.last_log_term
          || (eqb_ℤ args.last_log_term (last_log_term log)
              && leb (length log - 1) args.last_log_index))

  -- May this peer vote for the candidate in its term?
  abbrev pub free_to_vote : RequestVoteArgs → Raft A → Bool
  free_to_vote args rf = eqb_ℤ rf.vote_for minus_one || eqb_ℤ rf.vote_for (pos args.candidate_id)

  -- The handler after it has taken over a higher term.
  unfoldable pub cast_vote : RequestVoteArgs → Raft A → Raft A × RequestVoteReply
  unfolding reset_election_timer
  cast_vote args rf =
      if leb rf.current_term args.term && up_to_date args rf.log
      then (if free_to_vote args rf
          then (
            reset_election_timer (record rf { vote_for = pos args.candidate_id }),
            record { term = rf.current_term; vote_granted = true },
          )
          else (rf, record { term = rf.current_term; vote_granted = false }))
      else (rf, record { term = rf.current_term; vote_granted = false })

  -- The RPC handler `RequestVoteReply`.
  unfoldable pub request_vote_reply : RequestVoteArgs → Raft A → Raft A × RequestVoteReply
  unfolding adopt_term cast_vote
  request_vote_reply args rf = cast_vote args (adopt_term args.term rf)

  -- The candidate becomes the leader and expects every peer to be as new as itself.
  unfoldable pub become_leader : Raft A → Raft A
  become_leader rf = record rf {
    state = leader;
    next_index = map (λ _. pos (length rf.log)) rf.next_index;
  }

  -- What the goroutine of one vote request does under the lock with a reply that arrived; the number
  -- is `voteNum`, which the goroutines of one round share.
  unfoldable pub on_vote_reply : RequestVoteArgs → RequestVoteReply → Raft A → ℕ → Raft A × ℕ
  unfolding become_leader
  on_vote_reply args reply rf votes =
      if not (rf.current_term == args.term) || not (is_candidate rf.state)
      then (rf, votes)
      else if reply.vote_granted
      then (if ltb (rf.peers / 2) (votes + 1) then become_leader rf else rf, votes + 1)
      else if ltb rf.current_term reply.term
      then (record rf { current_term = reply.term; vote_for = minus_one; state = follower }, votes)
      else (rf, votes)
