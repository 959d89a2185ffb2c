-- ===== src/Raft/Rivals.antt =====
-- How a request to append interferes with voting (src/raft/raft.go).
use mit_distribution.Base.{◌≡◌, true, arith}
use mit_distribution.Raft.State.{Raft}
use mit_distribution.Raft.Vote.{RequestVoteArgs, request_vote_reply, up_to_date}
use mit_distribution.Raft.Append.{
  RequestAppendEntriesArgs, follow, heartbeat, append_entries, request_append_entries_reply,
}

module _ {A : Type 0} where
  -- A peer that has reached a term, and may have voted in it, handles a request to append of that term;
  -- the sender then asks for its vote in the same term. The peer grants it, whomever it voted for
  -- before, if the sender's log is as new as its own.
  pub request_then_vote :
      (sent : RequestAppendEntriesArgs A) (args : RequestVoteArgs) (rf : Raft A)
      → rf.current_term ≡ sent.term
      → args.term ≡ sent.term
      → args.candidate_id ≡ sent.leader_id
      → up_to_date args (request_append_entries_reply sent rf).0.log ≡ true
      → (request_vote_reply args (request_append_entries_reply sent rf).0).1.vote_granted ≡ true
  unfolding request_append_entries_reply heartbeat append_entries follow request_vote_reply
  request_then_vote sent args rf e₁ e₂ e₃ newer = ground (arith, e₁, e₂, e₃, newer)
