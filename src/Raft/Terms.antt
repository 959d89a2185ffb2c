-- ===== src/Raft/Terms.antt =====
-- Terms only grow, whatever event a peer meets.
use mit_distribution.Base.{
  ℕ, ◌+◌, ◌≤◌, ◌≡◌, inl, inr, Option, some, List, [], ◌∷◌, arith, Option-cases, get_elem?, length,
}
use mit_distribution.Raft.State.{Raft, start_append, start_election, kill}
use mit_distribution.Raft.Vote.{
  RequestVoteArgs, RequestVoteReply, request_vote_reply, on_vote_reply,
}
use mit_distribution.Raft.Append.{
  RequestAppendEntriesArgs, RequestAppendEntriesReply, follow, heartbeat, append_entries,
  request_append_entries_reply,
}
use mit_distribution.Raft.Replicate.{ApplyMsg, record_match, back_up, on_append_reply, apply_next}
use mit_distribution.Raft.Commit.{advance_commit_effect}
use mit_distribution.Raft.Step.{Event, step, run}
use mit_distribution.Raft.Step.{
  starts, vote_asked, vote_answered, append_asked, append_answered, applies, times_out, is_killed,
}

module _ {A : Type 0} where
  request_vote_reply-term :
      (args : RequestVoteArgs) (rf : Raft A)
      → rf.current_term ≤ (request_vote_reply args rf).0.current_term
  unfolding request_vote_reply
  request_vote_reply-term args rf = ground arith

  on_vote_reply-term :
      (args : RequestVoteArgs) (reply : RequestVoteReply) (rf : Raft A) (votes : ℕ)
      → rf.current_term ≤ (on_vote_reply args reply rf votes).0.current_term
  unfolding on_vote_reply
  on_vote_reply-term args reply rf votes = ground arith

  request_append_entries_reply-term :
      (args : RequestAppendEntriesArgs A) (rf : Raft A)
      → rf.current_term ≤ (request_append_entries_reply args rf).0.current_term
  unfolding request_append_entries_reply follow heartbeat append_entries
  request_append_entries_reply-term args rf = ground arith

  on_append_reply-term :
      (server : ℕ) (args : RequestAppendEntriesArgs A) (reply : RequestAppendEntriesReply)
      (rf rf' : Raft A)
      → on_append_reply server args reply rf ≡ some rf'
      → rf.current_term ≤ rf'.current_term
  unfolding on_append_reply record_match back_up
  on_append_reply-term server args reply rf rf' e =
      let matched : ℕ = args.prev_log_index + length args.entries in
      ground (
        arith,
        Option-cases (get_elem? rf.next_index server),
        advance_commit_effect matched (record_match server matched rf) rf',
      )

  apply_next-term :
      (rf rf' : Raft A) (m : Option (ApplyMsg A))
      → apply_next rf ≡ some (rf', m)
      → rf'.current_term ≡ rf.current_term
  unfolding apply_next
  apply_next-term rf rf' m e = ground (arith, Option-cases (get_elem? rf.log (rf.last_applied + 1)))

  pub step-term :
      (ev : Event A) (rf rf' : Raft A) → step ev rf ≡ some rf' → rf.current_term ≤ rf'.current_term
  unfolding step start_append start_election kill
  step-term (starts command term) rf rf' e = ground arith
  step-term (vote_asked args) rf rf' e = ground (arith, request_vote_reply-term args rf)
  step-term (vote_answered args reply votes) rf rf' e =
      ground (arith, on_vote_reply-term args reply rf votes)
  step-term (append_asked args) rf rf' e = ground (arith, request_append_entries_reply-term args rf)
  step-term (append_answered server args reply) rf rf' e =
      on_append_reply-term server args reply rf rf' e
  step-term applies rf rf' e = elim (Option-cases (apply_next rf)) [
    | inl out ↦ ground arith
    | inr ((rf₁, m), done) ↦ ground (arith, apply_next-term rf rf₁ m)
  ]
  step-term times_out rf rf' e = ground arith
  step-term is_killed rf rf' e = ground arith

  -- In any sequence of events that does not panic, a peer's term never decreases.
  pub run-term :
      (evs : List (Event A)) (rf rf' : Raft A)
      → run evs rf ≡ some rf'
      → rf.current_term ≤ rf'.current_term
  unfolding run
  run-term [] rf rf' e = ground arith
  run-term (ev ∷ evs) rf rf' e = elim (Option-cases (step ev rf)) [
    | inl out ↦ ground arith
    | inr (mid, done) ↦ ground (arith, step-term ev rf mid done, run-term evs mid rf')
  ]
