-- ===== src/Raft/Cluster/Effects.antt =====
-- What each critical section of a peer leaves of its log, and how its term and role move (src/raft/raft.go).
use mit_distribution.Base.{
  ℕ, ◌+◌, ◌<◌, ◌≤◌, ◌≡◌, ◌≢◌, sym, ◌∙◌, ◌⊎◌, inl, inr, Bool, true, false, Option, some, arith,
  Option-cases, get_elem?, length,
}
use mit_distribution.Raft.State.{Raft, leader, candidate, follower, start_election, kill}
use mit_distribution.Raft.Vote.{
  RequestVoteArgs, RequestVoteReply, request_vote_reply, on_vote_reply,
}
use mit_distribution.Raft.Append.{
  RequestAppendEntriesArgs, RequestAppendEntriesReply, follow, heartbeat, append_entries,
  request_append_entries_reply,
}
use mit_distribution.Raft.Replicate.{ApplyMsg, record_match, back_up, on_append_reply, apply_next}
use mit_distribution.Raft.Commit.{advance_commit_effect}
use mit_distribution.Raft.Step.{Event, step}
use mit_distribution.Raft.Step.{
  starts, vote_asked, vote_answered, append_asked, append_answered, applies, times_out, is_killed,
}
use mit_distribution.Raft.Cluster.{is_local}
use mit_distribution.Raft.Cluster.Handlers.{
  Wins, Grants, vote_changes, append_changes, vote_reply_changes,
}
use mit_distribution.Raft.Cluster.Votes.{Keeps, local_changes}
use native.Mathlib.Decide.{dec_lt}

-- The peer is past its candidacy in the term.
pub data Past {A : Type 0} (rf : Raft A) (t : ℕ) : Type 0 where
  higher : t < rf.current_term → Past rf t
  decided : t ≡ rf.current_term → rf.state ≢ candidate → Past rf t

-- A step after which the peer leads only if it led before in the same term, and is a candidate in its old
-- term only if it was one.
pub record Settles {A : Type 0} (rf rf' : Raft A) : Type 0 where
  pub leads : rf'.state ≡ leader → (rf.state ≡ leader) × (rf'.current_term ≡ rf.current_term)
  pub moves :
      (rf.current_term < rf'.current_term)
      ⊎ ((rf'.current_term ≡ rf.current_term) × (rf'.state ≡ candidate → rf.state ≡ candidate))
  pub busy : rf'.state ≢ follower → (rf.state ≢ follower) ⊎ (0 < rf'.current_term)

module _ {A : Type 0} where
  pub Past-Settles : (rf rf' : Raft A) (t : ℕ) → Settles rf rf' → Past rf t → Past rf' t
  Past-Settles rf rf' t s (higher h) =
      higher
        (elim s.moves [ inl up ↦ omega (arith, h, up) | inr (same, c) ↦ omega (arith, h, same) ])
  Past-Settles rf rf' t s (decided e no_candidate) = elim s.moves [
    | inl up ↦ higher (omega (arith, e, up))
    | inr (same, c) ↦ decided (e ∙ sym same) (λ is. no_candidate (c is))
  ]

  pub busy-Settles :
      (rf rf' : Raft A)
      → Settles rf rf'
      → (rf.state ≢ follower → 0 < rf.current_term)
      → rf'.state ≢ follower
      → 0 < rf'.current_term
  busy-Settles rf rf' s before now = elim (s.busy now) [
    | inl was ↦
        (let h = before was in
          elim s.moves [ inl up ↦ omega (arith, h, up) | inr (same, c) ↦ omega (arith, h, same) ])
    | inr h ↦ h
  ]

  Keeps-Settles : (rf rf' : Raft A) → Keeps rf rf' → Settles rf rf'
  Keeps-Settles rf rf' k = record {
    leads = λ e. (sym k.role ∙ e, k.term);
    moves = inr (k.term, λ e. sym k.role ∙ e);
    busy = λ h. inl (λ e. h (k.role ∙ e));
  }

  -- A peer that is a follower afterwards, in no lower term.
  follower-Settles :
      (rf rf' : Raft A) → rf'.state ≡ follower → rf.current_term ≤ rf'.current_term → Settles rf rf'
  follower-Settles rf rf' role le = record {
    leads = λ e. absurd (ground (arith, role, e));
    moves = elim (dec_lt rf.current_term rf'.current_term) [
      | yes up ↦ inl up
      | no flat ↦ inr (omega (arith, le, flat), λ e. absurd (ground (arith, role, e)))
    ];
    busy = λ h. absurd (h role);
  }

  Grants-Settles : (args : RequestVoteArgs) (rf rf' : Raft A) → Grants args rf rf' → Settles rf rf'
  Grants-Settles args rf rf' k = elim k.role [
    | inl down ↦ follower-Settles rf rf' down (ground (arith, k.fresh, k.term))
    | inr (same, here) ↦ record {
      leads = λ e. (sym same ∙ e, k.term ∙ sym here);
      moves = inr (k.term ∙ sym here, λ e. sym same ∙ e);
      busy = λ h. inl (λ e. h (same ∙ e));
    }
  ]

  pub vote-Settles :
      (args : RequestVoteArgs) (rf : Raft A) → Settles rf (request_vote_reply args rf).0
  vote-Settles args rf = elim (vote_changes args rf) [
    | inl (inl k, refused) ↦ Keeps-Settles rf _ k
    | inl (inr k, refused) ↦ follower-Settles rf _ k.role (omega (arith, k.term))
    | inr (inl (k, term, voted)) ↦ Keeps-Settles rf _ k
    | inr (inr k) ↦ Grants-Settles args rf _ k
  ]

  pub vote-log :
      (args : RequestVoteArgs) (rf : Raft A) → (request_vote_reply args rf).0.log ≡ rf.log
  unfolding request_vote_reply
  vote-log args rf = ground arith

  pub vote_reply-log :
      (args : RequestVoteArgs) (reply : RequestVoteReply) (rf : Raft A) (votes : ℕ)
      → (on_vote_reply args reply rf votes).0.log ≡ rf.log
  unfolding on_vote_reply
  vote_reply-log args reply rf votes = ground arith

  pub vote_reply-Settles :
      (args : RequestVoteArgs) (reply : RequestVoteReply) (rf : Raft A) (votes : ℕ)
      → let after = on_vote_reply args reply rf votes in
        Settles rf after.0 ⊎ Wins args rf after.0 votes after.1
  vote_reply-Settles args reply rf votes = elim (vote_reply_changes args reply rf votes).1 [
    | inl k ↦ inl (Keeps-Settles rf _ k)
    | inr (inl k) ↦ inl (follower-Settles rf _ k.role (omega (arith, k.term)))
    | inr (inr w) ↦ inr w
  ]

  append_follower :
      (args : RequestAppendEntriesArgs A) (rf : Raft A)
      → ((request_append_entries_reply args rf).0.log ≡ rf.log)
        ⊎ ((request_append_entries_reply args rf).0.state ≡ follower)
  unfolding request_append_entries_reply follow heartbeat append_entries
  append_follower args rf = ground arith

  -- A request to append changes the log of a peer only if that peer then follows.
  pub append-Settles :
      (args : RequestAppendEntriesArgs A) (rf : Raft A)
      → Settles rf (request_append_entries_reply args rf).0
        × (((request_append_entries_reply args rf).0.log ≡ rf.log)
            ⊎ ((request_append_entries_reply args rf).0.state ≡ follower))
  append-Settles args rf = (
    elim (append_changes args rf) [
      | inl k ↦ Keeps-Settles rf _ k
      | inr (me, peers, term, le, vote, role) ↦ follower-Settles rf _ role (omega (arith, term, le))
    ],
    append_follower args rf,
  )

  pub local-Settles :
      (ev : Event A) (rf rf' : Raft A) → is_local ev ≡ true → step ev rf ≡ some rf' → Settles rf rf'
  local-Settles ev rf rf' h e = elim (local_changes ev rf rf' h e) [
    | inl k ↦ Keeps-Settles rf rf' k
    | inr (inl k) ↦ follower-Settles rf rf' k.role (omega (arith, k.term))
    | inr (inr k) ↦ record {
      leads = λ is. absurd (ground (arith, is, k.role));
      moves = inl (omega (arith, k.term));
      busy = λ h. inr (omega (arith, k.term));
    }
  ]

  on_append_reply-log :
      (server : ℕ) (args : RequestAppendEntriesArgs A) (reply : RequestAppendEntriesReply)
      (rf rf' : Raft A)
      → on_append_reply server args reply rf ≡ some rf'
      → rf'.log ≡ rf.log
  unfolding on_append_reply record_match back_up
  on_append_reply-log server args reply rf rf' e =
      let matched : ℕ = args.prev_log_index + length args.entries in
      ground (
        arith,
        Option-cases (get_elem? rf.next_index server),
        advance_commit_effect matched (record_match server matched rf) rf',
      )

  apply_next-log :
      (rf rf' : Raft A) (m : Option (ApplyMsg A)) → apply_next rf ≡ some (rf', m) → rf'.log ≡ rf.log
  unfolding apply_next
  apply_next-log rf rf' m e = ground (arith, Option-cases (get_elem? rf.log (rf.last_applied + 1)))

  -- An event that can only come from `Start`.
  abbrev pub is_start : Event A → Bool
  is_start (starts command t) = true
  is_start ev = false

  -- No other event of its own changes a peer's log.
  pub local-log :
      (ev : Event A) (rf rf' : Raft A)
      → is_local ev ≡ true
      → is_start ev ≡ false
      → step ev rf ≡ some rf'
      → rf'.log ≡ rf.log
  unfolding step start_election kill
  local-log (starts command t) rf rf' h other e = absurd (cc)
  local-log (vote_asked args) rf rf' h other e = absurd (cc)
  local-log (vote_answered args reply votes) rf rf' h other e = absurd (cc)
  local-log (append_asked args) rf rf' h other e = absurd (cc)
  local-log (append_answered server args reply) rf rf' h other e =
      on_append_reply-log server args reply rf rf' e
  local-log applies rf rf' h other e = elim (Option-cases (apply_next rf)) [
    | inl out ↦ absurd (ground (arith, out, e))
    | inr ((rf₁, m), ran) ↦ ground (arith, ran, e, apply_next-log rf rf₁ m ran)
  ]
  local-log times_out rf rf' h other e = ground (arith, e)
  local-log is_killed rf rf' h other e = ground (arith, e)
