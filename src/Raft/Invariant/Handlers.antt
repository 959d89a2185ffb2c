-- ===== src/Raft/Invariant/Handlers.antt =====
-- The invariant of a peer, and that each critical section keeps it.
use mit_distribution.Base.{
  ℕ, ◌+◌, ◌<◌, ◌≡◌, refl, inl, inr, Option, none, some, List, [], ◌∷◌, arith, Option-cases,
  Bool-cases, ltb, ◌∙◌, get_elem?, length, ℤ, pos, pred_ℤ, length-append, length-set, length-map,
  length-replicate, get_elem?_of_lt, lt_of_get_elem?, get_elem?-append,
}
use mit_distribution.Raft.State.{Raft, Log, zero_log, make, start_append}
use mit_distribution.Raft.Vote.{
  RequestVoteArgs, RequestVoteReply, request_vote_reply, on_vote_reply,
}
use mit_distribution.Raft.Append.{
  RequestAppendEntriesArgs, RequestAppendEntriesReply, merge_log, follow, heartbeat, append_entries,
  request_append_entries_reply,
}
use mit_distribution.Raft.Replicate.{
  ApplyMsg, record_match, back_up, on_append_reply, advance_commit, apply_next,
}
use mit_distribution.Raft.Merge.{get_elem?-merge_log_zero}
use mit_distribution.Raft.Commit.{advance_commit_effect}

module _ {A : Type 0} where
  pub record IsValid (rf : Raft A) : Type 0 where
    pub headed : get_elem? rf.log 0 ≡ some zero_log
    pub committed : rf.commit_index < length rf.log
    pub next_fits : length rf.next_index ≡ rf.peers
    pub match_fits : length rf.match_index ≡ rf.peers

  pub make-IsValid : (peers me : ℕ) (saved : List ℕ) → IsValid (make {A = A} peers me saved)
  unfolding make
  make-IsValid peers me [] = record {
    headed = refl;
    committed = omega arith;
    next_fits = length-replicate peers (pos 1);
    match_fits = length-replicate peers 0;
  }
  make-IsValid peers me (b ∷ saved) = record {
    headed = refl;
    committed = omega arith;
    next_fits = length-replicate peers (pos 1);
    match_fits = length-replicate peers 0;
  }

  pub start_append-IsValid :
      (command : A) (term : ℕ) (rf : Raft A) → IsValid rf → IsValid (start_append command term rf).0
  unfolding start_append
  start_append-IsValid command term rf v =
      let new : List (Log A) = record { entry = some command; term = term } ∷ [] in
      ground (arith, length-append rf.log new, get_elem?-append rf.log new 0 zero_log v.headed)

  pub request_vote_reply-IsValid :
      (args : RequestVoteArgs) (rf : Raft A) → IsValid rf → IsValid (request_vote_reply args rf).0
  unfolding request_vote_reply
  request_vote_reply-IsValid args rf v = ground arith

  pub on_vote_reply-IsValid :
      (args : RequestVoteArgs) (reply : RequestVoteReply) (rf : Raft A) (votes : ℕ)
      → IsValid rf
      → IsValid (on_vote_reply args reply rf votes).0
  unfolding on_vote_reply
  on_vote_reply-IsValid args reply rf votes v =
      ground (arith, length-map (λ (n : ℤ). pos (length rf.log)) rf.next_index)

  append_entries-IsValid :
      (args : RequestAppendEntriesArgs A) (rf : Raft A)
      → IsValid rf
      → IsValid (append_entries args rf).0
  unfolding append_entries
  append_entries-IsValid args rf v =
      let log' : List (Log A) = merge_log rf.log args.entries args.prev_log_index in
      let head : get_elem? log' 0 ≡ some zero_log =
        get_elem?-merge_log_zero rf.log args.entries args.prev_log_index zero_log v.headed in
      ground (arith, lt_of_get_elem? log' 0 zero_log head)

  pub request_append_entries_reply-IsValid :
      (args : RequestAppendEntriesArgs A) (rf : Raft A)
      → IsValid rf
      → IsValid (request_append_entries_reply args rf).0
  unfolding request_append_entries_reply heartbeat follow
  request_append_entries_reply-IsValid args rf v =
      ground (arith, append_entries-IsValid args (follow args rf))

  record_match-IsValid :
      (server matched : ℕ) (rf : Raft A) → IsValid rf → IsValid (record_match server matched rf)
  unfolding record_match
  record_match-IsValid server matched rf v = record {
    headed = v.headed;
    committed = v.committed;
    next_fits = length-set rf.next_index server (pos (matched + 1)) ∙ v.next_fits;
    match_fits = length-set rf.match_index server matched ∙ v.match_fits;
  }

  back_up-IsValid :
      (server : ℕ) (rf rf' : Raft A) → IsValid rf → back_up server rf ≡ some rf' → IsValid rf'
  unfolding back_up
  back_up-IsValid server rf rf' v e = elim (Option-cases (get_elem? rf.next_index server)) [
    | inl out ↦ ground arith
    | inr (n, there) ↦ ground (arith, length-set rf.next_index server (pred_ℤ n))
  ]

  advance_commit-IsValid :
      (cmt : ℕ) (rf rf' : Raft A) → IsValid rf → advance_commit cmt rf ≡ some rf' → IsValid rf'
  advance_commit-IsValid cmt rf rf' v e = ground (arith, advance_commit_effect cmt rf rf' e)

  pub on_append_reply-IsValid :
      (server : ℕ) (args : RequestAppendEntriesArgs A) (reply : RequestAppendEntriesReply)
      (rf rf' : Raft A)
      → IsValid rf
      → on_append_reply server args reply rf ≡ some rf'
      → IsValid rf'
  unfolding on_append_reply
  on_append_reply-IsValid server args reply rf rf' v e =
      let matched : ℕ = args.prev_log_index + length args.entries in
      ground (
        arith,
        back_up-IsValid server rf rf',
        record_match-IsValid server matched rf v,
        advance_commit-IsValid matched (record_match server matched rf) rf',
      )

  -- A peer whose commit index points into its log can apply the next entry, and stays valid.
  pub apply_next-IsValid :
      (rf : Raft A)
      → IsValid rf
      → (rf' : Raft A) × (m : Option (ApplyMsg A)) × (apply_next rf ≡ some (rf', m)) × IsValid rf'
  unfolding apply_next
  apply_next-IsValid rf v = elim (Bool-cases (ltb rf.last_applied rf.commit_index)) [
    | inl more ↦
        (let (e, there) =
            get_elem?_of_lt rf.log (rf.last_applied + 1) (ground (arith, v.committed)) in
          rw (more, there)
            (
              _,
              _,
              refl,
              record {
                headed = v.headed;
                committed = v.committed;
                next_fits = v.next_fits;
                match_fits = v.match_fits;
              },
            ))
    | inr done ↦ rw done (rf, none, refl, v)
  ]
