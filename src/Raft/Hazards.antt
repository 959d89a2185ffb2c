-- ===== src/Raft/Hazards.antt =====
-- Interleavings that src/raft/raft.go does not guard against: two rejections in flight, the gap
-- between the two critical sections of `Start`, and an old request that is delivered late.
use mit_distribution.Base.{
  ℕ, suc, ◌+◌, ◌<◌, ◌≤◌, ◌≡◌, ◌≢◌, refl, ap, ◌∙◌, true, false, none, some, List, [], ◌∷◌, ◌++◌,
  arith, get_elem?, length, set, pos, minus_one, get_elem?-set_self, lt_of_get_elem?, length-set,
  get_elem?-length,
}
use mit_distribution.Raft.State.{Raft, Log, leader, follower, zero_log, start_append, get_state}
use mit_distribution.Raft.Vote.{RequestVoteArgs, request_vote_reply}
use mit_distribution.Raft.Append.{
  RequestAppendEntriesArgs, RequestAppendEntriesReply, is_empty, follow, append_entries, merge_log,
  request_append_entries_reply,
}
use mit_distribution.Raft.Replicate.{
  request_args, back_up, record_match, advance_commit, on_append_reply,
}
use mit_distribution.Raft.Commit.{count_matches_panics, replicas, replicas-set_pos}
use mit_distribution.Raft.Invariant.{IsValid}
use mit_distribution.Raft.Step.{run, step, append_answered}

-- A reply that turns a request of the current term down, in a term that is not higher.
pub record Rejects {A : Type 0} (l : Raft A) (args : RequestAppendEntriesArgs A)
    (reply : RequestAppendEntriesReply) : Type 0 where
  pub current : args.term ≡ l.current_term
  pub not_higher : reply.term ≤ l.current_term
  pub refused : reply.success ≡ false

-- The leader after `nextIndex` for the peer has been set.
abbrev pub with_next : {A : Type 0} → ℕ → ℕ → Raft A → Raft A
with_next server n l = record l { next_index = set l.next_index server (pos n) }

module _ {A : Type 0} where
  -- Every rejection lowers `nextIndex` by one.
  rejected :
      (server n : ℕ) (l : Raft A) (args : RequestAppendEntriesArgs A)
      (reply : RequestAppendEntriesReply)
      → Rejects l args reply
      → get_elem? l.next_index server ≡ some (pos (suc n))
      → on_append_reply server args reply l ≡ some (with_next server n l)
  unfolding on_append_reply back_up
  rejected server n l args reply r e = ground (arith, e)

  -- At 0 the whole log is sent as new, the entry 0 included.
  args_from_zero : (l : Raft A) → 0 < length l.log → RequestAppendEntriesArgs A
  args_from_zero l h = record {
    term = l.current_term;
    leader_id = l.me;
    prev_log_index = 0;
    prev_log_term = minus_one;
    entries = l.log;
    leader_commit = l.commit_index;
  }

  request_args_zero :
      (server : ℕ) (l : Raft A) (h : 0 < length l.log)
      → get_elem? l.next_index server ≡ some (pos 0)
      → request_args server l ≡ some (args_from_zero l h)
  unfolding request_args args_from_zero
  request_args_zero server l h e = ground (arith, e)

  -- A peer with only the entry 0 takes all of it in behind that entry.
  shifted :
      (l f : Raft A) (h : 0 < length l.log)
      → f.log ≡ zero_log ∷ []
      → f.current_term ≤ l.current_term
      → (request_append_entries_reply (args_from_zero l h) f).0.log ≡ zero_log ∷ l.log
  unfolding request_append_entries_reply args_from_zero append_entries follow merge_log
  shifted l f h e t = go l.log refl
    where
      go :
          (log : List (Log A))
          → l.log ≡ log
          → (request_append_entries_reply (args_from_zero l h) f).0.log ≡ zero_log ∷ l.log
      go [] q = absurd (omega (arith, ap length q))
      go (x ∷ log) q = ground (arith, q, e)

  -- Two rejections of requests that were in flight together take `nextIndex` from 2 to 0. The request
  -- that the leader then builds writes a second entry 0 into the log of a peer that holds only the
  -- entry 0, and moves every entry of the leader's log one index up there.
  pub double_rejection_shifts :
      (server : ℕ) (l f : Raft A) (args₁ args₂ : RequestAppendEntriesArgs A)
      (r₁ r₂ : RequestAppendEntriesReply)
      → IsValid l
      → Rejects l args₁ r₁
      → Rejects l args₂ r₂
      → get_elem? l.next_index server ≡ some (pos 2)
      → f.log ≡ zero_log ∷ []
      → f.current_term ≤ l.current_term
      → (l' : Raft A) × (args : RequestAppendEntriesArgs A) × (run
            (append_answered server args₁ r₁ ∷ append_answered server args₂ r₂ ∷ [])
            l
          ≡ some l')
        × (request_args server l' ≡ some args)
        × ((request_append_entries_reply args f).0.log ≡ zero_log ∷ l.log)
  unfolding run step
  double_rejection_shifts server l f args₁ args₂ r₁ r₂ v j₁ j₂ e only t =
      let l₁ : Raft A = with_next server 1 l in
      let l₂ : Raft A = with_next server 0 l₁ in
      let h : 0 < length l.log = omega (arith, v.committed) in
      let near = lt_of_get_elem? l.next_index server (pos 2) e in
      let first : on_append_reply server args₁ r₁ l ≡ some l₁ = rejected server 1 l args₁ r₁ j₁ e in
      let second : on_append_reply server args₂ r₂ l₁ ≡ some l₂ =
        rejected server 0 l₁ args₂ r₂
          (record { current = j₂.current; not_higher = j₂.not_higher; refused = j₂.refused })
          (get_elem?-set_self l.next_index server (pos 1) near) in
      (
        l₂,
        args_from_zero l₂ h,
        ground (arith, first, second),
        request_args_zero server l₂ h (
            get_elem?-set_self (set l.next_index server (pos 1)) server (pos 0)
              (omega (arith, near, length-set l.next_index server (pos 1)))),
        shifted l₂ f h only t,
      )

  is_empty-false : (xs : List (Log A)) → 0 < length xs → is_empty xs ≡ false
  is_empty-false [] h = elim h [ ]
  is_empty-false (x ∷ xs) h = refl

  accepted :
      (server : ℕ) (l : Raft A) (args : RequestAppendEntriesArgs A)
      (reply : RequestAppendEntriesReply)
      → args.term ≡ l.current_term
      → is_empty args.entries ≡ false
      → reply.term ≤ l.current_term
      → reply.success ≡ true
      → on_append_reply server args reply l
        ≡ advance_commit
            (args.prev_log_index + length args.entries)
            (record_match server (args.prev_log_index + length args.entries) l)
  unfolding on_append_reply
  accepted server l args reply c n t ok = ground arith

  advance_past_end :
      (server cmt : ℕ) (l : Raft A)
      → IsValid l
      → l.peers ≤ 3
      → server < l.peers
      → server ≢ l.me
      → cmt ≡ length l.log
      → advance_commit cmt (record_match server cmt l) ≡ none
  unfolding advance_commit record_match
  advance_past_end server cmt l v few near other e =
      let ms : List ℕ = set l.match_index server cmt in
      let counted : 0 < replicas l.me cmt 0 ms =
        replicas-set_pos l.me cmt 0 server l.match_index (omega (arith, v.match_fits))
          (λ q. other (omega (arith, q))) in
      ground (
        arith,
        count_matches_panics (unfold record_match in record_match server cmt l) cmt 0 1 ms
            (ap (get_elem? l.log) e ∙ get_elem?-length l.log) counted (omega (arith, counted)),
        v.committed,
      )

  -- If that peer then accepts, the leader of at most three peers panics: it looks up its own log at
  -- the match index, which lies one behind the end of the log.
  pub shifted_success_panics :
      (server : ℕ) (l : Raft A) (args : RequestAppendEntriesArgs A)
      (reply : RequestAppendEntriesReply)
      → IsValid l
      → l.peers ≤ 3
      → server < l.peers
      → server ≢ l.me
      → get_elem? l.next_index server ≡ some (pos 0)
      → request_args server l ≡ some args
      → reply.term ≤ l.current_term
      → reply.success ≡ true
      → on_append_reply server args reply l ≡ none
  unfolding args_from_zero
  shifted_success_panics server l args reply v few near other e sent t ok =
      let h : 0 < length l.log = omega (arith, v.committed) in
      let whole : RequestAppendEntriesArgs A = args_from_zero l h in
      let is_whole : args ≡ whole = ground (arith, request_args_zero server l h e, sent) in
      ap (λ a. on_append_reply server a reply l) is_whole
      ∙ accepted server l whole reply refl (is_empty-false l.log h) t ok
      ∙ advance_past_end server (0 + length l.log) l v few near other (omega arith)

  -- If a vote request of a higher term is handled between the two critical sections of `Start`, the
  -- call has reported that this peer leads, and a follower of the higher term then appends an entry
  -- of the old term to its log.
  pub start_interrupted :
      (command : A) (l : Raft A) (args : RequestVoteArgs)
      → l.state ≡ leader
      → l.current_term < args.term
      → let stepped_down = (request_vote_reply args l).0 in
        let appended = (start_append command (get_state l).0 stepped_down).0 in
        ((get_state l).1 ≡ true)
        × (appended.state ≡ follower)
        × (appended.current_term ≡ args.term)
        × (appended.log ≡ l.log ++ record { entry = some command; term = l.current_term } ∷ [])
  unfolding get_state start_append request_vote_reply
  start_interrupted command l args e h = ground arith

  -- A follower that accepts entries sets its commit index to no more than the sender's, also where its
  -- own is higher already: an old request that is delivered late takes the commit index back.
  pub late_request_lowers_commit :
      (args : RequestAppendEntriesArgs A) (f : Raft A)
      → is_empty args.entries ≡ false
      → args.leader_commit < f.commit_index
      → (request_append_entries_reply args f).1.success ≡ true
      → (request_append_entries_reply args f).0.commit_index < f.commit_index
  unfolding request_append_entries_reply append_entries
  late_request_lowers_commit args f e h ok = ground arith
