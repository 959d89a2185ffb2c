-- ===== src/Raft/Replicate.antt =====
-- The leader's side of replication (src/raft/raft.go): the arguments that `RequestHeartBeat` sends
-- to a peer, what it does with the reply, and the goroutine that applies committed entries.
-- `none` is a panic of Go's run time: an index or a slice bound out of range.
use mathlib.Core.Option
use mit_distribution.Base.{
  ℕ, zero, suc, ◌+◌, ◌/◌, Bool, true, ◌||◌, not, Option, none, some, ℤ, pos, negsuc, minus_one,
  pred_ℤ, length, drop, set, get_elem?, List, [], ◌∷◌, if◌then◌else◌, ltb, ◌==◌,
}
use mit_distribution.Raft.State.{Log, Raft, follower}
use mit_distribution.Raft.Append.{RequestAppendEntriesArgs, RequestAppendEntriesReply, is_empty}

-- `type ApplyMsg struct`; `CommandValid` is always true here.
pub record ApplyMsg (A : Type 0) : Type 0 where
  pub command_valid : Bool
  pub command : Option A
  pub command_index : ℕ

module _ {A : Type 0} where
  -- The arguments with the previous entry at an index, whose term is read from the log.
  abbrev with_prev : Raft A → ℕ → List (Log A) → Log A → RequestAppendEntriesArgs A
  with_prev rf prev entries e = record {
    term = rf.current_term;
    leader_id = rf.me;
    prev_log_index = prev;
    prev_log_term = pos e.term;
    entries = entries;
    leader_commit = rf.commit_index;
  }

  -- The arguments of the last branch: no previous entry is checked.
  abbrev from_start : Raft A → List (Log A) → RequestAppendEntriesArgs A
  from_start rf entries = record {
    term = rf.current_term;
    leader_id = rf.me;
    prev_log_index = 0;
    prev_log_term = minus_one;
    entries = entries;
    leader_commit = rf.commit_index;
  }

  -- The three branches for a given `nextIndex`: a heartbeat if it lies behind the log, entries after
  -- a previous one if it exceeds 1, or else all entries from it on. At 0 the last branch is taken (or
  -- the first, in an empty log, which reads `log[-1]`); below 0 the slice is out of range.
  unfoldable pub args_for : Raft A → ℤ → Option (RequestAppendEntriesArgs A)
  args_for rf (pos zero) =
      if ltb (length rf.log) 1 then none else some (from_start rf (drop 0 rf.log))
  args_for rf (pos (suc prev)) =
      if ltb (length rf.log) (suc (suc prev))
      then Option.map (with_prev rf prev []) (get_elem? rf.log prev)
      else if ltb 0 prev
      then Option.map (with_prev rf prev (drop (suc prev) rf.log)) (get_elem? rf.log prev)
      else some (from_start rf (drop (suc prev) rf.log))
  args_for rf (negsuc n) = none

  -- The first critical section of the goroutine for one peer.
  unfoldable pub request_args : ℕ → Raft A → Option (RequestAppendEntriesArgs A)
  unfolding args_for
  request_args server rf = elim (get_elem? rf.next_index server) [
    | none ↦ none
    | some n ↦ args_for rf n
  ]

  -- The peers whose match index has reached `cmt` are counted, this one aside; `i` and `count` are the
  -- loop's, and the list is `matchIndex` from `i` on.
  unfoldable pub count_matches : Raft A → ℕ → ℕ → ℕ → List ℕ → Option (Raft A)
  count_matches rf cmt i count [] = some rf
  count_matches rf cmt i count (m ∷ ms) =
      let skip = count_matches rf cmt (i + 1) count ms in
      let next = count_matches rf cmt (i + 1) (count + 1) ms in
      if i == rf.me || ltb m cmt
      then skip
      else if ltb (rf.peers / 2) (count + 1)
      then elim (get_elem? rf.log cmt) [
        | none ↦ none
        | some e ↦
            if e.term == rf.current_term then some (record rf { commit_index = cmt }) else next
      ]
      else next

  -- The commit index moves only forward, to `cmt`.
  unfoldable pub advance_commit : ℕ → Raft A → Option (Raft A)
  unfolding count_matches
  advance_commit cmt rf =
      if ltb rf.commit_index cmt then count_matches rf cmt 0 1 rf.match_index else some rf

  -- The peer accepted the entries.
  unfoldable pub record_match : ℕ → ℕ → Raft A → Raft A
  record_match server matched rf = record rf {
    next_index = set rf.next_index server (pos (matched + 1));
    match_index = set rf.match_index server matched;
  }

  -- `rf.nextIndex[server]--`
  unfoldable pub back_up : ℕ → Raft A → Option (Raft A)
  back_up server rf =
      Option.map (λ n. record rf { next_index = set rf.next_index server (pred_ℤ n) })
        (get_elem? rf.next_index server)

  -- The second critical section of the goroutine, when a reply arrived.
  unfoldable pub on_append_reply :
      ℕ → RequestAppendEntriesArgs A → RequestAppendEntriesReply → Raft A → Option (Raft A)
  on_append_reply server args reply rf =
      if not (args.term == rf.current_term)
      then some rf
      else if ltb rf.current_term reply.term
      then some (record rf { current_term = reply.term; vote_for = minus_one; state = follower })
      else if is_empty args.entries
      then (if reply.success then some rf else back_up server rf)
      else if reply.success
      then (let matched = args.prev_log_index + length args.entries in
          advance_commit matched (record_match server matched rf))
      else back_up server rf

  -- One critical section of `applier`: the next committed entry is handed over, if there is one.
  unfoldable pub apply_next : Raft A → Option (Raft A × Option (ApplyMsg A))
  apply_next rf =
      if ltb rf.last_applied rf.commit_index
      then Option.map
          (λ e. (
            record rf { last_applied = rf.last_applied + 1 },
            some (record {
              command_valid = true;
              command = e.entry;
              command_index = rf.last_applied + 1;
            }),
          ))
          (get_elem? rf.log (rf.last_applied + 1))
      else some (rf, none)
