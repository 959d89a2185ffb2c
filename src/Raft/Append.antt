-- ===== src/Raft/Append.antt =====
-- The RPC handler `RequestAppendEntriesReply` (src/raft/raft.go): heartbeats and new entries.
use mit_distribution.Base.{
  ℕ, ◌+◌, ◌-◌, Bool, true, false, ◌&&◌, ◌||◌, not, ℤ, pos, eqb_ℤ, length, take, drop, List, [], ◌∷◌,
  ◌++◌, if◌then◌else◌, ltb, leb, ◌==◌,
}
use mit_distribution.Raft.State.{Log, Raft, follower, reset_election_timer}
use mit_distribution.Raft.Vote.{term_at}

-- `Entries` is nil for a heartbeat; the code tests for nil, and gob decodes an empty slice as nil.
pub record RequestAppendEntriesArgs (A : Type 0) : Type 0 where
  pub term : ℕ
  pub leader_id : ℕ
  pub prev_log_index : ℕ
  pub prev_log_term : ℤ
  pub entries : List (Log A)
  pub leader_commit : ℕ

pub record RequestAppendEntriesReply : Type 0 where
  pub term : ℕ
  pub success : Bool

abbrev pub is_empty {ℓ} : {A : Type ℓ} → List A → Bool
is_empty [] = true
is_empty (x ∷ xs) = false

module _ {A : Type 0} where
  -- Both accepting branches begin so: follow the sender, in its term.
  unfoldable pub follow : RequestAppendEntriesArgs A → Raft A → Raft A
  unfolding reset_election_timer
  follow args rf = reset_election_timer (record rf {
    current_term = (if ltb rf.current_term args.term then args.term else rf.current_term);
    vote_for = pos args.leader_id;
    state = follower;
  })

  -- The loop that compares terms: the arguments are the entries and the log from `entriesIdx` and
  -- `logIdx` on, and the two indices; the result is the two indices where it breaks.
  unfoldable pub skip_agreed : List (Log A) → List (Log A) → ℕ → ℕ → ℕ × ℕ
  skip_agreed [] log e l = (e, l)
  skip_agreed (x ∷ entries) [] e l = (e, l)
  skip_agreed (x ∷ entries) (y ∷ log) e l =
      if x.term == y.term then skip_agreed entries log (e + 1) (l + 1) else (e, l)

  -- The three cases after the loop: overwrite from a conflict on, extend, or leave the log alone.
  unfoldable pub splice : List (Log A) → List (Log A) → ℕ → ℕ → List (Log A)
  splice log entries e l =
      if ltb l (length log) && ltb e (length entries)
      then take l log ++ drop e entries
      else if leb (length log) l && ltb e (length entries)
      then log ++ drop e entries
      else log

  unfoldable pub merge_log : List (Log A) → List (Log A) → ℕ → List (Log A)
  unfolding skip_agreed splice
  merge_log log entries prev =
      let (e, l) = skip_agreed entries (drop (prev + 1) log) 0 (prev + 1) in splice log entries e l

  -- A heartbeat, after the sender is followed. `term_at` gives -1 out of range, where the source would panic; the
  -- length is tested first, as in the source. Raft/Guards has the handler with that panic.
  unfoldable pub heartbeat :
      RequestAppendEntriesArgs A → Raft A → Raft A × RequestAppendEntriesReply
  heartbeat args rf =
      if ltb (length rf.log) (args.prev_log_index + 1)
        || not (eqb_ℤ (term_at rf.log args.prev_log_index) args.prev_log_term)
      then (rf, record { term = rf.current_term; success = false })
      else (
        record rf {
          commit_index =
              (if ltb rf.commit_index args.leader_commit
                then (if leb (args.leader_commit + 1) (length rf.log)
                    then args.leader_commit
                    else length rf.log - 1)
                else rf.commit_index);
        },
        record { term = rf.current_term; success = true },
      )

  -- Entries, after the sender is followed. The read of the log is again behind a test of its length.
  unfoldable pub append_entries :
      RequestAppendEntriesArgs A → Raft A → Raft A × RequestAppendEntriesReply
  unfolding merge_log
  append_entries args rf =
      if args.prev_log_index == 0
        || (leb (args.prev_log_index + 1) (length rf.log)
            && eqb_ℤ (term_at rf.log args.prev_log_index) args.prev_log_term)
      then (let log' = merge_log rf.log args.entries args.prev_log_index in
          (
            record rf {
              log = log';
              commit_index =
                  (if leb (args.leader_commit + 1) (length log')
                    then args.leader_commit
                    else length log' - 1);
            },
            record { term = rf.current_term; success = true },
          ))
      else (rf, record { term = rf.current_term; success = false })

  -- The RPC handler.
  unfoldable pub request_append_entries_reply :
      RequestAppendEntriesArgs A → Raft A → Raft A × RequestAppendEntriesReply
  request_append_entries_reply args rf =
      if is_empty args.entries && leb rf.current_term args.term
      then heartbeat args (follow args rf)
      else if leb rf.current_term args.term
      then append_entries args (follow args rf)
      else (rf, record { term = rf.current_term; success = false })
