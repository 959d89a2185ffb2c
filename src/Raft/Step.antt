-- ===== src/Raft/Step.antt =====
-- A peer under its environment (src/raft/raft.go): each critical section is an event, and the order
-- of the events is free. `none` is a panic.
use mathlib.Core.Option
use mit_distribution.Base.{ℕ, Option, none, some, List, [], ◌∷◌}
use mit_distribution.Raft.State.{Raft, start_append, start_election, kill}
use mit_distribution.Raft.Vote.{
  RequestVoteArgs, RequestVoteReply, request_vote_reply, on_vote_reply,
}
use mit_distribution.Raft.Append.{
  RequestAppendEntriesArgs, RequestAppendEntriesReply, request_append_entries_reply,
}
use mit_distribution.Raft.Replicate.{on_append_reply, apply_next}

pub data Event (A : Type 0) : Type 0 where
  starts : (command : A) (term : ℕ) → Event A
  vote_asked : RequestVoteArgs → Event A
  vote_answered : RequestVoteArgs → RequestVoteReply → (votes : ℕ) → Event A
  append_asked : RequestAppendEntriesArgs A → Event A
  append_answered : (server : ℕ) → RequestAppendEntriesArgs A → RequestAppendEntriesReply → Event A
  applies : Event A
  times_out : Event A
  is_killed : Event A

module _ {A : Type 0} where
  unfoldable pub step : Event A → Raft A → Option (Raft A)
  step (starts command term) rf = some (start_append command term rf).0
  step (vote_asked args) rf = some (request_vote_reply args rf).0
  step (vote_answered args reply votes) rf = some (on_vote_reply args reply rf votes).0
  step (append_asked args) rf = some (request_append_entries_reply args rf).0
  step (append_answered server args reply) rf = on_append_reply server args reply rf
  step applies rf = Option.map (λ r. r.0) (apply_next rf)
  step times_out rf = some (start_election rf)
  step is_killed rf = some (kill rf)

  unfoldable pub run : List (Event A) → Raft A → Option (Raft A)
  run [] rf = some rf
  run (ev ∷ evs) rf = elim (step ev rf) [ none ↦ none | some rf' ↦ run evs rf' ]
