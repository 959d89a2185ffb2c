-- ===== src/Raft/Cluster.antt =====
-- A cluster of peers and its messages in flight (src/raft/raft.go): a vote round for each execution of
-- `RequestVote`, with one call to each other peer, and the requests to append that were sent. Any
-- step may come next; a message may be delayed for ever, and a request to append repeated. Replies to
-- a request to append are arbitrary. Peers keep their memory: a crash is not modelled.
pub mod Counts
pub mod Ghost
pub mod Votes
pub mod Handlers
pub mod Rounds
pub mod Moves
pub mod Elections
pub mod Rooted
pub mod Effects
pub mod Logs
pub mod Advances
pub mod Matching
pub mod Examples
use mit_distribution.Base.{
  ℕ, ◌+◌, ◌<◌, ◌≡◌, ◌≢◌, Bool, true, false, Option, none, some, List, [], ◌==◌, if◌then◌else◌,
}
use mit_distribution.Base.{update}
use mit_distribution.Raft.State.{Raft, is_leader, make}
use mit_distribution.Raft.Vote.{
  RequestVoteArgs, RequestVoteReply, request_vote_args, request_vote_reply, on_vote_reply,
}
use mit_distribution.Raft.Append.{RequestAppendEntriesArgs, request_append_entries_reply}
use mit_distribution.Raft.Replicate.{request_args}
use mit_distribution.Raft.Step.{Event, step}
use mit_distribution.Raft.Step.{
  starts, vote_asked, vote_answered, append_asked, append_answered, applies, times_out, is_killed,
}

-- One call of a vote round: not yet handled by the other peer, handled, and its reply seen by the
-- goroutine that waits for it.
pub data Call : Type 0 where
  pending : Call
  answered : RequestVoteReply → Call
  consumed : RequestVoteReply → Call

-- One execution of `RequestVote`; `votes` is its variable `voteNum`.
pub record Round : Type 0 where
  pub args : RequestVoteArgs
  pub votes : ℕ
  pub call : ℕ → Call

-- The peers, the rounds and the requests to append, each by a number; a slot may be free.
pub record System (A : Type 0) : Type 0 where
  pub peer : ℕ → Raft A
  pub round : ℕ → Option Round
  pub sent : ℕ → Option (RequestAppendEntriesArgs A)

-- Events that need no message of the model: a reply to a request to append may be any reply.
abbrev pub is_local : {A : Type 0} → Event A → Bool
is_local (vote_asked args) = false
is_local (vote_answered args reply votes) = false
is_local (append_asked args) = false
is_local ev = true

abbrev pub initial : {A : Type 0} → ℕ → System A
initial n = record { peer = λ i. make n i []; round = λ r. none; sent = λ k. none }

abbrev pub open_round : {A : Type 0} → Raft A → Round
open_round rf = record { args = request_vote_args rf; votes = 1; call = λ j. pending }

-- A vote request reaches a peer, which handles it.
abbrev pub deliver : {A : Type 0} → System A → ℕ → Round → ℕ → System A
deliver s r rd j =
    let (rf', reply) = request_vote_reply rd.args (s.peer j) in
    record s {
      peer = update s.peer j rf';
      round = update s.round r (some (record rd { call = update rd.call j (answered reply) }));
    }

-- The reply reaches the candidate, and the goroutine of the call handles it.
abbrev pub tally : {A : Type 0} → System A → ℕ → Round → ℕ → RequestVoteReply → System A
tally s r rd j reply =
    let c = rd.args.candidate_id in
    let (rf', votes') = on_vote_reply rd.args reply (s.peer c) rd.votes in
    record s {
      peer = update s.peer c rf';
      round =
          update s.round r
            (some (record rd { votes = votes'; call = update rd.call j (consumed reply) }));
    }

-- With `prompt`, the goroutines of `RequestHeartBeat` reach their critical section while the peer that
-- started them still leads. The code does not check this.
pub data Step {A : Type 0} (prompt : Bool) (n : ℕ) (s : System A) : System A → Type 0 where
  acts :
      (i : ℕ) (ev : Event A) {rf' : Raft A}
      → i < n
      → is_local ev ≡ true
      → step ev (s.peer i) ≡ some rf'
      → Step prompt n s (record s { peer = update s.peer i rf' })
  asks :
      (i r : ℕ)
      → i < n
      → s.round r ≡ none
      → Step prompt n s (record s { round = update s.round r (some (open_round (s.peer i))) })
  delivers :
      (r j : ℕ) (rd : Round)
      → j < n
      → s.round r ≡ some rd
      → j ≢ rd.args.candidate_id
      → rd.call j ≡ pending
      → Step prompt n s (deliver s r rd j)
  tallies :
      (r j : ℕ) (rd : Round) (reply : RequestVoteReply)
      → j < n
      → s.round r ≡ some rd
      → rd.call j ≡ answered reply
      → Step prompt n s (tally s r rd j reply)
  sends :
      (i server k : ℕ) {args : RequestAppendEntriesArgs A}
      → i < n
      → (prompt ≡ true → is_leader (s.peer i).state ≡ true)
      → request_args server (s.peer i) ≡ some args
      → s.sent k ≡ none
      → Step prompt n s (record s { sent = update s.sent k (some args) })
  appends :
      (k j : ℕ) (args : RequestAppendEntriesArgs A)
      → j < n
      → s.sent k ≡ some args
      → Step prompt n s
          (record s { peer = update s.peer j (request_append_entries_reply args (s.peer j)).0 })

pub data Reach {A : Type 0} (prompt : Bool) (n : ℕ) : System A → Type 0 where
  start : Reach prompt n (initial n)
  later : {s t : System A} → Reach prompt n s → Step prompt n s t → Reach prompt n t
