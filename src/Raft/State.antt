-- ===== src/Raft/State.antt =====
-- The state of a peer and its small operations (src/raft/raft.go). Terms, indices and peer numbers
-- are natural numbers; an `int` that the code also sets to -1 is an integer. The lock makes each
-- critical section one function from the state to the state. Channels and goroutines enter as the
-- order in which these functions are called.
use mit_distribution.Base.{
  ℕ, ◌+◌, Bool, true, false, Option, none, some, List, [], ◌∷◌, ◌++◌, ℤ, pos, minus_one, length,
  replicate, if◌then◌else◌,
}

-- `type Log struct`: one entry of the log; the entry 0 that `make` fills in has no command.
pub record Log (A : Type 0) : Type 0 where
  pub entry : Option A
  pub term : ℕ

-- `state int //0leader 1candidate 2follower`
pub data Role : Type 0 where
  leader candidate follower : Role

abbrev pub is_leader : Role → Bool
is_leader leader = true
is_leader candidate = false
is_leader follower = false

abbrev pub is_candidate : Role → Bool
is_candidate leader = false
is_candidate candidate = true
is_candidate follower = false

-- `type Raft struct`. `peers` is the number of peers, and `election_reset` says whether the one slot
-- of `electionResetCh` is taken.
pub record Raft (A : Type 0) : Type 0 where
  pub me : ℕ
  pub peers : ℕ
  pub dead : Bool
  pub current_term : ℕ
  pub vote_for : ℤ
  pub log : List (Log A)
  pub commit_index : ℕ
  pub last_applied : ℕ
  pub next_index : List ℤ
  pub match_index : List ℕ
  pub state : Role
  pub election_reset : Bool

module _ {A : Type 0} where
  -- A non-blocking send on a channel of capacity 1.
  unfoldable pub reset_election_timer : Raft A → Raft A
  reset_election_timer rf = record rf { election_reset = true }

  -- The current term, and whether this peer believes that it leads.
  unfoldable pub get_state : Raft A → ℕ × Bool
  get_state rf = (rf.current_term, is_leader rf.state)

  -- The body is commented out in the source.
  unfoldable pub persist : Raft A → Raft A
  persist rf = rf

  -- Both branches return at once: the decoding is commented out in the source.
  unfoldable pub read_persist : List ℕ → Raft A → Raft A
  read_persist [] rf = rf
  read_persist (b ∷ bs) rf = rf

  -- `make([]Log, 1)` holds the zero value.
  abbrev pub zero_log : Log A
  zero_log = record { entry = none; term = 0 }

  -- `Make` up to the start of its goroutines; `saved` is what the persister holds.
  unfoldable pub make : (peers me : ℕ) → List ℕ → Raft A
  unfolding read_persist
  make peers me saved = read_persist saved (record {
    me = me;
    peers = peers;
    dead = false;
    current_term = 0;
    vote_for = minus_one;
    log = zero_log ∷ [];
    commit_index = 0;
    last_applied = 0;
    next_index = replicate peers (pos 1);
    match_index = replicate peers 0;
    state = follower;
    election_reset = false;
  })

  -- `atomic.StoreInt32(&rf.dead, 1)`
  unfoldable pub kill : Raft A → Raft A
  kill rf = record rf { dead = true }

  unfoldable pub killed : Raft A → Bool
  killed rf = rf.dead

  -- The second critical section of `Start`, with the term that the first one, `GetState`, read.
  unfoldable pub start_append : A → ℕ → Raft A → Raft A × ℕ
  start_append command term rf = (
    record rf { log = rf.log ++ record { entry = some command; term = term } ∷ [] },
    length rf.log,
  )

  -- `Start`, when no other goroutine takes the lock between its two critical sections. The result
  -- is the index, the term and whether this peer leads.
  unfoldable pub start : A → Raft A → Raft A × (ℕ × ℕ × Bool)
  unfolding get_state start_append
  start command rf =
      let (term, leads) = get_state rf in
      if leads
      then (let (rf', index) = start_append command term rf in (rf', (index, term, leads)))
      else (rf, (0, term, leads))

  -- The critical section of `startElection`: a leader does nothing.
  unfoldable pub start_election : Raft A → Raft A
  start_election rf =
      if is_leader rf.state
      then rf
      else record rf { state = candidate; current_term = rf.current_term + 1; vote_for = pos rf.me }
