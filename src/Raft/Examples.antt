-- ===== src/Raft/Examples.antt =====
-- Concrete peers, and the theorems about src/raft/raft.go at them.
use mit_distribution.Base.{
  ℕ, zero, suc, ◌+◌, ◌<◌, ◌≤◌, ◌≡◌, refl, true, false, some, List, [], ◌∷◌, ◌++◌, arith, get_elem?,
  length, take, drop, pos, minus_one, ◌⊎◌, ◌↔◌,
}
use mit_distribution.Raft.State.{
  Raft, Log, leader, candidate, follower, zero_log, make, start_append, get_state, start_election,
}
use mit_distribution.Raft.Vote.{RequestVoteArgs, request_vote_args, request_vote_reply, up_to_date}
use mit_distribution.Raft.Append.{
  RequestAppendEntriesArgs, RequestAppendEntriesReply, follow, append_entries, merge_log,
  request_append_entries_reply,
}
use mit_distribution.Raft.Replicate.{request_args, advance_commit, apply_next}
use mit_distribution.Raft.Commit.{advance_commit_lem}
use mit_distribution.Raft.Step.{
  Event, run, step, vote_asked, vote_answered, starts, times_out, append_answered, applies,
}
use mit_distribution.Raft.Invariant.{IsValid, run-IsValid}
use mit_distribution.Raft.Guards.{guarded_reply, guarded_reply_lem}
use mit_distribution.Raft.Merge.{reconcile, merge_log-eq-reconcile}
use mit_distribution.Raft.Replication.{replicates}
use mit_distribution.Raft.Ballots.{AtLeastAsNew, one_vote_per_term, grants_iff}
use mit_distribution.Raft.StaleMatches.{stale_match_commits}
use mit_distribution.Raft.Hazards.{Rejects, double_rejection_shifts, start_interrupted}

abbrev entry_of : ℕ → ℕ → Log ℕ
entry_of c t = record { entry = some c; term = t }

-- Peer 0 leads term 2 of three peers; it takes peer 1 to be one entry behind.
abbrev leading : Raft ℕ
leading = record {
  me = 0;
  peers = 3;
  dead = false;
  current_term = 2;
  vote_for = pos 0;
  log = zero_log ∷ entry_of 7 1 ∷ entry_of 8 2 ∷ [];
  commit_index = 1;
  last_applied = 1;
  next_index = pos 3 ∷ pos 2 ∷ pos 3 ∷ [];
  match_index = 0 ∷ 0 ∷ 0 ∷ [];
  state = leader;
  election_reset = false;
}

-- Peer 1 holds an entry of term 1 that the leader lacks.
abbrev behind : Raft ℕ
behind = record {
  me = 1;
  peers = 3;
  dead = false;
  current_term = 1;
  vote_for = minus_one;
  log = zero_log ∷ entry_of 7 1 ∷ entry_of 9 1 ∷ [];
  commit_index = 1;
  last_applied = 0;
  next_index = pos 1 ∷ pos 1 ∷ pos 1 ∷ [];
  match_index = 0 ∷ 0 ∷ 0 ∷ [];
  state = follower;
  election_reset = false;
}

abbrev fresh_peer : Raft ℕ
unfolding make
fresh_peer = make 3 2 []

leading-IsValid : IsValid leading
leading-IsValid = record {
  headed = refl;
  committed = omega arith;
  next_fits = refl;
  match_fits = refl;
}

behind-IsValid : IsValid behind
behind-IsValid = record {
  headed = refl;
  committed = omega arith;
  next_fits = refl;
  match_fits = refl;
}

matching :
    (i : ℕ) (x y : Log ℕ)
    → get_elem? behind.log i ≡ some x
    → get_elem? leading.log i ≡ some y
    → x.term ≡ y.term
    → take (suc i) behind.log ≡ take (suc i) leading.log
matching zero x y p q e = refl
matching (suc zero) x y p q e = refl
matching (suc (suc zero)) x y p q e = absurd (ground arith)
matching (suc (suc (suc i))) x y p q e = absurd (cc)

sent_args : RequestAppendEntriesArgs ℕ
sent_args = record {
  term = 2;
  leader_id = 0;
  prev_log_index = 1;
  prev_log_term = pos 1;
  entries = entry_of 8 2 ∷ [];
  leader_commit = 1;
}

replicates_example :
    (take 3 (request_append_entries_reply sent_args behind).0.log ≡ leading.log)
    × (sent_args.prev_log_index + length sent_args.entries + 1 ≡ 3)
unfolding sent_args request_args request_append_entries_reply append_entries follow merge_log
replicates_example =
    replicates 1 1 leading behind sent_args leading-IsValid behind-IsValid
      (record { same = matching }) refl refl refl

-- Peer 1 times out, is asked for its vote in a later term, and starts over.
abbrev turbulent : List (Event ℕ)
turbulent =
    times_out
    ∷ vote_asked (record { term = 5; candidate_id = 2; last_log_index = 2; last_log_term = pos 4 })
    ∷ applies
    ∷ times_out
    ∷ []

abbrev after_turbulence : Raft ℕ
after_turbulence = record behind {
  current_term = 6;
  vote_for = pos 1;
  last_applied = 1;
  state = candidate;
  election_reset = true;
}

run-turbulent : run turbulent behind ≡ some after_turbulence
unfolding run step start_election request_vote_reply up_to_date apply_next
run-turbulent = refl

run-IsValid_example : IsValid after_turbulence
run-IsValid_example = run-IsValid turbulent behind after_turbulence behind-IsValid run-turbulent

guarded_reply_lem_example :
    guarded_reply sent_args behind ≡ some (request_append_entries_reply sent_args behind)
guarded_reply_lem_example = guarded_reply_lem sent_args behind

abbrev canvass : ℕ → RequestVoteArgs
canvass c = record { term = 4; candidate_id = c; last_log_index = 2; last_log_term = pos 3 }

abbrev voted : Raft ℕ
voted = record behind { current_term = 4; vote_for = pos 2; election_reset = true }

one_vote_per_term_example : ◌≡◌ {A = ℕ} 2 2
unfolding run step request_vote_reply up_to_date apply_next
one_vote_per_term_example =
    one_vote_per_term (canvass 2) (canvass 2) (applies ∷ []) behind
      (record voted { last_applied = 1 }) refl (refl, tt) refl refl refl

grants_iff_example :
    ((request_vote_reply (request_vote_args leading) behind).1.vote_granted ≡ true) ↔ (
      (1 ≤ 2)
      × AtLeastAsNew leading.log behind.log
      × ((1 < 2) ⊎ ((behind.vote_for ≡ minus_one) ⊎ (behind.vote_for ≡ pos 0))))
grants_iff_example = grants_iff leading behind (omega arith) (omega arith)

merge_log-eq-reconcile_example :
    merge_log behind.log (entry_of 8 2 ∷ []) 1
    ≡ take 2 behind.log ++ reconcile (drop 2 behind.log) (entry_of 8 2 ∷ [])
merge_log-eq-reconcile_example = merge_log-eq-reconcile behind.log (entry_of 8 2 ∷ []) 1

-- Peer 2 holds the entry 2 as well.
abbrev replicated : Raft ℕ
replicated = record leading { match_index = 0 ∷ 0 ∷ 2 ∷ [] }

advance_commit_lem_example :
    advance_commit 2 replicated ≡ some (record replicated { commit_index = 2 })
advance_commit_lem_example = advance_commit_lem 2 replicated (entry_of 8 2) refl

refusal : RequestAppendEntriesReply
refusal = record { term = 2; success = false }

refuses : Rejects leading sent_args refusal
unfolding sent_args refusal
refuses = record { current = refl; not_higher = omega arith; refused = refl }

double_rejection_shifts_example :
    (l' : Raft ℕ) × (args : RequestAppendEntriesArgs ℕ) × (run
        (append_answered 1 sent_args refusal ∷ append_answered 1 sent_args refusal ∷ [])
        leading
      ≡ some l')
    × (request_args 1 l' ≡ some args)
    × ((request_append_entries_reply args fresh_peer).0.log ≡ zero_log ∷ leading.log)
unfolding make
double_rejection_shifts_example =
    double_rejection_shifts 1 leading fresh_peer sent_args sent_args refusal refusal leading-IsValid
      refuses refuses refl refl (omega arith)

start_interrupted_example :
    let stepped_down = (request_vote_reply (canvass 1) leading).0 in
    let appended = (start_append 5 (get_state leading).0 stepped_down).0 in
    ((get_state leading).1 ≡ true)
    × (appended.state ≡ follower)
    × (appended.current_term ≡ 4)
    × (appended.log ≡ leading.log ++ entry_of 5 2 ∷ [])
start_interrupted_example = start_interrupted 5 leading (canvass 1) refl (omega arith)

-- Peer 0 of five led before, when peer 2 held five entries of its log, which has been cut to two since; it now
-- stands in term 3, and has two votes.
abbrev returning : Raft ℕ
returning = record {
  me = 0;
  peers = 5;
  dead = false;
  current_term = 3;
  vote_for = pos 0;
  log = zero_log ∷ entry_of 7 1 ∷ [];
  commit_index = 0;
  last_applied = 0;
  next_index = pos 5 ∷ pos 5 ∷ pos 5 ∷ pos 5 ∷ pos 5 ∷ [];
  match_index = 0 ∷ 0 ∷ 4 ∷ 0 ∷ 0 ∷ [];
  state = candidate;
  election_reset = false;
}

returning-IsValid : IsValid returning
returning-IsValid = record {
  headed = refl;
  committed = omega arith;
  next_fits = refl;
  match_fits = refl;
}

-- The request with the next entry of its log.
abbrev one_entry : RequestAppendEntriesArgs ℕ
one_entry = record {
  term = 3;
  leader_id = 0;
  prev_log_index = 1;
  prev_log_term = pos 1;
  entries = entry_of 8 3 ∷ [];
  leader_commit = 0;
}

stale_match_commits_example :
    (l : Raft ℕ) × (run
        (vote_answered (request_vote_args returning) (record { term = 3; vote_granted = true }) 2
          ∷ starts 8 3
          ∷ append_answered 1 one_entry (record { term = 3; success = true })
          ∷ [])
        returning
      ≡ some l)
    × (l.commit_index ≡ 2)
    × (get_elem? l.log 2 ≡ some (entry_of 8 3))
unfolding request_vote_args
stale_match_commits_example =
    stale_match_commits 8 returning (request_vote_args returning)
      (record { term = 3; vote_granted = true }) 2 one_entry (record { term = 3; success = true }) 1
      2 4 returning-IsValid (omega arith) (omega arith) (λ e. absurd (omega (arith, e)))
      (λ e. absurd (omega (arith, e))) (λ e. absurd (omega (arith, e))) refl (omega arith)
      (record { ran = refl; in_term = refl; granted = refl; majority = omega arith })
      (record {
        current = refl;
        entries = refl;
        reaches = refl;
        not_higher = omega arith;
        success = refl;
      })
