-- ===== src/Raft/Cluster/Examples.antt =====
-- Runs of a cluster of three peers (src/raft/raft.go).
use mit_distribution.Base.{
  ℕ, zero, suc, ◌≡◌, refl, sym, ap, subst, ◌⊎◌, true, false, none, some, [], ◌∷◌, arith, pos,
  minus_one, ◌<◌, ◌≤◌,
}
use mathlib.Core.List.{Memᴰ}
use mathlib.Core.List.Memᴰ
use mit_distribution.Raft.Harness.Checks.{Sight, check_one_leader}
use mit_distribution.Raft.Harness.Leaders.{Leads, Seen, check_one_leader_lem}
use mit_distribution.Raft.State.{
  Raft, make, get_state, is_leader, start_election, read_persist, start_append, zero_log,
}
use mit_distribution.Raft.Vote.{
  RequestVoteArgs, up_to_date, request_vote_args, request_vote_reply, on_vote_reply, become_leader,
}
use mit_distribution.Raft.Append.{
  RequestAppendEntriesArgs, heartbeat, follow, append_entries, merge_log, skip_agreed, splice,
  request_append_entries_reply,
}
use mit_distribution.Raft.Replicate.{request_args, args_for}
use mit_distribution.Raft.Step.{step, times_out, starts}
use mit_distribution.Raft.Cluster.{
  System, acts, asks, delivers, tallies, sends, appends, Reach, start, later,
}
use mit_distribution.Raft.Rivals.{request_then_vote}
use mit_distribution.Raft.Cluster.Elections.{election_safety}
use mit_distribution.Raft.Replication.{LogMatching}
use mit_distribution.Raft.Cluster.Matching.{OrderlyRun, log_matching}

-- Peer 0 stands in term 1 and wins with the vote of peer 1.
one_leader : (s : System ℕ) × Reach true 3 s × (is_leader (s.peer 0).state ≡ true)
unfolding make read_persist step start_election request_vote_args request_vote_reply on_vote_reply
    up_to_date
one_leader = (
  _,
  later
      (later
        (later (later start (acts 0 times_out (omega arith) refl refl))
          (asks 0 0 (omega arith) refl))
        (delivers 0 1 _ (omega arith) refl (λ e. absurd (omega (arith, e))) refl))
      (tallies 0 1 _ _ (omega arith) refl refl),
  refl,
)

election_safety_example : zero ≡ zero
election_safety_example =
    election_safety 3 one_leader.0 one_leader.1 0 0 one_leader.2 one_leader.2 refl

-- It takes the command 7, and peer 1 appends it.
one_entry : (s : System ℕ) × ((run : Reach true 3 s) × OrderlyRun s run)
unfolding one_leader make read_persist step start_election request_vote_args request_vote_reply
    on_vote_reply up_to_date become_leader start_append request_args args_for
    request_append_entries_reply append_entries merge_log skip_agreed splice follow
one_entry = (
  _,
  (
    later
        (later (later one_leader.1 (acts 0 (starts 7 1) (omega arith) refl refl))
          (sends 0 1 0 (omega arith) (λ e. refl) refl refl))
        (appends 0 1 _ (omega arith) refl),
    (((((((tt, tt), tt), tt), tt), (refl, refl)), (0, refl)), tt),
  ),
)

log_matching_example : LogMatching (one_entry.0.peer 0).log (one_entry.0.peer 1).log
log_matching_example = log_matching 3 one_entry.0 one_entry.1.0 one_entry.1.1 0 1

one_entry-logs :
    ((one_entry.0.peer 0).log ≡ zero_log ∷ record { entry = some 7; term = 1 } ∷ [])
    × ((one_entry.0.peer 1).log ≡ (one_entry.0.peer 0).log)
unfolding one_entry one_leader make read_persist step start_election request_vote_args
    request_vote_reply on_vote_reply up_to_date become_leader start_append request_args args_for
    request_append_entries_reply append_entries merge_log skip_agreed splice follow
one_entry-logs = (refl, refl)

-- What a turn of `checkOneLeader` sees then.
abbrev one_leader_seen : Sight
one_leader_seen = record { states = λ i. get_state (one_leader.0.peer i); terms = 1 ∷ [] }

only_leader : (i t : ℕ) → i < 3 → get_state (one_leader.0.peer i) ≡ (t, true) → t ≡ 1
unfolding get_state one_leader make read_persist step start_election request_vote_args
    request_vote_reply on_vote_reply up_to_date
only_leader zero t lt e = ground (arith, e)
only_leader (suc zero) t lt e = ground (arith, e)
only_leader (suc (suc zero)) t lt e = ground (arith, e)
only_leader (suc (suc (suc i))) t lt e = absurd (omega (arith, lt))

one_leader-Seen : Seen 3 (λ i. true) one_leader_seen one_leader.0
unfolding get_state one_leader
one_leader-Seen = record {
  reached = one_leader.1;
  states = λ i. refl;
  terms = λ t. (
    λ m. (0, omega arith, (refl, ap (λ k. (k, true)) (sym (Memᴰ.eq_of_singleton m)))),
    λ h. (let (i, lt, leads) = h in Memᴰ.head (only_leader i t lt leads.1)),
  );
}

one_leader_seen-all :
    (sight : Sight)
    → Memᴰ sight (one_leader_seen ∷ [])
    → (s : System ℕ) × Seen 3 (λ i. true) sight s
one_leader_seen-all sight m =
    subst (λ x. (s : System ℕ) × Seen 3 (λ i. true) x s) (sym (Memᴰ.eq_of_singleton m))
      (one_leader.0, one_leader-Seen)

check_one_leader_lem_example :
    ((check_one_leader 3 (λ i. true) (one_leader_seen ∷ []) ≡ none)
      × ((sight : Sight) (i t : ℕ)
          → Memᴰ sight (one_leader_seen ∷ [])
          → i < 3
          → ¬ Leads (λ i. true) sight.states i t))
    ⊎ ((sight : Sight) × (i : ℕ) × (t : ℕ) × Memᴰ sight (one_leader_seen ∷ [])
        × (check_one_leader 3 (λ i. true) (one_leader_seen ∷ []) ≡ some i)
        × (i < 3)
        × Leads (λ i. true) sight.states i t
        × ((j u : ℕ) → j < 3 → Leads (λ i. true) sight.states j u → u ≤ t))
check_one_leader_lem_example =
    check_one_leader_lem 3 (λ i. true) (one_leader_seen ∷ []) one_leader_seen-all

-- Where a goroutine of `RequestHeartBeat` is late, two peers can lead in one term. Peer 1 wins
-- term 1, and its goroutine for peer 0 waits. Peers 1 and 2 then stand in term 3, and peer 2
-- wins with the vote of peer 0. The goroutine sends a request in term 3 as if peer 1 led, which
-- makes peer 0 forget its vote, and peer 1 wins with the vote of peer 0 too.
two_leaders :
    (s : System ℕ) × Reach false 3 s
    × (is_leader (s.peer 1).state ≡ true)
    × (is_leader (s.peer 2).state ≡ true)
    × ((s.peer 1).current_term ≡ (s.peer 2).current_term)
unfolding make read_persist step start_election request_vote_args request_vote_reply on_vote_reply
    up_to_date request_args request_append_entries_reply heartbeat follow
two_leaders = (
  _,
  later
      (later
        (later
          (later
            (later
              (later
                (later
                  (later
                    (later
                      (later
                        (later
                          (later
                            (later
                              (later
                                (later
                                  (later (later start (acts 1 times_out (omega arith) refl refl))
                                    (asks 1 0 (omega arith) refl))
                                  (delivers 0 2 _ (omega arith) refl
                                    (λ e. absurd (omega (arith, e))) refl))
                                (tallies 0 2 _ _ (omega arith) refl refl))
                              (acts 2 times_out (omega arith) refl refl))
                            (asks 2 1 (omega arith) refl))
                          (delivers 1 1 _ (omega arith) refl (λ e. absurd (omega (arith, e))) refl))
                        (acts 1 times_out (omega arith) refl refl))
                      (acts 2 times_out (omega arith) refl refl))
                    (asks 2 2 (omega arith) refl))
                  (delivers 2 0 _ (omega arith) refl (λ e. absurd (omega (arith, e))) refl))
                (tallies 2 0 _ _ (omega arith) refl refl))
              (sends 1 0 0 (omega arith) (λ e. absurd (cc)) refl refl))
            (appends 0 0 _ (omega arith) refl))
          (asks 1 3 (omega arith) refl))
        (delivers 3 0 _ (omega arith) refl (λ e. absurd (omega (arith, e))) refl))
      (tallies 3 0 _ _ (omega arith) refl refl),
  refl,
  refl,
  refl,
)

-- Peer 0 has voted for peer 2 in term 3; a heartbeat of peer 1 arrives, and then its vote request.
abbrev voted : Raft ℕ
unfolding make read_persist
voted = record (make 3 0 []) { current_term = 3; vote_for = pos 2 }

abbrev late_heartbeat : RequestAppendEntriesArgs ℕ
late_heartbeat = record {
  term = 3;
  leader_id = 1;
  prev_log_index = 0;
  prev_log_term = pos 0;
  entries = [];
  leader_commit = 0;
}

abbrev rival : RequestVoteArgs
rival = record { term = 3; candidate_id = 1; last_log_index = 0; last_log_term = minus_one }

request_then_vote_example :
    (request_vote_reply rival (request_append_entries_reply late_heartbeat voted).0).1.vote_granted
    ≡ true
unfolding request_append_entries_reply heartbeat follow up_to_date voted
request_then_vote_example = request_then_vote late_heartbeat rival voted refl refl refl refl
