-- ===== src/Raft/Harness/Examples.antt =====
-- Runs of the test configuration (src/raft/config.go).
use mit_distribution.Base.{
  ℕ, ◌+◌, ◌*◌, ◌≡◌, ◌↔◌, refl, true, false, some, [], arith, ◌==◌, ==→eq, eq→==, subst, sym,
  if◌then◌else◌, none, ◌∷◌,
}
use mit_distribution.Labrpc.Network.{
  make_network, make_end, connect as connect_end, enable, add_server, delete_server, set_reliable,
  set_long_delays, ReqMsg, Draws, admitted, admit, read_endname_info,
}
use mit_distribution.Raft.Persister.{
  make_persister, copy, save_raft_state, read_raft_state, allocate,
}
use mit_distribution.Raft.Harness.{
  Config, attach, all_named, connect_all, for_each, enable_end, make_ends, only_raft_state, connect,
  disconnect, keep_raft_state, kill_raft, crash1, fresh_persister, install, start1, empty_config,
  start_all, make_config,
}
use mathlib.Core.List.{Memᴰ}
use mathlib.Core.List.Memᴰ
use mit_distribution.Raft.Harness.Agreement.{Attempt, reached, one, try_starts, look_for}
use mit_distribution.Raft.Harness.Submitted.{Submitted, one-Submitted}
use mit_distribution.Raft.Harness.Apply.{
  conflict, apply_command, n_committed, Consistent, apply_command-Consistent,
}
use mit_distribution.Raft.Harness.Partition.{admitted_iff, make_config-Used}
use mit_distribution.Raft.Harness.Restart.{Owned, Isolated, start1_isolates}

-- The name of the end of each peer for each other.
abbrev name_of : ℕ → ℕ → ℕ
name_of i j = 10 * i + j

-- A configuration of two peers.
two_peers : (cfg : Config ℕ) × (make_config 2 false name_of ≡ some cfg)
unfolding make_config empty_config start_all for_each attach all_named connect_all connect start1
    crash1 make_ends install disconnect kill_raft keep_raft_state delete_server fresh_persister
    add_server enable_end copy allocate make_persister make_network set_reliable set_long_delays
    make_end connect_end enable
two_peers = (_, refl)

-- A request of peer 0 to peer 1.
abbrev request : ReqMsg ℕ
request = record { endname = 1; svc_meth = "Raft.RequestVoteReply"; args_type = 0; args = [] }

abbrev no_draws : Draws
no_draws = record {
  drop_request = 0;
  drop_reply = 0;
  reorder = 0;
  reply_bound = 0;
  reply_delay = 0;
  no_server_delay = 0;
}

admitted_iff_example :
    (admit two_peers.0.net request no_draws two_peers.0.net
      ≡ admitted 1 1 (read_endname_info two_peers.0.net 1))
    ↔ ((two_peers.0.connected 0 ≡ true) × (two_peers.0.connected 1 ≡ true))
unfolding two_peers
admitted_iff_example =
    admitted_iff two_peers.0 request no_draws two_peers.0.net 0 1 1
      (make_config-Used 2 false name_of two_peers.0 two_peers.1).0 (omega arith) (omega arith) refl
      refl refl

same_iff : (a b : ℕ) → ((a == b) ≡ true) ↔ (a ≡ b)
same_iff a b = (==→eq a b, eq→== a b)

-- Peer 0 has applied the command 7 at index 1.
applied_once : (cfg : Config ℕ) × (apply_command ◌==◌ 0 1 7 two_peers.0 ≡ some cfg)
unfolding apply_command conflict two_peers
applied_once = (_, refl)

two_peers-Consistent : Consistent two_peers.0
unfolding two_peers
two_peers-Consistent = record {
  agree = λ i j index a b lt lt' e. absurd (ground (arith, e));
  gapless = λ i index a e. absurd (ground (arith, e));
}

apply_command-Consistent_example : Consistent applied_once.0
unfolding two_peers
apply_command-Consistent_example =
    apply_command-Consistent ◌==◌ same_iff two_peers.0 applied_once.0 0 1 7 (omega arith)
      two_peers-Consistent applied_once.1

applied_once-Consistent : Consistent applied_once.0
unfolding two_peers
applied_once-Consistent =
    apply_command-Consistent ◌==◌ same_iff two_peers.0 applied_once.0 0 1 7 (omega arith)
      two_peers-Consistent applied_once.1

-- Names that the ends of the first start do not have.
abbrev later_name : ℕ → ℕ
later_name j = 100 + j

-- Peer 0 starts again.
restarted : (cfg : Config ℕ) × (start1 0 later_name two_peers.0 ≡ some cfg)
unfolding start1 crash1 make_ends install disconnect for_each kill_raft keep_raft_state
    only_raft_state delete_server fresh_persister add_server enable_end copy allocate
    save_raft_state read_raft_state make_persister make_end connect_end enable two_peers
restarted = (_, refl)

two_peers-Owned : Owned two_peers.0
unfolding two_peers
two_peers-Owned = record {
  instances = λ r lt. ground (arith, lt);
  saved = λ i a e. ground (arith, e);
}

start1_isolates_example : Isolated 0 two_peers.0 restarted.0
start1_isolates_example =
    start1_isolates 0 later_name two_peers.0 restarted.0 two_peers-Owned restarted.1

-- A round of `one` in which peer 1 leads and the command 7 is seen at index 1.
abbrev submission : Attempt ℕ
submission = record {
  n = 2;
  since = 0;
  is_ready = λ i. true;
  start = λ i. if i == 1 then some 1 else none;
  looks = (0, applied_once.0) ∷ [];
}

submission-reached : one ◌==◌ 7 1 true 0 (submission ∷ []) ≡ reached 1
unfolding one try_starts look_for n_committed applied_once apply_command conflict two_peers
submission-reached = refl

submission-Consistent :
    (a : Attempt ℕ) (look : ℕ × Config ℕ)
    → Memᴰ a (submission ∷ [])
    → Memᴰ look a.looks
    → Consistent look.1
submission-Consistent a look m seen =
    let only = subst (λ (x : Attempt ℕ). Memᴰ look x.looks) (Memᴰ.eq_of_singleton m) seen in
    subst (λ (l : ℕ × Config ℕ). Consistent l.1) (sym (Memᴰ.eq_of_singleton only))
      applied_once-Consistent

one-Submitted_example : Submitted ◌==◌ same_iff 7 1 1 (submission ∷ [])
one-Submitted_example =
    one-Submitted ◌==◌ same_iff 7 1 true 0 1 (submission ∷ []) submission-Consistent
      submission-reached
