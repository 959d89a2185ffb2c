-- ===== src/Raft/StaleMatches.antt =====
-- What a new leader makes of the match indices of an earlier leadership (src/raft/raft.go).
use mit_distribution.Base.{
  ℕ, zero, suc, ◌+◌, ◌/◌, ◌<◌, ◌≤◌, ◌≡◌, ◌≢◌, refl, ap, ◌∙◌, true, false, some, List, [], ◌∷◌, ◌++◌,
  arith, get_elem?, length, set,
}
use mit_distribution.Raft.State.{Raft, Log, candidate, start_append}
use mit_distribution.Raft.Vote.{RequestVoteArgs, RequestVoteReply, on_vote_reply, become_leader}
use mit_distribution.Raft.Append.{RequestAppendEntriesArgs, RequestAppendEntriesReply, is_empty}
use mit_distribution.Raft.Replicate.{record_match, advance_commit, on_append_reply}
use mit_distribution.Raft.Commit.{replicas, replicas-set_pos, advance_commit_lem}
use mit_distribution.Raft.Invariant.{IsValid}
use mit_distribution.Raft.Step.{run, step, vote_answered, starts, append_answered}

replicas-pos :
    (me cmt i old m : ℕ) (ms : List ℕ)
    → get_elem? ms old ≡ some m
    → cmt ≤ m
    → i + old ≢ me
    → 0 < replicas me cmt i ms
replicas-pos me cmt i old m [] e h ne = absurd (ground (arith, e))
replicas-pos me cmt i zero m (x ∷ ms) e h ne = ground (arith, e, h)
replicas-pos me cmt i (suc old) m (x ∷ ms) e h ne =
    ground (arith, replicas-pos me cmt (i + 1) old m ms e h)

-- The peer of the new match index and the one of the old match index are both counted.
replicas-two :
    (me cmt i server old m : ℕ) (ms : List ℕ)
    → get_elem? ms old ≡ some m
    → cmt ≤ m
    → server < length ms
    → server ≢ old
    → i + server ≢ me
    → i + old ≢ me
    → 2 ≤ replicas me cmt i (set ms server cmt)
replicas-two me cmt i server old m [] e h lt other ne ne' = absurd (ground (arith, e))
replicas-two me cmt i zero zero m (x ∷ ms) e h lt other ne ne' = absurd (other refl)
replicas-two me cmt i zero (suc old) m (x ∷ ms) e h lt other ne ne' =
    ground (arith, replicas-pos me cmt (i + 1) old m ms e h)
replicas-two me cmt i (suc server) zero m (x ∷ ms) e h lt other ne ne' =
    ground (arith, e, replicas-set_pos me cmt (i + 1) server ms)
replicas-two me cmt i (suc server) (suc old) m (x ∷ ms) e h lt other ne ne' = ground (
  arith,
  replicas-two me cmt (i + 1) server old m ms e h (omega (arith, lt)) (λ q. other (ap suc q)),
)

-- The vote that makes a candidate the leader.
pub record Elects {A : Type 0} (rf : Raft A) (args : RequestVoteArgs) (reply : RequestVoteReply)
    (votes : ℕ) : Type 0 where
  pub ran : rf.state ≡ candidate
  pub in_term : rf.current_term ≡ args.term
  pub granted : reply.vote_granted ≡ true
  pub majority : rf.peers / 2 < votes + 1

-- A reply that accepts the entries of a request of the leader's term, up to an index.
pub record Accepts {A : Type 0} (term last : ℕ) (args : RequestAppendEntriesArgs A)
    (reply : RequestAppendEntriesReply) : Type 0 where
  pub current : args.term ≡ term
  pub entries : is_empty args.entries ≡ false
  pub reaches : args.prev_log_index + length args.entries ≡ last
  pub not_higher : reply.term ≤ term
  pub success : reply.success ≡ true

module _ {A : Type 0} where
  -- The new leader with the command in its log.
  abbrev led : A → Raft A → Raft A
  unfolding become_leader start_append
  led command rf = (start_append command rf.current_term (become_leader rf)).0

  get_elem?-append_here :
      (xs : List (Log A)) (y : Log A) → get_elem? (xs ++ (y ∷ [])) (length xs) ≡ some y
  get_elem?-append_here [] y = refl
  get_elem?-append_here (x ∷ xs) y = get_elem?-append_here xs y

  elected :
      (vote : RequestVoteArgs) (granted : RequestVoteReply) (rf : Raft A) (votes : ℕ)
      → Elects rf vote granted votes
      → (on_vote_reply vote granted rf votes).0 ≡ become_leader rf
  unfolding on_vote_reply
  elected vote granted rf votes e = ground (arith, e.ran, e.in_term, e.granted, e.majority)

  accepted :
      (server last : ℕ) (l : Raft A) (args : RequestAppendEntriesArgs A)
      (reply : RequestAppendEntriesReply)
      → Accepts l.current_term last args reply
      → on_append_reply server args reply l ≡ advance_commit last (record_match server last l)
  unfolding on_append_reply
  accepted server last l args reply a =
      ground (arith, a.current, a.entries, a.not_higher, a.success)
      ∙ ap (λ k. advance_commit k (record_match server k l)) a.reaches

  stale_commit :
      (command : A) (rf : Raft A) (server old m : ℕ)
      → IsValid rf
      → rf.peers ≤ 5
      → server < rf.peers
      → server ≢ rf.me
      → old ≢ rf.me
      → server ≢ old
      → get_elem? rf.match_index old ≡ some m
      → length rf.log ≤ m
      → advance_commit (length rf.log) (record_match server (length rf.log) (led command rf))
        ≡ some (record (record_match server (length rf.log) (led command rf)) {
          commit_index = length rf.log;
        })
  unfolding led record_match
  stale_commit command rf server old m v few lt not_me old_not_me other e h =
      let l : Raft A = record_match server (length rf.log) (led command rf) in
      let new : Log A = record { entry = some command; term = rf.current_term } in
      let there : get_elem? l.log (length rf.log) ≡ some new = get_elem?-append_here rf.log new in
      let two : 2 ≤ replicas l.me (length rf.log) 0 l.match_index =
        replicas-two rf.me (length rf.log) 0 server old m rf.match_index e h
          (omega (arith, lt, v.match_fits)) other (λ q. not_me (omega (arith, q)))
          (λ q. old_not_me (omega (arith, q))) in
      advance_commit_lem (length rf.log) l new there ∙ ground (arith, two, v.committed, few)

  -- A peer that led before may have a match index for another peer that lies at or behind the end of its present
  -- log, if that log has been cut since. When it is elected again, among at most five peers, and appends a
  -- command, then the acceptance of one peer alone makes it commit the new entry: the old match index is counted for
  -- the other peer, which was never asked.
  pub stale_match_commits :
      (command : A) (rf : Raft A) (vote : RequestVoteArgs) (granted : RequestVoteReply) (votes : ℕ)
      (args : RequestAppendEntriesArgs A) (reply : RequestAppendEntriesReply) (server old m : ℕ)
      → IsValid rf
      → rf.peers ≤ 5
      → server < rf.peers
      → server ≢ rf.me
      → old ≢ rf.me
      → server ≢ old
      → get_elem? rf.match_index old ≡ some m
      → length rf.log ≤ m
      → Elects rf vote granted votes
      → Accepts rf.current_term (length rf.log) args reply
      → (l : Raft A) × (run
            (vote_answered vote granted votes
              ∷ starts command rf.current_term
              ∷ append_answered server args reply
              ∷ [])
            rf
          ≡ some l)
        × (l.commit_index ≡ length rf.log)
        × (get_elem? l.log (length rf.log)
            ≡ some (record { entry = some command; term = rf.current_term }))
  unfolding run step led record_match
  stale_match_commits command rf vote granted votes args reply server old m v few lt not_me
        old_not_me other e h elects accepts =
      let won : (on_vote_reply vote granted rf votes).0 ≡ become_leader rf =
        elected vote granted rf votes elects in
      let l : Raft A = record_match server (length rf.log) (led command rf) in
      let answered : on_append_reply server args reply (led command rf)
          ≡ some (record l { commit_index = length rf.log }) =
        accepted server (length rf.log) (led command rf) args reply accepts
        ∙ stale_commit command rf server old m v few lt not_me old_not_me other e h in
      (
        record l { commit_index = length rf.log },
        ground (arith, won, answered),
        refl,
        get_elem?-append_here rf.log (record { entry = some command; term = rf.current_term }),
      )
