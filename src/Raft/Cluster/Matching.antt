-- ===== src/Raft/Cluster/Matching.antt =====
-- Log matching over a cluster of peers (src/raft/raft.go).
use mit_distribution.Base.{
  ℕ, zero, suc, ◌≡◌, refl, sym, ap, subst, ◌∙◌, inl, inr, true, none, some, List, [], ◌∷◌, arith,
  ◌==◌, if◌then◌else◌, Bool-cases, update, update_cases, get_elem?, ℤ, pos, take,
}
use mit_distribution.Raft.State.{Raft, Log, zero_log, leader, is_leader, make, read_persist}
use mit_distribution.Raft.Vote.{RequestVoteReply, on_vote_reply}
use mit_distribution.Raft.Append.{RequestAppendEntriesArgs, request_append_entries_reply}
use mit_distribution.Raft.Replicate.{request_args, args_for}
use mit_distribution.Raft.Replication.{LogMatching, args_for-Sends}
use mit_distribution.Raft.Step.{Event, step}
use mit_distribution.Raft.Step.{
  starts, vote_asked, vote_answered, append_asked, append_answered, applies, times_out, is_killed,
}
use mit_distribution.Raft.Cluster.{
  Round, System, is_local, initial, deliver, tally, Step, acts, asks, delivers, tallies, sends,
  appends, Reach, start, later,
}
use mit_distribution.Raft.Cluster.Ghost.{Ghost, Extends, Inv}
use mit_distribution.Raft.Cluster.Elections.{Step-Inv, initial-Inv, no_ghost}
use mit_distribution.Raft.Cluster.Rooted.{Origin, Rooted, Rooted-LogMatching, appended_log}
use mit_distribution.Raft.Cluster.Effects.{
  Settles, vote-Settles, vote-log, vote_reply-Settles, vote_reply-log, append-Settles,
  local-Settles, is_start, local-log,
}
use mit_distribution.Raft.Cluster.Logs.{Built, Logs, Logs-Advances, Logs-Extends}
use mit_distribution.Raft.Cluster.Advances.{Settles-Advances, Wins-Advances, start-Advances}

-- `Start` in one piece: the peer leads in the term of the new entry.
abbrev pub InOnePiece : {A : Type 0} → Event A → Raft A → Type 0
InOnePiece (starts command term) rf = (is_leader rf.state ≡ true) × (term ≡ rf.current_term)
InOnePiece ev rf = Unit

-- A step in which `Start` runs in one piece and a request is built for a positive `nextIndex`.
abbrev pub Orderly : {A : Type 0} {n : ℕ} (s t : System A) → Step true n s t → Type 0
Orderly s _ (acts i ev {rf'} lt h e) = InOnePiece ev (s.peer i)
Orderly s _ (asks i r lt unused) = Unit
Orderly s _ (delivers r j rd lt there other before) = Unit
Orderly s _ (tallies r j rd reply lt there before) = Unit
Orderly s _ (sends i server k {args} lt leads made unused) =
    (prev : ℕ) × (get_elem? (s.peer i).next_index server ≡ some (pos (suc prev)))
Orderly s _ (appends k j args lt there) = Unit

abbrev pub OrderlyRun : {A : Type 0} {n : ℕ} (s : System A) → Reach true n s → Type 0
OrderlyRun s start = Unit
OrderlyRun _ (later {s} {t} before next) = OrderlyRun s before × Orderly s t next

-- The invariant for some knowledge of leaders' logs.
abbrev Known : {A : Type 0} → Ghost → System A → Type 0
Known {A} g s = (o : Origin A) × Logs o g s.peer s.sent

module _ {A : Type 0} where
  request_args-for :
      (server : ℕ) (rf : Raft A) (at : ℤ) (args : RequestAppendEntriesArgs A)
      → request_args server rf ≡ some args
      → get_elem? rf.next_index server ≡ some at
      → args_for rf at ≡ some args
  unfolding request_args
  request_args-for server rf at args made there = ground (arith, there, made)

  updated_here : (peer : ℕ → Raft A) (i : ℕ) (rf' : Raft A) → update peer i rf' i ≡ rf'
  updated_here peer i rf' = elim (update_cases peer i i rf') [
    | inl (here, e) ↦ e
    | inr (other, e) ↦ absurd (other refl)
  ]

module _ {A : Type 0} {o : Origin A} {g g' : Ghost} where
  -- An event of a peer's own.
  acts-Logs :
      {n : ℕ} (s : System A) (i : ℕ) (ev : Event A) (rf' : Raft A)
      → is_local ev ≡ true
      → step ev (s.peer i) ≡ some rf'
      → InOnePiece ev (s.peer i)
      → Extends g g'
      → Inv g n s
      → Logs o g s.peer s.sent
      → Known g' (record s { peer = update s.peer i rf' })
  unfolding step
  acts-Logs s i ev rf' h e whole x inv v = elim (Bool-cases (is_start ev)) [
    | inl starting ↦ begins ev starting e whole (local-Settles ev (s.peer i) rf' h e)
    | inr other ↦
        (let settles = local-Settles ev (s.peer i) rf' h e in
          let same = local-log ev (s.peer i) rf' h other e in
          (
            o,
            Logs-Advances s.peer s.sent i rf'
                (Settles-Advances s.peer s.sent i rf' v x settles
                  (subst (Rooted o) (sym same) (v.rooted i)) (λ is. same))
                v,
          ))
  ]
    where
      begins :
          (ev : Event A)
          → is_start ev ≡ true
          → step ev (s.peer i) ≡ some rf'
          → InOnePiece ev (s.peer i)
          → Settles (s.peer i) rf'
          → Known g' (record s { peer = update s.peer i rf' })
      begins (starts command term) h e (leads, now) settles =
          let (o', a) =
            start-Advances s.peer s.sent i rf' command (λ j. (inv.peers j).leads) v
              (ground (arith, leads)) (ground (arith, e, now)) settles in
          (o', Logs-Extends _ s.sent x (Logs-Advances s.peer s.sent i rf' a v))
      begins (vote_asked args) h e whole settles = absurd (cc)
      begins (vote_answered args reply votes) h e whole settles = absurd (cc)
      begins (append_asked args) h e whole settles = absurd (cc)
      begins (append_answered server args reply) h e whole settles = absurd (cc)
      begins applies h e whole settles = absurd (cc)
      begins times_out h e whole settles = absurd (cc)
      begins is_killed h e whole settles = absurd (cc)

  delivers-Logs :
      (s : System A) (r j : ℕ) (rd : Round)
      → Extends g g'
      → Logs o g s.peer s.sent
      → Known g' (deliver s r rd j)
  delivers-Logs s r j rd x v =
      let same = vote-log rd.args (s.peer j) in
      (
        o,
        Logs-Advances s.peer s.sent j _
            (Settles-Advances s.peer s.sent j _ v x (vote-Settles rd.args (s.peer j))
              (subst (Rooted o) (sym same) (v.rooted j)) (λ is. same))
            v,
      )

  tallies-Logs :
      {n : ℕ} (s : System A) (r j : ℕ) (rd : Round) (reply : RequestVoteReply)
      → Extends g g'
      → Inv g' n (tally s r rd j reply)
      → Logs o g s.peer s.sent
      → Known g' (tally s r rd j reply)
  tallies-Logs s r j rd reply x inv' v =
      let c : ℕ = rd.args.candidate_id in
      let rf' : Raft A = (on_vote_reply rd.args reply (s.peer c) rd.votes).0 in
      let same = vote_reply-log rd.args reply (s.peer c) rd.votes in
      elim (vote_reply-Settles rd.args reply (s.peer c) rd.votes) [
        | inl settles ↦ (
          o,
          Logs-Advances s.peer s.sent c rf'
              (Settles-Advances s.peer s.sent c rf' v x settles
                (subst (Rooted o) (sym same) (v.rooted c)) (λ is. same))
              v,
        )
        | inr w ↦
            (let won : g'.elected rf'.current_term ≡ some c =
                subst (λ (rf : Raft A). rf.state ≡ leader → g'.elected rf.current_term ≡ some c)
                  (updated_here s.peer c rf') (inv'.peers c).leads w.role in
              let (o', a) =
                Wins-Advances s.peer s.sent c rf' v rd.args rd.votes _ w same x
                  (ap g'.elected (sym w.in_term ∙ sym w.term) ∙ won) in
              (o', Logs-Advances s.peer s.sent c rf' a v))
      ]

  appends-Logs :
      (s : System A) (k j : ℕ) (args : RequestAppendEntriesArgs A)
      → s.sent k ≡ some args
      → Extends g g'
      → Logs o g s.peer s.sent
      → Known g'
          (record s { peer = update s.peer j (request_append_entries_reply args (s.peer j)).0 })
  appends-Logs s k j args there x v =
      let b = v.requests k args there in
      let rf' : Raft A = (request_append_entries_reply args (s.peer j)).0 in
      let (settles, kept) = append-Settles args (s.peer j) in
      let rooted : Rooted o rf'.log =
        elim (appended_log (s.peer j) b.sender (v.rooted j) b.rooted args b.prev b.made) [
          | inl stays ↦ subst (Rooted o) (sym stays) (v.rooted j)
          | inr takes ↦ subst (Rooted o) (sym takes) b.rooted
        ] in
      (
        o,
        Logs-Advances s.peer s.sent j rf'
            (Settles-Advances s.peer s.sent j rf' v x settles rooted (λ is. elim kept [
              | inl same ↦ same
              | inr follows ↦ absurd (ground (arith, is, follows))
            ]))
            v,
      )

  sends-Logs :
      (s : System A) (i server k prev : ℕ) (args : RequestAppendEntriesArgs A)
      → request_args server (s.peer i) ≡ some args
      → get_elem? (s.peer i).next_index server ≡ some (pos (suc prev))
      → Extends g g'
      → Logs o g s.peer s.sent
      → Known g' (record s { sent = update s.sent k (some args) })
  sends-Logs s i server k prev args made there x v =
      let built : Built o args = record {
        sender = s.peer i;
        prev = prev;
        rooted = v.rooted i;
        made =
            args_for-Sends (s.peer i) prev args
              (request_args-for server (s.peer i) (pos (suc prev)) args made there);
      } in
      (
        o,
        Logs-Extends s.peer _ x (record {
          rooted = v.rooted;
          leads = v.leads;
          owned = v.owned;
          busy = v.busy;
          requests = λ q args' e. elim (update_cases s.sent k q (some args)) [
            | inl (here, e') ↦
                (let one : args ≡ args' = ground (arith, e, e') in subst (Built o) one built)
            | inr (other, e') ↦ v.requests q args' (sym e' ∙ e)
          ];
        }),
      )

-- What is known before the first step: the log that all peers have.
abbrev no_leaders : {A : Type 0} → Origin A
no_leaders t = if t == 0 then some (zero_log ∷ []) else none

module _ {A : Type 0} where
  initial-Rooted : Rooted {A = A} no_leaders (zero_log ∷ [])
  initial-Rooted = record { headed = refl; traced = λ k e there. go k e there }
    where
      go :
          (k : ℕ) (e : Log A)
          → get_elem? (zero_log ∷ []) k ≡ some e
          → (l : List (Log A)) × (no_leaders e.term ≡ some l)
            × (take (suc k) (zero_log ∷ []) ≡ take (suc k) l)
      go zero e there = (zero_log ∷ [], ground (arith, there), refl)
      go (suc k) e there = absurd (ground (arith, there))

  initial-Logs : (n : ℕ) → Logs {A = A} no_leaders no_ghost (initial n).peer (initial n).sent
  unfolding make read_persist
  initial-Logs n = record {
    rooted = λ i. initial-Rooted;
    leads = λ i e. absurd (cc);
    owned = λ t l lt from. absurd (ground (arith, lt, from));
    busy = λ i h. absurd (h refl);
    requests = λ k args e. absurd (cc);
  }

module _ {A : Type 0} {n : ℕ} where
  Step-Logs :
      {o : Origin A} {g g' : Ghost} (s t : System A) (next : Step true n s t)
      → Orderly s t next
      → Extends g g'
      → Inv g n s
      → Inv g' n t
      → Logs o g s.peer s.sent
      → Known g' t
  Step-Logs s _ (acts i ev {rf'} lt h e) whole x inv inv' v = acts-Logs s i ev rf' h e whole x inv v
  Step-Logs {o} s _ (asks i r lt unused) whole x inv inv' v = (o, Logs-Extends s.peer s.sent x v)
  Step-Logs s _ (delivers r j rd lt there other before) whole x inv inv' v =
      delivers-Logs s r j rd x v
  Step-Logs s _ (tallies r j rd reply lt there before) whole x inv inv' v =
      tallies-Logs s r j rd reply x inv' v
  Step-Logs s _ (sends i server k {args} lt leads made unused) (prev, there) x inv inv' v =
      sends-Logs s i server k prev args made there x v
  Step-Logs s _ (appends k j args lt there) whole x inv inv' v = appends-Logs s k j args there x v

  Reach-Logs :
      (s : System A) (run : Reach true n s) → OrderlyRun s run → (g : Ghost) × Inv g n s × Known g s
  Reach-Logs _ start whole = (no_ghost, initial-Inv, (no_leaders, initial-Logs n))
  Reach-Logs _ (later {s} {t} before next) (orderly, whole) =
      let (g, inv, known) = Reach-Logs s before orderly in
      let (o, v) = known in
      let (g', x, inv') = Step-Inv s t next inv in (g', inv', Step-Logs s t next whole x inv inv' v)

-- In a cluster whose goroutines of `RequestHeartBeat` run while their peer still leads and find a
-- positive `nextIndex`, and where no other goroutine takes the lock inside a call of `Start`, the logs of
-- any two peers match: entries of one index and term are the same, and so is all that stands before them.
pub log_matching :
    {A : Type 0} (n : ℕ) (s : System A) (run : Reach true n s)
    → OrderlyRun s run
    → (i j : ℕ) → LogMatching (s.peer i).log (s.peer j).log
log_matching n s run orderly i j =
    let (g, inv, known) = Reach-Logs s run orderly in
    let (o, v) = known in Rooted-LogMatching (s.peer i).log (s.peer j).log (v.rooted i) (v.rooted j)
