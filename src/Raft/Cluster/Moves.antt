-- ===== src/Raft/Cluster/Moves.antt =====
-- At most one leader in a term: what each kind of step does to the invariant (src/raft/raft.go).
use mit_distribution.Base.{
  ℕ, zero, suc, ◌/◌, ◌<◌, ◌≡◌, ◌≢◌, refl, sym, ap, subst, ◌∙◌, inl, inr, true, none, some, arith,
  ◌==◌, if◌then◌else◌, Bool-cases, Option-cases, ==→eq, ℤ, pos,
}
use mit_distribution.Raft.State.{Raft, is_leader}
use mit_distribution.Raft.Vote.{
  RequestVoteArgs, RequestVoteReply, request_vote_reply, on_vote_reply,
}
use mit_distribution.Raft.Append.{RequestAppendEntriesArgs}
use mit_distribution.Raft.Replicate.{request_args, args_for}
use mit_distribution.Raft.Step.{Event, step}
use mit_distribution.Base.{update}
use mit_distribution.Raft.Cluster.{
  pending, answered, consumed, Round, System, is_local, deliver, tally,
}
use mit_distribution.Base.{negsuc, get_elem?}
use mit_distribution.Raft.Cluster.Counts.{count, count-add_le}
use mit_distribution.Raft.Cluster.Ghost.{
  Ghost, Supports, Extends, PeerOk, RoundOk, votes_for, Inv, Extends-refl, RoundOk-Extends,
  PeerOk-Extends, votes_for-ballot, votes_for-Extends,
}
use mit_distribution.Raft.Cluster.Votes.{local_changes, PeerOk-Keeps, PeerOk-StepsDown}
use mit_distribution.Base.{update_cases}
use mit_distribution.Raft.Cluster.Rounds.{answered-RoundOk, consumed-RoundOk, won_majority}
use mit_distribution.Raft.Cluster.Handlers.{
  Updated, Updated-refl, handles_vote, candidacy, Wins, vote_reply_changes,
}

-- Two majorities have a peer in common.
same_winner :
    (g : Ghost) (n term c d : ℕ)
    → n / 2 < count n (votes_for g term c)
    → n / 2 < count n (votes_for g term d)
    → c ≡ d
same_winner g n term c d more_c more_d = elim (Bool-cases (c == d)) [
  | inl same ↦ ==→eq c d same
  | inr other ↦ absurd (
      omega (
        arith,
        more_c,
        more_d,
        count-add_le n (votes_for g term c) (votes_for g term d)
            (λ j e. ground (arith, votes_for-ballot g term c j e)),
      ))
]

-- The first election of a term.
abbrev crown : Ghost → ℕ → ℕ → Ghost
crown g term c = record g { elected = λ t. if t == term then some c else g.elected t }

crown-Extends : (g : Ghost) (term c : ℕ) → g.elected term ≡ none → Extends g (crown g term c)
crown-Extends g term c e = record {
  ballots = λ j t d h. h;
  elections = λ t d h. ground (arith, h, e);
}

module _ {A : Type 0} where
  args_for-sender :
      (rf : Raft A) (at : ℤ) (args : RequestAppendEntriesArgs A)
      → args_for rf at ≡ some args
      → (args.term ≡ rf.current_term) × (args.leader_id ≡ rf.me)
  unfolding args_for
  args_for-sender rf (pos zero) args e = ground arith
  args_for-sender rf (pos (suc prev)) args e = ground (arith, Option-cases (get_elem? rf.log prev))
  args_for-sender rf (negsuc m) args e = absurd (ground arith)

  -- A leader's request names it and its term.
  request_args-sender :
      (server : ℕ) (rf : Raft A) (args : RequestAppendEntriesArgs A)
      → request_args server rf ≡ some args
      → (args.term ≡ rf.current_term) × (args.leader_id ≡ rf.me)
  unfolding request_args
  request_args-sender server rf args e = elim (Option-cases (get_elem? rf.next_index server)) [
    | inl out ↦ absurd (ground arith)
    | inr (at, there) ↦ args_for-sender rf at args (ground arith)
  ]

  PeerOk-Wins :
      {g : Ghost} {n i : ℕ} (args : RequestVoteArgs) (rf rf' : Raft A) (votes votes' : ℕ)
      → Wins args rf rf' votes votes'
      → g.elected args.term ≡ some i
      → PeerOk g n i rf
      → PeerOk g n i rf'
  PeerOk-Wins {g} {i} args rf rf' votes votes' k won ok = record {
    itself = k.me ∙ ok.itself;
    all = k.peers ∙ ok.all;
    vote = λ c e. subst (λ t. Supports g i t c) (sym k.term) (ok.vote c (sym k.vote ∙ e));
    free = λ e. ap (g.ballot i) k.term ∙ ok.free (sym k.vote ∙ e);
    future = λ t h. ok.future t (omega (arith, k.term));
    runs = λ e. absurd (ground (arith, k.role));
    leads = λ e. ap g.elected (k.term ∙ k.in_term) ∙ won;
  }

module _ {A : Type 0} {n : ℕ} where
  -- One peer has changed, and the memory of its votes has grown.
  pub peer_replaced :
      {g g' : Ghost} (s : System A) (i : ℕ) (rf' : Raft A)
      → Updated g g' i
      → PeerOk g' n i rf'
      → Inv g n s
      → Inv g' n (record s { peer = update s.peer i rf' })
  peer_replaced {g} {g'} s i rf' u ok v = record {
    peers = λ j. elim (update_cases s.peer i j rf') [
      | inl (here, e) ↦ subst (PeerOk g' n j) (sym e) (subst (λ k. PeerOk g' n k rf') here ok)
      | inr (other, e) ↦
          subst (PeerOk g' n j) (sym e) (PeerOk-Extends u.extends (u.others j other) (v.peers j))
    ];
    rounds = λ r rd e. RoundOk-Extends u.extends (v.rounds r rd e);
    requests = λ k args e. u.extends.elections args.term args.leader_id (v.requests k args e);
    majorities = λ t c e.
        (let h = v.majorities t c (sym (u.same_elected t) ∙ e) in
          omega (arith, h, votes_for-Extends u.extends n t c));
  }

  pub round_replaced :
      {g : Ghost} (s : System A) (r : ℕ) (rd' : Round)
      → RoundOk g n rd'
      → Inv g n s
      → Inv g n (record s { round = update s.round r (some rd') })
  round_replaced {g} s r rd' ok v = record {
    peers = v.peers;
    rounds = λ q rd e. elim (update_cases s.round r q (some rd')) [
      | inl (here, e') ↦ subst (RoundOk g n) (ground (arith, e, e')) ok
      | inr (other, e') ↦ v.rounds q rd (sym e' ∙ e)
    ];
    requests = v.requests;
    majorities = v.majorities;
  }

  pub acts-Inv :
      {g : Ghost} (s : System A) (i : ℕ) (ev : Event A) (rf' : Raft A)
      → is_local ev ≡ true
      → step ev (s.peer i) ≡ some rf'
      → Inv g n s
      → (g' : Ghost) × Extends g g' × Inv g' n (record s { peer = update s.peer i rf' })
  acts-Inv {g} s i ev rf' h e v = elim (local_changes ev (s.peer i) rf' h e) [
    | inl k ↦ (
      g,
      Extends-refl g,
      peer_replaced s i rf' (Updated-refl g i) (PeerOk-Keeps (s.peer i) rf' k (v.peers i)) v,
    )
    | inr (inl k) ↦ (
      g,
      Extends-refl g,
      peer_replaced s i rf' (Updated-refl g i) (PeerOk-StepsDown (s.peer i) rf' k (v.peers i)) v,
    )
    | inr (inr k) ↦
        (let (g', u, ok) = candidacy (s.peer i) rf' k (v.peers i) in
          (g', u.extends, peer_replaced s i rf' u ok v))
  ]

  pub delivers-Inv :
      {g : Ghost} (s : System A) (r j : ℕ) (rd : Round)
      → s.round r ≡ some rd
      → j ≢ rd.args.candidate_id
      → rd.call j ≡ pending
      → Inv g n s
      → (g' : Ghost) × Extends g g' × Inv g' n (deliver s r rd j)
  delivers-Inv s r j rd there other before v =
      let (g', u, ok, supported) = handles_vote rd.args (s.peer j) (v.peers j) in
      let reply : RequestVoteReply = (request_vote_reply rd.args (s.peer j)).1 in
      let v' = peer_replaced s j (request_vote_reply rd.args (s.peer j)).0 u ok v in
      (
        g',
        u.extends,
        round_replaced _ r (record rd { call = update rd.call j (answered reply) })
            (answered-RoundOk rd j reply other before supported (v'.rounds r rd there)) v',
      )

  crown-Inv :
      {g : Ghost} (s : System A) (term c : ℕ)
      → g.elected term ≡ none
      → n / 2 < count n (votes_for g term c)
      → Inv g n s
      → Inv (crown g term c) n s
  crown-Inv {g} s term c unused more v =
      let x = crown-Extends g term c unused in
      record {
        peers = λ j. PeerOk-Extends x (λ t. refl) (v.peers j);
        rounds = λ r rd e. RoundOk-Extends x (v.rounds r rd e);
        requests = λ k args e. x.elections args.term args.leader_id (v.requests k args e);
        majorities = λ t d e. elim (Bool-cases (t == term)) [
          | inl same ↦
              (let now : t ≡ term = ==→eq t term same in
                let named : c ≡ d = ground (arith, e, same) in
                subst (λ d. n / 2 < count n (votes_for g t d)) named
                  (subst (λ t. n / 2 < count n (votes_for g t c)) (sym now) more))
          | inr other ↦ v.majorities t d (ground (arith, e, other))
        ];
      }

  -- The winner of a round is the first of its term, or the one that the term has already.
  victory-Inv :
      {g : Ghost} (s : System A) (rd : Round) (rf' : Raft A) (votes : ℕ)
      → Wins rd.args (s.peer rd.args.candidate_id) rf' votes rd.votes
      → RoundOk g n rd
      → Inv g n s
      → (g' : Ghost) × Extends g g'
        × Inv g' n (record s { peer = update s.peer rd.args.candidate_id rf' })
  victory-Inv {g} s rd rf' votes w ok v =
      let c : ℕ = rd.args.candidate_id in
      let term : ℕ = rd.args.term in
      let peer_ok = v.peers c in
      let own : g.ballot c term ≡ some c = ap (g.ballot c) (sym w.in_term) ∙ peer_ok.runs w.ran in
      let enough : n / 2 < rd.votes = subst (λ m. m / 2 < rd.votes) peer_ok.all w.majority in
      let settle : (g' : Ghost)
          → g'.elected term ≡ some c
          → Inv g' n s
          → Inv g' n (record s { peer = update s.peer c rf' }) =
        λ g' won v'.
          peer_replaced s c rf' (Updated-refl g' c)
            (PeerOk-Wins rd.args (s.peer c) rf' votes rd.votes w won (v'.peers c)) v' in
      elim (Option-cases (g.elected term)) [
        | inl unused ↦
            (let more = won_majority rd ok enough own (λ e. absurd (ground (arith, unused, e))) in
              (
                crown g term c,
                crown-Extends g term c unused,
                settle (crown g term c) (ground arith) (crown-Inv s term c unused more v),
              ))
        | inr (d, there) ↦ elim (Bool-cases (d == c)) [
          | inl same ↦ (g, Extends-refl g, settle g (there ∙ ap some (==→eq d c same)) v)
          | inr other ↦
              (let more =
                  won_majority rd ok enough own (λ e. absurd (ground (arith, there, e, other))) in
                absurd (
                  ground (arith, other, same_winner g n term d c (v.majorities term d there) more)))
        ]
      ]

  pub tallies-Inv :
      {g : Ghost} (s : System A) (r j : ℕ) (rd : Round) (reply : RequestVoteReply)
      → j < n
      → s.round r ≡ some rd
      → rd.call j ≡ answered reply
      → Inv g n s
      → (g' : Ghost) × Extends g g' × Inv g' n (tally s r rd j reply)
  tallies-Inv {g} s r j rd reply lt there before v =
      let c : ℕ = rd.args.candidate_id in
      let rf : Raft A = s.peer c in
      let rf' : Raft A = (on_vote_reply rd.args reply rf rd.votes).0 in
      let votes' : ℕ = (on_vote_reply rd.args reply rf rd.votes).1 in
      let rd' : Round = record rd { votes = votes'; call = update rd.call j (consumed reply) } in
      let (le, change) = vote_reply_changes rd.args reply rf rd.votes in
      let ok : RoundOk g n rd' =
        consumed-RoundOk rd j votes' reply lt before le (v.rounds r rd there) in
      elim change [
        | inl k ↦ (
          g,
          Extends-refl g,
          round_replaced _ r rd' ok
              (peer_replaced s c rf' (Updated-refl g c) (PeerOk-Keeps rf rf' k (v.peers c)) v),
        )
        | inr (inl k) ↦ (
          g,
          Extends-refl g,
          round_replaced _ r rd' ok
              (peer_replaced s c rf' (Updated-refl g c) (PeerOk-StepsDown rf rf' k (v.peers c)) v),
        )
        | inr (inr w) ↦
            (let (g', x, v') = victory-Inv s rd' rf' rd.votes w ok v in
              (g', x, round_replaced _ r rd' (RoundOk-Extends x ok) v'))
      ]

  pub sends-Inv :
      {g : Ghost} (s : System A) (i server k : ℕ) (args : RequestAppendEntriesArgs A)
      → is_leader (s.peer i).state ≡ true
      → request_args server (s.peer i) ≡ some args
      → Inv g n s
      → Inv g n (record s { sent = update s.sent k (some args) })
  sends-Inv {g} s i server k args h made v =
      let (same_term, named) = request_args-sender server (s.peer i) args made in
      let ok = v.peers i in
      let won : g.elected args.term ≡ some args.leader_id =
        ap g.elected same_term
        ∙ ok.leads (ground (arith, h))
        ∙ ap some (sym ok.itself ∙ sym named) in
      record {
        peers = v.peers;
        rounds = v.rounds;
        requests = λ q args' e. elim (update_cases s.sent k q (some args)) [
          | inl (here, e') ↦
              (let same : args ≡ args' = ground (arith, e, e') in
                subst (λ (a : RequestAppendEntriesArgs A). g.elected a.term ≡ some a.leader_id) same
                  won)
          | inr (other, e') ↦ v.requests q args' (sym e' ∙ e)
        ];
        majorities = v.majorities;
      }
