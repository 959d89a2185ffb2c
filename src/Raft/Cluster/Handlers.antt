-- ===== src/Raft/Cluster/Handlers.antt =====
-- What the handlers of a peer do to the memory of votes.
use mit_distribution.Base.{
  ℕ, ◌+◌, ◌/◌, ◌<◌, ◌≤◌, ◌≡◌, ◌≢◌, refl, sym, ap, subst, ◌∙◌, ◌⊎◌, inl, inr, Bool, true, false,
  none, some, arith, pos, minus_one, eqb_ℤ→eq,
}
use mit_distribution.Raft.State.{Raft, leader, candidate, follower}
use mit_distribution.Raft.Vote.{
  RequestVoteArgs, RequestVoteReply, request_vote_reply, on_vote_reply,
}
use mit_distribution.Raft.Append.{
  RequestAppendEntriesArgs, follow, heartbeat, append_entries, request_append_entries_reply,
}
use mit_distribution.Raft.Cluster.Ghost.{Ghost, Supports, Extends, PeerOk, Extends-refl}
use mit_distribution.Raft.Cluster.Votes.{
  Keeps, StepsDown, Stands, PeerOk-Keeps, PeerOk-StepsDown, cast, cast-Extends, cast_self,
  cast_later,
}

-- The memory of one peer's votes has grown.
pub record Updated (g g' : Ghost) (i : ℕ) : Type 0 where
  pub extends : Extends g g'
  pub others : (j : ℕ) → i ≢ j → (t : ℕ) → g'.ballot j t ≡ g.ballot j t
  pub same_elected : (t : ℕ) → g'.elected t ≡ g.elected t

pub Updated-refl : (g : Ghost) (i : ℕ) → Updated g g i
Updated-refl g i = record {
  extends = Extends-refl g;
  others = λ j h t. refl;
  same_elected = λ t. refl;
}

Updated-cast : (g : Ghost) (i term c : ℕ) → g.ballot i term ≡ none → Updated g (cast g i term c) i
Updated-cast g i term c e = record {
  extends = cast-Extends g i term c e;
  others = λ j h t. ground (arith, h);
  same_elected = λ t. refl;
}

-- A granted vote.
pub record Grants {A : Type 0} (args : RequestVoteArgs) (rf rf' : Raft A) : Type 0 where
  pub me : rf'.me ≡ rf.me
  pub peers : rf'.peers ≡ rf.peers
  pub term : rf'.current_term ≡ args.term
  pub vote : rf'.vote_for ≡ pos args.candidate_id
  pub role : (rf'.state ≡ follower) ⊎ ((rf'.state ≡ rf.state) × (rf.current_term ≡ args.term))
  pub fresh :
      (rf.current_term < args.term) ⊎ ((rf.current_term ≡ args.term) × (rf.vote_for ≡ minus_one))

module _ {A : Type 0} where
  pub vote_changes :
      (args : RequestVoteArgs) (rf : Raft A)
      → ((Keeps rf (request_vote_reply args rf).0 ⊎ StepsDown rf (request_vote_reply args rf).0)
          × ((request_vote_reply args rf).1.vote_granted ≡ false))
        ⊎ ((Keeps rf (request_vote_reply args rf).0
              × (rf.current_term ≡ args.term)
              × (rf.vote_for ≡ pos args.candidate_id))
            ⊎ Grants args rf (request_vote_reply args rf).0)
  unfolding request_vote_reply
  vote_changes args rf =
      ground (arith, eqb_ℤ→eq rf.vote_for minus_one, eqb_ℤ→eq rf.vote_for (pos args.candidate_id))

  pub append_changes :
      (args : RequestAppendEntriesArgs A) (rf : Raft A)
      → let rf' = (request_append_entries_reply args rf).0 in
        Keeps rf rf'
        ⊎ ((rf'.me ≡ rf.me)
            × (rf'.peers ≡ rf.peers)
            × (rf'.current_term ≡ args.term)
            × (rf.current_term ≤ args.term)
            × (rf'.vote_for ≡ pos args.leader_id)
            × (rf'.state ≡ follower))
  unfolding request_append_entries_reply follow heartbeat append_entries
  append_changes args rf = ground arith

  ballot_free :
      {g : Ghost} {n i : ℕ} (args : RequestVoteArgs) (rf rf' : Raft A)
      → Grants args rf rf'
      → PeerOk g n i rf
      → g.ballot i args.term ≡ none
  ballot_free {g} {i} args rf rf' k ok = elim k.fresh [
    | inl newer ↦ ok.future args.term newer
    | inr (same, unused) ↦ ap (g.ballot i) (sym same) ∙ ok.free unused
  ]

  PeerOk-Grants :
      {g : Ghost} {n i : ℕ} (args : RequestVoteArgs) (rf rf' : Raft A)
      → Grants args rf rf'
      → PeerOk g n i rf
      → PeerOk (cast g i args.term args.candidate_id) n i rf'
  PeerOk-Grants {g} {i} args rf rf' k ok =
      let c : ℕ = args.candidate_id in
      let g' : Ghost = cast g i args.term c in
      let unused = ballot_free args rf rf' k ok in
      let voted : g'.ballot i rf'.current_term ≡ some c =
        ap (g'.ballot i) k.term ∙ cast_self g i args.term c in
      record {
        itself = k.me ∙ ok.itself;
        all = k.peers ∙ ok.all;
        vote = λ d e. inl (voted ∙ ground (arith, k.vote));
        free = λ e. absurd (ground (arith, k.vote));
        future = λ t h.
            cast_later g i args.term c t (omega (arith, k.term))
            ∙ ok.future t (ground (arith, k.fresh, k.term));
        runs = λ e. absurd (ground (arith, k.role, unused, ok.runs));
        leads = λ e. ground (arith, k.role, ok.leads, k.term);
      }

  -- Handling a vote request keeps the peer in order, and a granted vote is one that the memory supports.
  pub handles_vote :
      {g : Ghost} {n i : ℕ} (args : RequestVoteArgs) (rf : Raft A)
      → PeerOk g n i rf
      → (g' : Ghost) × Updated g g' i
        × PeerOk g' n i (request_vote_reply args rf).0
        × ((request_vote_reply args rf).1.vote_granted ≡ true
            → Supports g' i args.term args.candidate_id)
  handles_vote {g} {i} args rf ok = elim (vote_changes args rf) [
    | inl (inl k, refused) ↦
        (g, Updated-refl g i, PeerOk-Keeps rf _ k ok, λ e. absurd (ground (arith, refused)))
    | inl (inr k, refused) ↦
        (g, Updated-refl g i, PeerOk-StepsDown rf _ k ok, λ e. absurd (ground (arith, refused)))
    | inr (inl (k, term, voted)) ↦ (
      g,
      Updated-refl g i,
      PeerOk-Keeps rf _ k ok,
      λ e. subst (λ t. Supports g i t args.candidate_id) term (ok.vote args.candidate_id voted),
    )
    | inr (inr k) ↦ (
      cast g i args.term args.candidate_id,
      Updated-cast g i args.term args.candidate_id (ballot_free args rf _ k ok),
      PeerOk-Grants args rf _ k ok,
      λ e. inl (cast_self g i args.term args.candidate_id),
    )
  ]

  -- Standing for election is a vote for oneself in a new term.
  pub candidacy :
      {g : Ghost} {n i : ℕ} (rf rf' : Raft A)
      → Stands rf rf'
      → PeerOk g n i rf
      → (g' : Ghost) × Updated g g' i × PeerOk g' n i rf'
  candidacy {g} {i} rf rf' k ok =
      let term : ℕ = rf.current_term + 1 in
      let g' : Ghost = cast g i term i in
      let unused : g.ballot i term ≡ none = ok.future term (omega arith) in
      let voted : g'.ballot i rf'.current_term ≡ some i =
        ap (g'.ballot i) k.term ∙ cast_self g i term i in
      (
        g',
        Updated-cast g i term i unused,
        record {
          itself = k.me ∙ ok.itself;
          all = k.peers ∙ ok.all;
          vote = λ d e. inl (voted ∙ ground (arith, k.vote, ok.itself));
          free = λ e. absurd (ground (arith, k.vote));
          future = λ t h.
              cast_later g i term i t (omega (arith, k.term)) ∙ ok.future t (omega (arith, k.term));
          runs = λ e. voted;
          leads = λ e. absurd (ground (arith, k.role));
        },
      )

  -- A request to append of an elected leader keeps the peer in order.
  pub PeerOk-append :
      {g : Ghost} {n i : ℕ} (args : RequestAppendEntriesArgs A) (rf : Raft A)
      → g.elected args.term ≡ some args.leader_id
      → PeerOk g n i rf
      → PeerOk g n i (request_append_entries_reply args rf).0
  PeerOk-append {g} {i} args rf won ok = elim (append_changes args rf) [
    | inl k ↦ PeerOk-Keeps rf _ k ok
    | inr (me, peers, term, le, vote, role) ↦ record {
      itself = me ∙ ok.itself;
      all = peers ∙ ok.all;
      vote = λ c e. inr (ap g.elected term ∙ won ∙ ground (arith, vote));
      free = λ e. absurd (ground (arith, vote));
      future = λ t h. ok.future t (omega (arith, term, le));
      runs = λ e. absurd (ground (arith, role));
      leads = λ e. absurd (ground (arith, role));
    }
  ]

-- The candidate wins: it has the majority with the vote of this reply.
pub record Wins {A : Type 0} (args : RequestVoteArgs) (rf rf' : Raft A) (votes votes' : ℕ)
    : Type 0 where
  pub me : rf'.me ≡ rf.me
  pub peers : rf'.peers ≡ rf.peers
  pub term : rf'.current_term ≡ rf.current_term
  pub vote : rf'.vote_for ≡ rf.vote_for
  pub role : rf'.state ≡ leader
  pub ran : rf.state ≡ candidate
  pub in_term : rf.current_term ≡ args.term
  pub majority : rf.peers / 2 < votes'

-- What a granted vote adds to the tally.
abbrev pub one_if : Bool → ℕ
one_if true = 1
one_if false = 0

module _ {A : Type 0} where
  pub vote_reply_changes :
      (args : RequestVoteArgs) (reply : RequestVoteReply) (rf : Raft A) (votes : ℕ)
      → let after = on_vote_reply args reply rf votes in
        (after.1 ≤ votes + one_if reply.vote_granted)
        × (Keeps rf after.0 ⊎ (StepsDown rf after.0 ⊎ Wins args rf after.0 votes after.1))
  unfolding on_vote_reply
  vote_reply_changes args reply rf votes = ground arith
