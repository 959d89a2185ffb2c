-- ===== src/Raft/Cluster/Rounds.antt =====
-- A vote round (src/raft/raft.go): its calls and its tally.
use mit_distribution.Base.{
  ℕ, ◌+◌, ◌/◌, ◌<◌, ◌≤◌, ◌≡◌, ◌≢◌, refl, sym, ap, subst, ◌∙◌, inl, inr, true, some, arith,
  Bool-cases,
}
use mit_distribution.Base.{update_cases}
use mit_distribution.Raft.State.{Raft}
use mit_distribution.Raft.Vote.{RequestVoteReply, request_vote_args}
use mit_distribution.Base.{update}
use mit_distribution.Raft.Cluster.{Call, pending, answered, consumed, Round, open_round}
use mit_distribution.Raft.Cluster.Counts.{count, count-le, count-lt}
use mit_distribution.Raft.Cluster.Ghost.{
  Ghost, Supports, PeerOk, grants, counted, RoundOk, votes_for, ballot-votes_for,
}
use mit_distribution.Raft.Cluster.Handlers.{one_if}

counted_more :
    (rd : Round) (j : ℕ) (reply : RequestVoteReply) (k : ℕ)
    → rd.call j ≡ answered reply
    → counted (rd.call k) ≡ true
    → counted (update rd.call j (consumed reply) k) ≡ true
counted_more rd j reply k before e = elim (update_cases rd.call j k (consumed reply)) [
  | inl (here, e') ↦ absurd (ground (arith, here, before, e))
  | inr (there, e') ↦ ap counted e' ∙ e
]

-- A consumed reply that grants counts once more.
counted_once :
    (n : ℕ) (rd : Round) (j : ℕ) (reply : RequestVoteReply)
    → j < n
    → rd.call j ≡ answered reply
    → count n (λ k. counted (rd.call k)) + one_if reply.vote_granted
      ≤ count n (λ k. counted (update rd.call j (consumed reply) k))
counted_once n rd j reply lt before = elim (Bool-cases reply.vote_granted) [
  | inl yes_vote ↦ omega (
    arith,
    ap one_if yes_vote,
    count-lt n (λ k. counted (rd.call k)) (λ k. counted (update rd.call j (consumed reply) k)) j
        (λ k e. counted_more rd j reply k before e) lt (ap counted before)
        (ground (arith, yes_vote)),
  )
  | inr no_vote ↦ omega (
    arith,
    ap one_if no_vote,
    count-le n (λ k. counted (rd.call k)) (λ k. counted (update rd.call j (consumed reply) k))
        (λ k e. counted_more rd j reply k before e),
  )
]

counted-grants : (k : Call) → counted k ≡ true → grants k ≡ true
counted-grants pending e = e
counted-grants (answered reply) e = absurd (cc)
counted-grants (consumed reply) e = e

module _ {g : Ghost} {n : ℕ} where
  pub open_round-RoundOk :
      {A : Type 0} (i : ℕ) (rf : Raft A) → i < n → PeerOk g n i rf → RoundOk g n (open_round rf)
  unfolding request_vote_args
  open_round-RoundOk i rf lt ok = record {
    in_range = omega (arith, ok.itself);
    own = refl;
    granted = λ j e. absurd (cc);
    tallied = omega arith;
  }

  -- The other peer's answer, which the memory of votes supports if it grants.
  pub answered-RoundOk :
      (rd : Round) (j : ℕ) (reply : RequestVoteReply)
      → j ≢ rd.args.candidate_id
      → rd.call j ≡ pending
      → (reply.vote_granted ≡ true → Supports g j rd.args.term rd.args.candidate_id)
      → RoundOk g n rd
      → RoundOk g n (record rd { call = update rd.call j (answered reply) })
  answered-RoundOk rd j reply other before supported ok = record {
    in_range = ok.in_range;
    own = ground (arith, ok.own);
    granted = λ k e. elim (update_cases rd.call j k (answered reply)) [
      | inl (here, e') ↦
          subst (λ q. Supports g q rd.args.term rd.args.candidate_id) here
            (supported (sym (ap grants e') ∙ e))
      | inr (there, e') ↦ ok.granted k (sym (ap grants e') ∙ e)
    ];
    tallied = omega (
      arith,
      ok.tallied,
      count-le n (λ k. counted (rd.call k)) (λ k. counted (update rd.call j (answered reply) k))
          (λ (k : ℕ) e. elim (update_cases rd.call j k (answered reply)) [
            | inl (here, e') ↦ absurd (ground (arith, here, before, e))
            | inr (there, e') ↦ ap counted e' ∙ e
          ]),
    );
  }

  -- The candidate has seen the answer, and counts it at most once.
  pub consumed-RoundOk :
      (rd : Round) (j votes' : ℕ) (reply : RequestVoteReply)
      → j < n
      → rd.call j ≡ answered reply
      → votes' ≤ rd.votes + one_if reply.vote_granted
      → RoundOk g n rd
      → RoundOk g n (record rd { votes = votes'; call = update rd.call j (consumed reply) })
  consumed-RoundOk rd j votes' reply lt before le ok = record {
    in_range = ok.in_range;
    own = elim (update_cases rd.call j rd.args.candidate_id (consumed reply)) [
      | inl (here, e') ↦ absurd (ground (arith, before, ap rd.call here, ok.own))
      | inr (there, e') ↦ e' ∙ ok.own
    ];
    granted = λ k e. elim (update_cases rd.call j k (consumed reply)) [
      | inl (here, e') ↦
          subst (λ q. Supports g q rd.args.term rd.args.candidate_id) here
            (ok.granted j (ap grants before ∙ sym (ap grants e') ∙ e))
      | inr (there, e') ↦ ok.granted k (sym (ap grants e') ∙ e)
    ];
    tallied = omega (arith, ok.tallied, le, counted_once n rd j reply lt before);
  }

  -- Unless another has been elected already, a candidate with a majority of counted votes has a
  -- majority of first votes, its own among them.
  pub won_majority :
      (rd : Round)
      → RoundOk g n rd
      → n / 2 < rd.votes
      → g.ballot rd.args.candidate_id rd.args.term ≡ some rd.args.candidate_id
      → g.elected rd.args.term ≢ some rd.args.candidate_id
      → n / 2 < count n (votes_for g rd.args.term rd.args.candidate_id)
  won_majority rd ok h own other =
      let c : ℕ = rd.args.candidate_id in
      omega (
        arith,
        h,
        ok.tallied,
        count-lt n (λ k. counted (rd.call k)) (votes_for g rd.args.term c) c
            (λ k e.
              ballot-votes_for g rd.args.term c k
                (elim (ok.granted k (counted-grants (rd.call k) e)) [
                  | inl voted ↦ voted
                  | inr elected ↦ absurd (other elected)
                ]))
            ok.in_range (ap counted ok.own) (ballot-votes_for g rd.args.term c c own),
      )
