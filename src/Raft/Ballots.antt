-- ===== src/Raft/Ballots.antt =====
-- How a peer votes (src/raft/raft.go): when it grants, and that it keeps its vote.
use mit_distribution.Base.{
  ℕ, ◌+◌, ◌<◌, ◌≤◌, ◌≡◌, refl, sym, ◌∙◌, ◌⊎◌, ◌↔◌, inl, inr, Bool, true, false, Option, some, List,
  [], ◌∷◌, arith, Option-cases, get_elem?, length, ℤ, pos, minus_one, eqb_ℤ_refl, ltb_ℤ, All,
}
use mit_distribution.Raft.State.{Raft, Log, start_append, start_election, kill}
use mit_distribution.Raft.Vote.{
  RequestVoteArgs, last_log_term, request_vote_args, up_to_date, request_vote_reply, on_vote_reply,
}
use mit_distribution.Raft.Append.{RequestAppendEntriesArgs, RequestAppendEntriesReply}
use mit_distribution.Raft.Replicate.{ApplyMsg, back_up, record_match, on_append_reply, apply_next}
use mit_distribution.Raft.Commit.{advance_commit_effect}
use mit_distribution.Raft.Terms.{step-term, run-term}
use mit_distribution.Raft.Step.{Event, step, run}
use mit_distribution.Raft.Step.{
  starts, vote_asked, vote_answered, append_asked, append_answered, applies, times_out, is_killed,
}

abbrev pub is_append_asked : {A : Type 0} → Event A → Bool
is_append_asked (append_asked args) = true
is_append_asked ev = false

-- In this term this peer has voted for the candidate.
pub record HasVoted {A : Type 0} (term candidate : ℕ) (rf : Raft A) : Type 0 where
  pub in_term : rf.current_term ≡ term
  pub for_candidate : rf.vote_for ≡ pos candidate

module _ {A : Type 0} where
  on_append_reply-vote :
      (server : ℕ) (args : RequestAppendEntriesArgs A) (reply : RequestAppendEntriesReply)
      (rf rf' : Raft A)
      → on_append_reply server args reply rf ≡ some rf'
      → rf'.current_term ≡ rf.current_term
      → rf'.vote_for ≡ rf.vote_for
  unfolding on_append_reply record_match back_up
  on_append_reply-vote server args reply rf rf' e t =
      let matched : ℕ = args.prev_log_index + length args.entries in
      ground (
        arith,
        Option-cases (get_elem? rf.next_index server),
        advance_commit_effect matched (record_match server matched rf) rf',
      )

  apply_next-vote :
      (rf rf' : Raft A) (m : Option (ApplyMsg A))
      → apply_next rf ≡ some (rf', m)
      → rf'.vote_for ≡ rf.vote_for
  unfolding apply_next
  apply_next-vote rf rf' m e = ground (arith, Option-cases (get_elem? rf.log (rf.last_applied + 1)))

  -- No event but a request to append changes the vote of a term.
  step-HasVoted :
      (ev : Event A) (term candidate : ℕ) (rf rf' : Raft A)
      → is_append_asked ev ≡ false
      → HasVoted term candidate rf
      → step ev rf ≡ some rf'
      → rf'.current_term ≡ term
      → HasVoted term candidate rf'
  unfolding step start_append start_election kill request_vote_reply on_vote_reply
  step-HasVoted (starts command t) term candidate rf rf' h v e s = ground arith
  step-HasVoted (vote_asked args) term candidate rf rf' h v e s = ground arith
  step-HasVoted (vote_answered args reply votes) term candidate rf rf' h v e s = ground arith
  step-HasVoted (append_asked args) term candidate rf rf' h v e s = absurd (cc)
  step-HasVoted (append_answered server args reply) term candidate rf rf' h v e s =
      ground (arith, on_append_reply-vote server args reply rf rf' e)
  step-HasVoted applies term candidate rf rf' h v e s = elim (Option-cases (apply_next rf)) [
    | inl out ↦ absurd (ground arith)
    | inr ((rf₁, m), done) ↦ ground (arith, apply_next-vote rf rf₁ m)
  ]
  step-HasVoted times_out term candidate rf rf' h v e s = ground arith
  step-HasVoted is_killed term candidate rf rf' h v e s = ground arith

  run-HasVoted :
      (evs : List (Event A)) (term candidate : ℕ) (rf rf' : Raft A)
      → All (λ ev. is_append_asked ev ≡ false) evs
      → HasVoted term candidate rf
      → run evs rf ≡ some rf'
      → rf'.current_term ≡ term
      → HasVoted term candidate rf'
  unfolding run
  run-HasVoted [] term candidate rf rf' h v e s = ground arith
  run-HasVoted (ev ∷ evs) term candidate rf rf' h v e s = elim (Option-cases (step ev rf)) [
    | inl out ↦ absurd (ground arith)
    | inr (mid, done) ↦
        (let rest : run evs mid ≡ some rf' = ground arith in
          run-HasVoted evs term candidate mid rf' h.1
            (step-HasVoted ev term candidate rf mid h.0 v done
              (omega (arith, run-term evs mid rf' rest, step-term ev rf mid done, v.in_term)))
            rest s)
  ]

  granted-HasVoted :
      (args : RequestVoteArgs) (rf : Raft A)
      → (request_vote_reply args rf).1.vote_granted ≡ true
      → HasVoted args.term args.candidate_id (request_vote_reply args rf).0
  unfolding request_vote_reply
  granted-HasVoted args rf g = ground arith

  grants_only_its_vote :
      (args : RequestVoteArgs) (rf : Raft A) (candidate : ℕ)
      → HasVoted args.term candidate rf
      → (request_vote_reply args rf).1.vote_granted ≡ true
      → args.candidate_id ≡ candidate
  unfolding request_vote_reply
  grants_only_its_vote args rf candidate v g = ground arith

  granted-term :
      (args : RequestVoteArgs) (rf : Raft A)
      → (request_vote_reply args rf).1.vote_granted ≡ true
      → rf.current_term ≤ args.term
  unfolding request_vote_reply
  granted-term args rf g = ground arith

  -- A peer that grants two vote requests of one term, with any events but requests to append in
  -- between, grants them to one candidate.
  pub one_vote_per_term :
      (args₁ args₂ : RequestVoteArgs) (evs : List (Event A)) (rf mid : Raft A)
      → (request_vote_reply args₁ rf).1.vote_granted ≡ true
      → All (λ ev. is_append_asked ev ≡ false) evs
      → run evs (request_vote_reply args₁ rf).0 ≡ some mid
      → (request_vote_reply args₂ mid).1.vote_granted ≡ true
      → args₁.term ≡ args₂.term
      → args₁.candidate_id ≡ args₂.candidate_id
  one_vote_per_term args₁ args₂ evs rf mid g₁ quiet r g₂ same =
      let v = granted-HasVoted args₁ rf g₁ in
      let in_term : mid.current_term ≡ args₁.term = omega (
        arith,
        same,
        v.in_term,
        granted-term args₂ mid g₂,
        run-term evs (request_vote_reply args₁ rf).0 mid r,
      ) in
      let kept = run-HasVoted evs args₁.term args₁.candidate_id _ mid quiet v r in_term in
      sym (
        grants_only_its_vote args₂ mid args₁.candidate_id
          (record { in_term = in_term ∙ same; for_candidate = kept.for_candidate }) g₂)

-- Raft's order on logs: the later last term, or the same last term and no fewer entries. A log with
-- only the entry 0 is behind every other.
abbrev pub last_term : {A : Type 0} → List (Log A) → ℤ
last_term [] = minus_one
last_term (x ∷ []) = minus_one
last_term (x ∷ y ∷ []) = pos y.term
last_term (x ∷ y ∷ z ∷ log) = last_term (y ∷ z ∷ log)

abbrev pub AtLeastAsNew : {A : Type 0} → List (Log A) → List (Log A) → Type 0
AtLeastAsNew xs ys =
    (ltb_ℤ (last_term ys) (last_term xs) ≡ true)
    ⊎ ((last_term xs ≡ last_term ys) × (length ys ≤ length xs))

module _ {A : Type 0} where
  last_log_term-last_term : (log : List (Log A)) → last_log_term log ≡ last_term log
  unfolding last_log_term
  last_log_term-last_term [] = refl
  last_log_term-last_term (x ∷ []) = refl
  last_log_term-last_term (x ∷ y ∷ []) = refl
  last_log_term-last_term (x ∷ y ∷ z ∷ log) = ground (arith, last_log_term-last_term (y ∷ z ∷ log))

  last_term_one : (log : List (Log A)) → length log ≡ 1 → last_term log ≡ minus_one
  last_term_one [] h = refl
  last_term_one (x ∷ []) h = refl
  last_term_one (x ∷ y ∷ log) h = absurd (omega arith)

  last_term_sign :
      (log : List (Log A))
      → ((last_term log ≡ minus_one) × (length log ≤ 1)) ⊎ ((t : ℕ) × (last_term log ≡ pos t))
  last_term_sign [] = inl (refl, omega arith)
  last_term_sign (x ∷ []) = inl (refl, omega arith)
  last_term_sign (x ∷ y ∷ []) = inr (y.term, refl)
  last_term_sign (x ∷ y ∷ z ∷ log) = ground (arith, last_term_sign (y ∷ z ∷ log))

  up_to_date-AtLeastAsNew :
      (c v : Raft A)
      → 0 < length c.log
      → 0 < length v.log
      → (up_to_date (request_vote_args c) v.log ≡ true) ↔ AtLeastAsNew c.log v.log
  unfolding up_to_date request_vote_args
  up_to_date-AtLeastAsNew c v hc hv =
      rw (last_log_term-last_term c.log, last_log_term-last_term v.log)
        (ground (arith, last_term_one v.log, last_term_sign c.log, last_term_sign v.log))

  grants_iff_up_to_date :
      (args : RequestVoteArgs) (v : Raft A)
      → ((request_vote_reply args v).1.vote_granted ≡ true) ↔ (
          (v.current_term ≤ args.term)
          × (up_to_date args v.log ≡ true)
          × ((v.current_term < args.term)
              ⊎ ((v.vote_for ≡ minus_one) ⊎ (v.vote_for ≡ pos args.candidate_id))))
  unfolding request_vote_reply
  grants_iff_up_to_date args v = (λ g. ground arith, λ h. ground (arith, eqb_ℤ_refl v.vote_for))

  -- A peer grants a candidate its vote exactly when the candidate's term is not behind, its log is at
  -- least as new in Raft's order, and in that term the peer has not voted or has voted for it. Both
  -- logs hold at least the entry 0.
  pub grants_iff :
      (c v : Raft A)
      → 0 < length c.log
      → 0 < length v.log
      → ((request_vote_reply (request_vote_args c) v).1.vote_granted ≡ true) ↔ (
          (v.current_term ≤ c.current_term)
          × AtLeastAsNew c.log v.log
          × ((v.current_term < c.current_term)
              ⊎ ((v.vote_for ≡ minus_one) ⊎ (v.vote_for ≡ pos c.me))))
  unfolding request_vote_args
  grants_iff c v hc hv =
      let (to, from) = grants_iff_up_to_date (request_vote_args c) v in
      let (new, newer) = up_to_date-AtLeastAsNew c v hc hv in
      (λ g. let (t, u, f) = to g in (t, new u, f), λ (t, n, f). from (t, newer n, f))
