-- ===== src/Raft/Cluster/Votes.antt =====
-- How each critical section of a peer changes its term, vote and role, and what that does to the
-- memory of votes.
use mit_distribution.Base.{
  ℕ, ◌+◌, ◌<◌, ◌≡◌, sym, ap, subst, ◌∙◌, ◌⊎◌, inl, inr, true, ◌&&◌, Option, none, some, arith, ◌==◌,
  if◌then◌else◌, Option-cases, pos, minus_one, length, get_elem?,
}
use mit_distribution.Raft.State.{Raft, candidate, follower, start_append, start_election, kill}
use mit_distribution.Raft.Append.{RequestAppendEntriesArgs, RequestAppendEntriesReply}
use mit_distribution.Raft.Replicate.{ApplyMsg, record_match, back_up, on_append_reply, apply_next}
use mit_distribution.Raft.Commit.{advance_commit_effect}
use mit_distribution.Raft.Step.{Event, step}
use mit_distribution.Raft.Step.{
  starts, vote_asked, vote_answered, append_asked, append_answered, applies, times_out, is_killed,
}
use mit_distribution.Raft.Cluster.{is_local}
use mit_distribution.Raft.Cluster.Ghost.{Ghost, Supports, Extends, PeerOk}

-- Nothing changes that matters for elections.
pub record Keeps {A : Type 0} (rf rf' : Raft A) : Type 0 where
  pub me : rf'.me ≡ rf.me
  pub peers : rf'.peers ≡ rf.peers
  pub term : rf'.current_term ≡ rf.current_term
  pub vote : rf'.vote_for ≡ rf.vote_for
  pub role : rf'.state ≡ rf.state

-- A higher term makes the peer a follower that has not voted.
pub record StepsDown {A : Type 0} (rf rf' : Raft A) : Type 0 where
  pub me : rf'.me ≡ rf.me
  pub peers : rf'.peers ≡ rf.peers
  pub term : rf.current_term < rf'.current_term
  pub vote : rf'.vote_for ≡ minus_one
  pub role : rf'.state ≡ follower

-- The peer stands for election in the next term.
pub record Stands {A : Type 0} (rf rf' : Raft A) : Type 0 where
  pub me : rf'.me ≡ rf.me
  pub peers : rf'.peers ≡ rf.peers
  pub term : rf'.current_term ≡ rf.current_term + 1
  pub vote : rf'.vote_for ≡ pos rf.me
  pub role : rf'.state ≡ candidate

module _ {A : Type 0} where
  on_append_reply-changes :
      (server : ℕ) (args : RequestAppendEntriesArgs A) (reply : RequestAppendEntriesReply)
      (rf rf' : Raft A)
      → on_append_reply server args reply rf ≡ some rf'
      → Keeps rf rf' ⊎ StepsDown rf rf'
  unfolding on_append_reply record_match back_up
  on_append_reply-changes server args reply rf rf' e =
      let matched : ℕ = args.prev_log_index + length args.entries in
      ground (
        arith,
        Option-cases (get_elem? rf.next_index server),
        advance_commit_effect matched (record_match server matched rf) rf',
      )

  apply_next-Keeps :
      (rf rf' : Raft A) (m : Option (ApplyMsg A)) → apply_next rf ≡ some (rf', m) → Keeps rf rf'
  unfolding apply_next
  apply_next-Keeps rf rf' m e =
      ground (arith, Option-cases (get_elem? rf.log (rf.last_applied + 1)))

  pub local_changes :
      (ev : Event A) (rf rf' : Raft A)
      → is_local ev ≡ true
      → step ev rf ≡ some rf'
      → Keeps rf rf' ⊎ (StepsDown rf rf' ⊎ Stands rf rf')
  unfolding step start_append start_election kill
  local_changes (starts command t) rf rf' h e = ground arith
  local_changes (vote_asked args) rf rf' h e = absurd (cc)
  local_changes (vote_answered args reply votes) rf rf' h e = absurd (cc)
  local_changes (append_asked args) rf rf' h e = absurd (cc)
  local_changes (append_answered server args reply) rf rf' h e =
      ground (arith, on_append_reply-changes server args reply rf rf' e)
  local_changes applies rf rf' h e = elim (Option-cases (apply_next rf)) [
    | inl out ↦ absurd (ground arith)
    | inr ((rf₁, m), done) ↦ ground (arith, apply_next-Keeps rf rf₁ m)
  ]
  local_changes times_out rf rf' h e = ground arith
  local_changes is_killed rf rf' h e = ground arith

  pub PeerOk-Keeps :
      {g : Ghost} {n i : ℕ} (rf rf' : Raft A) → Keeps rf rf' → PeerOk g n i rf → PeerOk g n i rf'
  PeerOk-Keeps {g} {i} rf rf' k ok = record {
    itself = k.me ∙ ok.itself;
    all = k.peers ∙ ok.all;
    vote = λ c e. subst (λ t. Supports g i t c) (sym k.term) (ok.vote c (sym k.vote ∙ e));
    free = λ e. ap (g.ballot i) k.term ∙ ok.free (sym k.vote ∙ e);
    future = λ t h. ok.future t (omega (arith, k.term));
    runs = λ e. ap (g.ballot i) k.term ∙ ok.runs (sym k.role ∙ e);
    leads = λ e. ap g.elected k.term ∙ ok.leads (sym k.role ∙ e);
  }

  pub PeerOk-StepsDown :
      {g : Ghost} {n i : ℕ} (rf rf' : Raft A)
      → StepsDown rf rf'
      → PeerOk g n i rf
      → PeerOk g n i rf'
  PeerOk-StepsDown rf rf' k ok = record {
    itself = k.me ∙ ok.itself;
    all = k.peers ∙ ok.all;
    vote = λ c e. absurd (ground (arith, k.vote));
    free = λ e. ok.future rf'.current_term k.term;
    future = λ t h. ok.future t (omega (arith, k.term));
    runs = λ e. absurd (ground (arith, k.role));
    leads = λ e. absurd (ground (arith, k.role));
  }

-- The peer's first vote of a term.
abbrev pub cast : Ghost → ℕ → ℕ → ℕ → Ghost
cast g i term c = record g {
  ballot = λ j t. if (i == j) && (t == term) then some c else g.ballot j t;
}

pub cast-Extends : (g : Ghost) (i term c : ℕ) → g.ballot i term ≡ none → Extends g (cast g i term c)
cast-Extends g i term c e = record {
  ballots = λ j t d h. ground (arith, h, e);
  elections = λ t d h. h;
}

pub cast_self : (g : Ghost) (i term c : ℕ) → (cast g i term c).ballot i term ≡ some c
cast_self g i term c = ground arith

pub cast_later :
    (g : Ghost) (i term c t : ℕ) → term < t → (cast g i term c).ballot i t ≡ g.ballot i t
cast_later g i term c t h = ground arith
