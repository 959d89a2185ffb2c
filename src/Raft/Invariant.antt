-- ===== src/Raft/Invariant.antt =====
-- The invariant of a peer over any sequence of events, and the events that cannot panic.
mod Handlers
pub use Handlers.{IsValid, make-IsValid}
use Handlers.{
  start_append-IsValid, request_vote_reply-IsValid, on_vote_reply-IsValid,
  request_append_entries_reply-IsValid, on_append_reply-IsValid, apply_next-IsValid,
}
use mit_distribution.Base.{
  ℕ, ◌+◌, ◌<◌, ◌≡◌, refl, inl, inr, Bool, true, false, Option, none, some, List, [], ◌∷◌, arith,
  Option-cases, length,
}
use mit_distribution.Raft.State.{Raft, start_election, kill, make}
use mit_distribution.Raft.Replicate.{apply_next}
use mit_distribution.Raft.Step.{Event, step, run}
use mit_distribution.Raft.Step.{
  starts, vote_asked, vote_answered, append_asked, append_answered, applies, times_out, is_killed,
}

-- Only a reply to entries makes a leader use an index that it chose itself.
abbrev pub is_append_answered : {A : Type 0} → Event A → Bool
is_append_answered (append_answered server args reply) = true
is_append_answered ev = false

module _ {A : Type 0} where
  -- Every event of a valid peer, but a reply to a request to append, has a step, and the step leaves a valid peer.
  step-total :
      (ev : Event A) (rf : Raft A)
      → is_append_answered ev ≡ false
      → IsValid rf
      → (rf' : Raft A) × (step ev rf ≡ some rf') × IsValid rf'
  unfolding step start_election kill
  step-total (starts command term) rf h v = (_, refl, start_append-IsValid command term rf v)
  step-total (vote_asked args) rf h v = (_, refl, request_vote_reply-IsValid args rf v)
  step-total (vote_answered args reply votes) rf h v =
      (_, refl, on_vote_reply-IsValid args reply rf votes v)
  step-total (append_asked args) rf h v = (_, refl, request_append_entries_reply-IsValid args rf v)
  step-total (append_answered server args reply) rf h v = absurd (cc)
  step-total applies rf h v =
      let (rf', m, done, v') = apply_next-IsValid rf v in rw (done, step) (rf', refl, v')
  step-total times_out rf h v = (_, refl, ground arith)
  step-total is_killed rf h v = (_, refl, ground arith)

  step-IsValid : (ev : Event A) (rf rf' : Raft A) → IsValid rf → step ev rf ≡ some rf' → IsValid rf'
  unfolding step
  step-IsValid (append_answered server args reply) rf rf' v e =
      on_append_reply-IsValid server args reply rf rf' v e
  step-IsValid ev rf rf' v e = let (mid, done, v') = step-total ev rf refl v in ground (arith, v')

  -- Whatever events a peer meets after it was made, its commit index points into its log and its two
  -- index arrays have a place for each peer.
  pub run-IsValid :
      (evs : List (Event A)) (rf rf' : Raft A) → IsValid rf → run evs rf ≡ some rf' → IsValid rf'
  unfolding run
  run-IsValid [] rf rf' v e = ground arith
  run-IsValid (ev ∷ evs) rf rf' v e = elim (Option-cases (step ev rf)) [
    | inl out ↦ ground arith
    | inr (mid, done) ↦ ground (arith, run-IsValid evs mid rf' (step-IsValid ev rf mid v done))
  ]
