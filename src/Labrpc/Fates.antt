-- ===== src/Labrpc/Fates.antt =====
-- What becomes of a request that a reliable network without reordering has taken in (src/labrpc/labrpc.go,
-- `processReq` and `isServerDead`).
use mit_distribution.Base.{
  ℕ, ◌≡◌, ◌∙◌, refl, inl, inr, true, false, some, List, ◌∷◌, arith, length, Bool-cases,
}
use mit_distribution.Labrpc.Network.{
  ReqMsg, ReplyMsg, Network, EndInfo, read_endname_info, is_server_dead, Wait, handled,
  still_waiting, Waited, got, gave_up, wait_for, Draws, Outcome, failed, finish_req, admitted,
  admit, process_req,
}
use mit_distribution.Labrpc.Requests.{LeadsTo, Alive, is_server_dead-Alive, admit-LeadsTo, info_lem}

-- The fates of such a request: the turns of the wait, the network at the check when the wait has ended, and the
-- outcome.
pub data Fate (endname name server : ℕ) : List Wait → Network → Outcome → Type 0 where
  replied :
      {waits : List Wait} {now : Network} (r : ReplyMsg)
      → Alive now endname name server
      → Fate endname name server
          (handled r ∷ waits)
          now
          (record { msg = r; delay = 0; sent_bytes = length r.reply; delivered = true })
  lost :
      {waits : List Wait} {now : Network} (r : ReplyMsg)
      → ¬ Alive now endname name server
      → Fate endname name server (handled r ∷ waits) now (failed 0 true)
  cut_off :
      {waits : List Wait} {now : Network} (turn : Network)
      → ¬ Alive turn endname name server
      → Fate endname name server (still_waiting turn ∷ waits) now (failed 0 true)
  waits_on :
      {waits : List Wait} {now : Network} {out : Outcome} (turn : Network)
      → Alive turn endname name server
      → Fate endname name server waits now out
      → Fate endname name server (still_waiting turn ∷ waits) now out

not_dead :
    (rn : Network) (endname name server : ℕ)
    → Alive rn endname name server
    → is_server_dead rn endname name server ≡ false
unfolding is_server_dead
not_dead rn endname name server (on, there) = ground (arith, on, there)

dead :
    (rn : Network) (endname name server : ℕ)
    → ¬ Alive rn endname name server
    → is_server_dead rn endname name server ≡ true
dead rn endname name server gone = elim (Bool-cases (is_server_dead rn endname name server)) [
  | inl e ↦ e
  | inr e ↦ absurd (gone (is_server_dead-Alive rn endname name server e))
]

-- The wait and what follows it, where nothing is dropped and nothing reordered.
Fate-finish :
    (endname name server : ℕ) (info : EndInfo) (draws : Draws) (waits : List Wait) (now : Network)
    (out : Outcome)
    → info.reliable ≡ true
    → info.long_reordering ≡ false
    → Fate endname name server waits now out
    → (w : Waited) × (wait_for endname name server waits ≡ some w)
      × (finish_req endname name server info draws now w ≡ out)
unfolding wait_for finish_req
Fate-finish endname name server info draws waits now out calm ordered (replied r alive) =
    (got r, refl, ground (arith, calm, ordered, not_dead now endname name server alive))
Fate-finish endname name server info draws waits now out calm ordered (lost r gone) =
    (got r, refl, ground (arith, dead now endname name server gone))
Fate-finish endname name server info draws waits now out calm ordered (cut_off turn gone) =
    (gave_up, ground (arith, dead turn endname name server gone), refl)
Fate-finish endname name server info draws (still_waiting turn ∷ waits) now out calm ordered
      (waits_on turn' alive fate) =
    let (w, ended, is) =
      Fate-finish endname name server info draws waits now out calm ordered fate in
    (w, ground (arith, not_dead turn endname name server alive, ended), is)

module _ {T : Type 0} (rn : Network) (req : ReqMsg T) (draws : Draws) (waits : List Wait)
    (now : Network) where
  -- What becomes of a request to an end that leads to a server object, on a reliable network without reordering,
  -- is what the turns of the wait say: the handler's reply comes back, unchanged and without a delay, if the
  -- end is enabled and the object is registered under its name in each turn before the handler
  -- returns and at the check after it; and if that fails in one of these turns or at the check, the request has
  -- reached the server and gets a false reply.
  pub answered :
      (name server : ℕ) (out : Outcome)
      → rn.reliable ≡ true
      → rn.long_reordering ≡ false
      → LeadsTo rn req.endname name server
      → Fate req.endname name server waits now out
      → process_req rn req draws waits now ≡ some out
  unfolding process_req
  answered name server out calm ordered leads fate =
      let info = read_endname_info rn req.endname in
      let (calm', ordered') = info_lem rn req.endname in
      let (w, ended, is) =
        Fate-finish req.endname name server info draws waits now out (calm' ∙ calm)
          (ordered' ∙ ordered) fate in
      let was : admit rn req draws now ≡ admitted name server info =
        admit-LeadsTo rn req draws now name server calm leads in
      ground (arith, was, ended, is)
