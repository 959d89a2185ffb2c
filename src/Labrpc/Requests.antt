-- ===== src/Labrpc/Requests.antt =====
-- What the network promises for one request (src/labrpc/labrpc.go).
use mit_distribution.Base.{
  ℕ, ◌+◌, ◌%◌, ◌<◌, ◌≤◌, ◌≡◌, sym, ap, ◌∙◌, refl, ◌⊎◌, inl, inr, true, false, some, List, [], ◌∷◌,
  arith, length, Option-cases, Bool-cases,
}
use native.Mathlib.Nat.{mod-lt}
use mit_distribution.Labrpc.Network.{
  ReqMsg, ReplyMsg, Network, EndInfo, read_endname_info, is_server_dead, Wait, handled,
  still_waiting, Waited, got, gave_up, wait_for, Draws, Outcome, finish_req, Admission, refused,
  admitted, admit, process_req,
}

-- The end is enabled and leads to this server object.
pub record LeadsTo (rn : Network) (endname name server : ℕ) : Type 0 where
  pub is_enabled : rn.enabled endname ≡ true
  pub named : rn.connections endname ≡ some name
  pub found : rn.servers name ≡ some server

-- The handler's reply is among the turns.
abbrev pub Replies : ReplyMsg → List Wait → Type 0
Replies r [] = ⊥
Replies r (handled r' ∷ waits) = (r ≡ r') ⊎ Replies r waits
Replies r (still_waiting rn ∷ waits) = Replies r waits

-- The handler returns this reply, and until then the network still leads to the server object.
abbrev pub RepliesFirst : (endname name server : ℕ) → ReplyMsg → List Wait → Type 0
RepliesFirst endname name server r [] = ⊥
RepliesFirst endname name server r (handled r' ∷ waits) = r' ≡ r
RepliesFirst endname name server r (still_waiting rn ∷ waits) =
    (is_server_dead rn endname name server ≡ false) × RepliesFirst endname name server r waits

-- The end is enabled and the object is registered under the server's name.
abbrev pub Alive : Network → (endname name server : ℕ) → Type 0
Alive rn endname name server = (rn.enabled endname ≡ true) × (rn.servers name ≡ some server)

pub is_server_dead-Alive :
    (rn : Network) (endname name server : ℕ)
    → is_server_dead rn endname name server ≡ false
    → Alive rn endname name server
unfolding is_server_dead
is_server_dead-Alive rn endname name server e = ground (arith, Option-cases (rn.servers name))

wait_for-Replies :
    (endname name server : ℕ) (waits : List Wait) (r : ReplyMsg)
    → wait_for endname name server waits ≡ some (got r)
    → Replies r waits
unfolding wait_for
wait_for-Replies endname name server [] r e = cc
wait_for-Replies endname name server (handled r' ∷ waits) r e = inl (ground arith)
wait_for-Replies endname name server (still_waiting rn ∷ waits) r e =
    wait_for-Replies endname name server waits r (ground arith)

pub admit_inv :
    {T : Type 0} (rn : Network) (req : ReqMsg T) (draws : Draws) (later : Network) (name server : ℕ)
    (info : EndInfo)
    → admit rn req draws later ≡ admitted name server info
    → LeadsTo rn req.endname name server × (info ≡ read_endname_info rn req.endname)
unfolding admit
admit_inv rn req draws later name server info e = elim (Option-cases (rn.connections req.endname)) [
  | inl free ↦ absurd (ground (arith, free))
  | inr (n, named) ↦ elim (Option-cases (rn.servers n)) [
    | inl gone ↦ absurd (ground (arith, named, gone))
    | inr (a, found) ↦ elim (Bool-cases (rn.enabled req.endname)) [
      | inl on ↦ (
        record {
          is_enabled = on;
          named = ground (arith, named, found);
          found = ground (arith, named, found);
        },
        ground (arith, named, found),
      )
      | inr off ↦ absurd (ground (arith, named, found, off))
    ]
  ]
]

finish_req_ok :
    (endname name server : ℕ) (info : EndInfo) (draws : Draws) (now : Network) (w : Waited)
    → (finish_req endname name server info draws now w).msg.ok ≡ true
    → (is_server_dead now endname name server ≡ false)
      × (w ≡ got (finish_req endname name server info draws now w).msg)
unfolding finish_req
finish_req_ok endname name server info draws now gave_up e = absurd (cc)
finish_req_ok endname name server info draws now (got r) e = ground arith

delay-bound : (d b : ℕ) → d % (1 + b % 2000) < 2000
delay-bound d b =
    let inner : b % 2000 < 2000 = mod-lt b (omega arith) in
    let outer : d % (1 + b % 2000) < 1 + b % 2000 = mod-lt d (omega arith) in
    omega (arith, inner, outer)

-- The delay of a reply that long reordering holds back.
finish_req_delay :
    (endname name server : ℕ) (info : EndInfo) (draws : Draws) (now : Network) (w : Waited)
    → let out = finish_req endname name server info draws now w in
      (out.delay ≡ 0) ⊎ ((info.long_reordering ≡ true) × (200 ≤ out.delay) × (out.delay < 2200))
unfolding finish_req
finish_req_delay endname name server info draws now gave_up = inl refl
finish_req_delay endname name server info draws now (got r) =
    ground (arith, delay-bound draws.reply_delay draws.reply_bound)

admit-refused :
    {T : Type 0} (rn : Network) (req : ReqMsg T) (draws : Draws) (later : Network) (out : Outcome)
    → admit rn req draws later ≡ refused out
    → out.msg.ok ≡ false
unfolding admit
admit-refused rn req draws later out e = ground (
  arith,
  Option-cases (rn.connections req.endname),
  Option-cases (read_endname_info rn req.endname).server,
)

Admission-cases :
    (a : Admission)
    → ((out : Outcome) × (a ≡ refused out))
      ⊎ ((name : ℕ) × (server : ℕ) × (info : EndInfo) × (a ≡ admitted name server info))
Admission-cases (refused out) = inl (out, refl)
Admission-cases (admitted name server info) = inr (name, server, info, refl)

Waited-cases : (w : Waited) → (w ≡ gave_up) ⊎ ((r : ReplyMsg) × (w ≡ got r))
Waited-cases gave_up = inl refl
Waited-cases (got r) = inr (r, refl)

wait_for_reply :
    (endname name server : ℕ) (r : ReplyMsg) (waits : List Wait)
    → RepliesFirst endname name server r waits
    → wait_for endname name server waits ≡ some (got r)
unfolding wait_for
wait_for_reply endname name server r [] e = absurd e
wait_for_reply endname name server r (handled r' ∷ waits) e = ground (arith, e)
wait_for_reply endname name server r (still_waiting rn ∷ waits) (alive, e) =
    ground (arith, alive, wait_for_reply endname name server r waits e)

pub admit-LeadsTo :
    {T : Type 0} (rn : Network) (req : ReqMsg T) (draws : Draws) (later : Network) (name server : ℕ)
    → rn.reliable ≡ true
    → LeadsTo rn req.endname name server
    → admit rn req draws later ≡ admitted name server (read_endname_info rn req.endname)
unfolding admit
admit-LeadsTo rn req draws later name server calm leads =
    ground (arith, calm, leads.is_enabled, leads.named, leads.found)

pub info_lem :
    (rn : Network) (endname : ℕ)
    → ((read_endname_info rn endname).reliable ≡ rn.reliable)
      × ((read_endname_info rn endname).long_reordering ≡ rn.long_reordering)
unfolding read_endname_info
info_lem rn endname = (refl, refl)

module _ {T : Type 0} (rn : Network) (req : ReqMsg T) (draws : Draws) (waits : List Wait)
    (now : Network) where
  -- A request gets a true reply only if its end is enabled and leads to a server object when the request is
  -- taken in, and at the check that is made when the wait for the handler has ended the end is enabled and the
  -- same object is registered under the server's name; the reply is one that the handler returned. It leaves
  -- at that check, or, with long reordering, 200 to 2199 ms after it, without another check.
  pub ok-LeadsTo :
      (out : Outcome)
      → process_req rn req draws waits now ≡ some out
      → out.msg.ok ≡ true
      → (name : ℕ) × (server : ℕ) × LeadsTo rn req.endname name server
        × (now.enabled req.endname ≡ true)
        × (now.servers name ≡ some server)
        × Replies out.msg waits
        × ((out.delay ≡ 0) ⊎ ((rn.long_reordering ≡ true) × (200 ≤ out.delay) × (out.delay < 2200)))
  unfolding process_req
  ok-LeadsTo out e yes_reply = elim (Admission-cases (admit rn req draws now)) [
    | inl (out', was) ↦ absurd (ground (arith, was, admit-refused rn req draws now out' was))
    | inr (name, server, info, was) ↦ elim (Option-cases (wait_for req.endname name server waits)) [
      | inl goes_on ↦ absurd (ground (arith, was, goes_on))
      | inr (w, ended) ↦
          (let same : out ≡ finish_req req.endname name server info draws now w =
              ground (arith, was, ended) in
            let (alive, reply) =
              finish_req_ok req.endname name server info draws now w (ground (arith, same)) in
            let (on, there) = is_server_dead-Alive now req.endname name server alive in
            let (leads, info_is) = admit_inv rn req draws now name server info was in
            let kept : info.long_reordering ≡ rn.long_reordering =
              ap (λ (x : EndInfo). x.long_reordering) info_is ∙ (info_lem rn req.endname).1 in
            let timed = finish_req_delay req.endname name server info draws now w in
            (
              name,
              server,
              leads,
              on,
              there,
              wait_for-Replies req.endname name server waits out.msg
                  (ground (arith, ended, reply, same)),
              elim timed [
                | inl none_added ↦ inl (ap (λ (o : Outcome). o.delay) same ∙ none_added)
                | inr (long, low, high) ↦ inr (
                  sym kept ∙ long,
                  omega (arith, low, ap (λ (o : Outcome). o.delay) same),
                  omega (arith, high, ap (λ (o : Outcome). o.delay) same),
                )
              ],
            ))
    ]
  ]

  -- A reliable network that does not reorder, and that leads to one server object from the start to the end,
  -- delivers a request and passes on the handler's reply, unchanged and without a delay of its own.
  pub delivers_reply :
      (name server : ℕ) (r : ReplyMsg)
      → rn.reliable ≡ true
      → rn.long_reordering ≡ false
      → LeadsTo rn req.endname name server
      → RepliesFirst req.endname name server r waits
      → is_server_dead now req.endname name server ≡ false
      → process_req rn req draws waits now
        ≡ some (record { msg = r; delay = 0; sent_bytes = length r.reply; delivered = true })
  unfolding process_req finish_req
  delivers_reply name server r calm ordered leads first alive =
      let info = read_endname_info rn req.endname in
      let was : admit rn req draws now ≡ admitted name server info =
        admit-LeadsTo rn req draws now name server calm leads in
      ground (
        arith,
        was,
        wait_for_reply req.endname name server r waits first,
        info_lem rn req.endname,
        calm,
        ordered,
        alive,
      )
