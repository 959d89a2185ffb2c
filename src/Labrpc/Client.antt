-- ===== src/Labrpc/Client.antt =====
-- `ClientEnd.Call` (src/labrpc/labrpc.go), and a call during which nothing else happens on the network.
use Prim.Native.String.{String}
use mit_distribution.Base.{
  ℕ, Bool, true, false, Option, none, some, List, [], ◌∷◌, update, if◌then◌else◌,
}
use mit_distribution.Labrpc.Network.{
  ReqMsg, ReplyMsg, Network, take_request, Draws, Outcome, count_reply, handled, refused, admitted,
  admit, process_req,
}
use mit_distribution.Labrpc.Server.{Server, dispatch}

-- Go's values, their types and gob: `decode` gives what stands in a new variable of the type after decoding,
-- and `decode_into` what stands in a variable that is there.
pub record Codec (V T : Type 0) : Type 0 where
  pub type_of : V → T
  pub encode : V → List ℕ
  pub decode : T → List ℕ → V
  pub decode_into : V → List ℕ → Option V

-- The network, the server objects by address, and what the handlers share.
pub record World (V S : Type 0) : Type 0 where
  pub net : Network
  pub object : ℕ → Server V S
  pub state : S

module _ {V T : Type 0} (codec : Codec V T) where
  -- The request that `Call` sends.
  unfoldable pub make_req : ℕ → String → V → ReqMsg T
  make_req endname svc_meth args = record {
    endname = endname;
    svc_meth = svc_meth;
    args_type = codec.type_of args;
    args = codec.encode args;
  }

  -- What `Call` does with the reply: its result and the reply variable; `none` is a fatal error.
  unfoldable pub end_call : V → ReplyMsg → Option (Bool × V)
  end_call reply rep =
      if rep.ok
      then elim (codec.decode_into reply rep.reply) [ none ↦ none | some v ↦ some (true, v) ]
      else some (false, reply)

module _ {V S T : Type 0} (codec : Codec V T) where
  -- The network takes a request in; if it reaches a server, the handler runs and returns at once.
  unfoldable pub serve : ReqMsg T → Draws → World V S → Option (World V S × Outcome)
  unfolding admit dispatch process_req count_reply
  serve req draws w = elim (admit w.net req draws w.net) [
    | refused out ↦ some (record w { net = count_reply out w.net }, out)
    | admitted name server info ↦
        elim (dispatch codec.decode codec.encode req (w.object server) w.state) [
          | none ↦ none
          | some (rs, state', r) ↦ elim (process_req w.net req draws (handled r ∷ []) w.net) [
            | none ↦ none
            | some out ↦ some (
              record {
                net = count_reply out w.net;
                object = update w.object server rs;
                state = state';
              },
              out,
            )
          ]
        ]
  ]

  -- `Call`, where nothing else happens before it returns.
  unfoldable pub call : ℕ → String → V → V → Draws → World V S → Option (World V S × Bool × V)
  unfolding make_req end_call serve take_request
  call endname svc_meth args reply draws w =
      let req = make_req codec endname svc_meth args in
      if w.net.is_done
      then some (w, false, reply)
      else elim (serve req draws (record w { net = take_request req w.net })) [
        | none ↦ none
        | some (w', out) ↦ elim (end_call codec reply out.msg) [
          | none ↦ none
          | some (answer, v) ↦ some (w', answer, v)
        ]
      ]
