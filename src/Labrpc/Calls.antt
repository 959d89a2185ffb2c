-- ===== src/Labrpc/Calls.antt =====
-- A call through the network, from the client's arguments to the handler and back
-- (src/labrpc/labrpc.go).
use Prim.Native.String.{String}
use Prim.Native.String
use Prim.Native.String.append
use mit_distribution.Base.{
  ℕ, ◌+◌, ◌%◌, ◌^◌, ◌≡◌, refl, ap, ◌∙◌, true, false, none, some, [], ◌∷◌, update, arith, length,
}
use mit_distribution.Base.Maps.{lookup}
use mit_distribution.Labrpc.Network.{
  ReqMsg, ReplyMsg, Network, take_request, Draws, Outcome, count_reply, handled, is_server_dead,
}
use mit_distribution.Labrpc.Server.{Service, Server, cut_last_dot, dispatch_service, dispatch}
use mit_distribution.Labrpc.Client.{Codec, World, make_req, end_call, serve, call}
use mit_distribution.Labrpc.Requests.{LeadsTo, delivers_reply, admit-LeadsTo}

-- The name "Service.Method" of a handler.
abbrev pub joined : String → String → String
joined service method = String.◌++◌ service (String.◌∷◌ "." method)

-- It is cut where it was joined, if the method's name has no dot.
cut_last_dot-joined :
    (service method : String)
    → cut_last_dot method ≡ none
    → cut_last_dot (joined service method) ≡ some (service, method)
unfolding cut_last_dot
cut_last_dot-joined String.[] method e =
    ap cut_last_dot (append.nil (String.◌∷◌ "." method)) ∙ ground (arith, e)
cut_last_dot-joined (String.◌∷◌ c service) method e =
    ap cut_last_dot (append.cons c service (String.◌∷◌ "." method))
    ∙ ground (arith, cut_last_dot-joined service method e)

is_server_dead-LeadsTo :
    (rn : Network) (endname name server : ℕ)
    → LeadsTo rn endname name server
    → is_server_dead rn endname name server ≡ false
unfolding is_server_dead
is_server_dead-LeadsTo rn endname name server leads = ground (arith, leads.is_enabled, leads.found)

LeadsTo-take_request :
    {T : Type 0} (rn : Network) (req : ReqMsg T) (endname name server : ℕ)
    → LeadsTo rn endname name server
    → LeadsTo (take_request req rn) endname name server
unfolding take_request
LeadsTo-take_request rn req endname name server leads = record {
  is_enabled = leads.is_enabled;
  named = leads.named;
  found = leads.found;
}

module _ {V S T : Type 0} (codec : Codec V T) where
  dispatch_lem :
      (req : ReqMsg T) (rs : Server V S) (world : S) (service method : String) (svc : Service V S)
      (handler : V → S → S × V)
      → cut_last_dot req.svc_meth ≡ some (service, method)
      → lookup service rs.services ≡ some svc
      → lookup method svc.methods ≡ some handler
      → let done = handler (codec.decode req.args_type req.args) world in
        dispatch codec.decode codec.encode req rs world
        ≡ some (
          record rs { count = rs.count + 1 },
          done.0,
          record { ok = true; reply = codec.encode done.1 },
        )
  unfolding dispatch
  dispatch_lem req rs world service method svc handler cut found_svc found_method =
      rw (cut, found_svc, found_method, dispatch, dispatch_service) refl

  serve_lem :
      (req : ReqMsg T) (draws : Draws) (w : World V S) (name server : ℕ) (rs : Server V S)
      (state' : S) (r : ReplyMsg)
      → w.net.reliable ≡ true
      → w.net.long_reordering ≡ false
      → LeadsTo w.net req.endname name server
      → dispatch codec.decode codec.encode req (w.object server) w.state ≡ some (rs, state', r)
      → let out : Outcome = record {
        msg = r;
        delay = 0;
        sent_bytes = length r.reply;
        delivered = true;
      } in
        serve codec req draws w
        ≡ some (
          record {
            net = count_reply out w.net;
            object = update w.object server rs;
            state = state';
          },
          out,
        )
  unfolding serve
  serve_lem req draws w name server rs state' r calm ordered leads ran =
      let was = admit-LeadsTo w.net req draws w.net name server calm leads in
      let passed =
        delivers_reply w.net req draws (handled r ∷ []) w.net name server r calm ordered leads refl
          (is_server_dead-LeadsTo w.net req.endname name server leads) in
      rw (was, ran, passed, serve) refl

  -- A call, on a reliable network that does not reorder and is not shut down, through an enabled end that
  -- leads to a server with the service and the method, returns true. The handler has run once, on the
  -- arguments of the call and the shared state; the reply variable holds what the handler replied; the
  -- server and the network have counted one request. This holds where the encoding gives back the
  -- arguments in a new variable, and the reply in the variable that the call was given.
  pub call-dispatch :
      (w : World V S) (endname name server : ℕ) (service method : String) (svc : Service V S)
      (handler : V → S → S × V) (args reply : V) (draws : Draws)
      → w.net.is_done ≡ false
      → w.net.reliable ≡ true
      → w.net.long_reordering ≡ false
      → LeadsTo w.net endname name server
      → cut_last_dot method ≡ none
      → lookup service (w.object server).services ≡ some svc
      → lookup method svc.methods ≡ some handler
      → codec.decode (codec.type_of args) (codec.encode args) ≡ args
      → codec.decode_into reply (codec.encode (handler args w.state).1)
        ≡ some (handler args w.state).1
      → (w' : World V S) × (call codec endname (joined service method) args reply draws w
          ≡ some (w', true, (handler args w.state).1))
        × (w'.state ≡ (handler args w.state).0)
        × ((w'.object server).count ≡ (w.object server).count + 1)
        × (w'.net.count ≡ (w.net.count + 1) % 2 ^ 32)
  unfolding call make_req take_request count_reply end_call
  call-dispatch w endname name server service method svc handler args reply draws open_net calm
        ordered leads plain found_svc found_method there back =
      let req : ReqMsg T = make_req codec endname (joined service method) args in
      let net : Network = take_request req w.net in
      let done : S × V = handler args w.state in
      let rs : Server V S = record (w.object server) { count = (w.object server).count + 1 } in
      let r : ReplyMsg = record { ok = true; reply = codec.encode done.1 } in
      let out : Outcome = record {
        msg = r;
        delay = 0;
        sent_bytes = length r.reply;
        delivered = true;
      } in
      let w' : World V S = record {
        net = count_reply out net;
        object = update w.object server rs;
        state = done.0;
      } in
      let ran : dispatch codec.decode codec.encode req (w.object server) w.state
          ≡ some (rs, done.0, r) =
        dispatch_lem req (w.object server) w.state service method svc handler
          (cut_last_dot-joined service method plain) found_svc found_method
        ∙ ap
            (λ v. some (
              rs,
              (handler v w.state).0,
              record { ok = true; reply = codec.encode (handler v w.state).1 },
            ))
            there in
      let served : serve codec req draws (record w { net = net }) ≡ some (w', out) =
        serve_lem req draws (record w { net = net }) name server rs done.0 r calm ordered
          (LeadsTo-take_request w.net req endname name server leads) ran in
      (w', ground (arith, open_net, served, back), refl, ground arith, refl)
