-- ===== src/Labrpc/Network.antt =====
-- The tables of the network and the delivery of one request (src/labrpc/labrpc.go). Names of ends and of
-- servers are numbers, and so are the addresses of server objects: only their equality matters. A
-- map is a function; reading a missing key gives the zero value. Each method holds the lock, so
-- it is one function of the state.
use mit_distribution.Base.{
  ℕ, ◌+◌, ◌%◌, ◌^◌, ◌-◌, ◌*◌, ℤ, pos, negsuc, Bool, true, false, ◌&&◌, ◌||◌, not, Option, none,
  some, List, [], ◌∷◌, length, update, if◌then◌else◌, ltb, ◌==◌,
}
use Prim.Native.String.{String}

-- `type reqMsg struct`, without the channel of its reply; `args_type` is a Go type.
pub record ReqMsg (T : Type 0) : Type 0 where
  pub endname : ℕ
  pub svc_meth : String
  pub args_type : T
  pub args : List ℕ

-- `type replyMsg struct`
pub record ReplyMsg : Type 0 where
  pub ok : Bool
  pub reply : List ℕ

abbrev pub no_reply : ReplyMsg
no_reply = record { ok = false; reply = [] }

-- `type Network struct`. An end is known by its presence; `is_done` says whether `done` is closed. `count`
-- and `bytes` are the bit patterns of an `int32` and an `int64`.
pub record Network : Type 0 where
  pub reliable : Bool
  pub long_delays : Bool
  pub long_reordering : Bool
  pub ends : ℕ → Bool
  pub enabled : ℕ → Bool
  pub servers : ℕ → Option ℕ
  pub connections : ℕ → Option ℕ
  pub is_done : Bool
  pub count : ℕ
  pub bytes : ℕ

-- `MakeNetwork`, up to the start of its goroutine.
unfoldable pub make_network : Network
make_network = record {
  reliable = true;
  long_delays = false;
  long_reordering = false;
  ends = λ e. false;
  enabled = λ e. false;
  servers = λ s. none;
  connections = λ e. none;
  is_done = false;
  count = 0;
  bytes = 0;
}

-- The goroutine of `MakeNetwork` takes a request in; the counters wrap.
unfoldable pub take_request : {T : Type 0} → ReqMsg T → Network → Network
take_request req rn = record rn {
  count = (rn.count + 1) % 2 ^ 32;
  bytes = (rn.bytes + length req.args) % 2 ^ 64;
}

unfoldable pub cleanup : Network → Network
cleanup rn = record rn { is_done = true }

unfoldable pub set_reliable : Bool → Network → Network
set_reliable answer rn = record rn { reliable = answer }

unfoldable pub set_long_reordering : Bool → Network → Network
set_long_reordering answer rn = record rn { long_reordering = answer }

unfoldable pub set_long_delays : Bool → Network → Network
set_long_delays answer rn = record rn { long_delays = answer }

-- The results of `readEndnameInfo`.
pub record EndInfo : Type 0 where
  pub enabled : Bool
  pub servername : Option ℕ
  pub server : Option ℕ
  pub reliable : Bool
  pub long_reordering : Bool

unfoldable pub read_endname_info : Network → ℕ → EndInfo
read_endname_info rn endname = record {
  enabled = rn.enabled endname;
  servername = rn.connections endname;
  server = elim (rn.connections endname) [ none ↦ none | some name ↦ rn.servers name ];
  reliable = rn.reliable;
  long_reordering = rn.long_reordering;
}

-- `rn.servers[servername] != server`, for a server that is not nil.
abbrev pub other_server : Option ℕ → ℕ → Bool
other_server none server = true
other_server (some s) server = not (s == server)

unfoldable pub is_server_dead : Network → (endname servername server : ℕ) → Bool
is_server_dead rn endname servername server =
    not (rn.enabled endname) || other_server (rn.servers servername) server

-- `MakeEnd`: `none` where the name is taken, which ends the program.
unfoldable pub make_end : ℕ → Network → Option Network
make_end endname rn =
    if rn.ends endname
    then none
    else some (record rn {
      ends = update rn.ends endname true;
      enabled = update rn.enabled endname false;
      connections = update rn.connections endname none;
    })

unfoldable pub add_server : ℕ → ℕ → Network → Network
add_server servername rs rn = record rn { servers = update rn.servers servername (some rs) }

unfoldable pub delete_server : ℕ → Network → Network
delete_server servername rn = record rn { servers = update rn.servers servername none }

unfoldable pub connect : ℕ → ℕ → Network → Network
connect endname servername rn = record rn {
  connections = update rn.connections endname (some servername);
}

unfoldable pub enable : ℕ → Bool → Network → Network
enable endname answer rn = record rn { enabled = update rn.enabled endname answer }

-- The integer that a bit pattern of the given width stands for.
abbrev pub signed : ℕ → ℕ → ℤ
signed half x = if ltb x half then pos x else negsuc (2 * half - 1 - x)

unfoldable pub get_total_count : Network → ℤ
get_total_count rn = signed (2 ^ 31) rn.count

unfoldable pub get_total_bytes : Network → ℤ
get_total_bytes rn = signed (2 ^ 63) rn.bytes

-- One turn of the `select` in `processReq`: the handler has returned, or 100 ms have passed and the network
-- is seen as it is then.
pub data Wait : Type 0 where
  handled : ReplyMsg → Wait
  still_waiting : Network → Wait

-- How the wait ends: with the handler's reply, or because the server is found dead.
pub data Waited : Type 0 where
  got : ReplyMsg → Waited
  gave_up : Waited

-- The loop of `processReq` that waits for the handler; `none` while it goes on.
unfoldable pub wait_for : (endname servername server : ℕ) → List Wait → Option Waited
unfolding is_server_dead
wait_for endname servername server [] = none
wait_for endname servername server (handled r ∷ waits) = some (got r)
wait_for endname servername server (still_waiting rn ∷ waits) =
    let rest = wait_for endname servername server waits in
    if is_server_dead rn endname servername server then some gave_up else rest

-- The random numbers that `processReq` draws, in the order of the source.
pub record Draws : Type 0 where
  pub drop_request : ℕ
  pub drop_reply : ℕ
  pub reorder : ℕ
  pub reply_bound : ℕ
  pub reply_delay : ℕ
  pub no_server_delay : ℕ

-- What `processReq` sends on the request's channel, after how many milliseconds of its own (without the short
-- delay of an unreliable network), and how much it adds to `bytes`. The request reached the server exactly if `delivered`.
pub record Outcome : Type 0 where
  pub msg : ReplyMsg
  pub delay : ℕ
  pub sent_bytes : ℕ
  pub delivered : Bool

abbrev pub failed : ℕ → Bool → Outcome
failed ms was_delivered = record {
  msg = no_reply;
  delay = ms;
  sent_bytes = 0;
  delivered = was_delivered;
}

-- What happens to a reply: `now` is the network at the check when the wait has ended. A reordered reply leaves
-- `delay` milliseconds after that check, and no other check is made.
unfoldable pub finish_req :
    (endname servername server : ℕ) → EndInfo → Draws → Network → Waited → Outcome
unfolding is_server_dead
finish_req endname servername server info draws now gave_up = failed 0 true
finish_req endname servername server info draws now (got r) =
    if is_server_dead now endname servername server
    then failed 0 true
    else if not info.reliable && ltb (draws.drop_reply % 1000) 100
    then failed 0 true
    else if info.long_reordering && ltb (draws.reorder % 900) 600
    then record {
      msg = r;
      delay = 200 + draws.reply_delay % (1 + draws.reply_bound % 2000);
      sent_bytes = length r.reply;
      delivered = true;
    }
    else record { msg = r; delay = 0; sent_bytes = length r.reply; delivered = true }

-- The reply leaves the network.
unfoldable pub count_reply : Outcome → Network → Network
count_reply out rn = record rn { bytes = (rn.bytes + out.sent_bytes) % 2 ^ 64 }

-- The wait of a request to an end that is disabled or has no server.
abbrev pub timeout_ms : Bool → ℕ → ℕ
timeout_ms long_delays draw = if long_delays then draw % 7000 else draw % 100

-- The first part of `processReq`: the request is refused, or it is handed to a server.
pub data Admission : Type 0 where
  refused : Outcome → Admission
  admitted : (servername server : ℕ) → EndInfo → Admission

-- `later` is the network that is looked at for the delay, after the lock has been released.
unfoldable pub admit : {T : Type 0} → Network → ReqMsg T → Draws → Network → Admission
unfolding read_endname_info
admit rn req draws later =
    let info = read_endname_info rn req.endname in
    let no_server = refused (failed (timeout_ms later.long_delays draws.no_server_delay) false) in
    elim info.servername [
      | none ↦ no_server
      | some name ↦ elim info.server [
        | none ↦ no_server
        | some server ↦
            (if not info.enabled
              then no_server
              else if not info.reliable && ltb (draws.drop_request % 1000) 100
              then refused (failed 0 false)
              else admitted name server info)
      ]
    ]

-- `processReq`: `rn` is the network at its start, `waits` the turns of the wait, and `now` the network
-- at the check when the wait has ended. `none` while the wait goes on.
unfoldable pub process_req :
    {T : Type 0} → Network → ReqMsg T → Draws → List Wait → Network → Option Outcome
unfolding admit wait_for finish_req
process_req rn req draws waits now = elim (admit rn req draws now) [
  | refused out ↦ some out
  | admitted name server info ↦ elim (wait_for req.endname name server waits) [
    | none ↦ none
    | some w ↦ some (finish_req req.endname name server info draws now w)
  ]
]
