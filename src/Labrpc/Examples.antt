-- ===== src/Labrpc/Examples.antt =====
-- A small network, and the theorems about src/labrpc/labrpc.go at it.
use mit_distribution.Base.{
  ℕ, ◌<◌, ◌≤◌, ◌⊎◌, arith, ◌+◌, ◌%◌, ◌^◌, ◌≡◌, refl, true, none, some, List, [], ◌∷◌,
}
use mit_distribution.Base.Maps.{lookup}
use mit_distribution.Labrpc.Network.{
  ReqMsg, ReplyMsg, Network, make_network, connect, add_server, delete_server, enable, Draws,
  Outcome, failed, Wait, handled, still_waiting, process_req, is_server_dead,
}
use mit_distribution.Labrpc.Server.{Service, cut_last_dot}
use mit_distribution.Labrpc.Client.{Codec, World, call}
use mit_distribution.Labrpc.Requests.{LeadsTo, Replies, ok-LeadsTo}
use mit_distribution.Labrpc.Fates.{cut_off, waits_on, answered}
use mit_distribution.Labrpc.Calls.{joined, call-dispatch}

-- End 7 leads to the server 1, which is the object at address 4.
abbrev net : Network
unfolding make_network connect add_server enable
net = enable 7 true (add_server 1 4 (connect 7 1 (record make_network { ends = λ e. true })))

abbrev ask : ReqMsg (Unit {0})
ask = record { endname = 7; svc_meth = "Counter.Add"; args_type = tt; args = 5 ∷ [] }

abbrev draws : Draws
draws = record {
  drop_request = 500;
  drop_reply = 500;
  reorder = 700;
  reply_bound = 10;
  reply_delay = 20;
  no_server_delay = 30;
}

abbrev five : ReplyMsg
five = record { ok = true; reply = 5 ∷ [] }

abbrev waits : List Wait
unfolding net
waits = still_waiting net ∷ handled five ∷ []

net-LeadsTo : LeadsTo net 7 1 4
unfolding net
net-LeadsTo = record { is_enabled = refl; named = refl; found = refl }

sent : Outcome
sent = record { msg = five; delay = 0; sent_bytes = 1; delivered = true }

ok-LeadsTo_example :
    (name : ℕ) × (server : ℕ) × LeadsTo net 7 name server
    × (net.enabled 7 ≡ true)
    × (net.servers name ≡ some server)
    × Replies five waits
    × ((sent.delay ≡ 0) ⊎ ((net.long_reordering ≡ true) × (200 ≤ sent.delay) × (sent.delay < 2200)))
unfolding process_req net sent waits is_server_dead
ok-LeadsTo_example = ok-LeadsTo net ask draws waits net sent refl refl

-- The same network after the server is deleted.
abbrev gone_net : Network
unfolding net delete_server
gone_net = delete_server 1 net

answered_example :
    process_req net ask draws (still_waiting net ∷ still_waiting gone_net ∷ []) net
    ≡ some (failed 0 true)
unfolding net gone_net
answered_example =
    answered net ask draws (still_waiting net ∷ still_waiting gone_net ∷ []) net 1 4 (failed 0 true)
      refl refl net-LeadsTo
      (waits_on net (refl, refl) (cut_off gone_net (λ alive. absurd (ground (arith, alive)))))

-- A service that adds to a shared number, and replies with the sum.
abbrev add : ℕ → ℕ → ℕ × ℕ
add x total = (total + x, total + x)

abbrev counter : Service ℕ ℕ
counter = record { name = "Counter"; methods = ("Add", add) ∷ [] }

abbrev codec : Codec ℕ (Unit {0})
codec = record {
  type_of = λ v. tt;
  encode = λ v. v ∷ [];
  decode = λ t bs. elim bs [ [] ↦ 0 | b ∷ rest ↦ b ];
  decode_into = λ v bs. elim bs [ [] ↦ none | b ∷ rest ↦ some b ];
}

abbrev world : World ℕ ℕ
unfolding net
world = record {
  net = net;
  object = λ a. record { services = ("Counter", counter) ∷ []; count = 0 };
  state = 10;
}

call-dispatch_example :
    (w' : World ℕ ℕ) × (call codec 7 (joined "Counter" "Add") 5 0 draws world ≡ some (w', true, 15))
    × (w'.state ≡ 15)
    × ((w'.object 4).count ≡ 0 + 1)
    × (w'.net.count ≡ (0 + 1) % 2 ^ 32)
unfolding world net cut_last_dot lookup
call-dispatch_example =
    call-dispatch codec world 7 1 4 "Counter" "Add" counter add 5 0 draws refl refl refl net-LeadsTo
      refl refl refl refl refl
