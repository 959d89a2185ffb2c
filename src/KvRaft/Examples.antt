-- ===== src/KvRaft/Examples.antt =====
-- A configuration of three key/value servers (src/kvraft/config.go).
use mit_distribution.Base.{
  ℕ, ◌+◌, ◌*◌, ◌≡◌, refl, sym, ap, subst, ◌∙◌, ◌↔◌, Bool, true, false, Option, none, some, List, [],
  ◌∷◌, arith, length, pos, ◌==◌,
}
use mit_distribution.Labrpc.Network.{
  ReqMsg, Draws, admitted, admit, read_endname_info, make_network, make_end, connect as connect_end,
  enable, add_server, set_reliable,
}
use mit_distribution.Labrpc.Requests.{LeadsTo}
use mit_distribution.Raft.Persister.{make_persister, copy, allocate}
use mit_distribution.Raft.Harness.{make_ends}
use mit_distribution.KvRaft.{
  Config, end_at, up_to, all, partition, make_config, empty_config, start_each, start_server, serve,
  connect_all, connect_each, connect_unlocked, enable_all,
}
use mit_distribution.KvRaft.Leader.{leader, make_partition, halves, deal, place, seat_leader}
use mit_distribution.KvRaft.Links.{mem}
use mit_distribution.KvRaft.Partition.{Ready, same_side, partition_lem}
use mit_distribution.KvRaft.Minority.{Running, leader_isolated}
use mit_distribution.KvRaft.Started.{Distinct}
use mit_distribution.KvRaft.Starts.{make_config_lem}

abbrev names3 : ℕ → ℕ → ℕ
names3 i j = i * 3 + j

names3-Distinct : Distinct 3 names3
names3-Distinct = record {
  same = λ i j i' j' lt_i lt_j lt_i' lt_j' e.
      (omega (arith, lt_j, lt_j', e), omega (arith, lt_j, lt_j', e));
}

-- The configuration that `make_config` returns, or an empty one.
abbrev made : Option Config → Config
unfolding empty_config make_network make_persister
made none = empty_config 0 (pos 0)
made (some cfg) = cfg

abbrev three : Config
unfolding made make_config empty_config make_network make_persister start_each up_to start_server
    make_ends make_end connect_end serve copy allocate add_server connect_all connect_each all
    connect_unlocked enable_all enable end_at set_reliable
three = made (make_config 3 false (pos 100) names3)

make_config_lem_example :
    (cfg : Config) × (make_config 3 false (pos 100) names3 ≡ some cfg)
    × (cfg.n ≡ 3)
    × (cfg.net.reliable ≡ true)
    × Running cfg
    × Ready cfg
    × (end_at cfg.n cfg.endnames 0 1 ≡ some 1)
    × (server : ℕ) × (cfg.kvservers 1 ≡ some server)
    × LeadsTo cfg.net 1 1 server
make_config_lem_example =
    make_config_lem 3 false (pos 100) names3 names3-Distinct 0 1 (omega arith) (omega arith)

three-made : make_config 3 false (pos 100) names3 ≡ some three
unfolding three
three-made = refl

made-some : (o : Option Config) (cfg : Config) → o ≡ some cfg → made o ≡ cfg
unfolding made
made-some o cfg e = ap made e

three-Ready : Ready three × Running three
three-Ready =
    let (cfg, ran, size, calm, running, ready, ends, server, runs, leads) =
      make_config_lem 3 false (pos 100) names3 names3-Distinct 0 1 (omega arith) (omega arith) in
    let same : cfg ≡ three =
      sym (made-some (make_config 3 false (pos 100) names3) cfg ran)
      ∙ made-some _ three three-made in
    (subst Ready same ready, subst Running same running)

-- Server 0 asks server 1.
abbrev asks_one : ReqMsg ℕ
asks_one = record { endname = 1; svc_meth = "KVServer.Get"; args_type = 0; args = [] }

abbrev no_draws : Draws
no_draws = record {
  drop_request = 0;
  drop_reply = 0;
  reorder = 0;
  reply_bound = 0;
  reply_delay = 0;
  no_server_delay = 0;
}

partition_lem_example :
    (cfg' : Config) × (partition (0 ∷ 1 ∷ []) (2 ∷ []) three ≡ some cfg')
    × Ready cfg'
    × ((admit cfg'.net asks_one no_draws three.net ≡ admitted 1 1 (read_endname_info cfg'.net 1))
        ↔ (same_side (0 ∷ 1 ∷ []) (2 ∷ []) 0 1 ≡ true))
unfolding three end_at
partition_lem_example =
    partition_lem (0 ∷ 1 ∷ []) (2 ∷ []) three asks_one no_draws three.net 0 1 1 three-Ready.0
      (λ x. ground arith) (omega arith, (omega arith, tt)) (omega arith, tt) (omega arith)
      (omega arith) refl refl refl refl refl

leader_isolated_example :
    (b : Bool) × (l : ℕ) × (p1 : List ℕ) × (p2 : List ℕ) × (cfg' : Config) × (leader
        (λ a. a == 2)
        three
      ≡ some (b, l))
    × (make_partition (λ a. a == 2) three ≡ some (p1, p2))
    × (length p1 ≡ 2)
    × (length p2 ≡ 1)
    × (mem l p2 ≡ true)
    × (partition p1 p2 three ≡ some cfg')
    × ((admit cfg'.net asks_one no_draws three.net ≡ admitted 1 1 (read_endname_info cfg'.net 1))
        ↔ (same_side p1 p2 0 1 ≡ true))
unfolding three end_at
leader_isolated_example =
    leader_isolated 1 (λ a. a == 2) three asks_one no_draws three.net 0 1 1 (omega arith) refl
      three-Ready.1 three-Ready.0 (omega arith) (omega arith) refl refl refl

-- The two sides for a leader among five servers.
five_servers : halves 5 1 ≡ some (0 ∷ 2 ∷ 3 ∷ [], 4 ∷ 1 ∷ [])
unfolding halves deal place seat_leader up_to
five_servers = refl

-- With an even number of servers the server 0 is on both sides.
four_servers : halves 4 3 ≡ some (0 ∷ 1 ∷ 2 ∷ [], 0 ∷ 3 ∷ [])
unfolding halves deal place seat_leader up_to
four_servers = refl
