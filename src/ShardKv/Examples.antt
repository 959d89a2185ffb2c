-- ===== src/ShardKv/Examples.antt =====
-- A group of three servers (src/shardkv/config.go).
use mit_distribution.Base.{
  update, update_other, sym, inl, ap, ◌∙◌, Bool-cases, ◌==◌, arith, ◌≢◌, ℕ, ◌+◌, ◌*◌, ◌<◌, ◌≡◌,
  refl, inr, true, false, Option, none, some, [], arith, pos,
}
use mit_distribution.Labrpc.Network.{
  ReqMsg, Draws, admitted, admit, make_network, make_end, connect, enable, add_server,
  delete_server,
}
use mit_distribution.Raft.Persister.{make_persister, copy, allocate}
use mit_distribution.ShardKv.{
  Config, Group, with_group, open_ends, disable_ends, install, retire, serve, start_server,
  start_each, shutdown_server,
}
use mit_distribution.ShardKv.Setup.{Names, new_group, empty_config, make_config}
use mit_distribution.ShardKv.Panics.{make_config_panics}
use mit_distribution.ShardKv.Shutdown.{shutdown_isolates}
use mit_distribution.ShardKv.Restart.{Allocated, restart_keeps}

abbrev mastername : ℕ → ℕ
mastername i = i

abbrev servername : ℕ → ℕ → ℕ
servername gid i = gid * 10 + i

abbrev some_names : Names
some_names = record {
  masters = λ i j. i * 3 + j;
  clerk = λ j. 9 + j;
  group = λ gi i j. 100 + gi * 50 + i * 5 + j;
  to_masters = λ gi i j. 300 + gi * 50 + i * 5 + j;
}

make_config_panics_example : make_config mastername servername 5 false (pos 100) some_names ≡ none
make_config_panics_example =
    make_config_panics mastername servername 5 false (pos 100) some_names (omega arith)

-- The servers of the first group have been started.
three_servers :
    (cfg : Config) × (start_each mastername servername 0
        (some_names.group 0)
        (some_names.to_masters 0)
        3
        (with_group 0 (new_group 0) (empty_config 3 (pos 100)))
      ≡ some cfg)
unfolding empty_config make_network make_persister start_each start_server open_ends make_end
    connect enable serve install allocate copy add_server
three_servers = (_, refl)

-- Server 1 is shut down.
one_down : (cfg : Config) × (shutdown_server mastername servername 0 1 three_servers.0 ≡ some cfg)
unfolding three_servers shutdown_server disable_ends enable delete_server retire copy allocate
one_down = (_, refl)

-- A group of one server, which is shut down and started again, with other names.
alone :
    (cfg : Config) × (start_server mastername servername 0 0
        (some_names.group 0 0)
        (some_names.to_masters 0 0)
        (with_group 0 (new_group 0) (empty_config 1 (pos 100)))
      ≡ some cfg)
unfolding empty_config make_network make_persister start_server open_ends make_end connect enable
    serve install allocate copy add_server
alone = (_, refl)

alone_down : (cfg : Config) × (shutdown_server mastername servername 0 0 alone.0 ≡ some cfg)
unfolding alone shutdown_server disable_ends enable delete_server retire copy allocate
alone_down = (_, refl)

-- No name is taken.
alone_back :
    (cfg : Config) × (start_server mastername servername 0 0
        (λ j. 500 + j)
        (λ j. 600 + j)
        alone_down.0
      ≡ some cfg)
unfolding alone_down alone start_server open_ends make_end connect enable
alone_back = (_, refl)

abbrev the_group : Option Group → Group
the_group none = new_group 0
the_group (some gg) = gg

-- Server 0 asks server 1.
abbrev asks_one : ReqMsg ℕ
asks_one = record { endname = 101; svc_meth = "ShardKV.Get"; args_type = 0; args = [] }

abbrev no_draws : Draws
no_draws = record {
  drop_request = 0;
  drop_reply = 0;
  reorder = 0;
  reply_bound = 0;
  reply_delay = 0;
  no_server_delay = 0;
}

shutdown_isolates_example : ¬ (
    admit one_down.0.net asks_one no_draws three_servers.0.net
    ≡ admitted 1001 1 (record {
      enabled = true;
      servername = some 1001;
      server = some 1;
      reliable = true;
      long_reordering = false;
    }))
unfolding three_servers
shutdown_isolates_example =
    shutdown_isolates mastername servername 0 1 three_servers.0 one_down.0
      (the_group (three_servers.0.groups 0)) asks_one no_draws three_servers.0.net 1001 1
      (record {
        enabled = true;
        servername = some 1001;
        server = some 1;
        reliable = true;
        long_reordering = false;
      })
      refl one_down.1 (inr (inr refl))

set_at_zero {ℓ} :
    {B : Type ℓ} (f : ℕ → Option B) (a b : B) (j : ℕ)
    → ((i : ℕ) → 0 ≢ i → f i ≡ none)
    → update f 0 (some a) j ≡ some b
    → a ≡ b
set_at_zero f a b j rest e = elim (Bool-cases (0 == j)) [
  | inl first ↦ ground (arith, e, first)
  | inr other ↦
      (let ne : 0 ≢ j = ground (arith, other) in absurd (ground (arith, e, other, rest j ne)))
]

alone_group : (g : ℕ) (x : Group) → alone.0.groups g ≡ some x → the_group (alone.0.groups 0) ≡ x
unfolding alone
alone_group g x known =
    set_at_zero (update (λ i. none) 0 (some (new_group 0))) (the_group (alone.0.groups 0)) x g
      (λ i ne. update_other (λ i'. none) 0 i (some (new_group 0)) ne) known

alone_saved : (k b : ℕ) → (the_group (alone.0.groups 0)).saved k ≡ some b → 0 ≡ b
unfolding alone
alone_saved k b e = set_at_zero (λ i. none) 0 b k (λ i ne. refl) e

alone_servers : (k b : ℕ) → (the_group (alone.0.groups 0)).servers k ≡ some b → 0 ≡ b
unfolding alone
alone_servers k b e = set_at_zero (λ i. none) 0 b k (λ i ne. refl) e

alone_next : (alone.0.store.next ≡ 1) × (alone.0.next_instance ≡ 1)
unfolding alone
alone_next = (refl, refl)

alone_masters : (k : ℕ) → alone.0.masterservers k ≡ none
unfolding alone
alone_masters k = refl

alone-Allocated : Allocated alone.0
alone-Allocated = record {
  saved = λ g k x b known has.
      (let held = ap (λ (t : Group). t.saved k) (alone_group g x known) ∙ has in
        omega (arith, alone_saved k b held, alone_next.0));
  runs = λ g k x b known has.
      (let held = ap (λ (t : Group). t.servers k) (alone_group g x known) ∙ has in
        omega (arith, alone_servers k b held, alone_next.1));
  masters = λ k b e. absurd (ground (arith, sym (alone_masters k) ∙ e));
}

restart_keeps_example :
    (gg₂ : Group) × (b : ℕ) × (s : ℕ) × (alone_back.0.groups 0 ≡ some gg₂)
    × (gg₂.saved 0 ≡ some b)
    × ((g k : ℕ) (x : Group)
        → alone.0.groups g ≡ some x
        → (x.saved k ≢ some b) × (x.servers k ≢ some s))
    × ((k : ℕ) → alone.0.masterservers k ≢ some s)
    × (b < alone_back.0.store.next)
    × (s < alone_back.0.next_instance)
    × ((old : ℕ)
        → (the_group (alone.0.groups 0)).servers 0 ≡ some old
        → (alone_back.0.instances old).is_killed ≡ true)
    × (alone_back.0.store.at b ≡ alone.0.store.at 0)
    × (gg₂.servers 0 ≡ some s)
    × (alone_back.0.instances s ≡ record { persister = b; is_killed = false })
    × (alone_back.0.net.servers 1000 ≡ some s)
    × (alone_back.0.net.enabled 500 ≡ true)
    × (alone_back.0.net.connections 500 ≡ some 1000)
unfolding alone
restart_keeps_example =
    restart_keeps mastername servername 0 0 (λ j. 500 + j) (λ j. 600 + j) alone.0 alone_down.0
      alone_back.0 (the_group (alone.0.groups 0)) 0 0 refl refl alone-Allocated alone_down.1
      alone_back.1 (omega arith)
