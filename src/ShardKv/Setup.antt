-- ===== src/ShardKv/Setup.antt =====
-- `make_config` of the sharded store's test configuration (src/shardkv/config.go).
use mit_distribution.Base.{ℕ, zero, suc, ◌+◌, Bool, true, not, Option, none, some, ℤ}
use mit_distribution.Labrpc.Network.{make_network, set_reliable}
use mit_distribution.Raft.Persister.{make_persister}
use mit_distribution.ShardKv.{
  Config, Group, with_group, start_each, start_master_server, shardclerk,
}

-- An empty group; `make_config` numbers groups from 100 on.
abbrev pub new_group : ℕ → Group
new_group gi = record {
  gid = 100 + gi;
  servers = λ i. none;
  saved = λ i. none;
  endnames = λ i. none;
  mendnames = λ i. none;
}

-- `make_config` before any server is started.
unfoldable pub empty_config : ℕ → ℤ → Config
unfolding make_network make_persister
empty_config n maxraftstate = record {
  net = make_network;
  nmasters = 3;
  masterservers = λ i. none;
  ngroups = 3;
  n = n;
  groups = λ gi. none;
  instances = λ a. record { persister = 0; is_killed = true };
  next_instance = 0;
  store = record { at = λ a. make_persister; next = 0 };
  clerks = λ ck. none;
  next_client_id = n + 1000;
  maxraftstate = maxraftstate;
}

-- The random names that `make_config` draws: for each master server, for its clerk, and for each server of
-- each group, among the group and for the masters.
pub record Names : Type 0 where
  pub masters : ℕ → ℕ → ℕ
  pub clerk : ℕ → ℕ
  pub group : ℕ → ℕ → ℕ → ℕ
  pub to_masters : ℕ → ℕ → ℕ → ℕ

module _ (mastername : ℕ → ℕ) (servername : ℕ → ℕ → ℕ) where
  unfoldable pub start_masters : ℕ → Names → Config → Option Config
  unfolding start_master_server
  start_masters zero names cfg = some cfg
  start_masters (suc i) names cfg = elim (start_masters i names cfg) [
    | none ↦ none
    | some cfg' ↦ start_master_server mastername servername i (names.masters i) cfg'
  ]

  -- The loop of `make_config` over the groups.
  unfoldable pub start_groups : ℕ → Names → Config → Option Config
  unfolding start_each
  start_groups zero names cfg = some cfg
  start_groups (suc gi) names cfg = elim (start_groups gi names cfg) [
    | none ↦ none
    | some cfg' ↦
        start_each mastername servername gi (names.group gi) (names.to_masters gi) cfg'.n
          (with_group gi (new_group gi) cfg')
  ]

  unfoldable pub make_config : ℕ → Bool → ℤ → Names → Option Config
  unfolding empty_config start_masters shardclerk start_groups set_reliable
  make_config n unreliable maxraftstate names =
      elim (start_masters 3 names (empty_config n maxraftstate)) [
        | none ↦ none
        | some cfg ↦ elim (shardclerk mastername servername names.clerk cfg) [
          | none ↦ none
          | some cfg' ↦ elim (start_groups 3 names cfg') [
            | none ↦ none
            | some cfg'' ↦ some (record cfg'' { net = set_reliable (not unreliable) cfg''.net })
          ]
        ]
      ]
