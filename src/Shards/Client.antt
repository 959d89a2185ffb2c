-- ===== src/Shards/Client.antt =====
-- The client of the sharded key/value service (src/shardkv/client.go, src/shardkv/common.go).
use Prim.Native.String.{String}
use Prim.Native.Char.{code}
use text.Mathlib.Text.{◌==◌ as str_eq}
use mit_distribution.Base.{
  ℕ, zero, suc, ◌+◌, ◌/◌, ◌%◌, ltb, pos, minus_one, replicate, refl, ◌||◌, Option, none, some, List,
  [], ◌∷◌, get_elem?, if◌then◌else◌,
}
use mit_distribution.Shards.Master.{
  n_shards, Config, MasterRpc, MasterClerk, make_master_clerk, query,
}

-- The first byte of a character in UTF-8.
abbrev pub first_byte : ℕ → ℕ
first_byte c =
    if ltb c 128
    then c
    else if ltb c 2048
    then 192 + c / 64
    else if ltb c 65536
    then 224 + c / 4096
    else 240 + c / 262144

-- `key2shard`
unfoldable pub key_to_shard : String → ℕ
key_to_shard String.[] = 0 % n_shards
key_to_shard (String.◌∷◌ c s) = first_byte (code c) % n_shards

abbrev pub ok_err : String
ok_err = "OK"

abbrev pub err_no_key : String
err_no_key = "ErrNoKey"

abbrev pub err_wrong_group : String
err_wrong_group = "ErrWrongGroup"

abbrev pub err_wrong_leader : String
err_wrong_leader = "ErrWrongLeader"

pub record PutAppendArgs : Type 0 where
  pub key : String
  pub value : String
  pub op : String

pub record PutAppendReply : Type 0 where
  pub err : String

pub record GetArgs : Type 0 where
  pub key : String

pub record GetReply : Type 0 where
  pub err : String
  pub value : String

-- What the clerk calls on an end `E`, in a world `W`.
pub record KvRpc (E W : Type 0) : Type 0 where
  pub get : E → GetArgs → W → W × Option GetReply
  pub put_append : E → PutAppendArgs → W → W × Option PutAppendReply
  pub sleep : W → W

-- `type Clerk struct`, without `make_end`, which the operations get.
pub record Clerk (E : Type 0) : Type 0 where
  pub sm : MasterClerk E
  pub config : Config

-- `var config Config`
unfoldable pub no_config : Config
no_config = record {
  num = pos 0;
  shards = replicate n_shards (pos 0);
  is_full = refl;
  groups = λ gid. none;
}

unfoldable pub make_clerk : {E : Type 0} → List E → Clerk E
unfolding make_master_clerk no_config
make_clerk masters = record { sm = make_master_clerk masters; config = no_config }

-- How an operation ends: it reads outside an array, its fuel is used up, or it returns.
pub data Outcome (E W B : Type 0) : Type 0 where
  panics : Outcome E W B
  running : Outcome E W B
  done : Clerk E → W → B → Outcome E W B

-- What the inner loop does with a reply: it returns from the operation, leaves the loop, or goes on.
pub data Verdict (B : Type 0) : Type 0 where
  returns : B → Verdict B
  breaks : Verdict B
  goes_on : Verdict B

unfoldable pub judge_get : GetReply → Verdict String
judge_get reply =
    if str_eq reply.err ok_err || str_eq reply.err err_no_key
    then returns reply.value
    else if str_eq reply.err err_wrong_group
    then breaks
    else goes_on

unfoldable pub judge_put_append : PutAppendReply → Verdict (Unit {0})
judge_put_append reply =
    if str_eq reply.err ok_err
    then returns tt
    else if str_eq reply.err err_wrong_group
    then breaks
    else goes_on

module _ {E W R B : Type 0} (make_end : String → E) (call : E → W → W × Option R)
    (judge : R → Verdict B) where
  -- The inner loop of `Get` and of `PutAppend`, over the servers of a group.
  unfoldable pub try_group : List String → W → W × Option B
  try_group [] w = (w, none)
  try_group (server ∷ servers) w =
      let (w', answer) = call (make_end server) w in
      elim answer [
        | none ↦ try_group servers w'
        | some reply ↦ elim (judge reply) [
          | returns b ↦ (w', some b)
          | breaks ↦ (w', none)
          | goes_on ↦ try_group servers w'
        ]
      ]

  -- A group that is not in the map has no servers.
  unfoldable pub try_gid : Option (List String) → W → W × Option B
  unfolding try_group
  try_gid none w = (w, none)
  try_gid (some servers) w = try_group servers w

  -- The outer loop of both, which asks the shard master between two rounds, itself with `fuel` rounds.
  unfoldable pub serve_key :
      (W → W) → MasterRpc E W → (fuel : ℕ) → String → ℕ → Clerk E → W → Outcome E W B
  unfolding key_to_shard try_gid query
  serve_key sleep master fuel key zero ck w = running
  serve_key sleep master fuel key (suc rounds) ck w =
      elim (get_elem? ck.config.shards (key_to_shard key)) [
        | none ↦ panics
        | some gid ↦
            (let (w', found) = try_gid (ck.config.groups gid) w in
              elim found [
                | some b ↦ done ck w' b
                | none ↦ elim (query master fuel ck.sm minus_one (sleep w')) [
                  | none ↦ running
                  | some (w'', config) ↦
                      serve_key sleep master fuel key rounds (record ck { config = config }) w''
                ]
              ])
      ]

module _ {E W : Type 0} (make_end : String → E) (rpc : KvRpc E W) (master : MasterRpc E W)
    (fuel rounds : ℕ) where
  unfoldable pub get : String → Clerk E → W → Outcome E W String
  unfolding serve_key judge_get
  get key =
      serve_key make_end (λ srv. rpc.get srv (record { key = key })) judge_get rpc.sleep master fuel
        key rounds

  unfoldable pub put_append : (key value op : String) → Clerk E → W → Outcome E W (Unit {0})
  unfolding serve_key judge_put_append
  put_append key value op =
      serve_key make_end (λ srv. rpc.put_append srv (record { key = key; value = value; op = op }))
        judge_put_append rpc.sleep master fuel key rounds

  unfoldable pub put : (key value : String) → Clerk E → W → Outcome E W (Unit {0})
  unfolding put_append
  put key value = put_append key value "Put"

  unfoldable pub append : (key value : String) → Clerk E → W → Outcome E W (Unit {0})
  unfolding put_append
  append key value = put_append key value "Append"
