-- ===== src/Shards/Master.antt =====
-- The client of the shard master (src/shardmaster/client.go, src/shardmaster/common.go). The calls of
-- labrpc are parameters: a call changes the world, and gives a reply or none. A loop that ends only
-- when a server answers has fuel, the number of rounds.
use Prim.Native.String.{String}
use mit_distribution.Base.{
  ℕ, zero, suc, ◌≡◌, ℤ, Bool, Option, none, some, List, [], ◌∷◌, length, if◌then◌else◌,
}

abbrev pub n_shards : ℕ
n_shards = 10

-- `type Config struct`: the array has one group for each shard.
pub record Config : Type 0 where
  pub num : ℤ
  pub shards : List ℤ
  pub is_full : length shards ≡ n_shards
  pub groups : ℤ → Option (List String)

pub record JoinArgs : Type 0 where
  pub servers : ℤ → Option (List String)

pub record JoinReply : Type 0 where
  pub wrong_leader : Bool
  pub err : String

pub record LeaveArgs : Type 0 where
  pub gids : List ℤ

pub record LeaveReply : Type 0 where
  pub wrong_leader : Bool
  pub err : String

pub record MoveArgs : Type 0 where
  pub shard : ℤ
  pub gid : ℤ

pub record MoveReply : Type 0 where
  pub wrong_leader : Bool
  pub err : String

pub record QueryArgs : Type 0 where
  pub num : ℤ

pub record QueryReply : Type 0 where
  pub wrong_leader : Bool
  pub err : String
  pub config : Config

-- What the clerk calls on an end `E`, in a world `W`.
pub record MasterRpc (E W : Type 0) : Type 0 where
  pub query : E → QueryArgs → W → W × Option QueryReply
  pub join : E → JoinArgs → W → W × Option JoinReply
  pub leave : E → LeaveArgs → W → W × Option LeaveReply
  pub move : E → MoveArgs → W → W × Option MoveReply
  pub sleep : W → W

-- `type Clerk struct`
pub record MasterClerk (E : Type 0) : Type 0 where
  pub servers : List E

unfoldable pub make_master_clerk : {E : Type 0} → List E → MasterClerk E
make_master_clerk servers = record { servers = servers }

module _ {E W R B : Type 0} (call : E → W → W × Option R) (accept : R → Option B) where
  -- The inner loop of each operation: the servers in turn, until a reply is accepted.
  unfoldable pub try_servers : List E → W → W × Option B
  try_servers [] w = (w, none)
  try_servers (srv ∷ servers) w =
      let (w', answer) = call srv w in
      elim answer [
        | none ↦ try_servers servers w'
        | some reply ↦ elim (accept reply) [ none ↦ try_servers servers w' | some b ↦ (w', some b) ]
      ]

  -- The outer loop, with a sleep between two rounds.
  unfoldable pub retry : (W → W) → ℕ → List E → W → Option (W × B)
  unfolding try_servers
  retry sleep zero servers w = none
  retry sleep (suc rounds) servers w =
      let (w', found) = try_servers servers w in
      elim found [ some b ↦ some (w', b) | none ↦ retry sleep rounds servers (sleep w') ]

module _ {E W : Type 0} (rpc : MasterRpc E W) (rounds : ℕ) (ck : MasterClerk E) where
  unfoldable pub query : ℤ → W → Option (W × Config)
  unfolding retry
  query num =
      retry (λ srv. rpc.query srv (record { num = num }))
        (λ (reply : QueryReply). if reply.wrong_leader then none else some reply.config) rpc.sleep
        rounds ck.servers

  unfoldable pub join : (ℤ → Option (List String)) → W → Option (W × Unit {0})
  unfolding retry
  join servers =
      retry (λ srv. rpc.join srv (record { servers = servers }))
        (λ (reply : JoinReply). if reply.wrong_leader then none else some tt) rpc.sleep rounds
        ck.servers

  unfoldable pub leave : List ℤ → W → Option (W × Unit {0})
  unfolding retry
  leave gids =
      retry (λ srv. rpc.leave srv (record { gids = gids }))
        (λ (reply : LeaveReply). if reply.wrong_leader then none else some tt) rpc.sleep rounds
        ck.servers

  unfoldable pub move : (shard gid : ℤ) → W → Option (W × Unit {0})
  unfolding retry
  move shard gid =
      retry (λ srv. rpc.move srv (record { shard = shard; gid = gid }))
        (λ (reply : MoveReply). if reply.wrong_leader then none else some tt) rpc.sleep rounds
        ck.servers
