-- ===== src/Shards/Loops.antt =====
-- The inner loops of the clients (src/shardmaster/client.go, src/shardkv/client.go).
use Prim.Native.String.{String}
use mathlib.Core.List.{Memᴰ}
use mathlib.Core.List.Memᴰ
use mit_distribution.Base.{
  ◌<◌, ◌≡◌, ◌≢◌, refl, ap₂, subst, ◌⊎◌, inl, inr, Option, some, List, [], ◌∷◌, arith, Option-cases,
}
use mit_distribution.Shards.Master.{n_shards, try_servers}
use mit_distribution.Shards.Client.{key_to_shard, Verdict, returns, breaks, goes_on, try_group}

pub key_to_shard-lt : (key : String) → key_to_shard key < n_shards
unfolding key_to_shard
key_to_shard-lt String.[] = omega arith
key_to_shard-lt (String.◌∷◌ c s) = omega arith

-- An inner loop comes to a server whose reply it accepts in any world, unless it has accepted another
-- reply before.
pub try_servers-finds :
    {E W R B : Type 0} (call : E → W → W × Option R) (accept : R → Option B) (leader : E)
    (servers : List E) (w : W)
    → ((w : W)
        → (w' : W) × (reply : R) × (b : B) × (call leader w ≡ (w', some reply))
          × (accept reply ≡ some b))
    → Memᴰ leader servers
    → (w' : W) × (b : B) × (try_servers call accept servers w ≡ (w', some b))
unfolding try_servers
try_servers-finds call accept leader [] w answers there = absurd (Memᴰ.not-nil there)
try_servers-finds {W = W} {B = B} call accept leader (srv ∷ servers) w answers there =
    elim (Memᴰ.cases_cons there) [
      | inl here ↦
          (let (w', reply, b, answered, accepted) = answers w in
            let same : call srv w ≡ (w', some reply) =
              subst (λ x. call x w ≡ (w', some reply)) here answered in
            (w', b, ground (arith, same, accepted)))
      | inr after ↦
          (let (w', b, found) =
              try_servers-finds call accept leader servers (call srv w).0 answers after in
            elim (Option-cases (call srv w).1) [
              | inl silent ↦ (w', b, ground (arith, silent, found))
              | inr (reply, heard) ↦ elim (Option-cases (accept reply)) [
                | inl refused ↦ (w', b, ground (arith, heard, refused, found))
                | inr (b', taken) ↦ ((call srv w).0, b', ground (arith, heard, taken))
              ]
            ])
    ]

-- A loop that ended in the world `after` with `b` took it from the reply of one of the servers.
pub record From {E W R B : Type 0} (call : E → W → W × Option R) (Takes : R → B → Type 0)
    (servers : List E) (after : W) (b : B) : Type 0 where
  pub server : E
  pub before : W
  pub reply : R
  pub listed : Memᴰ server servers
  pub heard : call server before ≡ (after, some reply)
  pub taken : Takes reply b

From-tail :
    {E W R B : Type 0} (call : E → W → W × Option R) (Takes : R → B → Type 0) (srv : E)
    (servers : List E) (after : W) (b : B)
    → From call Takes servers after b
    → From call Takes (srv ∷ servers) after b
From-tail call Takes srv servers after b f = record {
  server = f.server;
  before = f.before;
  reply = f.reply;
  listed = Memᴰ.tail f.listed;
  heard = f.heard;
  taken = f.taken;
}

-- The first server's reply.
From-head :
    {E W R B : Type 0} (call : E → W → W × Option R) (Takes : R → B → Type 0) (srv : E)
    (servers : List E) (w : W) (reply : R) (after : W) (b : B)
    → (call srv w).1 ≡ some reply
    → (call srv w).0 ≡ after
    → Takes reply b
    → From call Takes (srv ∷ servers) after b
From-head call Takes srv servers w reply after b answer moved takes = record {
  server = srv;
  before = w;
  reply = reply;
  listed = Memᴰ.head refl;
  heard = ap₂ (λ x y. (x, y)) moved answer;
  taken = takes;
}

pub try_servers-From :
    {E W R B : Type 0} (call : E → W → W × Option R) (accept : R → Option B) (servers : List E)
    (w w' : W) (b : B)
    → try_servers call accept servers w ≡ (w', some b)
    → From call (λ reply b. accept reply ≡ some b) servers w' b
unfolding try_servers
try_servers-From call accept [] w w' b e = absurd (ground (arith, e))
try_servers-From {W = W} {R = R} {B = B} call accept (srv ∷ servers) w w' b e =
    let Takes = λ (reply : R) (b : B). accept reply ≡ some b in
    let later = λ (e' : try_servers call accept servers (call srv w).0 ≡ (w', some b)).
      From-tail call Takes srv servers w' b
        (try_servers-From call accept servers (call srv w).0 w' b e') in
    elim (Option-cases (call srv w).1) [
      | inl silent ↦ later (ground (arith, silent, e))
      | inr (reply, heard) ↦ elim (Option-cases (accept reply)) [
        | inl refused ↦ later (ground (arith, heard, refused, e))
        | inr (b', taken) ↦
            From-head call Takes srv servers w reply w' b heard (ground (arith, heard, taken, e))
              (ground (arith, heard, taken, e))
      ]
    ]

Verdict-cases :
    {B : Type 0} (v : Verdict B) → ((b : B) × (v ≡ returns b)) ⊎ ((v ≡ breaks) ⊎ (v ≡ goes_on))
Verdict-cases (returns b) = inl (b, refl)
Verdict-cases breaks = inr (inl refl)
Verdict-cases goes_on = inr (inr refl)

module _ {E W R B : Type 0} (make_end : String → E) (call : E → W → W × Option R)
    (judge : R → Verdict B) where
  abbrev pub Returns : R → B → Type 0
  Returns reply b = judge reply ≡ returns b

  pub try_group-From :
      (servers : List String) (w w' : W) (b : B)
      → try_group make_end call judge servers w ≡ (w', some b)
      → From (λ server. call (make_end server)) Returns servers w' b
  unfolding try_group
  try_group-From [] w w' b e = absurd (ground (arith, e))
  try_group-From (server ∷ servers) w w' b e =
      let ask = λ (server : String). call (make_end server) in
      let later = λ (e' : try_group make_end call judge servers (ask server w).0 ≡ (w', some b)).
        From-tail ask Returns server servers w' b
          (try_group-From servers (ask server w).0 w' b e') in
      elim (Option-cases (ask server w).1) [
        | inl silent ↦ later (ground (arith, silent, e))
        | inr (reply, heard) ↦ elim (Verdict-cases (judge reply)) [
          | inl (b', taken) ↦
              From-head ask Returns server servers w reply w' b heard
                (ground (arith, heard, taken, e)) (ground (arith, heard, taken, e))
          | inr (inl left) ↦ absurd (ground (arith, heard, left, e))
          | inr (inr on) ↦ later (ground (arith, heard, on, e))
        ]
      ]

  -- A loop over a group comes to a server whose reply it returns with in any world, unless it has returned
  -- before; no server makes it leave.
  pub try_group-finds :
      (good : String) (servers : List String) (w : W)
      → ((w : W)
          → (w' : W) × (reply : R) × (b : B) × (call (make_end good) w ≡ (w', some reply))
            × (judge reply ≡ returns b))
      → ((server : String) (w w' : W) (reply : R)
          → Memᴰ server servers
          → call (make_end server) w ≡ (w', some reply)
          → judge reply ≢ breaks)
      → Memᴰ good servers
      → (w' : W) × (b : B) × (try_group make_end call judge servers w ≡ (w', some b))
  unfolding try_group
  try_group-finds good [] w answers patient there = absurd (Memᴰ.not-nil there)
  try_group-finds good (server ∷ servers) w answers patient there =
      let ask = λ (server : String). call (make_end server) in
      elim (Memᴰ.cases_cons there) [
        | inl here ↦
            (let (w', reply, b, answered, accepted) = answers w in
              let same : ask server w ≡ (w', some reply) =
                subst (λ x. ask x w ≡ (w', some reply)) here answered in
              (w', b, ground (arith, same, accepted)))
        | inr after ↦
            (let (w', b, found) =
                try_group-finds good servers (ask server w).0 answers
                  (λ s w w' r m. patient s w w' r (Memᴰ.tail m)) after in
              elim (Option-cases (ask server w).1) [
                | inl silent ↦ (w', b, ground (arith, silent, found))
                | inr (reply, heard) ↦ elim (Verdict-cases (judge reply)) [
                  | inl (b', taken) ↦ ((ask server w).0, b', ground (arith, heard, taken))
                  | inr (inl left) ↦ absurd (
                      patient server w (ask server w).0 reply (Memᴰ.head refl)
                        (ap₂ (λ x y. (x, y)) refl heard) left)
                  | inr (inr on) ↦ (w', b, ground (arith, heard, on, found))
                ]
              ])
      ]
