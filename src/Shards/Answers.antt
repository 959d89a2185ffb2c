-- ===== src/Shards/Answers.antt =====
-- `Get` and `PutAppend` (src/shardkv/client.go): what they return, and that they return.
use Prim.Native.String.{String}
use text.Mathlib.Text.{◌==◌ as str_eq}
use text.Mathlib.TextEquality.{eq_iff}
use mathlib.Core.List.{Memᴰ}
use mit_distribution.Base.{
  ℕ, zero, suc, ◌<◌, ◌≡◌, ◌≢◌, sym, subst, ◌⊎◌, inl, inr, ℤ, minus_one, Option, some, List,
  get_elem?, get_elem?_of_lt, arith, Option-cases, Bool-cases,
}
use mit_distribution.Shards.Master.{Config, MasterRpc, query}
use mit_distribution.Shards.Client.{
  key_to_shard, ok_err, err_no_key, err_wrong_group, GetReply, PutAppendReply, KvRpc, Clerk,
  Outcome, panics, running, done, Verdict, returns, judge_get, judge_put_append, try_gid, try_group,
  serve_key, get, put_append,
}
use mit_distribution.Shards.Loops.{key_to_shard-lt, From, Returns, try_group-From}

module _ {E W R B : Type 0} (make_end : String → E) (call : E → W → W × Option R)
    (judge : R → Verdict B) (sleep : W → W) (master : MasterRpc E W) (fuel : ℕ) (key : String) where
  -- What was returned is the answer of a server of the group that the clerk's configuration has for the
  -- shard of the key.
  pub record Served (config : Config) (after : W) (b : B) : Type 0 where
    pub gid : ℤ
    pub servers : List String
    pub assigned : get_elem? config.shards (key_to_shard key) ≡ some gid
    pub group : config.groups gid ≡ some servers
    pub answer :
        From (λ server. call (make_end server)) (Returns make_end call judge) servers after b

  Sound : Outcome E W B → Type 0
  Sound panics = ⊥
  Sound running = Unit
  Sound (done ck w b) = Served ck.config w b

  pub shard_of :
      (config : Config) → (gid : ℤ) × (get_elem? config.shards (key_to_shard key) ≡ some gid)
  shard_of config =
      get_elem?_of_lt config.shards (key_to_shard key)
        (subst (λ n. key_to_shard key < n) (sym config.is_full) (key_to_shard-lt key))

  try_gid-Served :
      (config : Config) (gid : ℤ) (w : W) (b : B)
      → get_elem? config.shards (key_to_shard key) ≡ some gid
      → (try_gid make_end call judge (config.groups gid) w).1 ≡ some b
      → Served config (try_gid make_end call judge (config.groups gid) w).0 b
  unfolding try_gid
  try_gid-Served config gid w b at e = elim (Option-cases (config.groups gid)) [
    | inl missing ↦ absurd (ground (arith, missing, e))
    | inr (servers, group) ↦
        (let found : try_group make_end call judge servers w
              ≡ ((try_gid make_end call judge (config.groups gid) w).0, some b) =
            ground (arith, group, e) in
          record {
            gid = gid;
            servers = servers;
            assigned = at;
            group = group;
            answer = try_group-From make_end call judge servers w _ b found;
          })
  ]

  serve_key-Sound :
      (rounds : ℕ) (ck : Clerk E) (w : W)
      → Sound (serve_key make_end call judge sleep master fuel key rounds ck w)
  unfolding Sound serve_key
  serve_key-Sound zero ck w = tt
  serve_key-Sound (suc rounds) ck w =
      let (gid, at) = shard_of ck.config in
      let tried = try_gid make_end call judge (ck.config.groups gid) w in
      let run = serve_key make_end call judge sleep master fuel key in
      elim (Option-cases tried.1) [
        | inr (b, found) ↦
            (let ends : run (suc rounds) ck w ≡ done ck tried.0 b = ground (arith, at, found) in
              subst Sound (sym ends) (try_gid-Served ck.config gid w b at found))
        | inl nothing ↦ elim (Option-cases (query master fuel ck.sm minus_one (sleep tried.0))) [
          | inl stuck ↦
              (let ends : run (suc rounds) ck w ≡ running = ground (arith, at, nothing, stuck) in
                subst Sound (sym ends) tt)
          | inr (told, news) ↦
              (let ends : run (suc rounds) ck w
                    ≡ run rounds (record ck { config = told.1 }) told.0 =
                  ground (arith, at, nothing, news) in
                subst Sound (sym ends)
                  (serve_key-Sound rounds (record ck { config = told.1 }) told.0))
        ]
      ]

  pub serve_key-done :
      (rounds : ℕ) (ck : Clerk E) (w w' : W) (b : B) (gid : ℤ) (servers : List String)
      → get_elem? ck.config.shards (key_to_shard key) ≡ some gid
      → ck.config.groups gid ≡ some servers
      → try_group make_end call judge servers w ≡ (w', some b)
      → serve_key make_end call judge sleep master fuel key (suc rounds) ck w ≡ done ck w' b
  unfolding serve_key try_gid
  serve_key-done rounds ck w w' b gid servers at group found = ground (arith, at, group, found)

  serve_key-Served :
      (rounds : ℕ) (ck ck' : Clerk E) (w w' : W) (b : B)
      → serve_key make_end call judge sleep master fuel key rounds ck w ≡ done ck' w' b
      → Served ck'.config w' b
  unfolding Sound
  serve_key-Served rounds ck ck' w w' b e = subst Sound e (serve_key-Sound rounds ck w)

  serve_key-ne-panics :
      (rounds : ℕ) (ck : Clerk E) (w : W)
      → serve_key make_end call judge sleep master fuel key rounds ck w ≢ panics
  unfolding Sound
  serve_key-ne-panics rounds ck w e = subst Sound e (serve_key-Sound rounds ck w)

judge_get-returns :
    (reply : GetReply) (value : String)
    → judge_get reply ≡ returns value
    → ((reply.err ≡ ok_err) ⊎ (reply.err ≡ err_no_key)) × (reply.value ≡ value)
unfolding judge_get
judge_get-returns reply value e = elim (Bool-cases (str_eq reply.err ok_err)) [
  | inl fine ↦ (inl ((eq_iff reply.err ok_err).0 fine), ground (arith, fine, e))
  | inr bad ↦ elim (Bool-cases (str_eq reply.err err_no_key)) [
    | inl missing ↦ (inr ((eq_iff reply.err err_no_key).0 missing), ground (arith, bad, missing, e))
    | inr other ↦ elim (Bool-cases (str_eq reply.err err_wrong_group)) [
      | inl wrong ↦ absurd (ground (arith, bad, other, wrong, e))
      | inr odd ↦ absurd (ground (arith, bad, other, odd, e))
    ]
  ]
]

module _ {E W : Type 0} (make_end : String → E) (rpc : KvRpc E W) (master : MasterRpc E W) where
  abbrev pub asks_get : String → E → W → W × Option GetReply
  asks_get key srv = rpc.get srv (record { key = key })

  abbrev asks_put_append : (key value op : String) → E → W → W × Option PutAppendReply
  asks_put_append key value op srv =
      rpc.put_append srv (record { key = key; value = value; op = op })

  -- Neither `Get` nor `PutAppend` reads outside the array of shards, whatever the key and however the servers and
  -- the shard masters answer.
  pub get-in_range :
      (fuel rounds : ℕ) (key value op : String) (ck : Clerk E) (w : W)
      → (get make_end rpc master fuel rounds key ck w ≢ panics)
        × (put_append make_end rpc master fuel rounds key value op ck w ≢ panics)
  unfolding get put_append
  get-in_range fuel rounds key value op ck w = (
    serve_key-ne-panics make_end (asks_get key) judge_get rpc.sleep master fuel key rounds ck w,
    serve_key-ne-panics make_end (asks_put_append key value op) judge_put_append rpc.sleep master
        fuel key rounds ck w,
  )

  -- The value that `Get` returns is that of a reply without an error, or with the error that there is no such key,
  -- by a server of the group to which the clerk's configuration then assigns the key's shard.
  pub get-Served :
      (fuel rounds : ℕ) (key : String) (ck ck' : Clerk E) (w w' : W) (value : String)
      → get make_end rpc master fuel rounds key ck w ≡ done ck' w' value
      → (gid : ℤ) × (servers : List String) × (server : String) × (before : W) × (reply : GetReply)
        × (get_elem? ck'.config.shards (key_to_shard key) ≡ some gid)
        × (ck'.config.groups gid ≡ some servers)
        × Memᴰ server servers
        × (rpc.get (make_end server) (record { key = key }) before ≡ (w', some reply))
        × ((reply.err ≡ ok_err) ⊎ (reply.err ≡ err_no_key))
        × (reply.value ≡ value)
  unfolding get judge_get
  get-Served fuel rounds key ck ck' w w' value e =
      let s =
        serve_key-Served make_end (asks_get key) judge_get rpc.sleep master fuel key rounds ck ck' w
          w' value e in
      let a = s.answer in
      let (fine, same) = judge_get-returns a.reply value a.taken in
      (
        s.gid, s.servers, a.server, a.before, a.reply, s.assigned, s.group, a.listed, a.heard, fine,
        same,
      )
