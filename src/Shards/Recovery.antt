-- ===== src/Shards/Recovery.antt =====
-- `Get` returns (src/shardkv/client.go, src/shardmaster/client.go).
use Prim.Native.String.{String}
use text.Mathlib.Text.{◌==◌ as str_eq}
use text.Mathlib.TextEquality.{eq_iff}
use mathlib.Core.List.{Memᴰ}
use mit_distribution.Base.{
  ℕ, suc, ◌≡◌, ◌≢◌, sym, ap, ◌∙◌, inl, inr, ℤ, minus_one, false, Option, none, some, List,
  get_elem?, if◌then◌else◌, arith, Option-cases, Bool-cases,
}
use mit_distribution.Shards.Master.{Config, MasterRpc, MasterClerk, QueryReply, query, retry}
use mit_distribution.Shards.Client.{
  key_to_shard, ok_err, err_no_key, err_wrong_group, GetReply, KvRpc, Clerk, done, returns, breaks,
  judge_get, try_gid, serve_key, get,
}
use mit_distribution.Shards.Loops.{try_servers-finds, try_servers-From, try_group-finds}
use mit_distribution.Shards.Answers.{shard_of, serve_key-done, asks_get}

-- One round of `Query` finds the leader.
query-finds :
    {E W : Type 0} (master : MasterRpc E W) (fuel : ℕ) (sm : MasterClerk E) (leader : E)
    (current : Config) (w : W)
    → ((srv : E) (w w' : W) (reply : QueryReply)
        → master.query srv (record { num = minus_one }) w ≡ (w', some reply)
        → reply.wrong_leader ≡ false
        → reply.config ≡ current)
    → Memᴰ leader sm.servers
    → ((w : W)
        → (w' : W) × (reply : QueryReply) × (master.query leader (record { num = minus_one }) w
            ≡ (w', some reply))
          × (reply.wrong_leader ≡ false))
    → (w' : W) × (config : Config) × (query master (suc fuel) sm minus_one w ≡ some (w', config))
      × (config ≡ current)
unfolding query retry
query-finds {E} {W} master fuel sm leader current w truthful known leads =
    let ask : E → W → W × Option QueryReply =
      λ srv. master.query srv (record { num = minus_one }) in
    let accept : QueryReply → Option Config =
      λ reply. if reply.wrong_leader then none else some reply.config in
    let (w', config, found) =
      try_servers-finds ask accept leader sm.servers w
        (λ w.
          (let (w', reply, heard, right) = leads w in
            (w', reply, reply.config, heard, ground (arith, right))))
        known in
    let f = try_servers-From ask accept sm.servers w w' config found in
    (
      w',
      config,
      ground (arith, found),
      elim (Bool-cases f.reply.wrong_leader) [
        | inl wrong ↦ absurd (ground (arith, wrong, f.taken))
        | inr right ↦
            (let same : f.reply.config ≡ config = ground (arith, right, f.taken) in
              sym same ∙ truthful f.server f.before w' f.reply f.heard right)
      ],
    )

judge_get-ok : (reply : GetReply) → reply.err ≡ ok_err → judge_get reply ≡ returns reply.value
unfolding judge_get
judge_get-ok reply e = let fine = (eq_iff reply.err ok_err).1 e in ground (arith, fine)

judge_get-breaks : (reply : GetReply) → judge_get reply ≡ breaks → reply.err ≡ err_wrong_group
unfolding judge_get
judge_get-breaks reply e = elim (Bool-cases (str_eq reply.err ok_err)) [
  | inl fine ↦ absurd (ground (arith, fine, e))
  | inr bad ↦ elim (Bool-cases (str_eq reply.err err_no_key)) [
    | inl missing ↦ absurd (ground (arith, bad, missing, e))
    | inr other ↦ elim (Bool-cases (str_eq reply.err err_wrong_group)) [
      | inl wrong ↦ (eq_iff reply.err err_wrong_group).0 wrong
      | inr odd ↦ absurd (ground (arith, bad, other, odd, e))
    ]
  ]
]

module _ {E W : Type 0} (make_end : String → E) (rpc : KvRpc E W) (master : MasterRpc E W) where
  -- A clerk with an old configuration recovers: two rounds of `Get` are enough, with one round of the shard
  -- masters' servers. This holds if one of the clerk's shard masters always answers as the leader, each
  -- answer of a leader is the same configuration, which has a group for the key's shard, one server of this group always answers
  -- without an error, and none of them answers that it is the wrong group.
  pub get-returns :
      (fuel rounds : ℕ) (key : String) (ck : Clerk E) (w : W) (current : Config) (gid : ℤ)
      (servers : List String) (leader : E) (good : String)
      → ((srv : E) (w w' : W) (reply : QueryReply)
          → master.query srv (record { num = minus_one }) w ≡ (w', some reply)
          → reply.wrong_leader ≡ false
          → reply.config ≡ current)
      → Memᴰ leader ck.sm.servers
      → ((w : W)
          → (w' : W) × (reply : QueryReply) × (master.query leader (record { num = minus_one }) w
              ≡ (w', some reply))
            × (reply.wrong_leader ≡ false))
      → get_elem? current.shards (key_to_shard key) ≡ some gid
      → current.groups gid ≡ some servers
      → Memᴰ good servers
      → ((w : W)
          → (w' : W) × (reply : GetReply) × (rpc.get (make_end good) (record { key = key }) w
              ≡ (w', some reply))
            × (reply.err ≡ ok_err))
      → ((server : String) (w w' : W) (reply : GetReply)
          → Memᴰ server servers
          → rpc.get (make_end server) (record { key = key }) w ≡ (w', some reply)
          → reply.err ≢ err_wrong_group)
      → (ck' : Clerk E) × (w' : W) × (value : String) × (get make_end rpc master
            (suc fuel)
            (suc (suc rounds))
            key
            ck
            w
          ≡ done ck' w' value)
  unfolding get serve_key
  get-returns fuel rounds key ck w current gid servers leader good truthful known leads at group
        there answers patient =
      let run =
        serve_key make_end (asks_get make_end rpc master key) judge_get rpc.sleep master (suc fuel)
          key in
      let (old_gid, old_at) =
        shard_of make_end (asks_get make_end rpc master key) judge_get rpc.sleep master fuel key
          ck.config in
      let tried =
        try_gid make_end (asks_get make_end rpc master key) judge_get (ck.config.groups old_gid)
          w in
      elim (Option-cases tried.1) [
        | inr (b, found) ↦
            (let ends : run (suc (suc rounds)) ck w ≡ done ck tried.0 b =
                ground (arith, old_at, found) in
              (ck, tried.0, b, ends))
        | inl nothing ↦
            (let (w₁, config, news, is) =
                query-finds master fuel ck.sm leader current (rpc.sleep tried.0) truthful known
                  leads in
              let ck' : Clerk E = record ck { config = config } in
              let ends : run (suc (suc rounds)) ck w ≡ run (suc rounds) ck' w₁ =
                ground (arith, old_at, nothing, news) in
              let (w₂, value, found) =
                try_group-finds make_end (asks_get make_end rpc master key) judge_get good servers
                  w₁
                  (λ w.
                    (let (w', reply, heard, fine) = answers w in
                      (w', reply, reply.value, heard, judge_get-ok reply fine)))
                  (λ server w w' reply m heard leaves.
                    patient server w w' reply m heard (judge_get-breaks reply leaves))
                  there in
              (
                ck',
                w₂,
                value,
                ends
                    ∙ serve_key-done make_end (asks_get make_end rpc master key) judge_get rpc.sleep
                        master (suc fuel) key rounds ck' w₁ w₂ value gid servers
                        (ap (λ (c : Config). get_elem? c.shards (key_to_shard key)) is ∙ at)
                        (ap (λ (c : Config). c.groups gid) is ∙ group) found,
              ))
      ]
