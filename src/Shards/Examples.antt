-- ===== src/Shards/Examples.antt =====
-- A client of one group with two servers, of which the first does not answer (src/shardkv/client.go).
use Prim.Native.String.{String}
use text.Mathlib.Text.{◌==◌ as str_eq}
use text.Mathlib.TextEquality.{eq_iff}
use mathlib.Core.List.{Memᴰ}
use mit_distribution.Base.{
  ℕ, zero, suc, ◌+◌, ◌≡◌, ◌≢◌, refl, ◌∙◌, ◌⊎◌, ℤ, pos, eqb_ℤ, false, Option, none, some, List, [],
  ◌∷◌, get_elem?, replicate, if◌then◌else◌, arith,
}
use mit_distribution.Shards.Master.{
  n_shards, Config, MasterRpc, make_master_clerk, try_servers, retry, query,
}
use mit_distribution.Shards.Client.{
  key_to_shard, ok_err, err_no_key, err_wrong_group, GetArgs, GetReply, KvRpc, Clerk, panics, done,
  no_config, make_clerk, judge_get, try_group, try_gid, serve_key, get, put_append,
}
use mit_distribution.Shards.Answers.{get-in_range, get-Served}
use mit_distribution.Shards.Recovery.{get-returns}

abbrev make_end : String → ℕ
make_end server = if str_eq server "s1" then 1 else 0

-- The shard master gives all shards to the group 7.
abbrev one_group : Config
one_group = record {
  num = pos 1;
  shards = replicate n_shards (pos 7);
  is_full = refl;
  groups = λ gid. if eqb_ℤ gid (pos 7) then some ("s0" ∷ "s1" ∷ []) else none;
}

-- The world counts calls.
abbrev answer_get : ℕ → GetArgs → ℕ → ℕ × Option GetReply
answer_get zero args w = (w + 1, none)
answer_get (suc n) args w = (w + 1, some (record { err = ok_err; value = "v" }))

abbrev rpc : KvRpc ℕ ℕ
rpc = record { get = answer_get; put_append = λ srv args w. (w + 1, none); sleep = λ w. w }

abbrev master : MasterRpc ℕ ℕ
master = record {
  query = λ srv args w.
      (w + 1, some (record { wrong_leader = false; err = ok_err; config = one_group }));
  join = λ srv args w. (w + 1, none);
  leave = λ srv args w. (w + 1, none);
  move = λ srv args w. (w + 1, none);
  sleep = λ w. w;
}

get-in_range_example :
    (get make_end rpc master 1 2 "k" (make_clerk (0 ∷ [])) 0 ≢ panics)
    × (put_append make_end rpc master 1 2 "k" "v" "Put" (make_clerk (0 ∷ [])) 0 ≢ panics)
get-in_range_example = get-in_range make_end rpc master 1 2 "k" "v" "Put" (make_clerk (0 ∷ [])) 0

-- The first `Get` of a clerk asks the shard master, and then gets its answer from the second server.
first_get :
    (ck : Clerk ℕ) × (w : ℕ) × (value : String) × (get make_end rpc master 1 2 "k"
        (make_clerk (0 ∷ []))
        0
      ≡ done ck w value)
unfolding get serve_key make_clerk make_master_clerk no_config key_to_shard try_gid try_group query
    retry try_servers judge_get
first_get = (_, _, _, refl)

get-Served_example :
    (gid : ℤ) × (servers : List String) × (server : String) × (before : ℕ) × (reply : GetReply)
    × (get_elem? first_get.0.config.shards (key_to_shard "k") ≡ some gid)
    × (first_get.0.config.groups gid ≡ some servers)
    × Memᴰ server servers
    × (rpc.get (make_end server) (record { key = "k" }) before ≡ (first_get.1, some reply))
    × ((reply.err ≡ ok_err) ⊎ (reply.err ≡ err_no_key))
    × (reply.value ≡ first_get.2)
get-Served_example =
    get-Served make_end rpc master 1 2 "k" (make_clerk (0 ∷ [])) first_get.0 0 first_get.1
      first_get.2 first_get.3

answer_get-right :
    (srv : ℕ) (args : GetArgs) (w w' : ℕ) (reply : GetReply)
    → answer_get srv args w ≡ (w', some reply)
    → reply.err ≢ err_wrong_group
answer_get-right zero args w w' reply e wrong = absurd (ground (arith, e))
answer_get-right (suc n) args w w' reply e wrong =
    let same : ok_err ≡ reply.err = ground (arith, e) in
    absurd (ground (arith, (eq_iff ok_err err_wrong_group).1 (same ∙ wrong)))

get-returns_example :
    (ck' : Clerk ℕ) × (w' : ℕ) × (value : String) × (get make_end rpc master 1 2 "k"
        (make_clerk (0 ∷ []))
        0
      ≡ done ck' w' value)
unfolding key_to_shard make_clerk make_master_clerk
get-returns_example =
    get-returns make_end rpc master 0 0 "k" (make_clerk (0 ∷ [])) 0 one_group (pos 7)
      ("s0" ∷ "s1" ∷ []) 0 "s1" (λ srv w w' reply e leads. ground (arith, e)) (Memᴰ.head refl)
      (λ w. (w + 1, record { wrong_leader = false; err = ok_err; config = one_group }, refl, refl))
      refl refl (Memᴰ.tail (Memᴰ.head refl))
      (λ w. (w + 1, record { err = ok_err; value = "v" }, refl, refl))
      (λ server w w' reply m e.
        answer_get-right (make_end server) (record { key = "k" }) w w' reply e)
