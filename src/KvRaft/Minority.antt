-- ===== src/KvRaft/Minority.antt =====
-- `make_partition` and then `partition` (src/kvraft/config.go): the leader is left with a minority.
use mit_distribution.Base.{
  ℕ, ◌+◌, ◌<◌, ◌≡◌, refl, ◌↔◌, ◌⊎◌, inl, inr, Bool, true, false, some, List, [], ◌∷◌, arith, ltb,
  Bool-cases, length,
}
use mit_distribution.Labrpc.Network.{Network, ReqMsg, Draws, admitted, admit, read_endname_info}
use mit_distribution.KvRaft.{Config, end_at, up_to, all, partition}
use mit_distribution.KvRaft.Leader.{leader_from, leader, make_partition}
use mit_distribution.KvRaft.Links.{mem, Below}
use mit_distribution.KvRaft.Partition.{Apart, Ready, is_listed, same_side, partition_lem}
use mit_distribution.KvRaft.Halves.{count, count-up_to, halves_lem}

mem-count : (x : ℕ) (xs : List ℕ) → mem x xs ≡ ltb 0 (count x xs)
mem-count x [] = ground arith
mem-count x (y ∷ xs) = ground (arith, mem-count x xs)

Below-mem : (n : ℕ) (xs : List ℕ) → ((x : ℕ) → mem x xs ≡ true → x < n) → Below n xs
Below-mem n [] h = tt
Below-mem n (x ∷ xs) h = (h x (ground arith), Below-mem n xs (λ y e. h y (ground (arith, e))))

pub mem-up_to : (x m : ℕ) → mem x (up_to m) ≡ ltb x m
mem-up_to x m = ground (arith, mem-count x (up_to m), count-up_to x m)

pub up_to-Below : (m : ℕ) → Below m (up_to m)
up_to-Below m = Below-mem m (up_to m) (λ x h. ground (arith, mem-up_to x m, h))

-- Every server has an instance.
abbrev pub Running : Config → Type 0
Running cfg = (i : ℕ) → i < cfg.n → (a : ℕ) × (cfg.kvservers i ≡ some a)

leader_from_lem :
    (leads : ℕ → Bool) (cfg : Config) (is : List ℕ)
    → Running cfg
    → Below cfg.n is
    → (b : Bool) × (l : ℕ) × (leader_from leads cfg is ≡ some (b, l)) × ((l < cfg.n) ⊎ (l ≡ 0))
unfolding leader_from
leader_from_lem leads cfg [] running below = (false, 0, refl, inr refl)
leader_from_lem leads cfg (i ∷ is) running (lt, below) =
    let (a, there) = running i lt in
    let (b, l, ran, range) = leader_from_lem leads cfg is running below in
    elim (Bool-cases (leads a)) [
      | inl on ↦ (true, i, ground (arith, there, on), inl lt)
      | inr off ↦ (b, l, ground (arith, there, off, ran), range)
    ]

leader_lem :
    (leads : ℕ → Bool) (cfg : Config)
    → 0 < cfg.n
    → Running cfg
    → (b : Bool) × (l : ℕ) × (leader leads cfg ≡ some (b, l)) × (l < cfg.n)
unfolding leader all
leader_lem leads cfg some_server running =
    let (b, l, ran, range) = leader_from_lem leads cfg (up_to cfg.n) running (up_to-Below cfg.n) in
    (b, l, ran, ground (arith, range, some_server))

-- With an odd number of servers, three at least, which are all running and have been started, `make_partition`
-- and `partition` do not panic. The first side is a majority, the server that `Leader` found is on the second
-- one, and a request from any server to another is then handed over exactly if they are on the same side, on a
-- reliable network on which the other's server is present.
pub leader_isolated :
    (k : ℕ) (leads : ℕ → Bool) (cfg : Config) {T : Type 0} (req : ReqMsg T) (draws : Draws)
    (later : Network) (i j server : ℕ)
    → 0 < k
    → cfg.n ≡ k + k + 1
    → Running cfg
    → Ready cfg
    → i < cfg.n
    → j < cfg.n
    → end_at cfg.n cfg.endnames i j ≡ some req.endname
    → cfg.net.reliable ≡ true
    → cfg.net.servers j ≡ some server
    → (b : Bool) × (l : ℕ) × (p1 : List ℕ) × (p2 : List ℕ) × (cfg' : Config) × (leader leads cfg
        ≡ some (b, l))
      × (make_partition leads cfg ≡ some (p1, p2))
      × (length p1 ≡ k + 1)
      × (length p2 ≡ k)
      × (mem l p2 ≡ true)
      × (partition p1 p2 cfg ≡ some cfg')
      × ((admit cfg'.net req draws later
            ≡ admitted j server (read_endname_info cfg'.net req.endname))
          ↔ (same_side p1 p2 i j ≡ true))
unfolding make_partition
leader_isolated k leads cfg req draws later i j server pos_k odd running ready lt_i lt_j there calm
      found =
    let (b, l, led, lt) = leader_lem leads cfg (omega (arith, odd)) running in
    let (p1, p2, made, s1, s2, seated, once) = halves_lem k l pos_k (omega (arith, odd, lt)) in
    let below1 : Below cfg.n p1 =
      Below-mem cfg.n p1 (λ x h. ground (arith, mem-count x p1, once x, h, odd)) in
    let below2 : Below cfg.n p2 =
      Below-mem cfg.n p2 (λ x h. ground (arith, mem-count x p2, once x, h, odd)) in
    let apart : Apart p1 p2 = λ x. ground (arith, mem-count x p1, mem-count x p2, once x) in
    let listed : (x : ℕ) → x < cfg.n → is_listed p1 p2 x ≡ true =
      λ x h. ground (arith, mem-count x p1, mem-count x p2, once x, h, odd) in
    let (cfg', ran, ready', reach) =
      partition_lem p1 p2 cfg req draws later i j server ready apart below1 below2
        (omega (arith, s1, odd)) (omega (arith, s2, odd)) (listed i lt_i) (listed j lt_j) there calm
        found in
    (b, l, p1, p2, cfg', led, ground (arith, led, made, odd), s1, s2, seated, ran, reach)
