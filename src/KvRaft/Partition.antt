-- ===== src/KvRaft/Partition.antt =====
-- Who can reach whom after `partition` (src/kvraft/config.go) on the network (src/labrpc/labrpc.go).
use mit_distribution.Base.{
  ℕ, ◌≤◌, ◌≡◌, refl, sym, ap, ◌∙◌, ◌↔◌, Bool, true, false, ◌&&◌, ◌||◌, none, some, List, [], ◌∷◌,
  arith, if◌then◌else◌, ◌==◌, ==→eq, length,
}
use mit_distribution.Labrpc.Network.{Network, ReqMsg, Draws, admitted, admit, read_endname_info}
use mit_distribution.Labrpc.Requests.{admit-LeadsTo, admit_inv}
use mit_distribution.KvRaft.{Config, end_at, separate, partition}
use mit_distribution.KvRaft.Links.{
  mem, Below, SameTables, SameTables-trans, SameTables-refl, Named, Lit, Lit-cong, joined, cut,
  connect_unlocked_lem, disconnect_unlocked_lem,
}

-- No server is on both sides.
abbrev pub Apart : List ℕ → List ℕ → Type 0
Apart own other = (x : ℕ) → (mem x own && mem x other) ≡ false

-- The links when the servers of `is` have been separated: each of them is linked to its own side, and to no
-- server of the other side.
abbrev separated : (is own other : List ℕ) → (ℕ → ℕ → Bool) → ℕ → ℕ → Bool
separated is own other e p q =
    if (mem p is && mem q other) || (mem q is && mem p other)
    then false
    else ((mem p is && mem q own) || (mem q is && mem p own)) || e p q

separated-suc :
    (i : ℕ) (is own other : List ℕ) (e : ℕ → ℕ → Bool) (p q : ℕ)
    → Apart own other
    → ((x : ℕ) → mem x is ≡ true → mem x own ≡ true)
    → mem i own ≡ true
    → separated is own other (joined i own (cut i other e)) p q ≡ separated (i ∷ is) own other e p q
separated-suc i is own other e p q apart part mine =
    let here : (x : ℕ) → (x == i) ≡ true → mem x own ≡ true =
      λ x h. ap (λ y. mem y own) (==→eq x i h) ∙ mine in
    ground (arith, apart p, apart q, part p, part q, here p, here q)

abbrev pub AllIn : List ℕ → List ℕ → Type 0
AllIn is own = (x : ℕ) → mem x is ≡ true → mem x own ≡ true

separate_lem :
    (is own other : List ℕ) (cfg : Config) (v : Named cfg.n cfg.endnames) (e : ℕ → ℕ → Bool)
    → Apart own other
    → AllIn is own
    → Below cfg.n is
    → Below cfg.n own
    → Below cfg.n other
    → length other ≤ cfg.n
    → Lit cfg.n cfg.endnames cfg.net e
    → (rn : Network) × (separate is own other cfg ≡ some (record cfg { net = rn }))
      × SameTables cfg.net rn
      × Lit cfg.n cfg.endnames rn (separated is own other e)
unfolding separate
separate_lem [] own other cfg v e apart part b own_b other_b short lit =
    (cfg.net, refl, SameTables-refl cfg.net, Lit-cong v cfg.net _ _ (λ p q. ground arith) lit)
separate_lem (i ∷ is) own other cfg v e apart part (lt, b) own_b other_b short lit =
    let (rn, ran, same, lit₁) = disconnect_unlocked_lem cfg v i other e lt other_b short lit in
    let (rn₁, ran₁, same₁, lit₂) =
      connect_unlocked_lem (record cfg { net = rn }) v i own _ lt own_b lit₁ in
    let mine : mem i own ≡ true = part i (ground arith) in
    let part' : AllIn is own = λ x h. part x (ground (arith, h)) in
    let (rn₂, ran₂, same₂, lit₃) =
      separate_lem is own other (record cfg { net = rn₁ }) v _ apart part' b own_b other_b short
        lit₂ in
    (
      rn₂,
      ground (arith, ran, ran₁, ran₂),
      SameTables-trans same (SameTables-trans same₁ same₂),
      Lit-cong v rn₂ _ _ (λ p q. separated-suc i is own other e p q apart part' mine) lit₃,
    )

-- The links after `partition`.
abbrev pub parted : (p1 p2 : List ℕ) → (ℕ → ℕ → Bool) → ℕ → ℕ → Bool
parted p1 p2 e p q =
    if (mem p p1 && mem q p2) || (mem q p1 && mem p p2)
    then false
    else ((mem p p1 && mem q p1) || (mem p p2 && mem q p2)) || e p q

partition_links :
    (p1 p2 : List ℕ) (cfg : Config) (v : Named cfg.n cfg.endnames) (e : ℕ → ℕ → Bool)
    → Apart p1 p2
    → Below cfg.n p1
    → Below cfg.n p2
    → length p1 ≤ cfg.n
    → length p2 ≤ cfg.n
    → Lit cfg.n cfg.endnames cfg.net e
    → (rn : Network) × (partition p1 p2 cfg ≡ some (record cfg { net = rn }))
      × SameTables cfg.net rn
      × Lit cfg.n cfg.endnames rn (parted p1 p2 e)
unfolding partition
partition_links p1 p2 cfg v e apart b1 b2 short1 short2 lit =
    let (rn, ran, same, lit₁) =
      separate_lem p1 p1 p2 cfg v e apart (λ x h. h) b1 b1 b2 short2 lit in
    let apart' : Apart p2 p1 = λ x. ground (arith, apart x) in
    let (rn', ran', same', lit₂) =
      separate_lem p2 p2 p1 (record cfg { net = rn }) v _ apart' (λ x h. h) b2 b2 b1 short1 lit₁ in
    (
      rn',
      ground (arith, ran, ran'),
      SameTables-trans same same',
      Lit-cong v rn' _ _ (λ p q. ground (arith, apart p, apart q)) lit₂,
    )

-- All servers have been started, and the end that one has for another leads to it.
pub record Ready (cfg : Config) : Type 0 where
  pub named : Named cfg.n cfg.endnames
  pub leads : (i j x : ℕ) → end_at cfg.n cfg.endnames i j ≡ some x → cfg.net.connections x ≡ some j

abbrev linked : Config → ℕ → ℕ → Bool
linked cfg i j = elim (end_at cfg.n cfg.endnames i j) [ none ↦ false | some x ↦ cfg.net.enabled x ]

abbrev pub is_listed : (p1 p2 : List ℕ) → ℕ → Bool
is_listed p1 p2 i = mem i p1 || mem i p2

abbrev pub same_side : (p1 p2 : List ℕ) → ℕ → ℕ → Bool
same_side p1 p2 i j = (mem i p1 && mem j p1) || (mem i p2 && mem j p2)

-- `partition` with two lists of started servers that have none in common does not panic, and leaves the servers
-- ready. A request on the end that a listed server has for another is then handed to the other's server
-- object exactly if the two are on the same side. This is for a reliable network on which the other's
-- server is present.
pub partition_lem :
    (p1 p2 : List ℕ) (cfg : Config) {T : Type 0} (req : ReqMsg T) (draws : Draws) (later : Network)
    (i j server : ℕ)
    → Ready cfg
    → Apart p1 p2
    → Below cfg.n p1
    → Below cfg.n p2
    → length p1 ≤ cfg.n
    → length p2 ≤ cfg.n
    → is_listed p1 p2 i ≡ true
    → is_listed p1 p2 j ≡ true
    → end_at cfg.n cfg.endnames i j ≡ some req.endname
    → cfg.net.reliable ≡ true
    → cfg.net.servers j ≡ some server
    → (cfg' : Config) × (partition p1 p2 cfg ≡ some cfg')
      × Ready cfg'
      × ((admit cfg'.net req draws later
            ≡ admitted j server (read_endname_info cfg'.net req.endname))
          ↔ (same_side p1 p2 i j ≡ true))
partition_lem p1 p2 cfg req draws later i j server ready apart b1 b2 short1 short2 listed_i listed_j
      there calm found =
    let (rn, ran, same, lit) =
      partition_links p1 p2 cfg ready.named (linked cfg) apart b1 b2 short1 short2
        (λ p q x e. ground (arith, e)) in
    let on : rn.enabled req.endname ≡ same_side p1 p2 i j =
      ground (arith, lit i j req.endname there, listed_i, listed_j, apart i, apart j) in
    let named : rn.connections req.endname ≡ some j =
      ap (λ t. t req.endname) same.connections ∙ ready.leads i j req.endname there in
    (
      record cfg { net = rn },
      ran,
      record {
        named = ready.named;
        leads = λ p q x e. ap (λ t. t x) same.connections ∙ ready.leads p q x e;
      },
      (
        λ e.
            sym on
            ∙ (admit_inv rn req draws later j server (read_endname_info rn req.endname)
                e).0.is_enabled,
        λ e. admit-LeadsTo rn req draws later j server (same.reliable ∙ calm) (record {
          is_enabled = on ∙ e;
          named = named;
          found = ap (λ t. t j) same.servers ∙ found;
        }),
      ),
    )
