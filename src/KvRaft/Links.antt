-- ===== src/KvRaft/Links.antt =====
-- The loops that enable and disable ends (src/kvraft/config.go), and which links they set.
use mit_distribution.Base.{
  ℕ, suc, ◌+◌, ◌<◌, ◌≤◌, ◌≡◌, ◌≢◌, refl, ap, ◌∙◌, inl, inr, Bool, true, false, ◌&&◌, ◌||◌, not,
  Option, some, List, [], ◌∷◌, arith, if◌then◌else◌, ◌==◌, Bool-cases, Option-cases, length,
}
use mit_distribution.Labrpc.Network.{Network, enable}
use mit_distribution.KvRaft.{
  Config, end_at, enable_all, disable_incoming, disable_outgoing, connect_unlocked,
  disconnect_unlocked,
}

abbrev pub mem : ℕ → List ℕ → Bool
mem x [] = false
mem x (y ∷ ys) = (x == y) || mem x ys

abbrev pub Below : ℕ → List ℕ → Type 0
Below n [] = Unit
Below n (j ∷ js) = (j < n) × Below n js

-- What the loops leave as it is.
pub record SameTables (rn rn' : Network) : Type 0 where
  pub reliable : rn'.reliable ≡ rn.reliable
  pub servers : rn'.servers ≡ rn.servers
  pub connections : rn'.connections ≡ rn.connections

pub SameTables-trans : {a b c : Network} → SameTables a b → SameTables b c → SameTables a c
SameTables-trans s t = record {
  reliable = t.reliable ∙ s.reliable;
  servers = t.servers ∙ s.servers;
  connections = t.connections ∙ s.connections;
}

pub SameTables-refl : (rn : Network) → SameTables rn rn
SameTables-refl rn = record { reliable = refl; servers = refl; connections = refl }

-- Each server has been started, with ends of its own.
pub record Named (n : ℕ) (endnames : ℕ → Option (ℕ → ℕ)) : Type 0 where
  pub started : (i : ℕ) → i < n → (names : ℕ → ℕ) × (endnames i ≡ some names)
  pub apart :
      (i j i' j' x : ℕ)
      → end_at n endnames i j ≡ some x
      → end_at n endnames i' j' ≡ some x
      → (i ≡ i') × (j ≡ j')

-- The ends are enabled as the table of links says.
abbrev pub Lit : ℕ → (ℕ → Option (ℕ → ℕ)) → Network → (ℕ → ℕ → Bool) → Type 0
Lit n endnames rn e = (i j x : ℕ) → end_at n endnames i j ≡ some x → rn.enabled x ≡ e i j

-- The links that a loop over the servers sets, where `from` and `to` say whose end it sets and for whom.
abbrev touched : (from to : ℕ → ℕ) → List ℕ → ℕ → ℕ → Bool
touched from to [] p q = false
touched from to (j ∷ js) p q = ((p == from j) && (q == to j)) || touched from to js p q

abbrev set_links : (from to : ℕ → ℕ) → Bool → List ℕ → (ℕ → ℕ → Bool) → ℕ → ℕ → Bool
set_links from to answer js e p q = if touched from to js p q then answer else e p q

touched_row :
    (i : ℕ) (js : List ℕ) (p q : ℕ) → touched (λ j. i) (λ j. j) js p q ≡ ((p == i) && mem q js)
touched_row i [] p q = ground arith
touched_row i (j ∷ js) p q = ground (arith, touched_row i js p q)

touched_column :
    (i : ℕ) (js : List ℕ) (p q : ℕ) → touched (λ j. j) (λ j. i) js p q ≡ ((q == i) && mem p js)
touched_column i [] p q = ground arith
touched_column i (j ∷ js) p q = ground (arith, touched_column i js p q)

module _ {n : ℕ} {endnames : ℕ → Option (ℕ → ℕ)} (v : Named n endnames) where
  end_at_lem : (i j : ℕ) → i < n → j < n → (x : ℕ) × (end_at n endnames i j ≡ some x)
  unfolding end_at
  end_at_lem i j lt_i lt_j =
      let (names, there) = v.started i lt_i in (names j, ground (arith, there, lt_i, lt_j))

  enable-Lit :
      (i j x : ℕ) (answer : Bool) (rn : Network) (e : ℕ → ℕ → Bool)
      → end_at n endnames i j ≡ some x
      → Lit n endnames rn e
      → Lit n endnames (enable x answer rn) (λ p q. if (p == i) && (q == j) then answer else e p q)
  unfolding enable
  enable-Lit i j x answer rn e there lit p q y here = elim (Bool-cases ((p == i) && (q == j))) [
    | inl hit ↦ (let same : x ≡ y = ground (arith, hit, here, there) in ground (arith, hit, same))
    | inr miss ↦
        (let other : x ≢ y = λ same.
            (let k = v.apart i j p q y (there ∙ ap some same) here in ground (arith, miss, k)) in
          ground (arith, miss, other, lit p q y here))
  ]

  pub Lit-cong :
      (rn : Network) (e e' : ℕ → ℕ → Bool)
      → ((p q : ℕ) → e p q ≡ e' p q)
      → Lit n endnames rn e
      → Lit n endnames rn e'
  Lit-cong rn e e' same lit p q x there = lit p q x there ∙ same p q

  -- A loop that sets one end for each listed server.
  enable_all_lem :
      (from to : ℕ → ℕ) (answer : Bool) (js : List ℕ) (rn : Network) (e : ℕ → ℕ → Bool)
      → ((j : ℕ) → j < n → (from j < n) × (to j < n))
      → Below n js
      → Lit n endnames rn e
      → (rn' : Network) × (enable_all (λ j. end_at n endnames (from j) (to j)) answer js rn
          ≡ some rn')
        × SameTables rn rn'
        × Lit n endnames rn' (set_links from to answer js e)
  unfolding enable_all enable
  enable_all_lem from to answer [] rn e range below lit = (rn, refl, SameTables-refl rn, lit)
  enable_all_lem from to answer (j ∷ js) rn e range (lt, below) lit =
      let (lt_from, lt_to) = range j lt in
      let (x, there) = end_at_lem (from j) (to j) lt_from lt_to in
      let (rn', ran, same, lit') =
        enable_all_lem from to answer js (enable x answer rn) _ range below
          (enable-Lit (from j) (to j) x answer rn e there lit) in
      (
        rn',
        ground (arith, there, ran),
        SameTables-trans (record { reliable = refl; servers = refl; connections = refl }) same,
        Lit-cong rn' _ _ (λ p q. ground arith) lit',
      )

-- The links of a server to and from each listed one.
abbrev pub touches : ℕ → List ℕ → ℕ → ℕ → Bool
touches i js p q = ((p == i) && mem q js) || ((q == i) && mem p js)

abbrev pub joined : ℕ → List ℕ → (ℕ → ℕ → Bool) → ℕ → ℕ → Bool
joined i to e p q = touches i to p q || e p q

abbrev pub cut : ℕ → List ℕ → (ℕ → ℕ → Bool) → ℕ → ℕ → Bool
cut i from e p q = not (touches i from p q) && e p q

module _ (cfg : Config) (v : Named cfg.n cfg.endnames) where
  -- The loop of `disconnectUnlocked` over incoming ends is such a loop, where no server is without ends and the
  -- list is no longer than that of the servers.
  disable_incoming_lem :
      (i at : ℕ) (js : List ℕ) (rn : Network)
      → at + length js ≤ cfg.n
      → disable_incoming cfg i at js rn
        ≡ enable_all (λ j. end_at cfg.n cfg.endnames j i) false js rn
  unfolding disable_incoming enable_all
  disable_incoming_lem i at [] rn short = refl
  disable_incoming_lem i at (j ∷ js) rn short =
      let (names, there) = v.started at (omega (arith, short)) in
      elim (Option-cases (end_at cfg.n cfg.endnames j i)) [
        | inl out ↦ ground (arith, there, out, short)
        | inr (x, found) ↦ ground (
          arith,
          there,
          found,
          short,
          disable_incoming_lem i (suc at) js (enable x false rn) (omega (arith, short)),
        )
      ]

  both_loops_lem :
      (i : ℕ) (answer : Bool) (js : List ℕ) (e : ℕ → ℕ → Bool)
      → i < cfg.n
      → Below cfg.n js
      → Lit cfg.n cfg.endnames cfg.net e
      → (rn : Network) × (enable_all (λ j. end_at cfg.n cfg.endnames i j) answer js cfg.net
          ≡ some rn)
        × (rn' : Network) × (enable_all (λ j. end_at cfg.n cfg.endnames j i) answer js rn
            ≡ some rn')
        × SameTables cfg.net rn'
        × Lit cfg.n cfg.endnames rn' (λ p q. if touches i js p q then answer else e p q)
  both_loops_lem i answer js e lt below lit =
      let (rn, ran, same, lit₁) =
        enable_all_lem v (λ j. i) (λ j. j) answer js cfg.net e (λ j h. (lt, h)) below lit in
      let (rn', ran', same', lit₂) =
        enable_all_lem v (λ j. j) (λ j. i) answer js rn _ (λ j h. (h, lt)) below lit₁ in
      (
        rn,
        ran,
        rn',
        ran',
        SameTables-trans same same',
        Lit-cong v rn' _ _ (λ p q. ground (arith, touched_row i js p q, touched_column i js p q))
            lit₂,
      )

  pub connect_unlocked_lem :
      (i : ℕ) (to : List ℕ) (e : ℕ → ℕ → Bool)
      → i < cfg.n
      → Below cfg.n to
      → Lit cfg.n cfg.endnames cfg.net e
      → (rn : Network) × (connect_unlocked i to cfg ≡ some (record cfg { net = rn }))
        × SameTables cfg.net rn
        × Lit cfg.n cfg.endnames rn (joined i to e)
  unfolding connect_unlocked
  connect_unlocked_lem i to e lt below lit =
      let (rn, ran, rn', ran', same, lit') = both_loops_lem i true to e lt below lit in
      (rn', ground (arith, ran, ran'), same, Lit-cong v rn' _ _ (λ p q. ground arith) lit')

  disable_outgoing-enable_all :
      (i : ℕ) (from : List ℕ) (rn rn' : Network) (names : ℕ → ℕ)
      → i < cfg.n
      → cfg.endnames i ≡ some names
      → enable_all (λ j. end_at cfg.n cfg.endnames i j) false from rn ≡ some rn'
      → disable_outgoing cfg i from rn ≡ some rn'
  unfolding disable_outgoing enable_all
  disable_outgoing-enable_all i [] rn rn' names lt there ran = ran
  disable_outgoing-enable_all i (j ∷ from) rn rn' names lt there ran =
      ground (arith, lt, there) ∙ ran

  pub disconnect_unlocked_lem :
      (i : ℕ) (from : List ℕ) (e : ℕ → ℕ → Bool)
      → i < cfg.n
      → Below cfg.n from
      → length from ≤ cfg.n
      → Lit cfg.n cfg.endnames cfg.net e
      → (rn : Network) × (disconnect_unlocked i from cfg ≡ some (record cfg { net = rn }))
        × SameTables cfg.net rn
        × Lit cfg.n cfg.endnames rn (cut i from e)
  unfolding disconnect_unlocked
  disconnect_unlocked_lem i from e lt below short lit =
      let (rn, ran, rn', ran', same, lit') = both_loops_lem i false from e lt below lit in
      let (names, there) = v.started i lt in
      let incoming = disable_incoming_lem i 0 from rn (omega (arith, short)) in
      let outgoing = disable_outgoing-enable_all i from cfg.net rn names lt there ran in
      (
        rn',
        ground (arith, outgoing, incoming, ran'),
        same,
        Lit-cong v rn' _ _ (λ p q. ground arith) lit',
      )
