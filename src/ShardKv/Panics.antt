-- ===== src/ShardKv/Panics.antt =====
-- `make_config` with more servers in a group than there are masters (src/shardkv/config.go).
use mit_distribution.Base.{
  ℕ, zero, suc, ◌<◌, ◌≤◌, ◌≡◌, refl, ap, ◌∙◌, Bool, none, some, ℤ, arith, Option-cases, inl, inr,
  subst,
}
use native.Mathlib.Decide.{dec_lt}
use mit_distribution.Labrpc.Network.{Network}
use mit_distribution.ShardKv.{
  Config, Group, with_group, open_ends, install, serve, start_server, start_each,
  start_master_server, shardclerk,
}
use mit_distribution.ShardKv.Setup.{
  Names, new_group, start_masters, start_groups, empty_config, make_config,
}

-- The number of masters and that of servers in a group are still those of another configuration.
pub record SameSizes (cfg cfg' : Config) : Type 0 where
  pub masters : cfg'.nmasters ≡ cfg.nmasters
  pub servers : cfg'.n ≡ cfg.n

SameSizes-refl : (cfg : Config) → SameSizes cfg cfg
SameSizes-refl cfg = record { masters = refl; servers = refl }

SameSizes-trans : {a b c : Config} → SameSizes a b → SameSizes b c → SameSizes a c
SameSizes-trans s t = record { masters = t.masters ∙ s.masters; servers = t.servers ∙ s.servers }

module _ (mastername : ℕ → ℕ) (servername : ℕ → ℕ → ℕ) where
  -- There is no place for the names of the server's ends to the masters.
  start_server-none :
      (gi i : ℕ) (names mnames : ℕ → ℕ) (cfg : Config)
      → cfg.nmasters ≤ i
      → start_server mastername servername gi i names mnames cfg ≡ none
  unfolding start_server
  start_server-none gi i names mnames cfg le = elim (Option-cases (cfg.groups gi)) [
    | inl out ↦ ground (arith, out)
    | inr (gg, there) ↦ elim (Option-cases (open_ends cfg.n names (servername gg.gid) cfg.net)) [
      | inl taken ↦ ground (arith, there, taken)
      | inr (rn, made) ↦ ground (arith, there, made, le)
    ]
  ]

  -- A server that has been started had its ends made, and room for the names of those to the masters.
  pub start_server_inv :
      (gi i : ℕ) (names mnames : ℕ → ℕ) (cfg cfg' : Config)
      → start_server mastername servername gi i names mnames cfg ≡ some cfg'
      → (gg : Group) × (rn : Network) × (rn' : Network) × (cfg.groups gi ≡ some gg)
        × (open_ends cfg.n names (servername gg.gid) cfg.net ≡ some rn)
        × (open_ends cfg.nmasters mnames mastername rn ≡ some rn')
        × (i < cfg.nmasters)
        × (cfg' ≡ serve mastername servername gi i gg names mnames (record cfg { net = rn' }))
  unfolding start_server
  start_server_inv gi i names mnames cfg cfg' e = elim (Option-cases (cfg.groups gi)) [
    | inl out ↦ absurd (ground (arith, out, e))
    | inr (gg, there) ↦ elim (Option-cases (open_ends cfg.n names (servername gg.gid) cfg.net)) [
      | inl taken ↦ absurd (ground (arith, there, taken, e))
      | inr (rn, made) ↦ elim (Option-cases (open_ends cfg.nmasters mnames mastername rn)) [
        | inl taken ↦ absurd (ground (arith, there, made, taken, e))
        | inr (rn', made') ↦ elim (dec_lt i cfg.nmasters) [
          | yes lt ↦
              (gg, rn, rn', there, made, made', lt, ground (arith, there, made, made', lt, e))
          | no far ↦ absurd (ground (arith, there, made, made', far, e))
        ]
      ]
    ]
  ]

  start_server-SameSizes :
      (gi i : ℕ) (names mnames : ℕ → ℕ) (cfg cfg' : Config)
      → start_server mastername servername gi i names mnames cfg ≡ some cfg'
      → SameSizes cfg cfg'
  unfolding serve install
  start_server-SameSizes gi i names mnames cfg cfg' e =
      let (gg, rn, rn', there, made, made', lt, is) =
        start_server_inv gi i names mnames cfg cfg' e in
      record { masters = ap (λ (c : Config). c.nmasters) is; servers = ap (λ (c : Config). c.n) is }

  start_each-SameSizes :
      (gi : ℕ) (names mnames : ℕ → ℕ → ℕ) (m : ℕ) (cfg cfg' : Config)
      → start_each mastername servername gi names mnames m cfg ≡ some cfg'
      → SameSizes cfg cfg'
  unfolding start_each
  start_each-SameSizes gi names mnames zero cfg cfg' e =
      subst (SameSizes cfg) (ground (arith, e)) (SameSizes-refl cfg)
  start_each-SameSizes gi names mnames (suc i) cfg cfg' e =
      elim (Option-cases (start_each mastername servername gi names mnames i cfg)) [
        | inl failed ↦ absurd (ground (arith, failed, e))
        | inr (cfg₁, ran) ↦
            SameSizes-trans (start_each-SameSizes gi names mnames i cfg cfg₁ ran)
              (start_server-SameSizes gi i (names i) (mnames i) cfg₁ cfg' (ground (arith, ran, e)))
      ]

  start_each-none :
      (gi : ℕ) (names mnames : ℕ → ℕ → ℕ) (m : ℕ) (cfg : Config)
      → cfg.nmasters < m
      → start_each mastername servername gi names mnames m cfg ≡ none
  unfolding start_each
  start_each-none gi names mnames zero cfg lt = absurd (omega (arith, lt))
  start_each-none gi names mnames (suc i) cfg lt =
      elim (Option-cases (start_each mastername servername gi names mnames i cfg)) [
        | inl failed ↦ ground (arith, failed)
        | inr (cfg₁, ran) ↦
            (let same = start_each-SameSizes gi names mnames i cfg cfg₁ ran in
              ground (
                arith,
                ran,
                start_server-none gi i (names i) (mnames i) cfg₁ (omega (arith, lt, same.masters)),
              ))
      ]

  start_masters-SameSizes :
      (m : ℕ) (names : Names) (cfg cfg' : Config)
      → start_masters mastername servername m names cfg ≡ some cfg'
      → SameSizes cfg cfg'
  unfolding start_masters start_master_server install
  start_masters-SameSizes zero names cfg cfg' e =
      subst (SameSizes cfg) (ground (arith, e)) (SameSizes-refl cfg)
  start_masters-SameSizes (suc i) names cfg cfg' e =
      elim (Option-cases (start_masters mastername servername i names cfg)) [
        | inl failed ↦ absurd (ground (arith, failed, e))
        | inr (cfg₁, ran) ↦
            elim (Option-cases (open_ends cfg₁.nmasters (names.masters i) mastername cfg₁.net)) [
              | inl taken ↦ absurd (ground (arith, ran, taken, e))
              | inr (rn, made) ↦
                  (let s = start_masters-SameSizes i names cfg cfg₁ ran in
                    let masters : cfg'.nmasters ≡ cfg₁.nmasters = ground (arith, ran, made, e) in
                    let servers : cfg'.n ≡ cfg₁.n = ground (arith, ran, made, e) in
                    record { masters = masters ∙ s.masters; servers = servers ∙ s.servers })
            ]
      ]

  shardclerk-SameSizes :
      (names : ℕ → ℕ) (cfg cfg' : Config)
      → shardclerk mastername servername names cfg ≡ some cfg'
      → SameSizes cfg cfg'
  unfolding shardclerk
  shardclerk-SameSizes names cfg cfg' e =
      elim (Option-cases (open_ends cfg.nmasters names mastername cfg.net)) [
        | inl taken ↦ absurd (ground (arith, taken, e))
        | inr (rn, made) ↦ record {
          masters = ground (arith, made, e);
          servers = ground (arith, made, e);
        }
      ]

  start_groups-none :
      (gi : ℕ) (names : Names) (cfg : Config)
      → cfg.nmasters < cfg.n
      → start_groups mastername servername (suc gi) names cfg ≡ none
  unfolding start_groups
  start_groups-none zero names cfg lt =
      start_each-none 0 (names.group 0) (names.to_masters 0) cfg.n (with_group 0 (new_group 0) cfg)
        lt
  start_groups-none (suc gi) names cfg lt = ground (arith, start_groups-none gi names cfg lt)

  -- With more than three servers in a group `make_config` always panics: the names of a server's ends to the
  -- masters are kept in a slice that has as many places as there are masters, at the server's index.
  pub make_config_panics :
      (n : ℕ) (unreliable : Bool) (maxraftstate : ℤ) (names : Names)
      → 3 < n
      → make_config mastername servername n unreliable maxraftstate names ≡ none
  unfolding make_config empty_config
  make_config_panics n unreliable maxraftstate names more =
      elim (Option-cases
        (start_masters mastername servername 3 names (empty_config n maxraftstate))) [
          | inl failed ↦ ground (arith, failed)
          | inr (cfg, ran) ↦
              elim (Option-cases (shardclerk mastername servername names.clerk cfg)) [
                | inl failed ↦ ground (arith, ran, failed)
                | inr (cfg', ran') ↦
                    (let s =
                        start_masters-SameSizes 3 names (empty_config n maxraftstate) cfg ran in
                      let t = shardclerk-SameSizes names.clerk cfg cfg' ran' in
                      ground (
                        arith,
                        ran,
                        ran',
                        start_groups-none 2 names cfg'
                            (omega (arith, more, s.masters, s.servers, t.masters, t.servers)),
                      ))
              ]
        ]
