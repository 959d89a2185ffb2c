-- ===== src/ShardKv/Shutdown.antt =====
-- A server that has been shut down (src/shardkv/config.go) on the network (src/labrpc/labrpc.go).
use mit_distribution.Base.{
  ℕ, zero, suc, ◌<◌, ◌≡◌, refl, sym, ap, ◌∙◌, ◌⊎◌, inl, inr, true, false, Option, none, some, arith,
  Option-cases,
}
use native.Mathlib.Decide.{ℕ_discrete, dec_lt}
use mit_distribution.Labrpc.Network.{
  Network, ReqMsg, Draws, EndInfo, admitted, admit, enable, delete_server,
}
use mit_distribution.Labrpc.Requests.{admit_inv}
use mit_distribution.ShardKv.{Config, Group, disable_ends, retire, shutdown_server}

disable_ends_stays :
    (m : ℕ) (names : ℕ → ℕ) (rn : Network) (x : ℕ)
    → rn.enabled x ≡ false
    → (disable_ends m names rn).enabled x ≡ false
unfolding disable_ends enable
disable_ends_stays zero names rn x off = off
disable_ends_stays (suc m) names rn x off = ground (arith, disable_ends_stays m names rn x off)

disable_ends_hit :
    (m : ℕ) (names : ℕ → ℕ) (rn : Network) (j : ℕ)
    → j < m
    → (disable_ends m names rn).enabled (names j) ≡ false
unfolding disable_ends enable
disable_ends_hit zero names rn j lt = absurd (omega (arith, lt))
disable_ends_hit (suc m) names rn j lt = elim (ℕ_discrete j m) [
  | yes last ↦ ground (arith, ap names last)
  | no before ↦ ground (arith, disable_ends_hit m names rn j (omega (arith, lt, before)))
]

disable_ends_connections :
    (m : ℕ) (names : ℕ → ℕ) (rn : Network) → (disable_ends m names rn).connections ≡ rn.connections
unfolding disable_ends enable
disable_ends_connections zero names rn = refl
disable_ends_connections (suc m) names rn = disable_ends_connections m names rn

-- The ends of a server are disabled: those for its group, and those for the masters if it has any.
unfoldable pub silenced : Config → (ℕ → ℕ) → Option (ℕ → ℕ) → Network
unfolding disable_ends
silenced cfg names none = disable_ends cfg.n names cfg.net
silenced cfg names (some mnames) =
    disable_ends cfg.nmasters mnames (disable_ends cfg.n names cfg.net)

module _ (mastername : ℕ → ℕ) (servername : ℕ → ℕ → ℕ) where
  pub shutdown_server_inv :
      (gi i : ℕ) (cfg cfg' : Config) (gg : Group)
      → cfg.groups gi ≡ some gg
      → shutdown_server mastername servername gi i cfg ≡ some cfg'
      → (names : ℕ → ℕ) × (gg.endnames i ≡ some names)
        × (cfg'
            ≡ retire gi i gg (record cfg {
              net = delete_server (servername gg.gid i) (silenced cfg names (gg.mendnames i));
            }))
  unfolding shutdown_server silenced
  shutdown_server_inv gi i cfg cfg' gg there e = elim (Option-cases (gg.endnames i)) [
    | inl out ↦ absurd (ground (arith, there, out, e))
    | inr (names, named) ↦ elim (dec_lt i cfg.nmasters) [
      | no far ↦ absurd (ground (arith, there, named, far, e))
      | yes lt ↦ (
        names,
        named,
        elim (Option-cases (gg.mendnames i)) [
          | inl nil ↦ ground (arith, there, named, lt, nil, e)
          | inr (mnames, its) ↦ ground (arith, there, named, lt, its, e)
        ],
      )
    ]
  ]

-- The end is one of the server's own, or leads to it.
abbrev pub EndOf : (servername : ℕ → ℕ → ℕ) → Config → Group → ℕ → ℕ → Type 0
EndOf servername cfg gg i x =
    ((names : ℕ → ℕ) × (j : ℕ) × (gg.endnames i ≡ some names) × (j < cfg.n) × (names j ≡ x))
    ⊎ ((mnames : ℕ → ℕ) × (j : ℕ) × (gg.mendnames i ≡ some mnames)
        × (j < cfg.nmasters)
        × (mnames j ≡ x))
    ⊎ (cfg.net.connections x ≡ some (servername gg.gid i))

silenced_own :
    (cfg : Config) (names : ℕ → ℕ) (o : Option (ℕ → ℕ)) (j : ℕ)
    → j < cfg.n
    → (silenced cfg names o).enabled (names j) ≡ false
unfolding silenced
silenced_own cfg names none j lt = disable_ends_hit cfg.n names cfg.net j lt
silenced_own cfg names (some mnames) j lt =
    disable_ends_stays cfg.nmasters mnames _ (names j) (disable_ends_hit cfg.n names cfg.net j lt)

silenced_masters :
    (cfg : Config) (names mnames : ℕ → ℕ) (o : Option (ℕ → ℕ)) (j : ℕ)
    → o ≡ some mnames
    → j < cfg.nmasters
    → (silenced cfg names o).enabled (mnames j) ≡ false
unfolding silenced
silenced_masters cfg names mnames none j e lt = absurd (ground (arith, e))
silenced_masters cfg names mnames (some its) j e lt =
    let same : its ≡ mnames = ground (arith, e) in
    ap
      (λ (f : ℕ → ℕ).
        (disable_ends cfg.nmasters its (disable_ends cfg.n names cfg.net)).enabled (f j))
      (sym same)
    ∙ disable_ends_hit cfg.nmasters its (disable_ends cfg.n names cfg.net) j lt

silenced_connections :
    (cfg : Config) (names : ℕ → ℕ) (o : Option (ℕ → ℕ))
    → (silenced cfg names o).connections ≡ cfg.net.connections
unfolding silenced
silenced_connections cfg names none = disable_ends_connections cfg.n names cfg.net
silenced_connections cfg names (some mnames) =
    disable_ends_connections cfg.nmasters mnames _ ∙ disable_ends_connections cfg.n names cfg.net

module _ (mastername : ℕ → ℕ) (servername : ℕ → ℕ → ℕ) where
  retire-net : (gi i : ℕ) (gg : Group) (cfg : Config) → (retire gi i gg cfg).net ≡ cfg.net
  unfolding retire
  retire-net gi i gg cfg = refl

  -- After `ShutdownServer` the network hands over no request on an end that the server had for its group or
  -- for the masters, and none on an end that leads to the server.
  pub shutdown_isolates :
      (gi i : ℕ) (cfg cfg' : Config) (gg : Group) {T : Type 0} (req : ReqMsg T) (draws : Draws)
      (later : Network) (name server : ℕ) (info : EndInfo)
      → cfg.groups gi ≡ some gg
      → shutdown_server mastername servername gi i cfg ≡ some cfg'
      → EndOf servername cfg gg i req.endname
      → ¬ (admit cfg'.net req draws later ≡ admitted name server info)
  unfolding delete_server
  shutdown_isolates gi i cfg cfg' gg req draws later name server info there ran which was =
      let (names, named, is) =
        shutdown_server_inv mastername servername gi i cfg cfg' gg there ran in
      let net : cfg'.net
          ≡ delete_server (servername gg.gid i) (silenced cfg names (gg.mendnames i)) =
        ap (λ (c : Config). c.net) is ∙ retire-net gi i gg _ in
      let leads = (admit_inv cfg'.net req draws later name server info was).0 in
      let on : (silenced cfg names (gg.mendnames i)).enabled req.endname ≡ true =
        ap (λ (t : Network). t.enabled req.endname) (sym net) ∙ leads.is_enabled in
      elim which [
        | inl (own, j, e, lt, at) ↦
            (let same : names ≡ own = ground (arith, sym named ∙ e) in
              absurd (
                ground (
                  arith,
                  on,
                  silenced_own cfg names (gg.mendnames i) j lt,
                  ap (λ (f : ℕ → ℕ). f j) same ∙ at,
                )))
        | inr (inl (mnames, j, e, lt, at)) ↦
            absurd
              (ground (arith, on, silenced_masters cfg names mnames (gg.mendnames i) j e lt, at))
        | inr (inr leads_here) ↦
            (let connections =
                ap (λ (t : Network). t.connections) net
                ∙ silenced_connections cfg names (gg.mendnames i) in
              let found = ap (λ (t : Network). t.servers name) (sym net) ∙ leads.found in
              let named_here : some name ≡ some (servername gg.gid i) =
                sym leads.named ∙ ap (λ t. t req.endname) connections ∙ leads_here in
              absurd (ground (arith, found, named_here)))
      ]
