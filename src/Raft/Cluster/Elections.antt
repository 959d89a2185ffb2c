-- ===== src/Raft/Cluster/Elections.antt =====
-- At most one leader in a term: every step keeps the invariant.
use mit_distribution.Base.{ℕ, ◌≡◌, refl, sym, ap, ◌∙◌, true, none, arith}
use mit_distribution.Raft.State.{make, is_leader, read_persist}
use mit_distribution.Raft.Cluster.{
  System, initial, Step, acts, asks, delivers, tallies, sends, appends, Reach, start, later,
}
use mit_distribution.Raft.Cluster.Ghost.{Ghost, Extends, Inv, Extends-refl}
use mit_distribution.Raft.Cluster.Rounds.{open_round-RoundOk}
use mit_distribution.Raft.Cluster.Handlers.{Updated-refl, PeerOk-append}
use mit_distribution.Raft.Cluster.Moves.{
  round_replaced, peer_replaced, acts-Inv, delivers-Inv, tallies-Inv, sends-Inv,
}

-- The memory before the first step.
abbrev pub no_ghost : Ghost
no_ghost = record { ballot = λ j t. none; elected = λ t. none }

module _ {A : Type 0} {n : ℕ} where
  pub Step-Inv :
      {g : Ghost} (s t : System A)
      → Step true n s t
      → Inv g n s
      → (g' : Ghost) × Extends g g' × Inv g' n t
  Step-Inv s _ (acts i ev {rf'} lt h e) v = acts-Inv s i ev rf' h e v
  Step-Inv {g} s _ (asks i r lt unused) v =
      (g, Extends-refl g, round_replaced s r _ (open_round-RoundOk i (s.peer i) lt (v.peers i)) v)
  Step-Inv s _ (delivers r j rd lt there other before) v =
      delivers-Inv s r j rd there other before v
  Step-Inv s _ (tallies r j rd reply lt there before) v =
      tallies-Inv s r j rd reply lt there before v
  Step-Inv {g} s _ (sends i server k {args} lt leads made unused) v =
      (g, Extends-refl g, sends-Inv s i server k args (leads refl) made v)
  Step-Inv {g} s _ (appends k j args lt there) v = (
    g,
    Extends-refl g,
    peer_replaced s j _ (Updated-refl g j)
        (PeerOk-append args (s.peer j) (v.requests k args there) (v.peers j)) v,
  )

  pub initial-Inv : Inv no_ghost n (initial {A = A} n)
  unfolding make read_persist
  initial-Inv = record {
    peers = λ i. record {
      itself = refl;
      all = refl;
      vote = λ c e. absurd (ground arith);
      free = λ e. refl;
      future = λ t h. refl;
      runs = λ e. absurd (cc);
      leads = λ e. absurd (cc);
    };
    rounds = λ r rd e. absurd (cc);
    requests = λ k args e. absurd (cc);
    majorities = λ t c e. absurd (cc);
  }

  Reach-Inv : (s : System A) → Reach true n s → (g : Ghost) × Inv g n s
  Reach-Inv _ start = (no_ghost, initial-Inv)
  Reach-Inv _ (later {s} {t} before next) =
      let (g, v) = Reach-Inv s before in let (g', x, v') = Step-Inv s t next v in (g', v')

-- In a cluster whose goroutines of `RequestHeartBeat` run while their peer still leads, two peers
-- that both lead in the same term are the same peer.
pub election_safety :
    {A : Type 0} (n : ℕ) (s : System A)
    → Reach true n s
    → (i j : ℕ) → is_leader (s.peer i).state ≡ true
    → is_leader (s.peer j).state ≡ true
    → (s.peer i).current_term ≡ (s.peer j).current_term
    → i ≡ j
election_safety n s run i j leads_i leads_j same =
    let (g, v) = Reach-Inv s run in
    let won_i = (v.peers i).leads (ground (arith, leads_i)) in
    let won_j = (v.peers j).leads (ground (arith, leads_j)) in
    ground (arith, sym won_i ∙ ap g.elected same ∙ won_j)
