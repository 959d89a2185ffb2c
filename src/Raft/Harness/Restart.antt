-- ===== src/Raft/Harness/Restart.antt =====
-- Persisters across a restart (src/raft/config.go, src/raft/persister.go).
use mit_distribution.Base.{
  ℕ, ◌+◌, ◌<◌, ◌≡◌, ◌≢◌, refl, sym, ap, subst, ◌∙◌, inl, inr, true, none, some, [], arith, update,
  update_cases, update_at, update_other, Option-cases, false,
}
use native.Mathlib.Decide.{ℕ_discrete}
use mit_distribution.Raft.Persister.{
  Persister, make_persister, copy, save_raft_state, read_raft_state, Store, allocate, modify,
}
use mit_distribution.Raft.Harness.{
  Config, Instance, disconnect, kill_raft, only_raft_state, keep_raft_state, crash1, make_ends,
  fresh_persister, install, start1,
}
use mit_distribution.Labrpc.Network.{delete_server}
use mit_distribution.Raft.Harness.Starts.{keep_raft_state-none, keep_raft_state-some}

-- Every address in use has been allocated.
pub record Owned {A : Type 0} (cfg : Config A) : Type 0 where
  pub instances : (r : ℕ) → r < cfg.next_instance → (cfg.instances r).persister < cfg.store.next
  pub saved : (i a : ℕ) → cfg.saved i ≡ some a → a < cfg.store.next

-- The peer has a new instance, with a persister which no earlier instance writes to and which holds what the
-- peer had saved.
pub record Isolated {A : Type 0} (i : ℕ) (cfg cfg' : Config A) : Type 0 where
  pub ps : ℕ
  pub serving : cfg'.rafts i ≡ some cfg.next_instance
  pub saved : cfg'.saved i ≡ some ps
  pub own : (cfg'.instances cfg.next_instance).persister ≡ ps
  pub untouched :
      (r : ℕ) (f : Persister → Persister)
      → r < cfg.next_instance
      → (modify (cfg'.instances r).persister f cfg'.store).at ps ≡ cfg'.store.at ps
  pub restored :
      (a : ℕ)
      → cfg.saved i ≡ some a
      → ((cfg'.store.at ps).raftstate ≡ (cfg.store.at a).raftstate)
        × ((cfg'.store.at ps).snapshot ≡ [])
  pub empty : cfg.saved i ≡ none → cfg'.store.at ps ≡ make_persister
  pub owned : Owned cfg'

-- The persisters are as before, but for new ones.
record Grows {A : Type 0} (i : ℕ) (cfg cfg' : Config A) : Type 0 where
  next_instance : cfg'.next_instance ≡ cfg.next_instance
  persister : (r : ℕ) → (cfg'.instances r).persister ≡ (cfg.instances r).persister
  next : (n : ℕ) → n < cfg.store.next → n < cfg'.store.next
  never : cfg.saved i ≡ none → cfg'.saved i ≡ none
  kept :
      (a : ℕ)
      → cfg.saved i ≡ some a
      → (b : ℕ) × (cfg'.saved i ≡ some b)
        × ((cfg'.store.at b).raftstate ≡ (cfg.store.at a).raftstate)
        × ((cfg'.store.at b).snapshot ≡ [])
  others : (j : ℕ) → i ≢ j → cfg'.saved j ≡ cfg.saved j
  mine : (a : ℕ) → cfg'.saved i ≡ some a → a < cfg'.store.next

module _ {A : Type 0} where
  killed_persister :
      (cfg : Config A) (q r : ℕ)
      → (update cfg.instances q (record (cfg.instances q) { is_killed = true }) r).persister
        ≡ (cfg.instances r).persister
  killed_persister cfg q r =
      elim (update_cases cfg.instances q r (record (cfg.instances q) { is_killed = true })) [
        | inl (here, e) ↦
            ap (λ (t : Instance). t.persister) e ∙ ap (λ k. (cfg.instances k).persister) here
        | inr (other, e) ↦ ap (λ (t : Instance). t.persister) e
      ]

  kill_raft_keeps :
      (i : ℕ) (cfg : Config A)
      → ((kill_raft i cfg).next_instance ≡ cfg.next_instance)
        × ((r : ℕ) → ((kill_raft i cfg).instances r).persister ≡ (cfg.instances r).persister)
        × ((kill_raft i cfg).saved ≡ cfg.saved)
        × ((kill_raft i cfg).store ≡ cfg.store)
  unfolding kill_raft
  kill_raft_keeps i cfg = elim (Option-cases (cfg.rafts i)) [
    | inl free ↦
        (let e : kill_raft i cfg ≡ cfg = ground (arith, free) in
          (
            ap (λ (c : Config A). c.next_instance) e,
            λ r. ap (λ (c : Config A). (c.instances r).persister) e,
            ap (λ (c : Config A). c.saved) e,
            ap (λ (c : Config A). c.store) e,
          ))
    | inr (q, there) ↦
        (let dead : Instance = record (cfg.instances q) { is_killed = true } in
          let e : kill_raft i cfg ≡ record cfg {
            rafts = update cfg.rafts i none;
            instances = update cfg.instances q dead;
          } =
            ground (arith, there) in
          (
            ap (λ (c : Config A). c.next_instance) e,
            λ r. ap (λ (c : Config A). (c.instances r).persister) e ∙ killed_persister cfg q r,
            ap (λ (c : Config A). c.saved) e,
            ap (λ (c : Config A). c.store) e,
          ))
  ]

  keep_raft_state-Grows : (i : ℕ) (cfg : Config A) → Owned cfg → Grows i cfg (keep_raft_state i cfg)
  unfolding only_raft_state allocate copy save_raft_state read_raft_state make_persister
  keep_raft_state-Grows i cfg o = elim (Option-cases (cfg.saved i)) [
    | inl never ↦ subst (Grows i cfg) (sym (keep_raft_state-none i cfg never)) (record {
      next_instance = refl;
      persister = λ r. refl;
      next = λ n h. h;
      never = λ e. e;
      kept = λ a e. absurd (ground (arith, never, e));
      others = λ j h. refl;
      mine = λ a e. absurd (ground (arith, never, e));
    })
    | inr (a, there) ↦ subst (Grows i cfg) (sym (keep_raft_state-some i cfg a there)) (record {
      next_instance = refl;
      persister = λ r. refl;
      next = λ n h. omega (arith, h);
      never = λ e. absurd (ground (arith, there, e));
      kept = λ b e.
          (let same : a ≡ b = ground (arith, there, e) in
            (
              cfg.store.next + 1,
              update_at cfg.saved i i _ refl,
              ground (arith, ap (λ k. (cfg.store.at k).raftstate) same),
              ground arith,
            ));
      others = λ j h. update_other cfg.saved i j _ h;
      mine =
          λ b e. ground (arith, sym (update_at cfg.saved i i (some (cfg.store.next + 1)) refl) ∙ e);
    })
  ]

  -- What concerns persisters is the same.
  record Alike (cfg c : Config A) : Type 0 where
    next_instance : c.next_instance ≡ cfg.next_instance
    persister : (r : ℕ) → (c.instances r).persister ≡ (cfg.instances r).persister
    saved : c.saved ≡ cfg.saved
    store : c.store ≡ cfg.store

  Owned-Alike : (cfg c : Config A) → Alike cfg c → Owned cfg → Owned c
  Owned-Alike cfg c s o =
      let size : c.store.next ≡ cfg.store.next = ap (λ (t : Store). t.next) s.store in
      record {
        instances = λ r h.
            omega (arith, s.persister r, size, o.instances r (omega (arith, h, s.next_instance)));
        saved = λ i a e. omega (arith, size, o.saved i a (ap (λ t. t i) (sym s.saved) ∙ e));
      }

  Grows-Alike : (i : ℕ) (cfg c d : Config A) → Alike cfg c → Grows i c d → Grows i cfg d
  Grows-Alike i cfg c d s g =
      let size : c.store.next ≡ cfg.store.next = ap (λ (t : Store). t.next) s.store in
      record {
        next_instance = g.next_instance ∙ s.next_instance;
        persister = λ r. g.persister r ∙ s.persister r;
        next = λ n h. g.next n (omega (arith, h, size));
        never = λ e. g.never (ap (λ t. t i) s.saved ∙ e);
        kept = λ a e.
            (let (b, there, raft, snap) = g.kept a (ap (λ t. t i) s.saved ∙ e) in
              (b, there, raft ∙ ap (λ (t : Store). (t.at a).raftstate) s.store, snap));
        others = λ j h. g.others j h ∙ ap (λ t. t j) s.saved;
        mine = g.mine;
      }

  crash1-Grows : (i : ℕ) (cfg : Config A) → Owned cfg → Grows i cfg (crash1 i cfg)
  unfolding crash1 disconnect
  crash1-Grows i cfg o =
      let cut : Config A = disconnect i cfg in
      let gone : Config A = record cut { net = delete_server i cut.net } in
      let k = kill_raft_keeps i gone in
      let alike : Alike cfg (kill_raft i gone) = record {
        next_instance = k.0;
        persister = k.1;
        saved = k.2;
        store = k.3;
      } in
      Grows-Alike i cfg (kill_raft i gone) (crash1 i cfg) alike
        (keep_raft_state-Grows i (kill_raft i gone) (Owned-Alike cfg (kill_raft i gone) alike o))

  Owned-Grows : (i : ℕ) (cfg d : Config A) → Owned cfg → Grows i cfg d → Owned d
  Owned-Grows i cfg d o g = record {
    instances = λ r h.
        subst (λ p. p < d.store.next) (sym (g.persister r))
          (g.next _ (o.instances r (omega (arith, h, g.next_instance))));
    saved = λ j a e. elim (ℕ_discrete i j) [
      | yes here ↦ g.mine a (ap d.saved here ∙ e)
      | no there ↦ g.next a (o.saved j a (sym (g.others j there) ∙ e))
    ];
  }

  -- The persister that a new instance of the peer starts with.
  abbrev initial : ℕ → Config A → Persister
  unfolding copy make_persister
  initial i cfg = elim (cfg.saved i) [ none ↦ make_persister | some a ↦ copy (cfg.store.at a) ]

  install_lem :
      (i : ℕ) (cfg : Config A)
      → Owned cfg
      → ((install i cfg).rafts i ≡ some cfg.next_instance)
        × ((install i cfg).saved i ≡ some cfg.store.next)
        × (((install i cfg).instances cfg.next_instance).persister ≡ cfg.store.next)
        × ((install i cfg).store.at cfg.store.next ≡ initial i cfg)
        × ((r : ℕ)
            → r < cfg.next_instance
            → ((install i cfg).instances r).persister ≡ (cfg.instances r).persister)
        × Owned (install i cfg)
  unfolding install fresh_persister allocate
  install_lem i cfg o =
      let fresh : Instance = record { persister = cfg.store.next; is_killed = false } in
      (
        update_at cfg.rafts i i (some cfg.next_instance) refl,
        update_at cfg.saved i i (some cfg.store.next) refl,
        ap (λ (t : Instance). t.persister)
            (update_at cfg.instances cfg.next_instance cfg.next_instance fresh refl),
        update_at cfg.store.at cfg.store.next cfg.store.next (initial i cfg) refl,
        λ r h.
            ap (λ (t : Instance). t.persister)
              (update_other cfg.instances cfg.next_instance r fresh
                (λ same. omega (arith, h, same))),
        record {
          instances = λ r h. elim (update_cases cfg.instances cfg.next_instance r fresh) [
            | inl (here, e) ↦ omega (arith, ap (λ (t : Instance). t.persister) e)
            | inr (other, e) ↦ omega (
              arith,
              ap (λ (t : Instance). t.persister) e,
              o.instances r (omega (arith, h, other)),
            )
          ];
          saved = λ j a e. elim (update_cases cfg.saved i j (some cfg.store.next)) [
            | inl (here, e') ↦ ground (arith, sym e' ∙ e)
            | inr (other, e') ↦ omega (arith, o.saved j a (sym e' ∙ e))
          ];
        },
      )

  -- A restarted peer gets a persister of its own, which no earlier instance has: whatever those write from then
  -- on, the new instance does not see. It holds the Raft state that the peer had saved, and no
  -- snapshot; at the first start it is empty.
  pub start1_isolates :
      (i : ℕ) (names : ℕ → ℕ) (cfg cfg' : Config A)
      → Owned cfg
      → start1 i names cfg ≡ some cfg'
      → Isolated i cfg cfg'
  unfolding start1 modify copy
  start1_isolates i names cfg cfg' o e =
      let down : Config A = crash1 i cfg in
      let g = crash1-Grows i cfg o in
      let owned = Owned-Grows i cfg down o g in
      elim (Option-cases (make_ends down.n names down.net)) [
        | inl taken ↦ absurd (ground (arith, taken))
        | inr (rn, made) ↦
            (let mid : Config A = record down {
              net = rn;
              endnames = update down.endnames i (some names);
            } in
              let mid_owned : Owned mid = record {
                instances = owned.instances;
                saved = owned.saved;
              } in
              let same : install i mid ≡ cfg' = ground (arith, made) in
              let (rafts, saved, own, held, old, owned') = install_lem i mid mid_owned in
              subst (Isolated i cfg) same (record {
                ps = down.store.next;
                serving = rafts ∙ ap some g.next_instance;
                saved = saved;
                own = ap (λ k. ((install i mid).instances k).persister) (sym g.next_instance) ∙ own;
                untouched = λ r f h.
                    (let h' : r < mid.next_instance = omega (arith, h, g.next_instance) in
                      let before = owned.instances r h' in
                      update_other (install i mid).store.at _ down.store.next _
                        (λ same. omega (arith, before, old r h', same)));
                restored = λ a there.
                    (let (b, kept, raft, snap) = g.kept a there in
                      let is : initial i mid ≡ copy (down.store.at b) = ground (arith, kept) in
                      let now = held ∙ is in
                      (
                        ap (λ (t : Persister). t.raftstate) now ∙ raft,
                        ap (λ (t : Persister). t.snapshot) now ∙ snap,
                      ));
                empty = λ never.
                    (let gone = g.never never in
                      let is : initial i mid ≡ make_persister = ground (arith, gone) in held ∙ is);
                owned = owned';
              }))
      ]
