-- ===== src/Raft/Cluster/Logs.antt =====
-- The invariant behind log matching in a cluster (src/raft/raft.go), and how it survives a step of one peer.
use mit_distribution.Base.{
  ℕ, ◌<◌, ◌≡◌, ◌≢◌, refl, sym, subst, ◌∙◌, ◌⊎◌, inl, inr, Option, some, List, update, update_cases,
}
use mit_distribution.Raft.State.{Raft, Log, leader, follower}
use mit_distribution.Raft.Append.{RequestAppendEntriesArgs}
use mit_distribution.Raft.Replication.{Sends}
use mit_distribution.Raft.Cluster.Ghost.{Ghost, Extends}
use mit_distribution.Raft.Cluster.Rooted.{Origin, Rooted, Grows, Rooted-Grows}
use mit_distribution.Raft.Cluster.Effects.{Past}

-- A request was built from a rooted log.
pub record Built {A : Type 0} (o : Origin A) (args : RequestAppendEntriesArgs A) : Type 0 where
  pub sender : Raft A
  pub prev : ℕ
  pub rooted : Rooted o sender.log
  pub made : Sends sender prev args

-- The log of the first leader of each term is known, from its election on: it is the log of that peer as long
-- as it leads. Every log and every request comes from such logs.
pub record Logs {A : Type 0} (o : Origin A) (g : Ghost) (peer : ℕ → Raft A)
    (sent : ℕ → Option (RequestAppendEntriesArgs A)) : Type 0 where
  pub rooted : (i : ℕ) → Rooted o (peer i).log
  pub leads : (i : ℕ) → (peer i).state ≡ leader → o (peer i).current_term ≡ some (peer i).log
  pub owned :
      (t : ℕ) (l : List (Log A))
      → 0 < t
      → o t ≡ some l
      → (c : ℕ) × (g.elected t ≡ some c) × Past (peer c) t
  pub busy : (i : ℕ) → (peer i).state ≢ follower → 0 < (peer i).current_term
  pub requests : (k : ℕ) (args : RequestAppendEntriesArgs A) → sent k ≡ some args → Built o args

module _ {A : Type 0} where
  pub Built-Grows :
      {o o' : Origin A} (args : RequestAppendEntriesArgs A)
      → Grows o o'
      → Built o args
      → Built o' args
  Built-Grows args grows b = record {
    sender = b.sender;
    prev = b.prev;
    rooted = Rooted-Grows b.sender.log grows b.rooted;
    made = b.made;
  }

  -- What a step of the peer `i` has to show.
  pub record Advances (o o' : Origin A) (g g' : Ghost) (peer : ℕ → Raft A) (i : ℕ) (rf' : Raft A)
      : Type 0 where
    pub extends : Extends g g'
    pub grows : Grows o o'
    pub rooted : Rooted o' rf'.log
    pub leads : rf'.state ≡ leader → o' rf'.current_term ≡ some rf'.log
    pub others :
        (j : ℕ)
        → i ≢ j
        → (peer j).state ≡ leader
        → o' (peer j).current_term ≡ o (peer j).current_term
    pub past : (t : ℕ) → Past (peer i) t → Past rf' t
    pub owned :
        (t : ℕ) (l : List (Log A))
        → 0 < t
        → o' t ≡ some l
        → ((l₀ : List (Log A)) × (o t ≡ some l₀)) ⊎ ((g'.elected t ≡ some i) × Past rf' t)
    pub busy : rf'.state ≢ follower → 0 < rf'.current_term

  pub Logs-Advances :
      {o o' : Origin A} {g g' : Ghost} (peer : ℕ → Raft A)
      (sent : ℕ → Option (RequestAppendEntriesArgs A)) (i : ℕ) (rf' : Raft A)
      → Advances o o' g g' peer i rf'
      → Logs o g peer sent
      → Logs o' g' (update peer i rf') sent
  Logs-Advances {o} {o'} {g} {g'} peer sent i rf' a v = record {
    rooted = λ j. elim (update_cases peer i j rf') [
      | inl (here, e) ↦ subst (λ (rf : Raft A). Rooted o' rf.log) (sym e) a.rooted
      | inr (other, e) ↦
          subst (λ (rf : Raft A). Rooted o' rf.log) (sym e)
            (Rooted-Grows (peer j).log a.grows (v.rooted j))
    ];
    leads = λ j. elim (update_cases peer i j rf') [
      | inl (here, e) ↦
          subst (λ (rf : Raft A). rf.state ≡ leader → o' rf.current_term ≡ some rf.log) (sym e)
            a.leads
      | inr (other, e) ↦
          subst (λ (rf : Raft A). rf.state ≡ leader → o' rf.current_term ≡ some rf.log) (sym e)
            (λ is. a.others j other is ∙ v.leads j is)
    ];
    owned = λ t l lt from. elim (a.owned t l lt from) [
      | inl (l₀, before) ↦
          (let (c, won, past) = v.owned t l₀ lt before in
            (
              c,
              a.extends.elections t c won,
              elim (update_cases peer i c rf') [
                | inl (here, e) ↦
                    subst (λ (rf : Raft A). Past rf t) (sym e)
                      (a.past t (subst (λ k. Past (peer k) t) (sym here) past))
                | inr (other, e) ↦ subst (λ (rf : Raft A). Past rf t) (sym e) past
              ],
            ))
      | inr (won, past) ↦ (
        i,
        won,
        elim (update_cases peer i i rf') [
          | inl (here, e) ↦ subst (λ (rf : Raft A). Past rf t) (sym e) past
          | inr (other, e) ↦ absurd (other refl)
        ],
      )
    ];
    busy = λ j. elim (update_cases peer i j rf') [
      | inl (here, e) ↦
          subst (λ (rf : Raft A). rf.state ≢ follower → 0 < rf.current_term) (sym e) a.busy
      | inr (other, e) ↦
          subst (λ (rf : Raft A). rf.state ≢ follower → 0 < rf.current_term) (sym e) (v.busy j)
    ];
    requests = λ k args e. Built-Grows args a.grows (v.requests k args e);
  }

  -- The memory of elections may grow by itself.
  pub Logs-Extends :
      {o : Origin A} {g g' : Ghost} (peer : ℕ → Raft A)
      (sent : ℕ → Option (RequestAppendEntriesArgs A))
      → Extends g g'
      → Logs o g peer sent
      → Logs o g' peer sent
  Logs-Extends peer sent x v = record {
    rooted = v.rooted;
    leads = v.leads;
    owned =
        λ t l lt from. (let (c, won, past) = v.owned t l lt from in (c, x.elections t c won, past));
    busy = v.busy;
    requests = v.requests;
  }
