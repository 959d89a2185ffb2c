-- ===== src/Raft/Cluster/Advances.antt =====
-- The steps that a leader's log takes, its election and its next entry, and the other steps, as what they
-- leave of the logs (src/raft/raft.go).
use mit_distribution.Base.{
  ℕ, ◌<◌, ◌≡◌, refl, sym, ap, subst, ◌∙◌, inl, inr, Option, none, some, List, [], ◌∷◌, ◌++◌, arith,
  ◌==◌, if◌then◌else◌, Bool-cases, Option-cases, ==→eq,
}
use mit_distribution.Raft.State.{Raft, Log, leader, candidate, start_append}
use mit_distribution.Raft.Vote.{RequestVoteArgs}
use mit_distribution.Raft.Append.{RequestAppendEntriesArgs}
use mit_distribution.Raft.Cluster.Ghost.{Ghost, Extends, Extends-refl}
use mit_distribution.Raft.Cluster.Handlers.{Wins}
use mit_distribution.Raft.Cluster.Rooted.{
  Origin, Rooted, Grows, Grows-refl, Rooted-Grows, Rooted-start,
}
use mit_distribution.Raft.Cluster.Effects.{
  Past, higher, decided, Settles, Past-Settles, busy-Settles,
}
use mit_distribution.Raft.Cluster.Logs.{Logs, Advances}

module _ {A : Type 0} where
  -- A term's leader is known to have this log now.
  abbrev put : Origin A → ℕ → List (Log A) → Origin A
  put o term l = λ t. if t == term then some l else o t

  Grows-put :
      (o : Origin A) (term : ℕ) (l : List (Log A))
      → ((l₀ : List (Log A)) → o term ≡ some l₀ → (more : List (Log A)) × (l ≡ l₀ ++ more))
      → Grows o (put o term l)
  Grows-put o term l extends t l₀ from = elim (Bool-cases (t == term)) [
    | inl there ↦
        (let (more, e) = extends l₀ (ap o (sym (==→eq t term there)) ∙ from) in
          (more, ground (arith, there, e)))
    | inr other ↦ (let (more, e) = Grows-refl o t l₀ from in (more, ground (arith, other, e)))
  ]

  -- A candidate of the term is not past it.
  candidate-Past : (rf : Raft A) (t : ℕ) → rf.state ≡ candidate → rf.current_term ≡ t → ¬ Past rf t
  candidate-Past rf t ran here (higher h) = omega (arith, h, here)
  candidate-Past rf t ran here (decided e no_candidate) = no_candidate ran

  module _ {o : Origin A} {g g' : Ghost} (peer : ℕ → Raft A)
      (sent : ℕ → Option (RequestAppendEntriesArgs A)) (i : ℕ) (rf' : Raft A)
      (v : Logs o g peer sent) where
    pub Settles-Advances :
        Extends g g'
        → Settles (peer i) rf'
        → Rooted o rf'.log
        → (rf'.state ≡ leader → rf'.log ≡ (peer i).log)
        → Advances o o g g' peer i rf'
    Settles-Advances x s r same = record {
      extends = x;
      grows = Grows-refl o;
      rooted = r;
      leads = λ is.
          (let (was, term) = s.leads is in ap o term ∙ v.leads i was ∙ ap some (sym (same is)));
      others = λ j other is. refl;
      past = λ t. Past-Settles (peer i) rf' t s;
      owned = λ t l lt from. inl (l, from);
      busy = busy-Settles (peer i) rf' s (v.busy i);
    }

    -- The first log of a term.
    pub Wins-Advances :
        (args : RequestVoteArgs) (votes votes' : ℕ)
        → Wins args (peer i) rf' votes votes'
        → rf'.log ≡ (peer i).log
        → Extends g g'
        → g'.elected args.term ≡ some i
        → (o' : Origin A) × Advances o o' g g' peer i rf'
    Wins-Advances args votes votes' w same x won =
        let positive : 0 < args.term =
          omega (arith, w.in_term, v.busy i (λ e. absurd (ground (arith, w.ran, e)))) in
        let unknown : o args.term ≡ none = elim (Option-cases (o args.term)) [
          | inl e ↦ e
          | inr (l, from) ↦
              (let (d, was, past) = v.owned args.term l positive from in
                let one : d ≡ i = ground (arith, x.elections args.term d was, won) in
                absurd (
                  candidate-Past (peer i) args.term w.ran w.in_term
                    (subst (λ k. Past (peer k) args.term) one past)))
        ] in
        let here : rf'.current_term ≡ args.term = w.term ∙ w.in_term in
        let o' : Origin A = put o args.term rf'.log in
        let grows : Grows o o' =
          Grows-put o args.term rf'.log (λ l from. absurd (ground (arith, sym unknown ∙ from))) in
        let moved : (t : ℕ) → Past (peer i) t → Past rf' t = λ t p. elim p [
          | higher h ↦ higher (omega (arith, h, w.term))
          | decided e no_candidate ↦ absurd (no_candidate w.ran)
        ] in
        (
          o',
          record {
            extends = x;
            grows = grows;
            rooted = Rooted-Grows rf'.log grows (subst (Rooted o) (sym same) (v.rooted i));
            leads = λ is. ground (arith, here);
            others = λ j other is. elim (Bool-cases ((peer j).current_term == args.term)) [
              | inl there ↦ absurd (
                  ground (
                    arith,
                    sym unknown
                        ∙ ap o (sym (==→eq (peer j).current_term args.term there))
                        ∙ v.leads j is,
                  ))
              | inr apart ↦ ground (arith, apart)
            ];
            past = λ t p. moved t p;
            owned = λ t l lt from. elim (Bool-cases (t == args.term)) [
              | inl there ↦
                  (let now : t ≡ args.term = ==→eq t args.term there in
                    inr (
                      ap g'.elected now ∙ won,
                      decided (now ∙ sym here) (λ e. absurd (ground (arith, w.role, e))),
                    ))
              | inr other ↦ inl (l, ground (arith, other, from))
            ];
            busy = λ h. omega (arith, w.term, v.busy i (λ e. absurd (ground (arith, w.ran, e))));
          },
        )

  -- The next entry of a leader.
  pub start-Advances :
      {o : Origin A} {g : Ghost} (peer : ℕ → Raft A)
      (sent : ℕ → Option (RequestAppendEntriesArgs A)) (i : ℕ) (rf' : Raft A) (command : A)
      → ((j : ℕ) → (peer j).state ≡ leader → g.elected (peer j).current_term ≡ some j)
      → Logs o g peer sent
      → (peer i).state ≡ leader
      → rf' ≡ (start_append command (peer i).current_term (peer i)).0
      → Settles (peer i) rf'
      → (o' : Origin A) × Advances o o' g g peer i rf'
  unfolding start_append
  start-Advances {o} {g} peer sent i rf' command elected v is made s =
      let e : Log A = record { entry = some command; term = (peer i).current_term } in
      let o' : Origin A = put o e.term ((peer i).log ++ (e ∷ [])) in
      let longer : rf'.log ≡ (peer i).log ++ (e ∷ []) = ap (λ (rf : Raft A). rf.log) made in
      let now : o' e.term ≡ some ((peer i).log ++ (e ∷ [])) = ground arith in
      let grows : Grows o o' = Grows-put o e.term ((peer i).log ++ (e ∷ [])) (λ l from. (
        e ∷ [],
        let same : (peer i).log ≡ l = ground (arith, sym (v.leads i is) ∙ from) in
            ap (λ xs. xs ++ (e ∷ [])) same,
      )) in
      (
        o',
        record {
          extends = Extends-refl g;
          grows = grows;
          rooted =
              subst (Rooted o') (sym longer) (Rooted-start (peer i).log e grows now (v.rooted i));
          leads = λ is'. ground (arith, now, longer, (s.leads is').1);
          others = λ j other is'. elim (Bool-cases ((peer j).current_term == e.term)) [
            | inl there ↦ absurd (
                ground (
                  arith,
                  other,
                  sym (elected i is)
                      ∙ ap g.elected (sym (==→eq (peer j).current_term e.term there))
                      ∙ elected j is',
                ))
            | inr apart ↦ ground (arith, apart)
          ];
          past = λ t. Past-Settles (peer i) rf' t s;
          owned = λ t l lt from. inl (elim (Bool-cases (t == e.term)) [
            | inl there ↦ ((peer i).log, ap o (==→eq t e.term there) ∙ v.leads i is)
            | inr other ↦ (l, ground (arith, other, from))
          ]);
          busy = busy-Settles (peer i) rf' s (v.busy i);
        },
      )
