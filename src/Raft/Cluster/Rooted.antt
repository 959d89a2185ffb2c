-- ===== src/Raft/Cluster/Rooted.antt =====
-- Logs that come from the logs of leaders, and what a request to append makes of them (src/raft/raft.go).
use mit_distribution.Base.{
  ℕ, zero, suc, ◌+◌, ◌≤◌, ◌≡◌, refl, sym, ap, ap₂, subst, ◌∙◌, ◌⊎◌, inl, inr, true, Option, some,
  List, [], ◌∷◌, ◌++◌, arith, Bool-cases, Option-cases, length, take, drop, get_elem?, ◌==◌, ==→eq,
  lt_of_get_elem?, take-append-drop, get_elem?_of_lt, pos, eqb_ℤ,
}
use mathlib.Core.List.{append-nil}
use mit_distribution.Raft.State.{Raft, Log, zero_log}
use mit_distribution.Raft.Vote.{term_at}
use mit_distribution.Raft.Append.{
  RequestAppendEntriesArgs, follow, heartbeat, append_entries, merge_log,
  request_append_entries_reply,
}
use mit_distribution.Raft.Merge.{reconcile, merge_log-eq-reconcile}
use mit_distribution.Raft.Replication.{
  LogMatching, get_elem?-take, Sends, LogMatching-eq, get_elem?-drop,
}

-- The log of the leader of each term, from its election on.
abbrev pub Origin : Type 0 → Type 0
Origin A = ℕ → Option (List (Log A))

-- The log begins with the entry 0, and each entry stands where the leader of its term had it, with the
-- same entries before it.
pub record Rooted {A : Type 0} (o : Origin A) (log : List (Log A)) : Type 0 where
  pub headed : get_elem? log 0 ≡ some zero_log
  pub traced :
      (k : ℕ) (e : Log A)
      → get_elem? log k ≡ some e
      → (l : List (Log A)) × (o e.term ≡ some l) × (take (suc k) log ≡ take (suc k) l)

-- Leaders' logs have only become longer.
abbrev pub Grows : {A : Type 0} → Origin A → Origin A → Type 0
Grows {A} o o' =
    (t : ℕ) (l : List (Log A)) → o t ≡ some l → (more : List (Log A)) × (o' t ≡ some (l ++ more))

module _ {A : Type 0} where
  pub Grows-refl : (o : Origin A) → Grows o o
  Grows-refl o t l e = ([], e ∙ ap some (sym (append-nil l)))

  take-append_le : (n : ℕ) (xs ys : List (Log A)) → n ≤ length xs → take n (xs ++ ys) ≡ take n xs
  take-append_le zero xs ys h = refl
  take-append_le (suc n) [] ys h = absurd (omega (arith, h))
  take-append_le (suc n) (x ∷ xs) ys h = ap (◌∷◌ x) (take-append_le n xs ys (omega (arith, h)))

  -- A log that has an entry in common with a prefix of another is no shorter there.
  same_reach :
      (xs ys : List (Log A)) (k : ℕ) (e : Log A)
      → get_elem? xs k ≡ some e
      → take (suc k) xs ≡ take (suc k) ys
      → get_elem? ys k ≡ some e
  same_reach xs ys k e there same =
      sym (get_elem?-take ys k) ∙ ap (λ l. get_elem? l k) (sym same) ∙ get_elem?-take xs k ∙ there

  pub Rooted-Grows :
      {o o' : Origin A} (log : List (Log A)) → Grows o o' → Rooted o log → Rooted o' log
  Rooted-Grows {o'} log grows r = record {
    headed = r.headed;
    traced = λ k e there.
        (let (l, from, same) = r.traced k e there in
          let (more, now) = grows e.term l from in
          let long = lt_of_get_elem? l k e (same_reach log l k e there same) in
          (l ++ more, now, same ∙ sym (take-append_le (suc k) l more (omega (arith, long)))));
  }

  -- Two such logs satisfy log matching.
  pub Rooted-LogMatching :
      {o : Origin A} (xs ys : List (Log A)) → Rooted o xs → Rooted o ys → LogMatching xs ys
  Rooted-LogMatching {o} xs ys r q = record {
    same = λ i x y at_x at_y same_term.
        (let (l, from, e) = r.traced i x at_x in
          let (m, from', e') = q.traced i y at_y in
          let one : l ≡ m = ground (arith, sym from ∙ ap o same_term ∙ from') in
          e ∙ ap (take (suc i)) one ∙ sym e');
  }

  get_elem?-append_last :
      (xs : List (Log A)) (y e : Log A) (k : ℕ)
      → get_elem? (xs ++ (y ∷ [])) k ≡ some e
      → (get_elem? xs k ≡ some e) ⊎ ((k ≡ length xs) × (y ≡ e))
  get_elem?-append_last [] y e zero h = inr (refl, ground (arith, h))
  get_elem?-append_last [] y e (suc k) h = absurd (ground (arith, h))
  get_elem?-append_last (x ∷ xs) y e zero h = inl h
  get_elem?-append_last (x ∷ xs) y e (suc k) h = elim (get_elem?-append_last xs y e k h) [
    | inl before ↦ inl before
    | inr (last, same) ↦ inr (ap suc last, same)
  ]

  -- A leader's log with a new entry of its term.
  pub Rooted-start :
      {o o' : Origin A} (log : List (Log A)) (e : Log A)
      → Grows o o'
      → o' e.term ≡ some (log ++ (e ∷ []))
      → Rooted o log
      → Rooted o' (log ++ (e ∷ []))
  Rooted-start {o} {o'} log e grows now r = record {
    headed = headed_append log r.headed;
    traced = λ k x there. elim (get_elem?-append_last log e x k there) [
      | inl before ↦
          (let r' = Rooted-Grows log grows r in
            let (l, from, same) = r'.traced k x before in
            (
              l,
              from,
              take-append_le (suc k) log (e ∷ []) (omega (arith, lt_of_get_elem? log k x before))
                  ∙ same,
            ))
      | inr (last, same) ↦ (log ++ (e ∷ []), ap (λ (x : Log A). o' x.term) (sym same) ∙ now, refl)
    ];
  }
    where
      headed_append :
          (xs : List (Log A))
          → get_elem? xs 0 ≡ some zero_log
          → get_elem? (xs ++ (e ∷ [])) 0 ≡ some zero_log
      headed_append [] h = absurd (ground (arith, h))
      headed_append (x ∷ xs) h = h

  -- Entries that agree wherever their terms do: the log stays, or becomes the sender's.
  reconcile_either :
      (xs ys : List (Log A))
      → ((i : ℕ) (x y : Log A)
          → get_elem? xs i ≡ some x
          → get_elem? ys i ≡ some y
          → x.term ≡ y.term
          → x ≡ y)
      → (reconcile xs ys ≡ xs) ⊎ (reconcile xs ys ≡ ys)
  unfolding reconcile
  reconcile_either xs [] m = inl refl
  reconcile_either [] (y ∷ ys) m = inr refl
  reconcile_either (x ∷ xs) (y ∷ ys) m = elim (Bool-cases (y.term == x.term)) [
    | inr differ ↦ inr (rw differ refl)
    | inl same ↦
        (let first : x ≡ y = m 0 x y refl refl (sym (==→eq y.term x.term same)) in
          elim (reconcile_either xs ys (λ i. m (suc i))) [
            | inl stays ↦ inl (rw same (ap (◌∷◌ x) stays))
            | inr takes ↦ inr (rw same (ap₂ ◌∷◌ first takes))
          ])
  ]

  pub merge_log_either :
      (xs ys : List (Log A)) (prev : ℕ)
      → LogMatching xs ys
      → take (prev + 1) xs ≡ take (prev + 1) ys
      → (merge_log xs (drop (prev + 1) ys) prev ≡ xs)
        ⊎ (merge_log xs (drop (prev + 1) ys) prev ≡ ys)
  merge_log_either xs ys prev m e =
      let merged = merge_log-eq-reconcile xs (drop (prev + 1) ys) prev in
      elim (reconcile_either (drop (prev + 1) xs) (drop (prev + 1) ys) (λ i x y p q.
        LogMatching-eq m (prev + 1 + i) x y (sym (get_elem?-drop (prev + 1) xs i) ∙ p)
          (sym (get_elem?-drop (prev + 1) ys i) ∙ q))) [
            | inl stays ↦
                inl (merged ∙ ap (◌++◌ (take (prev + 1) xs)) stays ∙ take-append-drop (prev + 1) xs)
            | inr takes ↦ inr (merged ∙ ap₂ ◌++◌ e takes ∙ take-append-drop (prev + 1) ys)
          ]

  append_log_tests :
      (args : RequestAppendEntriesArgs A) (f : Raft A)
      → let log' = (request_append_entries_reply args f).0.log in
        (log' ≡ f.log)
        ⊎ ((log' ≡ merge_log f.log args.entries args.prev_log_index)
            × ((args.prev_log_index ≡ 0)
                ⊎ (eqb_ℤ (term_at f.log args.prev_log_index) args.prev_log_term ≡ true)))
  unfolding request_append_entries_reply follow heartbeat append_entries
  append_log_tests args f = ground arith

  checked_entry :
      (log : List (Log A)) (i t : ℕ)
      → eqb_ℤ (term_at log i) (pos t) ≡ true
      → (x : Log A) × (get_elem? log i ≡ some x) × (x.term ≡ t)
  checked_entry log i t h = elim (Option-cases (get_elem? log i)) [
    | inl out ↦ absurd (ground (arith, out, h))
    | inr (x, there) ↦ (x, there, ground (arith, there, h))
  ]

  module _ {o : Origin A} (f l : Raft A) (rf : Rooted o f.log) (rl : Rooted o l.log) where
    -- The two logs agree up to the previous entry, where it was checked.
    agrees_before :
        (args : RequestAppendEntriesArgs A) (prev : ℕ)
        → Sends l prev args
        → (prev ≡ 0) ⊎ (eqb_ℤ (term_at f.log prev) args.prev_log_term ≡ true)
        → take (suc prev) f.log ≡ take (suc prev) l.log
    agrees_before args zero s checked =
        (Rooted-LogMatching f.log l.log rf rl).same 0 zero_log zero_log rf.headed rl.headed refl
    agrees_before args (suc p) s (inl start) = absurd (omega (arith, start))
    agrees_before args (suc p) s (inr passed) =
        let (y, at_l) = get_elem?_of_lt l.log (suc p) s.near in
        let asked = s.checked y at_l (inl (omega arith)) in
        let (x, at_f, same) =
          checked_entry f.log (suc p) y.term
            (ap (eqb_ℤ (term_at f.log (suc p))) (sym asked) ∙ passed) in
        (Rooted-LogMatching f.log l.log rf rl).same (suc p) x y at_f at_l same

    -- A request that was built from a log leaves a follower's log, or makes it that log.
    pub appended_log :
        (args : RequestAppendEntriesArgs A) (prev : ℕ)
        → Sends l prev args
        → ((request_append_entries_reply args f).0.log ≡ f.log)
          ⊎ ((request_append_entries_reply args f).0.log ≡ l.log)
    appended_log args prev s = elim (append_log_tests args f) [
      | inl stays ↦ inl stays
      | inr (merged, checked) ↦
          (let next : suc prev ≡ prev + 1 = omega arith in
            let agree = agrees_before args prev s (
              subst (λ i. (i ≡ 0) ⊎ (eqb_ℤ (term_at f.log i) args.prev_log_term ≡ true)) s.index
                checked) in
            let built : merge_log f.log args.entries args.prev_log_index
                ≡ merge_log f.log (drop (prev + 1) l.log) prev =
              ap₂ (merge_log f.log) (s.rest ∙ ap (λ m. drop m l.log) next) s.index in
            elim (merge_log_either f.log l.log prev (Rooted-LogMatching f.log l.log rf rl)
              (subst (λ m. take m f.log ≡ take m l.log) next agree)) [
                | inl stays ↦ inl (merged ∙ built ∙ stays)
                | inr takes ↦ inr (merged ∙ built ∙ takes)
              ])
    ]
