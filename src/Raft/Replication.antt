-- ===== src/Raft/Replication.antt =====
-- One round of replication (src/raft/raft.go): the leader's arguments, handled by a follower, bring
-- the leader's log to the follower, where the two logs satisfy Raft's log matching property.
use mit_distribution.Base.{
  ℕ, zero, suc, ◌+◌, ◌<◌, ◌≤◌, ◌≡◌, refl, sym, ap, ap₂, ◌∙◌, ◌⊎◌, inl, inr, true, some, List, [],
  ◌∷◌, ◌++◌, arith, Bool-cases, Option-cases, get_elem?, length, take, drop, pos, ◌==◌, ==→eq,
  length-take, length-drop, take-append-drop, get_elem?_of_lt, le_of_get_elem?-none, drop-eq-nil,
  lt_of_get_elem?,
}
use mit_distribution.Raft.State.{Raft, Log, zero_log}
use mit_distribution.Raft.Append.{
  RequestAppendEntriesArgs, follow, heartbeat, append_entries, merge_log,
  request_append_entries_reply,
}
use mit_distribution.Raft.Replicate.{args_for, request_args}
use mit_distribution.Raft.Merge.{reconcile, take-length, merge_log-eq-reconcile}
use mit_distribution.Raft.Invariant.{IsValid}

-- Entries of one index and term have the same log before them, and are the same.
pub record LogMatching {A : Type 0} (xs ys : List (Log A)) : Type 0 where
  pub same :
      (i : ℕ) (x y : Log A)
      → get_elem? xs i ≡ some x
      → get_elem? ys i ≡ some y
      → x.term ≡ y.term
      → take (suc i) xs ≡ take (suc i) ys

module _ {A : Type 0} where
  pub get_elem?-take : (xs : List (Log A)) (i : ℕ) → get_elem? (take (suc i) xs) i ≡ get_elem? xs i
  get_elem?-take [] zero = refl
  get_elem?-take [] (suc i) = refl
  get_elem?-take (x ∷ xs) zero = refl
  get_elem?-take (x ∷ xs) (suc i) = get_elem?-take xs i

  pub get_elem?-drop :
      (n : ℕ) (xs : List (Log A)) (i : ℕ) → get_elem? (drop n xs) i ≡ get_elem? xs (n + i)
  get_elem?-drop zero xs i = ap (get_elem? xs) (omega arith)
  get_elem?-drop (suc n) [] i = refl
  get_elem?-drop (suc n) (x ∷ xs) i =
      get_elem?-drop n xs i
      ∙ (let e : suc n + i ≡ suc (n + i) = omega arith in ap (get_elem? (x ∷ xs)) (sym e))

  -- Log matching makes entries of one index and term equal.
  pub LogMatching-eq :
      {xs ys : List (Log A)} (m : LogMatching xs ys) (i : ℕ) (x y : Log A)
      → get_elem? xs i ≡ some x
      → get_elem? ys i ≡ some y
      → x.term ≡ y.term
      → x ≡ y
  LogMatching-eq {xs} {ys} m i x y p q e =
      let t = ap (λ zs. get_elem? zs i) (m.same i x y p q e) in
      cc (get_elem?-take xs i, get_elem?-take ys i, t)

  reconcile_matching :
      (xs ys : List (Log A))
      → ((i : ℕ) (x y : Log A)
          → get_elem? xs i ≡ some x
          → get_elem? ys i ≡ some y
          → x.term ≡ y.term
          → x ≡ y)
      → take (length ys) (reconcile xs ys) ≡ ys
  unfolding reconcile
  reconcile_matching xs [] m = refl
  reconcile_matching [] (y ∷ ys) m = take-length (y ∷ ys)
  reconcile_matching (x ∷ xs) (y ∷ ys) m = elim (Bool-cases (y.term == x.term)) [
    | inl same ↦ rw same (
        ap₂ ◌∷◌ (m 0 x y refl refl (sym (==→eq y.term x.term same)))
          (reconcile_matching xs ys (λ i. m (suc i))))
    | inr differ ↦ rw differ (take-length (y ∷ ys))
  ]

  take-append_add :
      (n k : ℕ) (xs ys : List (Log A)) → length xs ≡ n → take (n + k) (xs ++ ys) ≡ xs ++ take k ys
  take-append_add zero k [] ys h = ap (λ j. take j ys) (omega arith)
  take-append_add zero k (x ∷ xs) ys h = absurd (omega arith)
  take-append_add (suc n) k [] ys h = absurd (omega arith)
  take-append_add (suc n) k (x ∷ xs) ys h =
      let e : suc n + k ≡ suc (n + k) = omega arith in
      rw e (ap (◌∷◌ x) (take-append_add n k xs ys (omega arith)))

  -- A log that matches the leader's up to the previous entry takes over the rest of it.
  pub merge_log_matching :
      (xs ys : List (Log A)) (prev : ℕ)
      → LogMatching xs ys
      → prev < length xs
      → prev < length ys
      → take (prev + 1) xs ≡ take (prev + 1) ys
      → take (length ys) (merge_log xs (drop (prev + 1) ys) prev) ≡ ys
  merge_log_matching xs ys prev m hx hy e =
      let n : ℕ = length (drop (prev + 1) ys) in
      let size : length ys ≡ (prev + 1) + n = omega (arith, length-drop (prev + 1) ys) in
      ap₂ take size (merge_log-eq-reconcile xs (drop (prev + 1) ys) prev)
      ∙ take-append_add (prev + 1) n (take (prev + 1) xs) _
          (length-take (prev + 1) xs (omega arith))
      ∙ ap₂ ◌++◌ e (
          reconcile_matching (drop (prev + 1) xs) (drop (prev + 1) ys) (λ i x y p q.
            LogMatching-eq m (prev + 1 + i) x y (sym (get_elem?-drop (prev + 1) xs i) ∙ p)
              (sym (get_elem?-drop (prev + 1) ys i) ∙ q)))
      ∙ take-append-drop (prev + 1) ys

  -- A heartbeat is accepted only on a matching previous entry, and leaves the log.
  heartbeat_accepts :
      (args : RequestAppendEntriesArgs A) (rf : Raft A) (t : ℕ)
      → args.prev_log_term ≡ pos t
      → (heartbeat args rf).1.success ≡ true
      → (x : Log A) × (get_elem? rf.log args.prev_log_index ≡ some x)
        × (x.term ≡ t)
        × ((heartbeat args rf).0.log ≡ rf.log)
  unfolding heartbeat
  heartbeat_accepts args rf t e ok = elim (Option-cases (get_elem? rf.log args.prev_log_index)) [
    | inl out ↦ absurd (ground arith)
    | inr (x, there) ↦ (x, there, ground arith, ground arith)
  ]

  -- So are entries, behind an index other than 0, and the log becomes the merged one.
  pub append_entries_accepts :
      (args : RequestAppendEntriesArgs A) (rf : Raft A) (t : ℕ)
      → args.prev_log_term ≡ pos t
      → 0 < args.prev_log_index
      → (append_entries args rf).1.success ≡ true
      → (x : Log A) × (get_elem? rf.log args.prev_log_index ≡ some x)
        × (x.term ≡ t)
        × ((append_entries args rf).0.log ≡ merge_log rf.log args.entries args.prev_log_index)
  unfolding append_entries
  append_entries_accepts args rf t e far ok =
      elim (Option-cases (get_elem? rf.log args.prev_log_index)) [
        | inl out ↦ absurd (ground arith)
        | inr (x, there) ↦ (x, there, ground arith, ground arith)
      ]

  -- Behind the entry 0 they are always accepted.
  pub append_entries_from_start :
      (args : RequestAppendEntriesArgs A) (rf : Raft A)
      → args.prev_log_index ≡ 0
      → (append_entries args rf).0.log ≡ merge_log rf.log args.entries 0
  unfolding append_entries
  append_entries_from_start args rf e = ground arith

  -- What the leader sends for a positive `nextIndex`.
  pub record Sends (l : Raft A) (prev : ℕ) (args : RequestAppendEntriesArgs A) : Type 0 where
    pub near : prev < length l.log
    pub index : args.prev_log_index ≡ prev
    pub rest : args.entries ≡ drop (suc prev) l.log
    pub checked :
        (x : Log A)
        → get_elem? l.log prev ≡ some x
        → (0 < prev) ⊎ (length l.log ≡ suc prev)
        → args.prev_log_term ≡ pos x.term

  pub args_for-Sends :
      (l : Raft A) (prev : ℕ) (args : RequestAppendEntriesArgs A)
      → args_for l (pos (suc prev)) ≡ some args
      → Sends l prev args
  unfolding args_for
  args_for-Sends l prev args e = elim (Option-cases (get_elem? l.log prev)) [
    | inl out ↦ absurd (ground (arith, le_of_get_elem?-none l.log prev out))
    | inr (x, there) ↦
        (let near = lt_of_get_elem? l.log prev x there in
          record {
            near = near;
            index = ground (arith, there);
            rest = ground (arith, there, near, drop-eq-nil (suc prev) l.log);
            checked = λ y here far. ground (arith, there, here, near);
          })
  ]

  pub follow-log : (args : RequestAppendEntriesArgs A) (rf : Raft A) → (follow args rf).log ≡ rf.log
  unfolding follow
  follow-log args rf = refl

  pub accepts_cases :
      (args : RequestAppendEntriesArgs A) (f : Raft A)
      → (request_append_entries_reply args f).1.success ≡ true
      → ((args.entries ≡ [])
          × (request_append_entries_reply args f ≡ heartbeat args (follow args f)))
        ⊎ ((request_append_entries_reply args f ≡ append_entries args (follow args f)))
  unfolding request_append_entries_reply
  accepts_cases args f ok = ground arith

  drop-nil_le : (n : ℕ) (xs : List (Log A)) → drop n xs ≡ [] → length xs ≤ n
  drop-nil_le n xs e = omega (arith, length-drop n xs, ap length e)

  heartbeat_replicates :
      (l f : Raft A) (prev : ℕ) (args : RequestAppendEntriesArgs A)
      → LogMatching f.log l.log
      → Sends l prev args
      → args.entries ≡ []
      → (heartbeat args (follow args f)).1.success ≡ true
      → take (length l.log) (heartbeat args (follow args f)).0.log ≡ l.log
  heartbeat_replicates l f prev args m s none_sent ok =
      let full : length l.log ≡ suc prev =
        omega (arith, s.near, drop-nil_le (suc prev) l.log (sym s.rest ∙ none_sent)) in
      let (y, at_l) = get_elem?_of_lt l.log prev s.near in
      let (x, at_f, same, kept) =
        heartbeat_accepts args (follow args f) y.term (s.checked y at_l (inr full)) ok in
      rw (kept, follow-log args f, full)
        (m.same prev x y (ground (arith, at_f, s.index, follow-log args f)) at_l same
          ∙ ap (λ n. take n l.log) (sym full)
          ∙ take-length l.log)

  merged_replicates :
      (l f : Raft A) (prev : ℕ) (args : RequestAppendEntriesArgs A) (log' : List (Log A))
      → LogMatching f.log l.log
      → Sends l prev args
      → prev < length f.log
      → take (suc prev) f.log ≡ take (suc prev) l.log
      → log' ≡ merge_log (follow args f).log args.entries prev
      → take (length l.log) log' ≡ l.log
  merged_replicates l f prev args log' m s near agreed e =
      let next : prev + 1 ≡ suc prev = omega arith in
      rw (e, follow-log args f, s.rest, ← next)
        (merge_log_matching f.log l.log prev m near s.near (rw next agreed))

  append_replicates :
      (l f : Raft A) (prev : ℕ) (args : RequestAppendEntriesArgs A)
      → IsValid l
      → IsValid f
      → LogMatching f.log l.log
      → Sends l prev args
      → (append_entries args (follow args f)).1.success ≡ true
      → take (length l.log) (append_entries args (follow args f)).0.log ≡ l.log
  append_replicates l f zero args vl vf m s ok =
      merged_replicates l f 0 args _ m s (omega (arith, vf.committed))
        (m.same 0 zero_log zero_log vf.headed vl.headed refl)
        (append_entries_from_start args (follow args f) s.index)
  append_replicates l f (suc p) args vl vf m s ok =
      let (y, at_l) = get_elem?_of_lt l.log (suc p) s.near in
      let (x, at_f, same, merged) =
        append_entries_accepts args (follow args f) y.term (s.checked y at_l (inl (omega arith)))
          (omega (arith, s.index)) ok in
      let here : get_elem? f.log (suc p) ≡ some x =
        ground (arith, at_f, s.index, follow-log args f) in
      merged_replicates l f (suc p) args _ m s (lt_of_get_elem? f.log (suc p) x here)
        (m.same (suc p) x y here at_l same)
        (merged ∙ ap (merge_log (follow args f).log args.entries) s.index)

  -- If two valid peers' logs satisfy log matching, the leader's `nextIndex` for the follower is
  -- positive, and the follower accepts the request that the leader builds from it, then the
  -- follower's log begins with the whole log of the leader, and the match index that the leader
  -- derives from the request is the last index of its log.
  pub replicates :
      (server prev : ℕ) (l f : Raft A) (args : RequestAppendEntriesArgs A)
      → IsValid l
      → IsValid f
      → LogMatching f.log l.log
      → get_elem? l.next_index server ≡ some (pos (suc prev))
      → request_args server l ≡ some args
      → (request_append_entries_reply args f).1.success ≡ true
      → (take (length l.log) (request_append_entries_reply args f).0.log ≡ l.log)
        × (args.prev_log_index + length args.entries + 1 ≡ length l.log)
  unfolding request_args
  replicates server prev l f args vl vf m next sent ok =
      let s : Sends l prev args = args_for-Sends l prev args (ground (arith, next)) in
      (
        elim (accepts_cases args f ok) [
          | inl (none_sent, e) ↦
              rw e (heartbeat_replicates l f prev args m s none_sent (rw (← e) ok))
          | inr e ↦ rw e (append_replicates l f prev args vl vf m s (rw (← e) ok))
        ],
        omega (arith, s.near, s.index, ap length s.rest, length-drop (suc prev) l.log),
      )
