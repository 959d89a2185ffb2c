-- ===== src/Raft/Guards.antt =====
-- The RPC handler `RequestAppendEntriesReply` (src/raft/raft.go) with its indices written out: every read of a
-- log or of the entries, and every slice of them, is a panic (`none`) where the index is out of range.
use mit_distribution.Base.{
  ℕ, zero, suc, ◌+◌, ◌-◌, ◌<◌, ◌≤◌, ◌≡◌, inl, inr, Bool, true, false, ◌&&◌, ℤ, pos, eqb_ℤ, Option,
  none, some, Option-cases, Bool-cases, List, [], ◌∷◌, ◌++◌, arith, get_elem?, length, take, drop,
  drop-eq-nil, le_of_get_elem?-none, if◌then◌else◌, ltb, leb, ◌==◌,
}
use mit_distribution.Raft.State.{Log, Raft}
use mit_distribution.Raft.Append.{
  RequestAppendEntriesArgs, RequestAppendEntriesReply, is_empty, follow, skip_agreed, splice,
  merge_log, heartbeat, append_entries, request_append_entries_reply,
}

-- `xs[:i]`, without what a slice may hold beyond its length.
unfoldable pub slice_to {ℓ} : {A : Type ℓ} → List A → ℕ → Option (List A)
slice_to xs i = if leb i (length xs) then some (take i xs) else none

-- `xs[i:]`
unfoldable pub slice_from {ℓ} : {A : Type ℓ} → List A → ℕ → Option (List A)
slice_from xs i = if leb i (length xs) then some (drop i xs) else none

module _ {A : Type 0} where
  -- `rf.log[i].Term == term`
  unfoldable pub read_term_eq : List (Log A) → ℕ → ℤ → Option Bool
  read_term_eq log i term = elim (get_elem? log i) [
    | none ↦ none
    | some x ↦ some (eqb_ℤ (pos x.term) term)
  ]

  -- The loop that compares terms by index, for at most so many steps; `none` is a panic or a loop that goes on.
  unfoldable pub scan : ℕ → List (Log A) → List (Log A) → (entries_idx log_idx : ℕ) → Option (ℕ × ℕ)
  scan zero entries log e l = none
  scan (suc steps) entries log e l =
      let rest = scan steps entries log (e + 1) (l + 1) in
      if leb (length entries) e
      then some (e, l)
      else if leb (length log) l
      then some (e, l)
      else elim (get_elem? entries e) [
        | none ↦ none
        | some x ↦ elim (get_elem? log l) [
          | none ↦ none
          | some y ↦ (if x.term == y.term then rest else some (e, l))
        ]
      ]

  -- The three cases after the loop, with their slices.
  unfoldable pub overwrite : List (Log A) → List (Log A) → ℕ × ℕ → Option (List (Log A))
  unfolding slice_to slice_from
  overwrite log entries (e, l) =
      if ltb l (length log) && ltb e (length entries)
      then elim (slice_to log l) [
        | none ↦ none
        | some kept ↦ elim (slice_from entries e) [
          | none ↦ none
          | some added ↦ some (kept ++ added)
        ]
      ]
      else if leb (length log) l && ltb e (length entries)
      then elim (slice_from entries e) [ none ↦ none | some added ↦ some (log ++ added) ]
      else some log

  -- A heartbeat, after the sender is followed: the log is read if it is long enough.
  unfoldable pub guarded_heartbeat :
      RequestAppendEntriesArgs A → Raft A → Option (Raft A × RequestAppendEntriesReply)
  unfolding read_term_eq
  guarded_heartbeat args rf =
      let refused : Raft A × RequestAppendEntriesReply =
        (rf, record { term = rf.current_term; success = false }) in
      let last =
        if leb (args.leader_commit + 1) (length rf.log)
        then args.leader_commit
        else length rf.log - 1 in
      let committed = if ltb rf.commit_index args.leader_commit then last else rf.commit_index in
      let accepted : Raft A × RequestAppendEntriesReply = (
        record rf { commit_index = committed },
        record { term = rf.current_term; success = true },
      ) in
      if ltb (length rf.log) (args.prev_log_index + 1)
      then some refused
      else elim (read_term_eq rf.log args.prev_log_index args.prev_log_term) [
        | none ↦ none
        | some same ↦ some (if same then accepted else refused)
      ]

  -- Entries, once the previous entry matches.
  unfoldable pub guarded_merge :
      RequestAppendEntriesArgs A → Raft A → Option (Raft A × RequestAppendEntriesReply)
  unfolding scan overwrite
  guarded_merge args rf =
      elim (scan (suc (length args.entries)) args.entries rf.log 0 (args.prev_log_index + 1)) [
        | none ↦ none
        | some at ↦ elim (overwrite rf.log args.entries at) [
          | none ↦ none
          | some log' ↦ some (
            record rf {
              log = log';
              commit_index =
                  (if leb (args.leader_commit + 1) (length log')
                    then args.leader_commit
                    else length log' - 1);
            },
            record { term = rf.current_term; success = true },
          )
        ]
      ]

  -- Entries, after the sender is followed.
  unfoldable pub guarded_append :
      RequestAppendEntriesArgs A → Raft A → Option (Raft A × RequestAppendEntriesReply)
  unfolding read_term_eq guarded_merge
  guarded_append args rf =
      let refused : Raft A × RequestAppendEntriesReply =
        (rf, record { term = rf.current_term; success = false }) in
      let merged = guarded_merge args rf in
      if args.prev_log_index == 0
      then merged
      else if leb (args.prev_log_index + 1) (length rf.log)
      then elim (read_term_eq rf.log args.prev_log_index args.prev_log_term) [
        | none ↦ none
        | some same ↦ (if same then merged else some refused)
      ]
      else some refused

  -- The RPC handler.
  unfoldable pub guarded_reply :
      RequestAppendEntriesArgs A → Raft A → Option (Raft A × RequestAppendEntriesReply)
  unfolding guarded_heartbeat guarded_append
  guarded_reply args rf =
      if is_empty args.entries && leb rf.current_term args.term
      then guarded_heartbeat args (follow args rf)
      else if leb rf.current_term args.term
      then guarded_append args (follow args rf)
      else some (rf, record { term = rf.current_term; success = false })

  read_in_range :
      (log : List (Log A)) (i : ℕ) → i < length log → (x : Log A) × (get_elem? log i ≡ some x)
  read_in_range log i lt = elim (Option-cases (get_elem? log i)) [
    | inl out ↦ absurd (omega (arith, lt, le_of_get_elem?-none log i out))
    | inr found ↦ found
  ]

  drop-get_elem? :
      (xs : List (Log A)) (i : ℕ) (x : Log A)
      → get_elem? xs i ≡ some x
      → drop i xs ≡ x ∷ drop (i + 1) xs
  drop-get_elem? [] i x e = absurd (ground (arith, e))
  drop-get_elem? (y ∷ xs) zero x e = ground (arith, e)
  drop-get_elem? (y ∷ xs) (suc i) x e = ground (arith, drop-get_elem? xs i x e)

  scan-skip_agreed :
      (steps : ℕ) (entries log : List (Log A)) (e l : ℕ)
      → e ≤ length entries
      → length entries < e + steps
      → scan steps entries log e l ≡ some (skip_agreed (drop e entries) (drop l log) e l)
  unfolding scan skip_agreed
  scan-skip_agreed zero entries log e l le enough = absurd (omega (arith, le, enough))
  scan-skip_agreed (suc steps) entries log e l le enough =
      elim (Bool-cases (leb (length entries) e)) [
        | inl past ↦ ground (arith, past, drop-eq-nil e entries)
        | inr more ↦
            (let below : e < length entries = ground (arith, more) in
              let (x, x_at) = read_in_range entries e below in
              let x_drop = drop-get_elem? entries e x x_at in
              elim (Bool-cases (leb (length log) l)) [
                | inl past ↦ ground (arith, more, past, x_drop, drop-eq-nil l log)
                | inr held ↦
                    (let within : l < length log = ground (arith, held) in
                      let (y, y_at) = read_in_range log l within in
                      let y_drop = drop-get_elem? log l y y_at in
                      let rest =
                        scan-skip_agreed steps entries log (e + 1) (l + 1) (omega (arith, below))
                          (omega (arith, enough)) in
                      elim (Bool-cases (x.term == y.term)) [
                        | inl same ↦
                            ground (arith, more, held, x_at, y_at, same, x_drop, y_drop, rest)
                        | inr differ ↦
                            ground (arith, more, held, x_at, y_at, differ, x_drop, y_drop)
                      ])
              ])
      ]

  overwrite-splice :
      (log entries : List (Log A)) (e l : ℕ)
      → overwrite log entries (e, l) ≡ some (splice log entries e l)
  unfolding overwrite splice slice_to slice_from
  overwrite-splice log entries e l = ground arith

  guarded_merge_lem :
      (args : RequestAppendEntriesArgs A) (rf : Raft A)
      → let log' = merge_log rf.log args.entries args.prev_log_index in
        guarded_merge args rf
        ≡ some (
          record rf {
            log = log';
            commit_index =
                (if leb (args.leader_commit + 1) (length log')
                  then args.leader_commit
                  else length log' - 1);
          },
          record { term = rf.current_term; success = true },
        )
  unfolding guarded_merge merge_log
  guarded_merge_lem args rf =
      let first = args.prev_log_index + 1 in
      let ends =
        scan-skip_agreed (suc (length args.entries)) args.entries rf.log 0 first (omega arith)
          (omega arith) in
      let (e, l) = skip_agreed args.entries (drop first rf.log) 0 first in
      ground (arith, ends, overwrite-splice rf.log args.entries e l)

  guarded_heartbeat-eq-heartbeat :
      (args : RequestAppendEntriesArgs A) (rf : Raft A)
      → guarded_heartbeat args rf ≡ some (heartbeat args rf)
  unfolding guarded_heartbeat heartbeat read_term_eq
  guarded_heartbeat-eq-heartbeat args rf =
      elim (Bool-cases (ltb (length rf.log) (args.prev_log_index + 1))) [
        | inl short ↦ ground (arith, short)
        | inr long ↦
            (let (x, x_at) = read_in_range rf.log args.prev_log_index (ground (arith, long)) in
              ground (arith, long, x_at, Bool-cases (eqb_ℤ (pos x.term) args.prev_log_term)))
      ]

  guarded_append-eq-append_entries :
      (args : RequestAppendEntriesArgs A) (rf : Raft A)
      → guarded_append args rf ≡ some (append_entries args rf)
  unfolding guarded_append append_entries read_term_eq
  guarded_append-eq-append_entries args rf =
      let merged = guarded_merge_lem args rf in
      elim (Bool-cases (args.prev_log_index == 0)) [
        | inl first ↦ ground (arith, first, merged)
        | inr later ↦ elim (Bool-cases (leb (args.prev_log_index + 1) (length rf.log))) [
          | inl long ↦
              (let (x, x_at) = read_in_range rf.log args.prev_log_index (ground (arith, long)) in
                ground (
                  arith,
                  later,
                  long,
                  x_at,
                  merged,
                  Bool-cases (eqb_ℤ (pos x.term) args.prev_log_term),
                ))
          | inr short ↦ ground (arith, later, short)
        ]
      ]

  -- Whatever request arrives and whatever log the peer has, the handler of requests to append reads and slices its
  -- log and the entries in range only, its loop ends, and it does what the model of the handler
  -- by recursion on the two lists does.
  pub guarded_reply_lem :
      (args : RequestAppendEntriesArgs A) (rf : Raft A)
      → guarded_reply args rf ≡ some (request_append_entries_reply args rf)
  unfolding guarded_reply request_append_entries_reply
  guarded_reply_lem args rf = ground (
    arith,
    guarded_heartbeat-eq-heartbeat args (follow args rf),
    guarded_append-eq-append_entries args (follow args rf),
  )
