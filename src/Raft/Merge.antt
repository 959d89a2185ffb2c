-- ===== src/Raft/Merge.antt =====
-- What `RequestAppendEntriesReply` (src/raft/raft.go) makes of a log and new entries: the index loop
-- against a recursion on the two lists, and what follows for repeated and late requests.
use mit_distribution.Base.{
  ℕ, zero, suc, ◌+◌, ◌<◌, ◌≡◌, refl, sym, ap, ap₂, ◌∙◌, inl, inr, List, [], ◌∷◌, ◌++◌, map, arith,
  Bool-cases, length, take, drop, if◌then◌else◌, ◌==◌, ==→eq, eq→==, length-take, length-drop,
  take-append-drop, get_elem?, some,
}
use mathlib.Core.List.{append-nil, append_assoc}
use native.Mathlib.Numerals.{add-one}
use mit_distribution.Raft.State.{Log}
use mit_distribution.Raft.Append.{skip_agreed, splice, merge_log}

module _ {A : Type 0} where
  -- The log from the place of the first new entry on, after the request.
  unfoldable pub reconcile : List (Log A) → List (Log A) → List (Log A)
  reconcile log [] = log
  reconcile [] (x ∷ entries) = x ∷ entries
  reconcile (y ∷ log) (x ∷ entries) =
      if x.term == y.term then y ∷ reconcile log entries else x ∷ entries

  take_succ_drop :
      (n : ℕ) (log rest : List (Log A)) (y : Log A)
      → drop n log ≡ y ∷ rest
      → (take (n + 1) log ≡ take n log ++ y ∷ []) × (drop (n + 1) log ≡ rest)
  take_succ_drop zero [] rest y e = absurd (cc)
  take_succ_drop zero (x ∷ log) rest y e = (ground arith, ground arith)
  take_succ_drop (suc n) [] rest y e = absurd (cc)
  take_succ_drop (suc n) (x ∷ log) rest y e =
      let (p, q) = take_succ_drop n log rest y e in (ground (arith, p), ground (arith, q))

  take_all : (n : ℕ) (log : List (Log A)) → drop n log ≡ [] → take n log ≡ log
  take_all n log e =
      sym (append-nil (take n log)) ∙ ap (◌++◌ (take n log)) (sym e) ∙ take-append-drop n log

  splice-skip_agreed :
      (log entries rest_e rest_l : List (Log A)) (e l : ℕ)
      → drop e entries ≡ rest_e
      → drop l log ≡ rest_l
      → splice log entries (skip_agreed rest_e rest_l e l).0 (skip_agreed rest_e rest_l e l).1
        ≡ take l log ++ reconcile rest_l rest_e
  unfolding skip_agreed splice reconcile
  splice-skip_agreed log entries [] rest_l e l he hl =
      ground (arith, length-drop e entries, take-append-drop l log)
  splice-skip_agreed log entries (x ∷ es) [] e l he hl =
      ground (arith, length-drop e entries, length-drop l log, take_all l log)
  splice-skip_agreed log entries (x ∷ es) (y ∷ ls) e l he hl =
      elim (Bool-cases (x.term == y.term)) [
        | inl same ↦ rw same (
            splice-skip_agreed log entries es ls (e + 1) (l + 1)
              (take_succ_drop e entries es x he).1 (take_succ_drop l log ls y hl).1
            ∙ ap (λ p. p ++ reconcile ls es) (take_succ_drop l log ls y hl).0
            ∙ append_assoc (take l log) (y ∷ []) (reconcile ls es))
        | inr differ ↦ rw differ (ground (arith, length-drop e entries, length-drop l log))
      ]

  -- The index loop and the three cases after it keep the log up to the previous entry, and reconcile
  -- the rest with the new entries.
  pub merge_log-eq-reconcile :
      (log entries : List (Log A)) (prev : ℕ)
      → merge_log log entries prev ≡ take (prev + 1) log ++ reconcile (drop (prev + 1) log) entries
  unfolding merge_log
  merge_log-eq-reconcile log entries prev =
      splice-skip_agreed log entries entries (drop (prev + 1) log) 0 (prev + 1) refl refl

  -- The entry 0 stays where it is.
  pub get_elem?-merge_log_zero :
      (log entries : List (Log A)) (prev : ℕ) (x : Log A)
      → get_elem? log 0 ≡ some x
      → get_elem? (merge_log log entries prev) 0 ≡ some x
  get_elem?-merge_log_zero [] entries prev x h = absurd (cc)
  get_elem?-merge_log_zero (y ∷ log) entries prev x h =
      rw merge_log-eq-reconcile (ground (arith, add-one prev))

  take-append_self : (n : ℕ) (xs ys : List (Log A)) → length xs ≡ n → take n (xs ++ ys) ≡ xs
  take-append_self zero [] ys h = refl
  take-append_self zero (x ∷ xs) ys h = absurd (omega arith)
  take-append_self (suc n) [] ys h = absurd (omega arith)
  take-append_self (suc n) (x ∷ xs) ys h = ap (◌∷◌ x) (take-append_self n xs ys (omega arith))

  drop-append_self : (n : ℕ) (xs ys : List (Log A)) → length xs ≡ n → drop n (xs ++ ys) ≡ ys
  drop-append_self zero [] ys h = refl
  drop-append_self zero (x ∷ xs) ys h = absurd (omega arith)
  drop-append_self (suc n) [] ys h = absurd (omega arith)
  drop-append_self (suc n) (x ∷ xs) ys h = drop-append_self n xs ys (omega arith)

  -- The request leaves everything up to the previous entry.
  pub take-merge_log :
      (log entries : List (Log A)) (prev : ℕ)
      → prev < length log
      → take (prev + 1) (merge_log log entries prev) ≡ take (prev + 1) log
  take-merge_log log entries prev h = rw merge_log-eq-reconcile (
      take-append_self (prev + 1) (take (prev + 1) log) _
        (length-take (prev + 1) log (omega arith)))

  -- The rest of the log after the request is the rest before, reconciled with the entries.
  pub drop-merge_log :
      (log entries : List (Log A)) (prev : ℕ)
      → prev < length log
      → drop (prev + 1) (merge_log log entries prev) ≡ reconcile (drop (prev + 1) log) entries
  drop-merge_log log entries prev h = rw merge_log-eq-reconcile (
      drop-append_self (prev + 1) (take (prev + 1) log) _
        (length-take (prev + 1) log (omega arith)))

  reconcile-append_self :
      (entries more : List (Log A)) → reconcile (entries ++ more) entries ≡ entries ++ more
  unfolding reconcile
  reconcile-append_self [] more = refl
  reconcile-append_self (x ∷ entries) more =
      rw (eq→== x.term x.term refl) (ap (◌∷◌ x) (reconcile-append_self entries more))

  reconcile_late :
      (log entries more : List (Log A))
      → reconcile (reconcile log (entries ++ more)) entries ≡ reconcile log (entries ++ more)
  unfolding reconcile
  reconcile_late log [] more = refl
  reconcile_late [] (x ∷ entries) more = reconcile-append_self (x ∷ entries) more
  reconcile_late (y ∷ log) (x ∷ entries) more = elim (Bool-cases (x.term == y.term)) [
    | inl same ↦ rw (same, same) (ap (◌∷◌ y) (reconcile_late log entries more))
    | inr differ ↦ rw differ (reconcile-append_self (x ∷ entries) more)
  ]

  -- A request that comes late, with a part of the entries that the log has already been reconciled
  -- with, changes nothing; a repeated request is the case with no entries more.
  pub merge_log_late :
      (log entries more : List (Log A)) (prev : ℕ)
      → prev < length log
      → merge_log (merge_log log (entries ++ more) prev) entries prev
        ≡ merge_log log (entries ++ more) prev
  merge_log_late log entries more prev h =
      let after : List (Log A) = merge_log log (entries ++ more) prev in
      merge_log-eq-reconcile after entries prev
      ∙ ap₂ ◌++◌ (take-merge_log log (entries ++ more) prev h) (
          ap (λ r. reconcile r entries) (drop-merge_log log (entries ++ more) prev h)
          ∙ reconcile_late (drop (prev + 1) log) entries more)
      ∙ sym (merge_log-eq-reconcile log (entries ++ more) prev)

  pub take-length : (xs : List (Log A)) → take (length xs) xs ≡ xs
  take-length [] = refl
  take-length (x ∷ xs) = ap (◌∷◌ x) (take-length xs)

  reconcile-terms :
      (log entries : List (Log A))
      → map (λ (e : Log A). e.term) (take (length entries) (reconcile log entries))
        ≡ map (λ (e : Log A). e.term) entries
  unfolding reconcile
  reconcile-terms log [] = refl
  reconcile-terms [] (x ∷ entries) = ap (map (λ e. e.term)) (take-length (x ∷ entries))
  reconcile-terms (y ∷ log) (x ∷ entries) = elim (Bool-cases (x.term == y.term)) [
    | inl same ↦ rw same (ap₂ ◌∷◌ (sym (==→eq x.term y.term same)) (reconcile-terms log entries))
    | inr differ ↦ rw differ (ap (map (λ e. e.term)) (take-length (x ∷ entries)))
  ]

  -- After the request the terms behind the previous entry are those of the new entries.
  pub merge_log-terms :
      (log entries : List (Log A)) (prev : ℕ)
      → prev < length log
      → map
          (λ (e : Log A). e.term)
          (take (length entries) (drop (prev + 1) (merge_log log entries prev)))
        ≡ map (λ (e : Log A). e.term) entries
  merge_log-terms log entries prev h =
      rw (drop-merge_log log entries prev h) (reconcile-terms (drop (prev + 1) log) entries)
