-- ===== src/Mr/Worker/Reduces.antt =====
-- What `doReduce` (src/mr/worker.go) and `main` of src/main/mrsequential.go write: one line for each
-- run of equal keys in the sorted pairs.
use Prim.Native.String.{String}
use text.Mathlib.Text.{◌==◌ as str_eq}
use text.Mathlib.TextEquality.{eq_iff}
use mathlib.Core.Option
use mit_distribution.Base.{
  ℕ, zero, suc, ◌+◌, ◌<◌, ◌≡◌, refl, sym, ap, ap₂, ◌∙◌, inl, inr, true, Option, none, some, List,
  [], ◌∷◌, ◌++◌, map, get_elem?, drop, length, length-append, arith, Bool-cases, get_elem?-length,
}
use mit_distribution.Mr.Worker.{
  KeyValue, reduce_range, group_loop, do_reduce, run_end, sequential_loop, sequential, gather,
}
use mit_distribution.Mr.Worker.Lists.{get_elem?-append_head, drop-append, append_assoc, append-nil}
use mit_distribution.Mr.Worker.Groups.{
  groups, groups_from, reduce_all, group_loop_lem, segment_values, finish, groups_from_same,
  groups_from_other,
}

pub eq_refl : (key : String) → str_eq key key ≡ true
eq_refl key = (eq_iff key key).1 refl

abbrev values : List KeyValue → List String
values = map λ (kv : KeyValue). kv.value

-- The first run, and what follows it.
record Split (first : KeyValue) (kvs : List KeyValue) : Type 0 where
  run : List KeyValue
  tail : List KeyValue
  whole : kvs ≡ run ++ tail
  ends : (m : ℕ) → run_end first kvs m ≡ m + length run
  grouped :
      (vs : List String)
      → groups_from first.key vs kvs ≡ (first.key, vs ++ values run) ∷ groups tail

split : (first : KeyValue) (kvs : List KeyValue) → Split first kvs
unfolding run_end groups_from groups
split first [] = record {
  run = [];
  tail = [];
  whole = refl;
  ends = λ m. omega arith;
  grouped = λ vs. ap (λ (t : List String). (first.key, t) ∷ []) (sym (append-nil vs));
}
split first (kv ∷ kvs) = elim (Bool-cases (str_eq kv.key first.key)) [
  | inl same ↦
      (let s = split first kvs in
        record {
          run = kv ∷ s.run;
          tail = s.tail;
          whole = ap (◌∷◌ kv) s.whole;
          ends = λ m. rw (same, run_end) (omega (arith, s.ends (m + 1)));
          grouped = λ vs.
              groups_from_same first.key vs kv kvs same
              ∙ s.grouped (vs ++ kv.value ∷ [])
              ∙ ap (λ (t : List String). (first.key, t) ∷ groups s.tail)
                  (append_assoc vs (kv.value ∷ []) (values s.run));
        })
  | inr other ↦ record {
    run = [];
    tail = kv ∷ kvs;
    whole = refl;
    ends = λ m. rw (other, run_end) (omega arith);
    grouped = λ vs.
        groups_from_other first.key vs kv kvs other
        ∙ ap (λ (t : List String). (first.key, t) ∷ groups (kv ∷ kvs)) (sym (append-nil vs));
  }
]

module _ (reducef : String → List String → String) where
  sequential_loop_lem :
      (fuel : ℕ) (kvs pre rest : List KeyValue) (i : ℕ) (out : List (String × String))
      → kvs ≡ pre ++ rest
      → i ≡ length pre
      → length rest < fuel
      → sequential_loop fuel reducef kvs i out ≡ some (out ++ reduce_all reducef (groups rest))
  unfolding sequential_loop groups
  sequential_loop_lem zero kvs pre rest i out e at more = absurd (omega (arith, more))
  sequential_loop_lem (suc fuel) kvs pre [] i out e at more =
      let past : get_elem? kvs i ≡ none =
        ap₂ get_elem? (e ∙ append-nil pre) at ∙ get_elem?-length pre in
      rw (past, append-nil out, sequential_loop) refl
  sequential_loop_lem (suc fuel) kvs pre (first ∷ xs) i out e at more =
      let s = split first xs in
      let here : get_elem? kvs i ≡ some first =
        ap₂ get_elem? e at ∙ get_elem?-append_head pre xs first in
      let e' : kvs ≡ (pre ++ first ∷ []) ++ xs = e ∙ sym (append_assoc pre (first ∷ []) xs) in
      let at' : i + 1 ≡ length (pre ++ first ∷ []) =
        omega (arith, at, length-append pre (first ∷ [])) in
      let left : drop (i + 1) kvs ≡ xs = ap₂ drop at' e' ∙ drop-append (pre ++ first ∷ []) xs in
      let j : ℕ = i + 1 + length s.run in
      let e'' : kvs ≡ pre ++ ((first ∷ s.run) ++ s.tail) = e ∙ ap (λ t. pre ++ first ∷ t) s.whole in
      rw
        (
          here,
          left,
          s.ends (i + 1),
          segment_values reducef kvs pre (first ∷ s.run) s.tail i j e'' at (omega arith),
          sequential_loop,
          s.grouped (first.value ∷ []),
        )
        (sequential_loop_lem fuel kvs (pre ++ first ∷ s.run) s.tail j (out ++ _ ∷ [])
            (e'' ∙ sym (append_assoc pre (first ∷ s.run) s.tail))
            (omega (arith, at, length-append pre (first ∷ s.run)))
            (omega (arith, more, ap length s.whole, length-append s.run s.tail))
          ∙ ap some (append_assoc out (_ ∷ []) _))

  -- The sequential program ends without a panic, whatever the sort returns, and prints for each run
  -- of equal keys in the sorted pairs the key and what the reduce function makes of the run's values.
  pub sequential_lem :
      (mapf : String → String → List KeyValue) (sort : List KeyValue → List KeyValue)
      (inputs : List (String × String))
      → sequential mapf reducef sort inputs
        ≡ some (reduce_all reducef (groups (sort (gather mapf inputs))))
  unfolding sequential
  sequential_lem mapf sort inputs =
      let kvs : List KeyValue = sort (gather mapf inputs) in
      sequential_loop_lem (length kvs + 1) kvs [] kvs 0 [] refl refl (omega arith)

  sorted_reduce :
      (kvbox : List KeyValue)
      → 0 < length kvbox
      → finish reducef kvbox (group_loop reducef kvbox 0 0 kvbox [])
        ≡ some (reduce_all reducef (groups kvbox))
  unfolding group_loop groups
  sorted_reduce [] h = absurd (omega (arith, h))
  sorted_reduce (first ∷ rest) h =
      rw (eq_refl first.key, group_loop)
        (group_loop_lem reducef rest (first ∷ rest) [] [] first 0 1 [] refl refl (omega arith))

  finish-map :
      (kvbox : List KeyValue) (r : Option (ℕ × List (String × String)))
      → (elim r [
        | none ↦ none
        | some (k, out) ↦
            Option.map
              (λ line. some (out ++ line ∷ []))
              (reduce_range reducef kvbox k (length kvbox))
      ])
        ≡ Option.map some (finish reducef kvbox r)
  finish-map kvbox none = refl
  finish-map kvbox (some (k, out)) =
      elim (reduce_range reducef kvbox k (length kvbox))
        as (λ q.
          Option.map (λ line. some (out ++ line ∷ [])) q
          ≡ Option.map some (Option.map (λ line. out ++ line ∷ []) q)) [
            | none ↦ refl
            | some line ↦ refl
          ]

  -- A reduce task with any pairs ends without a panic and writes one line for each run of equal keys in
  -- the sorted pairs, provided that sorting keeps their number.
  pub do_reduce_lem :
      (sort : List KeyValue → List KeyValue) (kvs : List KeyValue)
      → 0 < length kvs
      → length (sort kvs) ≡ length kvs
      → do_reduce reducef sort kvs ≡ some (some (reduce_all reducef (groups (sort kvs))))
  unfolding do_reduce
  do_reduce_lem sort [] h same = absurd (omega (arith, h))
  do_reduce_lem sort (kv ∷ kvs) h same =
      let kvbox : List KeyValue = sort (kv ∷ kvs) in
      finish-map kvbox (group_loop reducef kvbox 0 0 kvbox [])
      ∙ ap (Option.map some) (sorted_reduce kvbox (omega (arith, same)))
