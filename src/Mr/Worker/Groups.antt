-- ===== src/Mr/Worker/Groups.antt =====
-- The loops that group pairs by key (src/mr/worker.go, src/main/mrsequential.go) against a description
-- by recursion on the list.
use Prim.Native.String.{String}
use text.Mathlib.Text.{◌==◌ as str_eq}
use mathlib.Core.Option
use mit_distribution.Base.{
  ℕ, suc, ◌+◌, ◌-◌, ◌≡◌, refl, sym, ap, ap₂, ◌∙◌, inl, inr, true, false, Option, none, some, List,
  [], ◌∷◌, ◌++◌, map, get_elem?, take, drop, length, length-append, arith, Bool-cases,
}
use mit_distribution.Mr.Worker.{KeyValue, values_between, reduce_range, group_loop}
use mit_distribution.Mr.Worker.Lists.{
  get_elem?-append_head, drop-append, take-append, append_assoc, append-nil, map-append,
}

-- The runs of equal keys, with their values in order; the first run has begun.
unfoldable pub groups_from : String → List String → List KeyValue → List (String × List String)
groups_from key values [] = (key, values) ∷ []
groups_from key values (kv ∷ rest) = elim (str_eq kv.key key) [
  | true ↦ groups_from key (values ++ kv.value ∷ []) rest
  | false ↦ (key, values) ∷ groups_from kv.key (kv.value ∷ []) rest
]

unfoldable pub groups : List KeyValue → List (String × List String)
unfolding groups_from
groups [] = []
groups (kv ∷ rest) = groups_from kv.key (kv.value ∷ []) rest

-- One line for each run.
abbrev pub reduce_all :
    (String → List String → String) → List (String × List String) → List (String × String)
reduce_all reducef = map λ group. (group.0, reducef group.0 group.1)

pub groups_from_same :
    (key : String) (values : List String) (kv : KeyValue) (rest : List KeyValue)
    → str_eq kv.key key ≡ true
    → groups_from key values (kv ∷ rest) ≡ groups_from key (values ++ kv.value ∷ []) rest
unfolding groups_from
groups_from_same key values kv rest e = ground (arith, e)

pub groups_from_other :
    (key : String) (values : List String) (kv : KeyValue) (rest : List KeyValue)
    → str_eq kv.key key ≡ false
    → groups_from key values (kv ∷ rest) ≡ (key, values) ∷ groups_from kv.key (kv.value ∷ []) rest
unfolding groups_from
groups_from_other key values kv rest e = ground (arith, e)

module _ (reducef : String → List String → String) where
  pub segment_values :
      (kvbox pre seg rest : List KeyValue) (k i : ℕ)
      → kvbox ≡ pre ++ (seg ++ rest)
      → k ≡ length pre
      → i ≡ k + length seg
      → values_between kvbox k i ≡ map (λ (kv : KeyValue). kv.value) seg
  segment_values kvbox pre seg rest k i e at to =
      let width : i - k ≡ length seg = omega (arith, to) in
      ap (map λ (kv : KeyValue). kv.value)
        (ap₂ take width (ap₂ drop at e ∙ drop-append pre (seg ++ rest)) ∙ take-append seg rest)

  reduce_segment :
      (kvbox pre seg rest : List KeyValue) (first : KeyValue) (k i : ℕ)
      → kvbox ≡ pre ++ (first ∷ seg ++ rest)
      → k ≡ length pre
      → i ≡ k + length (first ∷ seg)
      → reduce_range reducef kvbox k i
        ≡ some (first.key, reducef first.key (map (λ (kv : KeyValue). kv.value) (first ∷ seg)))
  unfolding reduce_range
  reduce_segment kvbox pre seg rest first k i e at to =
      let here : get_elem? kvbox k ≡ some first =
        ap₂ get_elem? e at ∙ get_elem?-append_head pre (seg ++ rest) first in
      rw (here, segment_values kvbox pre (first ∷ seg) rest k i e at to, reduce_range) refl

  -- What `doReduce` prints for the last run.
  abbrev pub finish :
      List KeyValue → Option (ℕ × List (String × String)) → Option (List (String × String))
  finish kvbox none = none
  finish kvbox (some (k, out)) =
      Option.map (λ line. out ++ line ∷ []) (reduce_range reducef kvbox k (length kvbox))

  pub group_loop_lem :
      (rest kvbox pre seg : List KeyValue) (first : KeyValue) (k i : ℕ)
      (out : List (String × String))
      → kvbox ≡ pre ++ (first ∷ seg ++ rest)
      → k ≡ length pre
      → i ≡ k + length (first ∷ seg)
      → finish kvbox (group_loop reducef kvbox k i rest out)
        ≡ some (
            out
            ++ reduce_all reducef
                (groups_from first.key (map (λ (kv : KeyValue). kv.value) (first ∷ seg)) rest))
  unfolding group_loop groups_from
  group_loop_lem [] kvbox pre seg first k i out e at to =
      let whole : length kvbox ≡ k + length (first ∷ seg) =
        ap length e
        ∙ length-append pre (first ∷ seg ++ [])
        ∙ ap₂ ◌+◌ (sym at) (ap (λ (t : List KeyValue). suc (length t)) (append-nil seg)) in
      rw (reduce_segment kvbox pre seg [] first k (length kvbox) e at whole) refl
  group_loop_lem (x ∷ rest) kvbox pre seg first k i out e at to =
      let here : get_elem? kvbox k ≡ some first =
        ap₂ get_elem? e at ∙ get_elem?-append_head pre (seg ++ x ∷ rest) first in
      elim (Bool-cases (str_eq x.key first.key)) [
        | inl same ↦
            rw
              (
                here,
                same,
                group_loop,
                groups_from_same first.key (map (λ (kv : KeyValue). kv.value) (first ∷ seg)) x rest
                    same,
                sym (map-append (λ (kv : KeyValue). kv.value) (first ∷ seg) (x ∷ [])),
              )
              (group_loop_lem rest kvbox pre (seg ++ x ∷ []) first k (i + 1) out
                (e ∙ ap (λ t. pre ++ first ∷ t) (sym (append_assoc seg (x ∷ []) rest))) at
                (omega (arith, to, length-append seg (x ∷ []))))
        | inr other ↦
            rw
              (
                here,
                other,
                reduce_segment kvbox pre seg (x ∷ rest) first k i e at to,
                group_loop,
                groups_from_other first.key (map (λ (kv : KeyValue). kv.value) (first ∷ seg)) x rest
                    other,
              )
              (group_loop_lem rest kvbox (pre ++ first ∷ seg) [] x i (i + 1) (out ++ _ ∷ [])
                  (e ∙ sym (append_assoc pre (first ∷ seg) (x ∷ rest)))
                  (omega (arith, at, to, length-append pre (first ∷ seg))) (omega arith)
                ∙ ap some (append_assoc out (_ ∷ []) _))
      ]
