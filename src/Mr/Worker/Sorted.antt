-- ===== src/Mr/Worker/Sorted.antt =====
-- What the runs of equal keys are where the pairs are sorted by key (src/mr/worker.go).
use Prim.Native.String.{String}
use text.Mathlib.Text.{◌==◌ as str_eq}
use text.Mathlib.TextEquality.{eq_iff}
use mit_distribution.Base.{
  ◌<◌, ◌≡◌, ◌≢◌, refl, sym, ap, ap₂, subst, ◌∙◌, inl, inr, Bool, true, false, some, List, [], ◌∷◌,
  ◌++◌, map, length, All, arith, Bool-cases,
}
use mit_distribution.Mr.Worker.{KeyValue, do_reduce}
use mit_distribution.Mr.Worker.Lists.{append_assoc, append-nil}
use mit_distribution.Mr.Worker.Groups.{
  groups, groups_from, reduce_all, groups_from_same, groups_from_other,
}
use mit_distribution.Mr.Worker.Reduces.{do_reduce_lem, eq_refl}

-- All values of a key, in order.
unfoldable pub values_of : String → List KeyValue → List String
values_of key [] = []
values_of key (kv ∷ kvs) =
    let rest = values_of key kvs in
    elim (str_eq kv.key key) [ true ↦ kv.value ∷ rest | false ↦ rest ]

unfoldable pub remove : String → List String → List String
remove key [] = []
remove key (k ∷ ks) =
    let rest = remove key ks in elim (str_eq k key) [ true ↦ rest | false ↦ k ∷ rest ]

-- The keys, each once.
unfoldable pub distinct : List KeyValue → List String
unfolding remove
distinct [] = []
distinct (kv ∷ kvs) = kv.key ∷ remove kv.key (distinct kvs)

-- No pair is less than one before it.
abbrev pub Sorted : (String → String → Bool) → List KeyValue → Type 0
Sorted less [] = Unit
Sorted less (kv ∷ kvs) =
    All (λ (later : KeyValue). less later.key kv.key ≡ false) kvs × Sorted less kvs

-- One entry for each key, with all of its values.
abbrev pub by_key : List KeyValue → List String → List (String × List String)
by_key kvs = map λ k. (k, values_of k kvs)

abbrev Absent : String → List KeyValue → Type 0
Absent key = All λ (kv : KeyValue). str_eq kv.key key ≡ false

values_of-Absent : (key : String) (kvs : List KeyValue) → Absent key kvs → values_of key kvs ≡ []
unfolding values_of
values_of-Absent key [] h = refl
values_of-Absent key (kv ∷ kvs) (here, there) = ground (arith, here, values_of-Absent key kvs there)

abbrev Missing : String → List String → Type 0
Missing key = All λ (k : String). str_eq k key ≡ false

remove-Missing : (key : String) (ks : List String) → Missing key ks → remove key ks ≡ ks
unfolding remove
remove-Missing key [] h = refl
remove-Missing key (k ∷ ks) (here, there) = ground (arith, here, remove-Missing key ks there)

Missing-remove :
    (key other : String) (ks : List String) → Missing key ks → Missing key (remove other ks)
unfolding remove
Missing-remove key other [] h = tt
Missing-remove key other (k ∷ ks) (here, there) =
    elim (str_eq k other)
      as (λ b. Missing key (elim b [ true ↦ remove other ks | false ↦ k ∷ remove other ks ])) [
        | true ↦ Missing-remove key other ks there
        | false ↦ (here, Missing-remove key other ks there)
      ]

Missing-distinct :
    (key : String) (kvs : List KeyValue) → Absent key kvs → Missing key (distinct kvs)
unfolding distinct
Missing-distinct key [] h = tt
Missing-distinct key (kv ∷ kvs) (here, there) =
    (here, Missing-remove key kv.key (distinct kvs) (Missing-distinct key kvs there))

remove-remove : (key : String) (ks : List String) → remove key (remove key ks) ≡ remove key ks
unfolding remove
remove-remove key [] = refl
remove-remove key (k ∷ ks) = ground (arith, remove-remove key ks)

same_key : (a b : String) → str_eq a b ≡ true → a ≡ b
same_key a b = (eq_iff a b).0

pub other_key : (a b : String) → a ≢ b → str_eq a b ≡ false
other_key a b h = elim (Bool-cases (str_eq a b)) [
  | inl same ↦ absurd (h (same_key a b same))
  | inr other ↦ other
]

pub distinct_keys : (a b : String) → str_eq a b ≡ false → a ≢ b
distinct_keys a b h e = absurd (ground (arith, h, (eq_iff a b).1 e))

-- A pair of another key does not count.
by_key-remove :
    (kv : KeyValue) (kvs : List KeyValue) (ks : List String)
    → by_key (kv ∷ kvs) (remove kv.key ks) ≡ by_key kvs (remove kv.key ks)
unfolding remove values_of
by_key-remove kv kvs [] = refl
by_key-remove kv kvs (k ∷ ks) = elim (Bool-cases (str_eq k kv.key)) [
  | inl same ↦ ground (arith, same, by_key-remove kv kvs ks)
  | inr other ↦ ground (
    arith,
    other,
    other_key kv.key k (λ e. distinct_keys k kv.key other (sym e)),
    by_key-remove kv kvs ks,
  )
]

values_of_same :
    (key : String) (kv : KeyValue) (kvs : List KeyValue)
    → str_eq kv.key key ≡ true
    → values_of key (kv ∷ kvs) ≡ kv.value ∷ values_of key kvs
unfolding values_of
values_of_same key kv kvs e = ground (arith, e)

remove-distinct_same :
    (key : String) (kv : KeyValue) (kvs : List KeyValue)
    → kv.key ≡ key
    → remove key (distinct (kv ∷ kvs)) ≡ remove key (distinct kvs)
unfolding remove distinct
remove-distinct_same key kv kvs e =
    subst (λ k. remove k (distinct (kv ∷ kvs)) ≡ remove k (distinct kvs)) e
      (ground (arith, eq_refl kv.key, remove-remove kv.key (distinct kvs)))

by_key-cons :
    (kv : KeyValue) (kvs : List KeyValue)
    → (kv.key, kv.value ∷ values_of kv.key kvs) ∷ by_key kvs (remove kv.key (distinct kvs))
      ≡ by_key (kv ∷ kvs) (distinct (kv ∷ kvs))
unfolding distinct
by_key-cons kv kvs =
    ap₂ (λ (t : List String) rest. (kv.key, t) ∷ rest)
      (sym (values_of_same kv.key kv kvs (eq_refl kv.key)))
      (sym (by_key-remove kv kvs (distinct kvs)))

reduce_all-by_key :
    (reducef : String → List String → String) (kvs : List KeyValue) (ks : List String)
    → reduce_all reducef (by_key kvs ks) ≡ map (λ k. (k, reducef k (values_of k kvs))) ks
reduce_all-by_key reducef kvs [] = refl
reduce_all-by_key reducef kvs (k ∷ ks) = cc (reduce_all-by_key reducef kvs ks)

module _ (less : String → String → Bool)
    (total : (a b : String) → less a b ≡ false → less b a ≡ false → a ≡ b) where
  -- A key that is neither the next one nor greater does not come again.
  never_again :
      (key : String) (kv : KeyValue) (kvs : List KeyValue)
      → kv.key ≢ key
      → less kv.key key ≡ false
      → All (λ (later : KeyValue). less later.key kv.key ≡ false) kvs
      → Absent key kvs
  never_again key kv [] other after later = tt
  never_again key kv (z ∷ zs) other after (here, there) = (
    other_key z.key key
        (λ e. other (total kv.key key after (subst (λ k. less k kv.key ≡ false) e here))),
    never_again key kv zs other after there,
  )

  groups_from-by_key :
      (key : String) (vs : List String) (kvs : List KeyValue)
      → All (λ (later : KeyValue). less later.key key ≡ false) kvs
      → Sorted less kvs
      → groups_from key vs kvs
        ≡ (key, vs ++ values_of key kvs) ∷ by_key kvs (remove key (distinct kvs))
  unfolding groups_from distinct values_of
  groups_from-by_key key vs [] after sorted =
      ap (λ (t : List String). (key, t) ∷ []) (sym (append-nil vs))
  groups_from-by_key key vs (kv ∷ kvs) (after, afters) (later, sorted) =
      elim (Bool-cases (str_eq kv.key key)) [
        | inl same ↦
            (let e : kv.key ≡ key = same_key kv.key key same in
              groups_from_same key vs kv kvs same
              ∙ groups_from-by_key key (vs ++ kv.value ∷ []) kvs afters sorted
              ∙ ap₂ (λ (t : List String) rest. (key, t) ∷ rest)
                  (append_assoc vs (kv.value ∷ []) (values_of key kvs)
                    ∙ ap (◌++◌ vs) (sym (values_of_same key kv kvs same)))
                  (subst
                      (λ k.
                        by_key kvs (remove k (distinct kvs))
                        ≡ by_key (kv ∷ kvs) (remove k (distinct kvs)))
                      e (sym (by_key-remove kv kvs (distinct kvs)))
                    ∙ ap (by_key (kv ∷ kvs)) (sym (remove-distinct_same key kv kvs e))))
        | inr other ↦
            (let absent : Absent key (kv ∷ kvs) =
                (other, never_again key kv kvs (distinct_keys kv.key key other) after later) in
              groups_from_other key vs kv kvs other
              ∙ ap₂ (λ (t : List String) rest. (key, t) ∷ rest)
                  (sym (append-nil vs)
                    ∙ ap (◌++◌ vs) (sym (values_of-Absent key (kv ∷ kvs) absent)))
                  (groups_from-by_key kv.key (kv.value ∷ []) kvs later sorted
                    ∙ by_key-cons kv kvs
                    ∙ ap (by_key (kv ∷ kvs)) (
                        sym (
                          remove-Missing key (distinct (kv ∷ kvs))
                            (Missing-distinct key (kv ∷ kvs) absent)))))
      ]

  groups-by_key : (kvs : List KeyValue) → Sorted less kvs → groups kvs ≡ by_key kvs (distinct kvs)
  unfolding groups distinct
  groups-by_key [] sorted = refl
  groups-by_key (kv ∷ kvs) (later, sorted) =
      groups_from-by_key kv.key (kv.value ∷ []) kvs later sorted ∙ by_key-cons kv kvs

  -- A reduce task that has read any pairs ends without a panic and writes one line for each key: what the
  -- reduce function makes of the key and all values of it, in their order after the sort. Sorting
  -- keeps the number of pairs, and leaves no pair less than one before it.
  pub one_line_per_key :
      (reducef : String → List String → String) (sort : List KeyValue → List KeyValue)
      (kvs : List KeyValue)
      → 0 < length kvs
      → length (sort kvs) ≡ length kvs
      → Sorted less (sort kvs)
      → do_reduce reducef sort kvs
        ≡ some (some (map (λ k. (k, reducef k (values_of k (sort kvs)))) (distinct (sort kvs))))
  one_line_per_key reducef sort kvs h same sorted =
      do_reduce_lem reducef sort kvs h same
      ∙ ap (λ gs. some (some (reduce_all reducef gs))) (groups-by_key (sort kvs) sorted)
      ∙ ap (λ ls. some (some ls)) (reduce_all-by_key reducef (sort kvs) (distinct (sort kvs)))
