-- ===== src/Mr/Worker/Examples.antt =====
-- A small job, and the theorems about src/mr/worker.go and src/main/mrsequential.go at it.
use Prim.Native.String.{String}
use text.Mathlib.Text.{◌==◌ as str_eq}
use text.Mathlib.TextEquality.{eq_iff}
use mit_distribution.Base.{
  ℕ, ◌<◌, ◌≡◌, refl, sym, ap, inl, inr, Bool, false, not, ◌&&◌, some, List, [], ◌∷◌, map, arith,
  Bool-cases, ltb, ◌==◌, if◌then◌else◌, length,
}
use mit_distribution.Mr.Apps.{count_map, count_reduce, words_of, fields_func, split_words}
use mit_distribution.Mr.Apps.WordCount.{occurrences, word_count}
use mit_distribution.Mr.Worker.{KeyValue, do_reduce, sequential, read_files, gather}
use mit_distribution.Mr.Worker.Groups.{groups, reduce_all}
use mit_distribution.Mr.Worker.Reduces.{sequential_lem}
use mit_distribution.Mr.Worker.Sorted.{
  other_key, distinct_keys, one_line_per_key, values_of, distinct,
}
use mit_distribution.Mr.Worker.Partition.{pairs_for, column, map_all, shuffle}

abbrev pair : String → String → KeyValue
pair k v = record { key = k; value = v }

abbrev words : List KeyValue
words = pair "a" "1" ∷ pair "a" "2" ∷ pair "b" "3" ∷ []

-- The first value of a key.
abbrev first_value : String → List String → String
first_value key [] = key
first_value key (v ∷ vs) = v

abbrev file_words : String → String → List KeyValue
file_words name content = pair content name ∷ pair "b" name ∷ []

abbrev two_files : List (String × String)
two_files = ("f", "a") ∷ ("g", "b") ∷ []

-- An order of the keys in which "b" is not less than "a".
abbrev before : String → String → Bool
before a b = not (str_eq a b) && not (str_eq a "b" && str_eq b "a")

before-total : (a b : String) → before a b ≡ false → before b a ≡ false → a ≡ b
before-total a b h h' = elim (Bool-cases (str_eq a b)) [
  | inl same ↦ (eq_iff a b).0 same
  | inr other ↦
      (let swapped : str_eq b a ≡ false = other_key b a (λ e. distinct_keys a b other (sym e)) in
        elim (Bool-cases (str_eq a "b")) [
          | inl is_b ↦
              (let e : a ≡ "b" = (eq_iff a "b").0 is_b in
                let not_a : str_eq a "a" ≡ false = ap (λ k. str_eq k "a") e in
                absurd (ground (arith, h', swapped, not_a)))
          | inr not_b ↦ absurd (ground (arith, h, other, not_b))
        ])
]

one_line_per_key_example :
    do_reduce first_value (λ kvs. kvs) words
    ≡ some (some (map (λ k. (k, first_value k (values_of k words))) (distinct words)))
one_line_per_key_example =
    one_line_per_key before before-total first_value (λ kvs. kvs) words (omega arith) refl
      ((refl, (refl, tt)), ((refl, tt), (tt, tt)))

sequential_lem_example :
    sequential file_words first_value (λ kvs. kvs) two_files
    ≡ some (reduce_all first_value (groups (gather file_words two_files)))
sequential_lem_example = sequential_lem first_value file_words (λ kvs. kvs) two_files

shuffle_example :
    (outs : List (List (List KeyValue))) × (map_all (λ kv. kv) (λ k. 5) file_words 2 two_files
      ≡ some outs)
    × ((t : ℕ)
        → t < 2
        → read_files some (column t outs) ≡ pairs_for (λ k. 5) 2 t (gather file_words two_files))
shuffle_example = shuffle (λ kv. kv) (λ k. 5) 2 some (λ kv. refl) file_words two_files (omega arith)

-- Insertion sort by that order.
abbrev insert_pair : KeyValue → List KeyValue → List KeyValue
insert_pair kv [] = kv ∷ []
insert_pair kv (x ∷ xs) =
    let rest = insert_pair kv xs in if before x.key kv.key then x ∷ rest else kv ∷ x ∷ xs

abbrev sort_pairs : List KeyValue → List KeyValue
sort_pairs [] = []
sort_pairs (kv ∷ kvs) = insert_pair kv (sort_pairs kvs)

abbrev is_lower : ℕ → Bool
is_lower c = ltb 96 c && ltb c 123

abbrev digit : ℕ → String
digit n = if n == 1 then "1" else if n == 2 then "2" else "?"

sort_pairs-values_of :
    (w : String)
    → length (values_of w (sort_pairs (count_map is_lower "f" "a b, a")))
      ≡ length (values_of w (count_map is_lower "f" "a b, a"))
unfolding count_map words_of fields_func split_words values_of
sort_pairs-values_of w = elim (Bool-cases (str_eq "a" w)) [
  | inl is_a ↦ elim (Bool-cases (str_eq "b" w)) [
    | inl is_b ↦ ground (arith, is_a, is_b)
    | inr no_b ↦ ground (arith, is_a, no_b)
  ]
  | inr no_a ↦ elim (Bool-cases (str_eq "b" w)) [
    | inl is_b ↦ ground (arith, no_a, is_b)
    | inr no_b ↦ ground (arith, no_a, no_b)
  ]
]

word_count_example :
    do_reduce (count_reduce digit) sort_pairs (count_map is_lower "f" "a b, a")
    ≡ some (
        some (
          map
            (λ w. (w, digit (occurrences w (words_of is_lower "a b, a"))))
            (distinct (sort_pairs (count_map is_lower "f" "a b, a")))))
unfolding count_map words_of fields_func split_words
word_count_example =
    word_count before before-total is_lower digit sort_pairs "f" "a b, a" (omega arith) refl
      sort_pairs-values_of ((refl, (refl, tt)), ((refl, tt), (tt, tt)))
