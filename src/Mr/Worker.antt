-- ===== src/Mr/Worker.antt =====
-- A MapReduce worker (src/mr/worker.go) and the sequential version (src/main/mrsequential.go). The
-- map and reduce functions, the sort, the hash and the JSON encoding are parameters. A line of output
-- is a key and what the reduce function made of its values. `none` is a panic or a fatal error.
pub mod Lists
pub mod Groups
pub mod Reduces
pub mod Sorted
pub mod Partition
mod Examples
use Prim.Native.String.{String}
use mathlib.Core.Option
use text.Mathlib.Text.{◌==◌ as str_eq}
use mit_distribution.Base.{
  ℕ, zero, suc, ◌+◌, ◌-◌, ◌%◌, Bool, true, false, Option, none, some, List, [], ◌∷◌, ◌++◌, map,
  get_elem?, set, replicate, take, drop, length, if◌then◌else◌, ltb, ◌==◌,
}

-- `type KeyValue struct`
pub record KeyValue : Type 0 where
  pub key : String
  pub value : String

-- `for j := k; j < i; j++ { values = append(values, kvbox[j].Value) }`
abbrev pub values_between : List KeyValue → ℕ → ℕ → List String
values_between kvbox k i = map (λ (kv : KeyValue). kv.value) (take (i - k) (drop k kvbox))

-- The line for the keys from `k` on, up to `i`.
unfoldable pub reduce_range :
    (String → List String → String) → List KeyValue → ℕ → ℕ → Option (String × String)
reduce_range reducef kvbox k i = elim (get_elem? kvbox k) [
  | none ↦ none
  | some first ↦ some (first.key, reducef first.key (values_between kvbox k i))
]

-- The loop of `doReduce`; the list is `kvbox` from `i` on, and `out` what has been printed. The result
-- has the last `k`.
unfoldable pub group_loop :
    (String → List String → String)
    → List KeyValue
    → (k i : ℕ) → List KeyValue
    → List (String × String)
    → Option (ℕ × List (String × String))
unfolding reduce_range
group_loop reducef kvbox k i [] out = some (k, out)
group_loop reducef kvbox k i (kv ∷ rest) out = elim (get_elem? kvbox k) [
  | none ↦ none
  | some first ↦ elim (str_eq kv.key first.key) [
    | true ↦ group_loop reducef kvbox k (i + 1) rest out
    | false ↦ elim (reduce_range reducef kvbox k i) [
      | none ↦ none
      | some line ↦ group_loop reducef kvbox i (i + 1) rest (out ++ line ∷ [])
    ]
  ]
]

-- `doReduce` on the pairs that it has read: the lines of its output file, if it writes one.
unfoldable pub do_reduce :
    (String → List String → String)
    → (List KeyValue → List KeyValue)
    → List KeyValue
    → Option (Option (List (String × String)))
unfolding group_loop reduce_range
do_reduce reducef sort [] = some none
do_reduce reducef sort (kv ∷ kvs) =
    let kvbox : List KeyValue = sort (kv ∷ kvs) in
    elim (group_loop reducef kvbox 0 0 kvbox []) [
      | none ↦ none
      | some (k, out) ↦
          Option.map (λ line. some (out ++ line ∷ [])) (reduce_range reducef kvbox k (length kvbox))
    ]

-- The inner loop of the sequential version: the list is the pairs from `j` on.
unfoldable pub run_end : KeyValue → List KeyValue → ℕ → ℕ
run_end first [] j = j
run_end first (kv ∷ rest) j = elim (str_eq kv.key first.key) [
  | true ↦ run_end first rest (j + 1)
  | false ↦ j
]

-- The outer loop, on fuel.
unfoldable pub sequential_loop :
    ℕ
    → (String → List String → String)
    → List KeyValue
    → ℕ
    → List (String × String)
    → Option (List (String × String))
unfolding run_end
sequential_loop zero reducef kvs i out = none
sequential_loop (suc fuel) reducef kvs i out = elim (get_elem? kvs i) [
  | none ↦ some out
  | some first ↦
      (let j : ℕ = run_end first (drop (i + 1) kvs) (i + 1) in
        sequential_loop fuel reducef kvs j
          (out ++ (first.key, reducef first.key (values_between kvs i j)) ∷ []))
]

-- The pairs of all the input files.
abbrev pub gather : (String → String → List KeyValue) → List (String × String) → List KeyValue
gather mapf [] = []
gather mapf (file ∷ files) = mapf file.0 file.1 ++ gather mapf files

-- `main` of the sequential version, on the contents of the input files.
unfoldable pub sequential :
    (String → String → List KeyValue)
    → (String → List String → String)
    → (List KeyValue → List KeyValue)
    → List (String × String)
    → Option (List (String × String))
unfolding sequential_loop
sequential mapf reducef sort inputs =
    let kvs : List KeyValue = sort (gather mapf inputs) in
    sequential_loop (length kvs + 1) reducef kvs 0 []

-- `ihash`: the 31 low bits of the 32-bit FNV-1a hash, which is a parameter.
abbrev pub ihash : (String → ℕ) → String → ℕ
ihash sum32 key = sum32 key % 2_147_483_648

-- `enc.Encode(&kv)` appends to the file of the pair's reduce task. `ihash(kv.Key)%reply.NReduce` panics for
-- no tasks.
unfoldable pub write_pair :
    {J : Type 0}
    → (KeyValue → J)
    → (String → ℕ)
    → ℕ
    → KeyValue
    → List (List J)
    → Option (List (List J))
write_pair encode sum32 n_reduce kv files =
    if n_reduce == 0 then none else elim (get_elem? files (ihash sum32 kv.key % n_reduce)) [
      | none ↦ none
      | some file ↦ some (set files (ihash sum32 kv.key % n_reduce) (file ++ encode kv ∷ []))
    ]

unfoldable pub write_pairs :
    {J : Type 0}
    → (KeyValue → J)
    → (String → ℕ)
    → ℕ
    → List KeyValue
    → List (List J)
    → Option (List (List J))
unfolding write_pair
write_pairs encode sum32 n_reduce [] files = some files
write_pairs encode sum32 n_reduce (kv ∷ kvs) files =
    elim (write_pair encode sum32 n_reduce kv files) [
      | none ↦ none
      | some files' ↦ write_pairs encode sum32 n_reduce kvs files'
    ]

-- `doMap` on the content of its input file: the intermediate files by reduce task.
unfoldable pub do_map :
    {J : Type 0}
    → (KeyValue → J)
    → (String → ℕ)
    → (String → String → List KeyValue)
    → ℕ
    → String
    → String
    → Option (List (List J))
unfolding write_pairs
do_map encode sum32 mapf n_reduce filename content =
    write_pairs encode sum32 n_reduce (mapf filename content) (replicate n_reduce [])

-- The decoder's loop stops at the first value that does not decode.
unfoldable pub read_file : {J : Type 0} → (J → Option KeyValue) → List J → List KeyValue
read_file decode [] = []
read_file decode (x ∷ xs) = elim (decode x) [ none ↦ [] | some kv ↦ kv ∷ read_file decode xs ]

-- The pairs of all the files that `doReduce` finds.
unfoldable pub read_files : {J : Type 0} → (J → Option KeyValue) → List (List J) → List KeyValue
unfolding read_file
read_files decode [] = []
read_files decode (file ∷ files) = read_file decode file ++ read_files decode files
