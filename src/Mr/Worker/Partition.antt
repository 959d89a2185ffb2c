-- ===== src/Mr/Worker/Partition.antt =====
-- The intermediate files that `doMap` writes and `doReduce` reads (src/mr/worker.go).
use Prim.Native.String.{String}
use mathlib.Core.Option
use mit_distribution.Base.{
  ℕ, zero, suc, ◌%◌, ◌<◌, ◌≡◌, refl, sym, ap, ap₂, ◌∙◌, inl, inr, true, false, Option, none, some,
  List, [], ◌∷◌, ◌++◌, map, length, arith, Bool-cases, get_elem?, set, replicate, length-set,
  length-replicate, get_elem?-set_self, get_elem?-set_ne, get_elem?_of_lt, ◌==◌, if◌then◌else◌,
  ==→eq, eq→==,
}
use mit_distribution.Mr.Worker.{
  KeyValue, ihash, write_pair, write_pairs, do_map, read_file, read_files, gather,
}
use mit_distribution.Mr.Worker.Lists.{append_assoc, append-nil}

-- The pairs of one reduce task, in order.
unfoldable pub pairs_for : (String → ℕ) → ℕ → ℕ → List KeyValue → List KeyValue
pairs_for sum32 n_reduce t [] = []
pairs_for sum32 n_reduce t (kv ∷ kvs) =
    let rest = pairs_for sum32 n_reduce t kvs in
    if (ihash sum32 kv.key % n_reduce) == t then kv ∷ rest else rest

-- The files of one reduce task, one from each map task.
abbrev pub column : {J : Type 0} → ℕ → List (List (List J)) → List (List J)
column t [] = []
column t (files ∷ outs) = elim (get_elem? files t) [ none ↦ [] | some file ↦ file ] ∷ column t outs

-- A map task for each input file.
unfoldable pub map_all :
    {J : Type 0}
    → (KeyValue → J)
    → (String → ℕ)
    → (String → String → List KeyValue)
    → ℕ
    → List (String × String)
    → Option (List (List (List J)))
map_all encode sum32 mapf n_reduce [] = some []
map_all encode sum32 mapf n_reduce (input ∷ inputs) =
    elim (do_map encode sum32 mapf n_reduce input.0 input.1) [
      | none ↦ none
      | some files ↦ Option.map (◌∷◌ files) (map_all encode sum32 mapf n_reduce inputs)
    ]

nothing_more {ℓ} : {A : Type ℓ} (o : Option (List A)) → Option.map (λ file. file ++ []) o ≡ o
nothing_more none = refl
nothing_more (some file) = ap some (append-nil file)

get_elem?-replicate {ℓ} :
    {A : Type ℓ} (n : ℕ) (a : A) (t : ℕ) → t < n → get_elem? (replicate n a) t ≡ some a
get_elem?-replicate zero a t h = absurd (omega (arith, h))
get_elem?-replicate (suc n) a zero h = refl
get_elem?-replicate (suc n) a (suc t) h = get_elem?-replicate n a t (omega (arith, h))

pairs_for-append :
    (sum32 : String → ℕ) (n_reduce t : ℕ) (xs ys : List KeyValue)
    → pairs_for sum32 n_reduce t (xs ++ ys)
      ≡ pairs_for sum32 n_reduce t xs ++ pairs_for sum32 n_reduce t ys
unfolding pairs_for
pairs_for-append sum32 n_reduce t [] ys = refl
pairs_for-append sum32 n_reduce t (x ∷ xs) ys =
    ground (arith, pairs_for-append sum32 n_reduce t xs ys)

module _ {J : Type 0} (encode : KeyValue → J) (sum32 : String → ℕ) (n_reduce : ℕ) where
  -- The files hold what they held before, and behind it what was written to them.
  Written : List KeyValue → List (List J) → List (List J) → Type 0
  Written kvs files files' =
      (t : ℕ)
      → get_elem? files' t
        ≡ Option.map (λ file. file ++ map encode (pairs_for sum32 n_reduce t kvs))
            (get_elem? files t)

  pairs_for_own :
      (kv : KeyValue) (kvs : List KeyValue) (t : ℕ)
      → ((ihash sum32 kv.key % n_reduce) == t) ≡ true
      → pairs_for sum32 n_reduce t (kv ∷ kvs) ≡ kv ∷ pairs_for sum32 n_reduce t kvs
  unfolding pairs_for
  pairs_for_own kv kvs t e = ground (arith, e)

  pairs_for_other :
      (kv : KeyValue) (kvs : List KeyValue) (t : ℕ)
      → ((ihash sum32 kv.key % n_reduce) == t) ≡ false
      → pairs_for sum32 n_reduce t (kv ∷ kvs) ≡ pairs_for sum32 n_reduce t kvs
  unfolding pairs_for
  pairs_for_other kv kvs t e = ground (arith, e)

  write_pair_lem :
      (kv : KeyValue) (files : List (List J)) (file : List J)
      → 0 < n_reduce
      → get_elem? files (ihash sum32 kv.key % n_reduce) ≡ some file
      → write_pair encode sum32 n_reduce kv files
        ≡ some (set files (ihash sum32 kv.key % n_reduce) (file ++ encode kv ∷ []))
  unfolding write_pair
  write_pair_lem kv files file h there = ground (arith, there)

  -- Writing one pair, and then the rest.
  Written-cons :
      (kv : KeyValue) (kvs : List KeyValue) (files files' : List (List J)) (file : List J)
      → ihash sum32 kv.key % n_reduce < length files
      → get_elem? files (ihash sum32 kv.key % n_reduce) ≡ some file
      → Written kvs (set files (ihash sum32 kv.key % n_reduce) (file ++ encode kv ∷ [])) files'
      → Written (kv ∷ kvs) files files'
  unfolding Written
  Written-cons kv kvs files files' file lt there w t =
      let idx : ℕ = ihash sum32 kv.key % n_reduce in
      w t ∙ elim (Bool-cases (idx == t)) [
        | inl same ↦
            (let e : idx ≡ t = ==→eq idx t same in
              let before : get_elem? files t ≡ some file = ap (get_elem? files) (sym e) ∙ there in
              let after : get_elem? (set files idx (file ++ encode kv ∷ [])) t
                  ≡ some (file ++ encode kv ∷ []) =
                ap (get_elem? (set files idx (file ++ encode kv ∷ []))) (sym e)
                ∙ get_elem?-set_self files idx (file ++ encode kv ∷ []) lt in
              rw (after, before, pairs_for_own kv kvs t same)
                (ap some (
                  append_assoc file (encode kv ∷ [])
                    (map encode (pairs_for sum32 n_reduce t kvs)))))
        | inr other ↦
            (let after : get_elem? (set files idx (file ++ encode kv ∷ [])) t ≡ get_elem? files t =
                get_elem?-set_ne files idx t (file ++ encode kv ∷ [])
                  (λ e. absurd (ground (arith, other, eq→== idx t e))) in
              rw (after, pairs_for_other kv kvs t other) refl)
      ]

  -- Writing never panics, for there is a file for every task, and each pair goes to its task's file.
  write_pairs-Written :
      (kvs : List KeyValue) (files : List (List J))
      → 0 < n_reduce
      → length files ≡ n_reduce
      → (files' : List (List J)) × (write_pairs encode sum32 n_reduce kvs files ≡ some files')
        × (length files' ≡ n_reduce)
        × Written kvs files files'
  unfolding write_pairs Written pairs_for
  write_pairs-Written [] files h len =
      (files, refl, len, λ t. sym (nothing_more (get_elem? files t)))
  write_pairs-Written (kv ∷ kvs) files h len =
      let idx : ℕ = ihash sum32 kv.key % n_reduce in
      let lt : idx < length files = omega (arith, h, len) in
      let (file, there) = get_elem?_of_lt files idx lt in
      let files₁ : List (List J) = set files idx (file ++ encode kv ∷ []) in
      let (files', done, len', w) =
        write_pairs-Written kvs files₁ h (length-set files idx (file ++ encode kv ∷ []) ∙ len) in
      (
        files',
        rw (write_pair_lem kv files file h there, write_pairs) done,
        len',
        Written-cons kv kvs files files' file lt there w,
      )

  do_map_lem :
      (mapf : String → String → List KeyValue) (filename content : String)
      → 0 < n_reduce
      → (files : List (List J)) × (do_map encode sum32 mapf n_reduce filename content ≡ some files)
        × ((t : ℕ)
            → t < n_reduce
            → get_elem? files t
              ≡ some (map encode (pairs_for sum32 n_reduce t (mapf filename content))))
  unfolding do_map Written
  do_map_lem mapf filename content h =
      let (files, done, len, w) =
        write_pairs-Written (mapf filename content) (replicate n_reduce []) h
          (length-replicate n_reduce []) in
      (files, done, λ t lt. w t ∙ ap (Option.map _) (get_elem?-replicate n_reduce [] t lt))

  module _ (decode : J → Option KeyValue)
      (back : (kv : KeyValue) → decode (encode kv) ≡ some kv) where
    read_file-encode : (kvs : List KeyValue) → read_file decode (map encode kvs) ≡ kvs
    unfolding read_file
    read_file-encode [] = refl
    read_file-encode (kv ∷ kvs) = ground (arith, back kv, read_file-encode kvs)

    -- The map tasks of all input files, for at least one reduce task and with an encoding that decodes, end
    -- without a panic; and what a reduce task then reads from its files, taken in the order of the
    -- map tasks, are exactly the pairs of all inputs whose key hashes to the task, each once and in
    -- order.
    pub shuffle :
        (mapf : String → String → List KeyValue) (inputs : List (String × String))
        → 0 < n_reduce
        → (outs : List (List (List J))) × (map_all encode sum32 mapf n_reduce inputs ≡ some outs)
          × ((t : ℕ)
              → t < n_reduce
              → read_files decode (column t outs) ≡ pairs_for sum32 n_reduce t (gather mapf inputs))
    unfolding map_all read_files pairs_for
    shuffle mapf [] h = ([], refl, λ t lt. refl)
    shuffle mapf (input ∷ inputs) h =
        let (files, done, holds) = do_map_lem mapf input.0 input.1 h in
        let (outs, rest, holds') = shuffle mapf inputs h in
        (
          files ∷ outs,
          rw (done, rest, map_all) refl,
          λ t lt.
              rw (holds t lt, read_files)
                (ap₂ ◌++◌ (read_file-encode (pairs_for sum32 n_reduce t (mapf input.0 input.1)))
                    (holds' t lt)
                  ∙ sym (
                      pairs_for-append sum32 n_reduce t (mapf input.0 input.1)
                        (gather mapf inputs))),
        )
