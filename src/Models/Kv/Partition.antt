-- ===== src/Models/Kv/Partition.antt =====
-- Checking a history key by key (src/models/kv.go).
use Prim.Native.String.{String, ◌++◌ as str_append}
use text.Mathlib.Text.{◌==◌ as str_eq}
use text.Mathlib.TextEquality.{eq_iff}
use mathlib.Core.List.{Memᴰ, append-nil, append_assoc}
use mathlib.Core.List.Memᴰ
use mit_distribution.Base.{
  ◌≡◌, refl, sym, ap, subst, ◌∙◌, ◌↔◌, inl, inr, Bool, true, false, ◌&&◌, some, List, [], ◌∷◌, ◌++◌,
  map, if◌then◌else◌, ◌==◌, Bool-cases, Option-cases, arith,
}
use mit_distribution.Base.Maps.{lookup, lookup_or, insert, lookup-insert}
use mit_distribution.Models.Kv.{KvInput, KvOutput, init, step, collect, partition}

same_key : (k : String) → str_eq k k ≡ true
same_key k = (eq_iff k k).1 refl

-- A store of all keys after one operation, with the test of its output.
unfoldable pub store_step : (String → String) → KvInput → KvOutput → Bool × (String → String)
store_step store inp out =
    let put = λ (v : String) (k : String). (if str_eq inp.key k then v else store k) in
    if inp.op == 0
    then (str_eq out.value (store inp.key), store)
    else if inp.op == 1
    then (true, put inp.value)
    else (true, put (str_append (store inp.key) inp.value))

module _ {A : Type 0} (input : A → KvInput) (output : A → KvOutput) where
  -- Are all outputs of the operations on one key right, one operation after the other?
  unfoldable pub is_legal : String → List A → Bool
  unfolding step
  is_legal st [] = true
  is_legal st (v ∷ history) =
      let (ok, st') = step st (input v) (output v) in ok && is_legal st' history

  -- The same for operations on all keys.
  unfoldable pub is_legal_store : (String → String) → List A → Bool
  unfolding store_step
  is_legal_store store [] = true
  is_legal_store store (v ∷ history) =
      let (ok, store') = store_step store (input v) (output v) in
      ok && is_legal_store store' history

  abbrev of_key : String → List A → List A
  of_key k [] = []
  of_key k (v ∷ history) =
      let rest = of_key k history in if str_eq (input v).key k then v ∷ rest else rest

  -- The store agrees with the model of one key, and leaves the others alone.
  store_step-same :
      (store : String → String) (inp : KvInput) (out : KvOutput)
      → ((store_step store inp out).0 ≡ (step (store inp.key) inp out).0)
        × ((store_step store inp out).1 inp.key ≡ (step (store inp.key) inp out).1)
  unfolding store_step step
  store_step-same store inp out = ground (arith, same_key inp.key)

  store_step-other :
      (store : String → String) (inp : KvInput) (out : KvOutput) (k : String)
      → str_eq inp.key k ≡ false
      → (store_step store inp out).1 k ≡ store k
  unfolding store_step
  store_step-other store inp out k other = ground (arith, other)

  module _ (v : A) (history : List A) (store : String → String) where
    abbrev next : String → String
    unfolding store_step
    next = (store_step store (input v) (output v)).1

    is_legal-same : is_legal (store (input v).key) (of_key (input v).key (v ∷ history)) ≡ (
        (store_step store (input v) (output v)).0
        && is_legal (next (input v).key) (of_key (input v).key history))
    unfolding is_legal next
    is_legal-same =
        let (ok, value) = store_step-same store (input v) (output v) in
        rw (same_key (input v).key, ok, value) refl

    is_legal-other :
        (k : String)
        → str_eq (input v).key k ≡ false
        → is_legal (store k) (of_key k (v ∷ history)) ≡ is_legal (next k) (of_key k history)
    unfolding is_legal next
    is_legal-other k other = rw (other, store_step-other store (input v) (output v) k other) refl

  is_legal_store_iff :
      (history : List A) (store : String → String)
      → (is_legal_store store history ≡ true)
        ↔ ((k : String) → is_legal (store k) (of_key k history) ≡ true)
  unfolding is_legal_store is_legal
  is_legal_store_iff [] store = (λ e k. refl, λ h. refl)
  is_legal_store_iff (v ∷ history) store =
      let key = (input v).key in
      let below = is_legal_store_iff history (next v history store) in
      let same = is_legal-same v history store in
      (
        λ e k. elim (Bool-cases (str_eq key k)) [
          | inl here ↦
              subst (λ x. is_legal (store x) (of_key x (v ∷ history)) ≡ true)
                ((eq_iff key k).0 here) (same ∙ ground (arith, e, below.0 (ground (arith, e)) key))
          | inr other ↦ is_legal-other v history store k other ∙ below.0 (ground (arith, e)) k
        ],
        λ h.
            (let now = sym same ∙ h key in
              let rest = below.1 (λ k. elim (Bool-cases (str_eq key k)) [
                | inl here ↦
                    subst (λ x. is_legal (next v history store x) (of_key x history) ≡ true)
                      ((eq_iff key k).0 here) (ground (arith, now))
                | inr other ↦ sym (is_legal-other v history store k other) ∙ h k
              ]) in
              ground (arith, now, rest)),
      )

  lookup_or-collect :
      (history : List A) (m : List (String × List A)) (k : String)
      → lookup_or [] k (collect input history m) ≡ lookup_or [] k m ++ of_key k history
  unfolding collect
  lookup_or-collect [] m k = sym (append-nil (lookup_or [] k m))
  lookup_or-collect (v ∷ history) m k =
      let key = (input v).key in
      let entries = lookup_or [] key m ++ (v ∷ []) in
      let below = lookup_or-collect history (insert key entries m) k in
      let written = lookup-insert key k entries m in
      elim (Bool-cases (str_eq key k)) [
        | inl here ↦
            (let now : lookup_or [] k (insert key entries m) ≡ entries =
                ground (arith, written, here) in
              let moved =
                ap (λ x. (lookup_or [] x m ++ (v ∷ [])) ++ of_key k history)
                  ((eq_iff key k).0 here) in
              below
              ∙ ap (λ t. t ++ of_key k history) now
              ∙ (rw here (moved ∙ append_assoc (lookup_or [] k m) (v ∷ []) (of_key k history))))
        | inr other ↦
            (let now : lookup_or [] k (insert key entries m) ≡ lookup_or [] k m =
                ground (arith, written, other) in
              below ∙ ap (λ t. t ++ of_key k history) now ∙ (rw other refl))
      ]

-- A key that is found is a key of the map.
Memᴰ-lookup :
    {V : Type 0} (m : List (String × V)) (k : String) (v : V)
    → lookup k m ≡ some v
    → Memᴰ k (map (λ (entry : String × V). entry.0) m)
unfolding lookup
Memᴰ-lookup [] k v e = absurd (ground (arith, e))
Memᴰ-lookup (entry ∷ m) k v e = elim (Bool-cases (str_eq entry.0 k)) [
  | inl here ↦ Memᴰ.head (sym ((eq_iff entry.0 k).0 here))
  | inr other ↦ Memᴰ.tail (Memᴰ-lookup m k v (ground (arith, e, other)))
]

-- A history is right, with each output as the store of all keys has it, exactly if each part of its partition
-- is right on its own, from the empty string on. The sort may put the keys in any order, but neither
-- drops nor adds one.
pub partition_iff :
    {A : Type 0} (input : A → KvInput) (output : A → KvOutput) (sort : List String → List String)
    (history : List A)
    → ((keys : List String) (k : String) → Memᴰ k (sort keys) ↔ Memᴰ k keys)
    → (is_legal_store input output (λ k. init) history ≡ true) ↔ (
        (part : List A)
        → Memᴰ part (partition input sort history)
        → is_legal input output init part ≡ true)
unfolding partition is_legal lookup
partition_iff {A} input output sort history sorts =
    let m = collect input history [] in
    let keys = map (λ (entry : String × List A). entry.0) m in
    let iff = is_legal_store_iff input output history (λ k. init) in
    let part_of : (k : String) → lookup_or [] k m ≡ of_key input output k history =
      λ k. lookup_or-collect input output history [] k in
    (
      λ e part there.
          (let (k, listed, is) = Memᴰ.of_map (λ k. lookup_or [] k m) (sort keys) there in
            subst (λ p. is_legal input output init p ≡ true) (sym (part_of k) ∙ is) (iff.0 e k)),
      λ h. iff.1 (λ k.
          subst (λ p. is_legal input output init p ≡ true) (part_of k)
            (elim (Option-cases (lookup k m)) [
              | inl never ↦
                  (let nothing : lookup_or [] k m ≡ [] = ground (arith, never) in
                    ap (is_legal input output init) nothing)
              | inr (part, found) ↦
                  h _ (
                    Memᴰ.map (λ k. lookup_or [] k m)
                      ((sorts keys k).1 (Memᴰ-lookup m k part found)))
            ])),
    )
