-- ===== src/Models/Kv.antt =====
-- The model that key/value histories are checked against (src/models/kv.go). An operation of the checker
-- enters as any type whose values have an input and an output.
pub mod Partition
mod Examples
use Prim.Native.String.{String, ◌++◌ as str_append}
use text.Mathlib.Text.{◌==◌ as str_eq}
use mit_distribution.Base.{ℕ, Bool, true, List, [], ◌∷◌, ◌++◌, map, if◌then◌else◌, ◌==◌}
use mit_distribution.Base.Maps.{lookup_or, insert}

-- `type KvInput struct`: the operation 0 is get, 1 is put, any other appends.
pub record KvInput : Type 0 where
  pub op : ℕ
  pub key : String
  pub value : String

-- `type KvOutput struct`
pub record KvOutput : Type 0 where
  pub value : String

-- `Init`
unfoldable pub init : String
init = ""

-- `Step`: is the output right, and the new value?
unfoldable pub step : String → KvInput → KvOutput → Bool × String
step st inp out =
    if inp.op == 0
    then (str_eq out.value st, st)
    else if inp.op == 1
    then (true, inp.value)
    else (true, str_append st inp.value)

module _ {A : Type 0} (input : A → KvInput) where
  -- The first loop of `Partition`.
  unfoldable pub collect : List A → List (String × List A) → List (String × List A)
  unfolding insert
  collect [] m = m
  collect (v ∷ history) m =
      let key = (input v).key in collect history (insert key (lookup_or [] key m ++ (v ∷ [])) m)

  -- `Partition`; the sort is a parameter, and gets the keys of the map.
  unfoldable pub partition : (List String → List String) → List A → List (List A)
  unfolding collect
  partition sort history =
      let m = collect history [] in
      map (λ k. lookup_or [] k m) (sort (map (λ (entry : String × List A). entry.0) m))
