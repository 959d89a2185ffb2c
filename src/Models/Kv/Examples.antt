-- ===== src/Models/Kv/Examples.antt =====
-- A history of two keys (src/models/kv.go).
use mathlib.Core.List.{Memᴰ}
use mit_distribution.Base.{◌≡◌, ◌↔◌, true, List, [], ◌∷◌}
use mit_distribution.Models.Kv.{KvInput, KvOutput, init, partition}
use mit_distribution.Models.Kv.Partition.{is_legal, is_legal_store, partition_iff}

abbrev two_keys : List (KvInput × KvOutput)
two_keys =
    (record { op = 1; key = "a"; value = "x" }, record { value = "" })
    ∷ (record { op = 2; key = "b"; value = "y" }, record { value = "" })
    ∷ (record { op = 0; key = "a"; value = "" }, record { value = "x" })
    ∷ []

abbrev input : KvInput × KvOutput → KvInput
input v = v.0

abbrev output : KvInput × KvOutput → KvOutput
output v = v.1

partition_iff_example : (is_legal_store input output (λ k. init) two_keys ≡ true) ↔ (
    (part : List (KvInput × KvOutput))
    → Memᴰ part (partition input (λ keys. keys) two_keys)
    → is_legal input output init part ≡ true)
partition_iff_example =
    partition_iff input output (λ keys. keys) two_keys (λ keys k. (λ m. m, λ m. m))
