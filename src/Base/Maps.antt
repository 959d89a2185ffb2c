-- ===== src/Base/Maps.antt =====
-- Go's maps with string keys, as association lists that hold each key once.
use Prim.Native.String.{String}
use mathlib.Core.Path.{◌≡◌, refl}
use mathlib.Core.Bool.{Bool, false, ◌||◌}
use mathlib.Core.Option.{Option, none, some}
use mathlib.Core.List.{List, [], ◌∷◌}
use text.Mathlib.Text.{◌==◌ as str_eq}
use text.Mathlib.TextEquality.{eq_iff}
use native.Mathlib.Omega.{arith}
use mit_distribution.Base.Tests.{if◌then◌else◌}

abbrev pub contains : List String → String → Bool
contains [] k = false
contains (x ∷ xs) k = str_eq x k || contains xs k

-- `m[key]`, with the presence of the key.
unfoldable pub lookup {ℓ} : {V : Type ℓ} → String → List (String × V) → Option V
lookup key [] = none
lookup key (entry ∷ rest) = if str_eq entry.0 key then some entry.1 else lookup key rest

-- `m[key]`, where a missing key reads as the zero value of the type.
abbrev pub lookup_or {ℓ} : {V : Type ℓ} → V → String → List (String × V) → V
lookup_or zero_value key m = elim (lookup key m) [ some found ↦ found | none ↦ zero_value ]

-- `m[key] = value`: the entry of the key is replaced, or a new one added at the end.
unfoldable pub insert {ℓ} : {V : Type ℓ} → String → V → List (String × V) → List (String × V)
insert key value [] = (key, value) ∷ []
insert key value (entry ∷ rest) =
    let tail = insert key value rest in
    if str_eq entry.0 key then (entry.0, value) ∷ rest else entry ∷ tail

-- A read after a write sees the value written under its own key, and else what was there before.
pub lookup-insert {ℓ} :
    {V : Type ℓ} (key other : String) (value : V) (m : List (String × V))
    → lookup other (insert key value m) ≡ (if str_eq key other then some value else lookup other m)
unfolding insert lookup
lookup-insert key other value [] = refl
lookup-insert key other value (entry ∷ rest) = ground (
  arith,
  lookup-insert key other value rest,
  eq_iff key other,
  eq_iff entry.0 other,
  eq_iff entry.0 key,
)
