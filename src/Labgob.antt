-- ===== src/Labgob.antt =====
-- The checks of types before encoding and decoding (src/labgob/labgob.go). Go's types are numbers,
-- and reflection is a table of them.
pub mod Sums
pub mod Search
mod Examples
use Prim.Native.String.{String}
use mit_distribution.Base.{
  ℕ, zero, suc, ◌+◌, Bool, true, false, Option, none, some, List, [], ◌∷◌, update, if◌then◌else◌,
}

-- A field of a struct: is the first rune of its name upper-case, and its type.
pub record Field : Type 0 where
  pub is_upper : Bool
  pub type_of : ℕ

-- The kinds that `checkType` tells apart; `elem` is a slice, an array or a pointer.
pub data Kind : Type 0 where
  struct : List Field → Kind
  elem_of : ℕ → Kind
  map_of : (elem key : ℕ) → Kind
  plain : Kind

-- The package's variables.
pub record State : Type 0 where
  pub error_count : ℕ
  pub checked : ℕ → Bool

abbrev pub empty_state : State
empty_state = record { error_count = 0; checked = λ t. false }

unfoldable pub complain : Field → State → State
complain f s = if f.is_upper then s else record s { error_count = s.error_count + 1 }

-- The loop over the fields of a struct, with the recursive call.
unfoldable pub check_fields : (ℕ → State → Option State) → List Field → State → Option State
unfolding complain
check_fields check [] s = some s
check_fields check (f ∷ fields) s = elim (check f.type_of (complain f s)) [
  | none ↦ none
  | some s' ↦ check_fields check fields s'
]

-- The `switch` of `checkType`, with the recursive call.
unfoldable pub check_kind : (ℕ → State → Option State) → Kind → State → Option State
unfolding check_fields
check_kind check (struct fields) s = check_fields check fields s
check_kind check (elem_of e) s = check e s
check_kind check (map_of e k) s = elim (check e s) [ none ↦ none | some s' ↦ check k s' ]
check_kind check plain s = some s

-- `checkType`; the fuel bounds the depth of the recursion.
unfoldable pub check_type : (ℕ → Kind) → ℕ → ℕ → State → Option State
unfolding check_kind
check_type kind zero t s = none
check_type kind (suc fuel) t s = elim (s.checked t) [
  | true ↦ some s
  | false ↦
      check_kind (check_type kind fuel) (kind t) (record s { checked = update s.checked t true })
]

-- A value, as `checkDefault1` sees it: values are numbered too. `basic` is a Boolean, a number or a string.
pub data Value : Type 0 where
  fields_of : List ℕ → Value
  pointer : Option ℕ → Value
  basic : (is_zero : Bool) → Value
  opaque : Value

unfoldable pub default_fields : (ℕ → State → State) → List ℕ → State → State
default_fields check [] s = s
default_fields check (v ∷ fields) s = default_fields check fields (check v s)

-- `checkDefault1` with the given number of levels below it: at the depth `d` of the source, `4 - d`. The
-- warning is printed for the first error only.
unfoldable pub check_default1 : (ℕ → Value) → ℕ → ℕ → State → State
unfolding default_fields
check_default1 value zero v s = s
check_default1 value (suc levels) v s = elim (value v) [
  | fields_of fields ↦ default_fields (check_default1 value levels) fields s
  | pointer target ↦ elim target [ none ↦ s | some w ↦ check_default1 value levels w s ]
  | basic is_zero ↦ (if is_zero then s else record s { error_count = s.error_count + 1 })
  | opaque ↦ s
]

-- `checkDefault`, on a value that may be nil.
unfoldable pub check_default : (ℕ → Value) → Option ℕ → State → State
unfolding check_default1
check_default value none s = s
check_default value (some v) s = check_default1 value 3 v s

-- What `Decode` checks before it decodes into the value `v` of the type `t`.
unfoldable pub decode_checks :
    (ℕ → Kind) → (ℕ → Value) → (fuel t : ℕ) → Option ℕ → State → Option State
unfolding check_type check_default
decode_checks kind value fuel t v s = elim (check_type kind fuel t s) [
  | none ↦ none
  | some s' ↦ some (check_default value v s')
]
