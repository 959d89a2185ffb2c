-- ===== src/Raft/Harness/Checks.antt =====
-- The checks of leaders and terms that tests make (src/raft/config.go). What `GetState` says of
-- each peer is an argument.
use mit_distribution.Base.{
  ℕ, zero, suc, Bool, true, ◌&&◌, not, Option, none, some, List, [], ◌∷◌, ◌++◌, length, update,
  if◌then◌else◌, ltb, ◌==◌,
}

-- The peers up to `m`, by term, that are attached and say that they lead.
unfoldable pub leaders_of : ℕ → (ℕ → Bool) → (ℕ → ℕ × Bool) → ℕ → List ℕ
leaders_of zero connected states = λ t. []
leaders_of (suc m) connected states =
    let leaders = leaders_of m connected states in
    let (term, leads) = states m in
    if connected m && leads then update leaders term (leaders term ++ (m ∷ [])) else leaders

-- The later of two terms; none is the initial -1.
abbrev pub later_term : Option ℕ → ℕ → ℕ
later_term none t = t
later_term (some u) t = if ltb u t then t else u

-- The loop over the terms of the map: `none` where a term has two leaders, else the last term. A last term of
-- `none` is the initial -1.
unfoldable pub last_term : List ℕ → (ℕ → List ℕ) → Option ℕ → Option (Option ℕ)
last_term [] leaders last = some last
last_term (t ∷ terms) leaders last =
    let rest = last_term terms leaders (some (later_term last t)) in
    if ltb 1 (length (leaders t)) then none else rest

-- One turn of `checkOneLeader`: the test fails, the next turn follows, or there is a leader.
pub data Round : Type 0 where
  fatal : Round
  again : Round
  found : ℕ → Round

-- What a turn sees: the states, and the terms of its map in the order in which Go ranges over them.
pub record Sight : Type 0 where
  pub states : ℕ → ℕ × Bool
  pub terms : List ℕ

unfoldable pub round_of : ℕ → (ℕ → Bool) → Sight → Round
unfolding leaders_of last_term
round_of n connected sight =
    let leaders = leaders_of n connected sight.states in
    elim (last_term sight.terms leaders none) [
      | none ↦ fatal
      | some last ↦ elim last [
        | none ↦ again
        | some t ↦ elim (leaders t) [ [] ↦ fatal | i ∷ rest ↦ found i ]
      ]
    ]

-- `checkOneLeader`, with what each of its turns sees; `none` is a fatal error.
unfoldable pub check_one_leader : ℕ → (ℕ → Bool) → List Sight → Option ℕ
unfolding round_of
check_one_leader n connected [] = none
check_one_leader n connected (sight ∷ sights) =
    let rest = check_one_leader n connected sights in
    elim (round_of n connected sight) [ fatal ↦ none | again ↦ rest | found i ↦ some i ]

-- `checkTerms` on the peers up to `m`: a term of `none` is the initial -1.
unfoldable pub check_terms : ℕ → (ℕ → Bool) → (ℕ → ℕ × Bool) → Option (Option ℕ)
check_terms zero connected states = some none
check_terms (suc m) connected states = elim (check_terms m connected states) [
  | none ↦ none
  | some term ↦
      (let (xterm, leads) = states m in
        if connected m
        then elim term [
          | none ↦ some (some xterm)
          | some t ↦ (if t == xterm then some (some t) else none)
        ]
        else some term)
]

-- `checkNoLeader` on the peers up to `m`: does it end without an error?
unfoldable pub check_no_leader : ℕ → (ℕ → Bool) → (ℕ → ℕ × Bool) → Bool
check_no_leader zero connected states = true
check_no_leader (suc m) connected states =
    let (term, leads) = states m in check_no_leader m connected states && not (connected m && leads)
