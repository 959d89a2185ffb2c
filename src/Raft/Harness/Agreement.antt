-- ===== src/Raft/Harness/Agreement.antt =====
-- Waiting for agreement (src/raft/config.go): `wait` and `one`. What is seen of the configuration and of the clock at
-- each turn of a loop is an argument; times are in milliseconds.
use mit_distribution.Base.{
  ℕ, zero, suc, ◌+◌, ◌%◌, Bool, false, ◌&&◌, ◌||◌, not, Option, none, some, List, [], ◌∷◌,
  if◌then◌else◌, ltb, leb,
}
use mit_distribution.Raft.Harness.{Config}
use mit_distribution.Raft.Harness.Apply.{n_committed}

-- One turn of `wait`: the configuration, and after the sleep the terms that `GetState` gives.
pub record Turn (A : Type 0) : Type 0 where
  pub cfg : Config A
  pub terms : List ℕ

-- How `wait` ends: with the command, with -1 because a peer has moved on, or with a fatal error.
pub data Waiting (A : Type 0) : Type 0 where
  committed : Option A → Waiting A
  moved_on : Waiting A
  fails : Waiting A

abbrev pub is_later : ℕ → List ℕ → Bool
is_later start_term [] = false
is_later start_term (t ∷ terms) = ltb start_term t || is_later start_term terms

-- How the search of a round of `one` for agreement on an index ends: it finds it, the two seconds are over, it
-- fails, or it still goes on.
pub data Looking : Type 0 where
  agreed : Looking
  gave_up : Looking
  clash : Looking
  looks_on : Looking

-- How `one` ends: with the index, or with a fatal error; or it still goes on.
pub data Agreement : Type 0 where
  reached : ℕ → Agreement
  failed : Agreement
  going_on : Agreement

-- The loop of `one` over the servers, for the remaining number of them: the last server that was tried, and the index that
-- `Start` gave.
unfoldable pub try_starts : (n left starts : ℕ) → (ℕ → Bool) → (ℕ → Option ℕ) → ℕ × Option ℕ
try_starts n zero starts is_ready start = (starts, none)
try_starts n (suc left) starts is_ready start =
    let next = (starts + 1) % n in
    let rest = try_starts n left next is_ready start in
    elim (start next) [
      | none ↦ rest
      | some index ↦ (if is_ready next then (next, some index) else rest)
    ]

-- One round of `one`: the time since its start; which servers are connected and have a Raft instance, and what `Start`
-- gives there if it says that the server leads; the times since then and what is seen at them.
pub record Attempt (A : Type 0) : Type 0 where
  pub n : ℕ
  pub since : ℕ
  pub is_ready : ℕ → Bool
  pub start : ℕ → Option ℕ
  pub looks : List (ℕ × Config A)

module _ {A : Type 0} (same : A → A → Bool) where
  -- What `wait` does after its loop.
  unfoldable pub end_wait : (index n : ℕ) → Config A → Waiting A
  unfolding n_committed
  end_wait index n last = elim (n_committed same last.n index last.logs) [
    | none ↦ fails
    | some (nd, cmd) ↦ (if ltb nd n then fails else committed cmd)
  ]

  -- `wait`, where `turns` has its 30 turns and `last` is what is seen after the loop. A start term of `none` is
  -- negative.
  unfoldable pub wait : (index n : ℕ) → Option ℕ → List (Turn A) → Config A → Waiting A
  unfolding n_committed end_wait
  wait index n start_term [] last = end_wait index n last
  wait index n start_term (turn ∷ turns) last =
      let rest = wait index n start_term turns last in
      elim (n_committed same turn.cfg.n index turn.cfg.logs) [
        | none ↦ fails
        | some (nd, cmd) ↦
            (if leb n nd then end_wait index n last else elim start_term [
              | none ↦ rest
              | some t ↦ (if is_later t turn.terms then moved_on else rest)
            ])
      ]

  -- Is the command that `nCommitted` gives the one that was submitted?
  abbrev pub is_command : A → Option A → Bool
  is_command cmd none = false
  is_command cmd (some v) = same v cmd

  -- The inner loop of `one`.
  unfoldable pub look_for : (cmd : A) → (expected index : ℕ) → List (ℕ × Config A) → Looking
  unfolding n_committed
  look_for cmd expected index [] = looks_on
  look_for cmd expected index (look ∷ looks) =
      let (elapsed, cfg) = look in
      let rest = look_for cmd expected index looks in
      if not (ltb elapsed 2000) then gave_up else elim (n_committed same cfg.n index cfg.logs) [
        | none ↦ clash
        | some (nd, cmd₁) ↦
            (if ltb 0 nd && leb expected nd && is_command cmd cmd₁ then agreed else rest)
      ]

  -- `one`, from the server after `starts` on.
  unfoldable pub one : A → (expected : ℕ) → Bool → (starts : ℕ) → List (Attempt A) → Agreement
  unfolding try_starts look_for
  one cmd expected retry starts [] = going_on
  one cmd expected retry starts (a ∷ attempts) =
      if not (ltb a.since 10000)
      then failed
      else (let (starts', found) = try_starts a.n a.n starts a.is_ready a.start in
          let rest = one cmd expected retry starts' attempts in
          elim found [
            | none ↦ rest
            | some index ↦ elim (look_for cmd expected index a.looks) [
              | agreed ↦ reached index
              | gave_up ↦ (if retry then rest else failed)
              | clash ↦ failed
              | looks_on ↦ going_on
            ]
          ])
