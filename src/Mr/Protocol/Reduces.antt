-- ===== src/Mr/Protocol/Reduces.antt =====
-- A round of a worker's loop (src/mr/worker.go) that does a reduce task of the master (src/mr/master.go).
use Prim.Native.String.{String}
use mit_distribution.Base.{
  ℕ, zero, suc, ◌<◌, ◌≡◌, ◌≢◌, ap, ◌∙◌, ◌+◌, inl, inr, Bool-cases, true, false, some, List, [], ◌∷◌,
  ◌≤◌, arith, ◌==◌, if◌then◌else◌, get_elem?, set, get_elem?-set_self, get_elem?-set_ne, length-set,
  length,
}
use mit_distribution.Mr.Master.{
  TaskState, Master, idle, finished, started, is_idle, give_task, give_reduce, assign_worker,
  next_reduce, task_finish,
}
use mit_distribution.Mr.Protocol.{worker_round, idle_eq}

next_reduce-range :
    (i : ℕ) (tasks : List TaskState) (j : ℕ)
    → next_reduce i tasks ≡ some j
    → (i ≤ j) × (j < i + length tasks)
unfolding next_reduce
next_reduce-range i [] j e = absurd (cc)
next_reduce-range i (s ∷ tasks) j e = ground (arith, next_reduce-range (i + 1) tasks j)

-- The master after a round that does a reduce task.
abbrev after_reduce : ℕ → ℕ → ℕ → Master → Master
after_reduce next now i m = record m {
  next_id = next;
  rtask = set (set m.rtask i started) i finished;
  rstart = set m.rstart i now;
}

reduce_round_lem :
    (id : ℕ) (order : List String) (now : ℕ) (m : Master) (i : ℕ) (t : TaskState)
    → 0 < m.next_id
    → m.mdone ≡ true
    → m.rdone ≡ false
    → next_reduce 0 m.rtask ≡ some i
    → get_elem? (set m.rtask i started) i ≡ some t
    → worker_round id order now m
      ≡ some (
          if id == 0
          then (m.next_id, after_reduce (m.next_id + 1) now i m)
          else (id, after_reduce m.next_id now i m))
unfolding worker_round give_task give_reduce assign_worker task_finish
reduce_round_lem id order now m i t numbered maps phase next there = elim (Bool-cases (id == 0)) [
  | inl first ↦ ground (arith, maps, phase, next, numbered, first, there)
  | inr again ↦ ground (arith, maps, phase, next, again, there)
]

-- A round that finds a reduce task to do.
reduce_round_result :
    (id : ℕ) (order : List String) (now : ℕ) (m : Master) (i : ℕ)
    → 0 < m.next_id
    → m.mdone ≡ true
    → m.rdone ≡ false
    → next_reduce 0 m.rtask ≡ some i
    → (id' : ℕ) × (m' : Master) × (worker_round id order now m ≡ some (id', m'))
      × (0 < id')
      × (get_elem? m'.rtask i ≡ some finished)
      × ((other : ℕ) → i ≢ other → get_elem? m'.rtask other ≡ get_elem? m.rtask other)
reduce_round_result id order now m i numbered maps phase next =
    let (low, high) = next_reduce-range 0 m.rtask i next in
    let within : i < length m.rtask = omega (arith, high) in
    let there = get_elem?-set_self m.rtask i started within in
    let done =
      get_elem?-set_self (set m.rtask i started) i finished
        (omega (arith, within, length-set m.rtask i started)) in
    let kept : (other : ℕ)
        → i ≢ other
        → get_elem? (set (set m.rtask i started) i finished) other ≡ get_elem? m.rtask other =
      λ other h.
        get_elem?-set_ne (set m.rtask i started) i other finished h
        ∙ get_elem?-set_ne m.rtask i other started h in
    elim (Bool-cases (id == 0)) [
      | inl first ↦ (
        m.next_id,
        after_reduce (m.next_id + 1) now i m,
        reduce_round_lem id order now m i started numbered maps phase next there
            ∙ ground (arith, first),
        numbered,
        done,
        kept,
      )
      | inr again ↦ (
        id,
        after_reduce m.next_id now i m,
        reduce_round_lem id order now m i started numbered maps phase next there
            ∙ ground (arith, again),
        ground (arith, again),
        done,
        kept,
      )
    ]

-- The search finds the first task that is not started.
next_reduce_lem :
    (i : ℕ) (tasks : List TaskState) (j : ℕ)
    → get_elem? tasks j ≡ some idle
    → (j' : ℕ) × (next_reduce i tasks ≡ some (i + j')) × (j' ≤ j) × (get_elem? tasks j' ≡ some idle)
unfolding next_reduce
next_reduce_lem i [] j e = absurd (ground (arith, e))
next_reduce_lem i (s ∷ tasks) zero e = (0, ground (arith, e), omega arith, e)
next_reduce_lem i (s ∷ tasks) (suc j) e = elim (Bool-cases (is_idle s)) [
  | inl found ↦ (0, ground (arith, found), omega arith, ap some (idle_eq s found))
  | inr busy ↦
      (let (j', next, le, state) = next_reduce_lem (i + 1) tasks j e in
        let shift : (i + 1) + j' ≡ i + suc j' = omega arith in
        (suc j', ground (arith, busy, next, shift), omega (arith, le), state))
]

-- Once the map phase is over and the reduce phase lasts, while a reduce task is not started, a round of a worker
-- takes a reduce task that is not started, none with a higher number, and ends with that task finished, every
-- other reduce task as it was, and the worker numbered. The master's worker numbers begin above 0.
pub round_reduces :
    (id : ℕ) (order : List String) (now : ℕ) (m : Master) (waiting : ℕ)
    → 0 < m.next_id
    → m.mdone ≡ true
    → m.rdone ≡ false
    → get_elem? m.rtask waiting ≡ some idle
    → (i : ℕ) × (id' : ℕ) × (m' : Master) × (i ≤ waiting)
      × (get_elem? m.rtask i ≡ some idle)
      × (worker_round id order now m ≡ some (id', m'))
      × (0 < id')
      × (get_elem? m'.rtask i ≡ some finished)
      × ((other : ℕ) → i ≢ other → get_elem? m'.rtask other ≡ get_elem? m.rtask other)
round_reduces id order now m waiting numbered maps phase waits =
    let (i, next, le, state) = next_reduce_lem 0 m.rtask waiting waits in
    let (id', m', ran, given, done, kept) =
      reduce_round_result id order now m i numbered maps phase (next ∙ ap some (omega arith)) in
    (i, id', m', le, state, ran, given, done, kept)
