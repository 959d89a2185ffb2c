-- ===== src/Mr/Master/Progress.antt =====
-- What the master does with single tasks (src/mr/master.go): which it hands out, which it takes back,
-- and that a job whose tasks are finished ends.
use Prim.Native.String.{String}
use text.Mathlib.TextEquality.{eq_iff}
use mit_distribution.Base.{
  ℕ, ◌+◌, ◌-◌, ◌<◌, ◌≡◌, refl, sym, subst, ◌⊎◌, inl, inr, true, false, ◌||◌, none, some, List, [],
  ◌∷◌, arith, Bool-cases, Option-cases, All,
}
use mit_distribution.Base.Maps.{contains, lookup, lookup_or, lookup-insert}
use mit_distribution.Mr.Master.{
  TaskState, idle, started, finished, is_idle, Master, MrArgs, MrReply, five_seconds, timed_out,
  next_map, next_reduce, m_is_finished, r_is_finished, assign_worker, give_map, give_reduce,
  give_task, done,
}
use mit_distribution.Mr.Master.Phases.{Covers}
use mit_distribution.Mr.Master.Phases.Loops.{AllFinished, r_is_finished-SameMaps}

next_map_idle :
    (order : List String) (tasks : List (String × TaskState)) (k : String)
    → next_map order tasks ≡ some k
    → lookup k tasks ≡ some idle
unfolding next_map
next_map_idle [] tasks k e = cc
next_map_idle (x ∷ order) tasks k e =
    ground (arith, Option-cases (lookup x tasks), next_map_idle order tasks k)

-- The loop changes a task only from started to idle, and only after five seconds.
m_is_finished_change :
    (order : List String) (now : ℕ) (m : Master) (k : String)
    → (lookup k (m_is_finished order now m).mmap ≡ lookup k m.mmap)
      ⊎ ((lookup k m.mmap ≡ some started)
          × (timed_out now (lookup_or 0 k m.mstart) ≡ true)
          × (lookup k (m_is_finished order now m).mmap ≡ some idle))
unfolding m_is_finished
m_is_finished_change [] now m k = inl refl
m_is_finished_change (x ∷ order) now m k = ground (
  arith,
  eq_iff x k,
  Option-cases (lookup x m.mmap),
  lookup-insert x k idle m.mmap,
  m_is_finished_change order now m k,
)

give_map_change :
    (order : List String) (now : ℕ) (m : Master) (reply : MrReply) (k : String)
    → (lookup k (give_map order now m reply).0.mmap ≡ lookup k m.mmap)
      ⊎ (((lookup k m.mmap ≡ some idle)
            × (lookup k (give_map order now m reply).0.mmap ≡ some started))
          ⊎ ((lookup k m.mmap ≡ some started)
              × (timed_out now (lookup_or 0 k m.mstart) ≡ true)
              × (lookup k (give_map order now m reply).0.mmap ≡ some idle)))
unfolding give_map
give_map_change order now m reply k = elim (Option-cases (next_map order m.mmap)) [
  | inl none_left ↦ rw (none_left, give_map) (ground (arith, m_is_finished_change order now m k))
  | inr (j, found) ↦
      rw (found, give_map)
        (ground
          (arith, eq_iff j k, next_map_idle order m.mmap j found, lookup-insert j k started m.mmap))
]

give_reduce-mmap :
    (now : ℕ) (m : Master) (reply : MrReply) → (give_reduce now m reply).0.mmap ≡ m.mmap
unfolding give_reduce
give_reduce-mmap now m reply =
    ground
      (arith, Option-cases (next_reduce 0 m.rtask), r_is_finished-SameMaps 0 m.rtask m.rstart now m)

-- A request for a task changes the state of a map task in two ways only: from not started to started,
-- and back if it was started, at a time that the master recorded, more than five seconds ago. So a
-- finished task stays finished, and is not handed out again.
pub give_task_change :
    (args : MrArgs) (order : List String) (now : ℕ) (m : Master) (k : String)
    → let before = lookup k m.mmap in
      let after = lookup k (give_task args order now m).0.mmap in
      let start = lookup_or 0 k m.mstart in
      (after ≡ before)
      ⊎ (((before ≡ some idle) × (after ≡ some started))
          ⊎ ((before ≡ some started)
              × (after ≡ some idle)
              × (0 < start)
              × (five_seconds < now - start)))
unfolding give_task assign_worker
give_task_change args order now m k =
    let a : Master = (assign_worker args m).0 in
    ground (
      arith,
      give_map_change order now (assign_worker args m).0 (assign_worker args m).1 k,
      give_reduce-mmap now (assign_worker args m).0 (assign_worker args m).1,
    )

next_map_found :
    (order : List String) (tasks : List (String × TaskState)) (k : String)
    → contains order k ≡ true
    → lookup k tasks ≡ some idle
    → (j : String) × (next_map order tasks ≡ some j)
unfolding next_map
next_map_found [] tasks k c e = absurd (cc)
next_map_found (x ∷ order) tasks k c e = elim (Bool-cases (is_idle (lookup_or finished x tasks))) [
  | inl here ↦ (x, rw here)
  | inr later ↦ rw later (next_map_found order tasks k (ground (arith, eq_iff x k, later, c, e)) e)
]

-- While a map task is not started and the map phase lasts, a request is answered with a map task that
-- was not started; it is then started, at the time of the request.
pub idle_map_given :
    (args : MrArgs) (order : List String) (now : ℕ) (m : Master) (k : String)
    → m.mdone ≡ false
    → Covers order m.mmap
    → lookup k m.mmap ≡ some idle
    → let m' = (give_task args order now m).0 in
      let reply = (give_task args order now m).1 in
      (reply.task_type ≡ 1)
      × (lookup reply.task_name m.mmap ≡ some idle)
      × (lookup reply.task_name m'.mmap ≡ some started)
      × (lookup reply.task_name m'.mstart ≡ some now)
unfolding give_task assign_worker give_map
idle_map_given args order now m k f cover e =
    let (j, found) = next_map_found order m.mmap k (cover k idle e) e in
    ground (
      arith,
      next_map_idle order m.mmap j found,
      lookup-insert j j started m.mmap,
      lookup-insert j j now m.mstart,
      eq_iff j j,
    )

next_map-none :
    (order : List String) (tasks : List (String × TaskState))
    → AllFinished tasks
    → next_map order tasks ≡ none
unfolding next_map
next_map-none [] tasks h = refl
next_map-none (x ∷ order) tasks h = elim (Option-cases (lookup x tasks)) [
  | inl missing ↦ ground (arith, missing, next_map-none order tasks h)
  | inr (s, there) ↦ ground (arith, there, h x s there, next_map-none order tasks h)
]

m_is_finished_end :
    (order : List String) (now : ℕ) (m : Master)
    → AllFinished m.mmap
    → m_is_finished order now m ≡ record m { mdone = true }
unfolding m_is_finished
m_is_finished_end [] now m h = refl
m_is_finished_end (x ∷ order) now m h = elim (Option-cases (lookup x m.mmap)) [
  | inl missing ↦ ground (arith, missing, m_is_finished_end order now m h)
  | inr (s, there) ↦ ground (arith, there, h x s there, m_is_finished_end order now m h)
]

next_reduce-none :
    (i : ℕ) (tasks : List TaskState) → All (λ s. s ≡ finished) tasks → next_reduce i tasks ≡ none
unfolding next_reduce
next_reduce-none i [] h = refl
next_reduce-none i (s ∷ tasks) h = ground (arith, h.0, next_reduce-none (i + 1) tasks h.1)

r_is_finished_end :
    (i : ℕ) (tasks : List TaskState) (starts : List ℕ) (now : ℕ) (m : Master)
    → All (λ s. s ≡ finished) tasks
    → r_is_finished i tasks starts now m ≡ record m { rdone = true }
unfolding r_is_finished
r_is_finished_end i [] starts now m h = refl
r_is_finished_end i (s ∷ tasks) [] now m h =
    ground (arith, h.0, r_is_finished_end (i + 1) tasks [] now m h.1)
r_is_finished_end i (s ∷ tasks) (t ∷ starts) now m h =
    ground (arith, h.0, r_is_finished_end (i + 1) tasks starts now m h.1)

record Polled (m m' : Master) : Type 0 where
  maps : m'.mmap ≡ m.mmap
  reduces : m'.rtask ≡ m.rtask
  maps_done : m'.mdone ≡ true
  reduces_done : m'.rdone ≡ (m.mdone || m.rdone)

give_map_end :
    (order : List String) (now : ℕ) (m : Master) (reply : MrReply)
    → AllFinished m.mmap
    → (give_map order now m reply).0 ≡ record m { mdone = true }
unfolding give_map
give_map_end order now m reply h =
    ground (arith, next_map-none order m.mmap h, m_is_finished_end order now m h)

give_reduce_end :
    (now : ℕ) (m : Master) (reply : MrReply)
    → All (λ s. s ≡ finished) m.rtask
    → (give_reduce now m reply).0 ≡ record m { rdone = true }
unfolding give_reduce
give_reduce_end now m reply h =
    ground (arith, next_reduce-none 0 m.rtask h, r_is_finished_end 0 m.rtask m.rstart now m h)

give_task-Polled :
    (args : MrArgs) (order : List String) (now : ℕ) (m : Master)
    → AllFinished m.mmap
    → All (λ s. s ≡ finished) m.rtask
    → Polled m (give_task args order now m).0
unfolding give_task assign_worker
give_task-Polled args order now m hm hr = ground (
  arith,
  give_map_end order now (assign_worker args m).0 (assign_worker args m).1,
  give_reduce_end now (assign_worker args m).0 (assign_worker args m).1,
)

-- Once every task is finished, two more requests, from any workers and at any times, end the job:
-- `Done` then reports so.
pub job_ends :
    (args₁ args₂ : MrArgs) (order₁ order₂ : List String) (t₁ t₂ : ℕ) (m : Master)
    → AllFinished m.mmap
    → All (λ s. s ≡ finished) m.rtask
    → done (give_task args₂ order₂ t₂ (give_task args₁ order₁ t₁ m).0).0 ≡ true
unfolding done
job_ends args₁ args₂ order₁ order₂ t₁ t₂ m hm hr =
    let p = give_task-Polled args₁ order₁ t₁ m hm hr in
    let q =
      give_task-Polled args₂ order₂ t₂ (give_task args₁ order₁ t₁ m).0
        (subst AllFinished (sym p.maps) hm) (subst (All (λ s. s ≡ finished)) (sym p.reduces) hr) in
    ground (arith, p, q)
