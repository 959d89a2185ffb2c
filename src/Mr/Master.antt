-- ===== src/Mr/Master.antt =====
-- The master of a MapReduce job (src/mr/master.go, src/mr/rpc.go): the state of its tasks and its two
-- RPC handlers. Each handler holds the lock throughout, so it is one function of the state. The
-- order in which Go ranges over the map of tasks is an argument, the list of its keys; so is the
-- time, in nanoseconds, where 0 is Go's zero time. `none` is a panic.
pub mod Phases
pub mod Progress
use Prim.Native.String.{String}
use mathlib.Core.Option
use mit_distribution.Base.{
  ℕ, zero, suc, ◌+◌, ◌-◌, Bool, true, false, ◌&&◌, not, Option, none, some, List, [], ◌∷◌,
  get_elem?, set, replicate, if◌then◌else◌, ltb, ◌==◌,
}
use mit_distribution.Base.Maps.{lookup, lookup_or, insert}

-- `-1 未开始 1开始 2完成`: not started, started, finished.
pub data TaskState : Type 0 where
  idle started finished : TaskState

abbrev pub is_idle : TaskState → Bool
is_idle idle = true
is_idle started = false
is_idle finished = false

abbrev pub is_started : TaskState → Bool
is_started idle = false
is_started started = true
is_started finished = false

abbrev pub is_finished : TaskState → Bool
is_finished idle = false
is_finished started = false
is_finished finished = true

-- `type Master struct`
pub record Master : Type 0 where
  pub mmap : List (String × TaskState)
  pub rtask : List TaskState
  pub n_reduce : ℕ
  pub next_id : ℕ
  pub mdone : Bool
  pub rdone : Bool
  pub f2id : List (String × ℕ)
  pub mstart : List (String × ℕ)
  pub rstart : List ℕ

-- `type MrArgs struct`; `task_type` is 1 for map and 2 for reduce.
pub record MrArgs : Type 0 where
  pub task_type : ℕ
  pub task_name : String
  pub worker_id : ℕ
  pub task_id : ℕ

-- `type MrReply struct`
pub record MrReply : Type 0 where
  pub task_name : String
  pub n_reduce : ℕ
  pub worker_id : ℕ
  pub task_id : ℕ
  pub task_type : ℕ
  pub map_id : ℕ

abbrev pub empty_reply : MrReply
empty_reply = record {
  task_name = "";
  n_reduce = 0;
  worker_id = 0;
  task_id = 0;
  task_type = 0;
  map_id = 0;
}

abbrev pub five_seconds : ℕ
five_seconds = 5_000_000_000

-- `!start.IsZero() && now.Sub(start) > 5*time.Second`
abbrev pub timed_out : ℕ → ℕ → Bool
timed_out now start = not (start == 0) && ltb five_seconds (now - start)

-- The handler `TaskFinish`. A map task may have any name; the number of a reduce task must be in range.
unfoldable pub task_finish : MrArgs → Master → Option Master
task_finish args m =
    if args.task_type == 1
    then some (record m { mmap = insert args.task_name finished m.mmap })
    else if args.task_type == 2
    then Option.map (λ _. record m { rtask = set m.rtask args.task_id finished })
        (get_elem? m.rtask args.task_id)
    else some m

-- The first map task in the order that is not started.
unfoldable pub next_map : List String → List (String × TaskState) → Option String
next_map [] tasks = none
next_map (k ∷ order) tasks =
    if is_idle (lookup_or finished k tasks) then some k else next_map order tasks

-- The first reduce task, from number `i` on, that is not started.
unfoldable pub next_reduce : ℕ → List TaskState → Option ℕ
next_reduce i [] = none
next_reduce i (s ∷ tasks) = if is_idle s then some i else next_reduce (i + 1) tasks

-- The loop of `mIsFinished`: it stops at the first task that is not finished, and takes that one back
-- if it was started too long ago.
unfoldable pub m_is_finished : List String → ℕ → Master → Master
m_is_finished [] now m = record m { mdone = true }
m_is_finished (k ∷ order) now m =
    let s = lookup_or finished k m.mmap in
    let rest = m_is_finished order now m in
    if is_finished s
    then rest
    else if is_started s && timed_out now (lookup_or 0 k m.mstart)
    then record m { mmap = insert k idle m.mmap; mstart = insert k 0 m.mstart }
    else m

-- The loop of `rIsFinished`, over the reduce tasks from number `i` on.
unfoldable pub r_is_finished : ℕ → List TaskState → List ℕ → ℕ → Master → Master
r_is_finished i [] starts now m = record m { rdone = true }
r_is_finished i (s ∷ tasks) [] now m =
    if is_finished s then r_is_finished (i + 1) tasks [] now m else m
r_is_finished i (s ∷ tasks) (t ∷ starts) now m =
    let rest = r_is_finished (i + 1) tasks starts now m in
    if is_finished s
    then rest
    else if is_started s && timed_out now t
    then record m { rtask = set m.rtask i idle; rstart = set m.rstart i 0 }
    else m

-- The first lines of `GiveTask`: a worker that has no number yet gets the next one.
unfoldable pub assign_worker : MrArgs → Master → Master × MrReply
assign_worker args m =
    if args.worker_id == 0
    then (record m { next_id = m.next_id + 1 }, record empty_reply { worker_id = m.next_id })
    else (m, empty_reply)

-- The map phase of `GiveTask`.
unfoldable pub give_map : List String → ℕ → Master → MrReply → Master × MrReply
give_map order now m reply = elim (next_map order m.mmap) [
  | some k ↦ (
    record m { mmap = insert k started m.mmap; mstart = insert k now m.mstart },
    record reply {
      task_name = k;
      map_id = lookup_or 0 k m.f2id;
      task_type = 1;
      n_reduce = m.n_reduce;
    },
  )
  | none ↦ (m_is_finished order now m, reply)
]

-- The reduce phase of `GiveTask`.
unfoldable pub give_reduce : ℕ → Master → MrReply → Master × MrReply
give_reduce now m reply = elim (next_reduce 0 m.rtask) [
  | some i ↦ (
    record m { rtask = set m.rtask i started; rstart = set m.rstart i now },
    record reply { task_id = i; task_type = 2; n_reduce = m.n_reduce },
  )
  | none ↦ (r_is_finished 0 m.rtask m.rstart now m, reply)
]

-- The handler `GiveTask`. One order serves for both loops over the map tasks, where Go ranges anew in `mIsFinished`.
unfoldable pub give_task : MrArgs → List String → ℕ → Master → Master × MrReply
give_task args order now m =
    let (m', reply) = assign_worker args m in
    if not m'.mdone
    then give_map order now m' reply
    else if not m'.rdone
    then give_reduce now m' reply
    else (m', reply)

-- `Done`
unfoldable pub done : Master → Bool
done m = m.mdone && m.rdone

-- `for _, v := range files { m.mmap[v] = -1 }`
unfoldable pub idle_tasks : List String → List (String × TaskState) → List (String × TaskState)
idle_tasks [] tasks = tasks
idle_tasks (f ∷ files) tasks = idle_tasks files (insert f idle tasks)

-- `for i, v := range files { m.f2id[v] = i }`
unfoldable pub number_files : ℕ → List String → List (String × ℕ) → List (String × ℕ)
number_files i [] ids = ids
number_files i (f ∷ files) ids = number_files (i + 1) files (insert f i ids)

-- `MakeMaster`, without the start of the server.
unfoldable pub make_master : List String → ℕ → Master
unfolding idle_tasks number_files
make_master files n_reduce = record {
  mmap = idle_tasks files [];
  rtask = replicate n_reduce idle;
  n_reduce = n_reduce;
  next_id = 1;
  mdone = false;
  rdone = false;
  f2id = number_files 0 files [];
  mstart = [];
  rstart = replicate n_reduce 0;
}
