-- ===== src/Mr/Protocol.antt =====
-- The loop of a worker (src/mr/worker.go, `Worker` with `CallforTask` and `CallforTaskFinish`) against
-- the master, where the calls arrive and no other worker's call comes between.
pub mod Reduces
use Prim.Native.String.{String}
use text.Mathlib.Text.{◌==◌ as str_eq}
use mathlib.Core.Option
use mit_distribution.Base.{
  ℕ, zero, suc, ◌≡◌, refl, true, ◌&&◌, not, Option, none, some, List, ◌≤◌, ◌==◌, if◌then◌else◌,
  get_elem?, set, get_elem?-set_self, get_elem?-set_ne, length-set, length,
}
use mit_distribution.Base.Maps.{insert}
use mit_distribution.Mr.Master.{
  TaskState, Master, MrArgs, MrReply, idle, finished, started, is_idle, give_task, give_reduce,
  next_reduce, task_finish,
}

-- The worker's number: the first reply brings it, and the worker ends if it does not.
unfoldable pub take_number : ℕ → MrReply → Option ℕ
take_number id reply =
    if id == 0 then (if reply.worker_id == 0 then none else some reply.worker_id) else some id

-- What the worker reports when it has done its task; with no task it sleeps.
unfoldable pub report : MrReply → Option MrArgs
report reply =
    if not (str_eq reply.task_name "") && (reply.task_type == 1)
    then some (record { task_type = 1; task_name = reply.task_name; worker_id = 0; task_id = 0 })
    else if reply.task_type == 2
    then some (record { task_type = 2; task_name = ""; worker_id = 0; task_id = reply.task_id })
    else none

-- `CallforTask`: the arguments.
abbrev pub task_request : ℕ → MrArgs
task_request id = record { task_type = 0; task_name = ""; worker_id = id; task_id = 0 }

-- One round of the loop; `none` is a fatal error or a panic.
unfoldable pub worker_round : ℕ → List String → ℕ → Master → Option (ℕ × Master)
unfolding take_number report
worker_round id order now m =
    let (m', reply) = give_task (task_request id) order now m in
    elim (take_number id reply) [
      | none ↦ none
      | some id' ↦ elim (report reply) [
        | none ↦ some (id', m')
        | some args ↦ Option.map (λ m''. (id', m'')) (task_finish args m')
      ]
    ]

-- The master after a round that does a map task.
abbrev after_map : ℕ → ℕ → String → Master → Master
after_map next now k m = record m {
  next_id = next;
  mmap = insert k finished (insert k started m.mmap);
  mstart = insert k now m.mstart;
}

pub idle_eq : (s : TaskState) → is_idle s ≡ true → s ≡ idle
idle_eq idle e = refl
idle_eq started e = absurd (cc)
idle_eq finished e = absurd (cc)
