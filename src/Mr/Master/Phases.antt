-- ===== src/Mr/Master/Phases.antt =====
-- The phases of a job (src/mr/master.go): what `mdone` and `rdone` say in every state that a master
-- reaches, whatever its workers report and in whatever order it ranges over its tasks.
pub mod Loops
mod Invariant
pub use Invariant.{Covers, Reach, made, finishes, gives}
use Invariant.{Inv, Reach-Inv}
use Prim.Native.String.{String}
use mit_distribution.Base.{
  ℕ, ◌+◌, ◌≡◌, ◌≢◌, refl, sym, ap, ◌∙◌, ◌⊎◌, inl, inr, Bool, true, false, not, Option, none, some,
  List, [], ◌∷◌, arith, Bool-cases, Option-cases, length, All, if◌then◌else◌,
}
use mit_distribution.Base.Maps.{contains, lookup}
use mit_distribution.Mr.Master.{
  TaskState, finished, Master, MrArgs, MrReply, next_map, assign_worker, give_map, give_reduce,
  give_task, done,
}

give_map-type :
    (order : List String) (now : ℕ) (m : Master) (reply : MrReply)
    → ((give_map order now m reply).1.task_type ≡ 1)
      ⊎ ((give_map order now m reply).1.task_type ≡ reply.task_type)
unfolding give_map
give_map-type order now m reply = ground (arith, Option-cases (next_map order m.mmap))

-- Only the second phase hands out reduce tasks.
give_task_reduces :
    (args : MrArgs) (order : List String) (now : ℕ) (m : Master)
    → (give_task args order now m).1.task_type ≡ 2
    → m.mdone ≡ true
unfolding give_task assign_worker
give_task_reduces args order now m e =
    ground (arith, give_map-type order now (assign_worker args m).0 (assign_worker args m).1)

module _ {files : List String} {n_reduce : ℕ} where
  maps_finished :
      (m : Master)
      → Inv files n_reduce m
      → m.mdone ≡ true
      → (f : String) → contains files f ≡ true
      → lookup f m.mmap ≡ some finished
  maps_finished m v d f h = elim (Option-cases (lookup f m.mmap)) [
    | inl missing ↦ absurd (v.kept f h missing)
    | inr (s, e) ↦ e ∙ ap some (v.maps_done d f s e)
  ]

  -- When `Done` reports the job finished, the map task of every input file is finished, and so are
  -- all the reduce tasks, of which there are as many as were asked for. This holds for any reports and
  -- requests of the workers, and for any order in which the master ranges over its map of tasks.
  pub done_finished :
      (m : Master)
      → Reach files n_reduce m
      → done m ≡ true
      → ((f : String) → contains files f ≡ true → lookup f m.mmap ≡ some finished)
        × All (λ s. s ≡ finished) m.rtask
        × (length m.rtask ≡ n_reduce)
  unfolding done
  done_finished m r d =
      let v = Reach-Inv r in
      let reduces : m.rdone ≡ true = ground arith in
      (maps_finished m v (v.ordered reduces), v.reduces_done reduces, v.reduces)

  -- A reduce task is handed out only once the map task of every input file is finished.
  pub reduce_after_maps :
      (m : Master) (args : MrArgs) (order : List String) (now : ℕ)
      → Reach files n_reduce m
      → (give_task args order now m).1.task_type ≡ 2
      → (f : String) → contains files f ≡ true
      → lookup f m.mmap ≡ some finished
  reduce_after_maps m args order now r e =
      maps_finished m (Reach-Inv r) (give_task_reduces args order now m e)
