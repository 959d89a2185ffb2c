-- ===== src/Mr/Examples.antt =====
-- A small job, and the theorems about src/mr/master.go at it.
use Prim.Native.String.{String}
use mit_distribution.Base.{
  ℕ, ◌<◌, ◌≤◌, ◌≡◌, ◌≢◌, refl, get_elem?, true, false, some, List, [], ◌∷◌, arith, All, length,
}
use mit_distribution.Mr.Protocol.{worker_round}
use mit_distribution.Mr.Protocol.Reduces.{round_reduces}
use mit_distribution.Base.Maps.{contains, lookup, insert}
use mit_distribution.Mr.Master.{
  TaskState, idle, finished, Master, MrArgs, task_finish, next_map, next_reduce, m_is_finished,
  r_is_finished, give_map, give_reduce, assign_worker, give_task, done, make_master,
}
use mit_distribution.Mr.Master.Phases.{
  Covers, Reach, made, finishes, gives, done_finished, reduce_after_maps,
}

abbrev one_file : List String
one_file = "pg" ∷ []

abbrev poll : MrArgs
poll = record { task_type = 0; task_name = ""; worker_id = 7; task_id = 0 }

abbrev map_report : MrArgs
map_report = record { task_type = 1; task_name = "pg"; worker_id = 7; task_id = 0 }

abbrev reduce_report : MrArgs
reduce_report = record { task_type = 2; task_name = ""; worker_id = 7; task_id = 0 }

-- The map task reported, and the map phase found done.
abbrev mapped : Master
mapped = record {
  mmap = ("pg", finished) ∷ [];
  rtask = idle ∷ [];
  n_reduce = 1;
  next_id = 1;
  mdone = true;
  rdone = false;
  f2id = ("pg", 0) ∷ [];
  mstart = [];
  rstart = 0 ∷ [];
}

single-Covers : (s : TaskState) → Covers one_file (("pg", s) ∷ [])
unfolding lookup
single-Covers s k t e = ground arith

made-Reach : Reach one_file 1 (make_master one_file 1)
made-Reach = made

reported : Master
reported = record mapped { mdone = false }

reported-Reach : Reach one_file 1 reported
unfolding task_finish make_master insert reported
reported-Reach = finishes map_report made refl

mapped-Reach : Reach one_file 1 mapped
unfolding reported give_task assign_worker give_map next_map m_is_finished lookup
mapped-Reach = gives poll one_file 10 reported-Reach (single-Covers finished)

finished_job : Master
finished_job = record mapped { rtask = finished ∷ []; rdone = true }

finished_job-Reach : Reach one_file 1 finished_job
unfolding task_finish finished_job give_task assign_worker give_reduce next_reduce r_is_finished
finished_job-Reach =
    gives poll one_file 20
      (finishes {m' = record mapped { rtask = finished ∷ [] }} reduce_report mapped-Reach refl)
      (single-Covers finished)

done_finished_example :
    ((f : String) → contains one_file f ≡ true → lookup f finished_job.mmap ≡ some finished)
    × All (λ s. s ≡ finished) finished_job.rtask
    × (length finished_job.rtask ≡ 1)
unfolding finished_job done
done_finished_example = done_finished finished_job finished_job-Reach refl

reduce_after_maps_example : lookup "pg" mapped.mmap ≡ some finished
unfolding give_task assign_worker give_reduce next_reduce
reduce_after_maps_example = reduce_after_maps mapped poll one_file 20 mapped-Reach refl "pg" refl

abbrev waiting : Master
waiting = record mapped { mmap = ("pg", idle) ∷ []; mdone = false }

round_reduces_example :
    (i : ℕ) × (id' : ℕ) × (m' : Master) × (i ≤ 0)
    × (get_elem? mapped.rtask i ≡ some idle)
    × (worker_round 7 one_file 20 mapped ≡ some (id', m'))
    × (0 < id')
    × (get_elem? m'.rtask i ≡ some finished)
    × ((other : ℕ) → i ≢ other → get_elem? m'.rtask other ≡ get_elem? mapped.rtask other)
round_reduces_example = round_reduces 7 one_file 20 mapped 0 (omega arith) refl refl refl
