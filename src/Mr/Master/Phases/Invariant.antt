-- ===== src/Mr/Master/Phases/Invariant.antt =====
-- The invariant of a master's state (src/mr/master.go), kept by each handler.
use Prim.Native.String.{String}
use text.Mathlib.Text.{◌==◌ as str_eq}
use mit_distribution.Base.{
  ℕ, zero, suc, ◌≡◌, ◌≢◌, refl, sym, ap, subst, ◌==◌, ◌∙◌, ◌⊎◌, inl, inr, true, false, none, some,
  List, [], ◌∷◌, arith, Bool-cases, Option-cases, get_elem?, set, length, All, length-set,
  length-replicate,
}
use mit_distribution.Base.Maps.{contains, lookup, insert, lookup-insert}
use mit_distribution.Mr.Master.{
  TaskState, idle, started, finished, Master, MrArgs, MrReply, task_finish, next_map, next_reduce,
  m_is_finished, r_is_finished, assign_worker, give_map, give_reduce, give_task, idle_tasks,
  make_master,
}
use mit_distribution.Mr.Master.Phases.Loops.{
  AllFinished, insert-keeps, insert-AllFinished, m_is_finished_done, m_is_finished_mmap,
  m_is_finished_keeps, m_is_finished-SameReduces, r_is_finished-SameMaps, r_is_finished_lengths,
  r_is_finished_done,
}

-- A range over the map meets every key.
abbrev pub Covers : List String → List (String × TaskState) → Type 0
Covers order tasks =
    (k : String) (s : TaskState) → lookup k tasks ≡ some s → contains order k ≡ true

-- The states of a master that was made for these files and this number of reduce tasks.
pub data Reach (files : List String) (n_reduce : ℕ) : Master → Type 0 where
  made : Reach files n_reduce (make_master files n_reduce)
  finishes :
      {m m' : Master} (args : MrArgs)
      → Reach files n_reduce m
      → task_finish args m ≡ some m'
      → Reach files n_reduce m'
  gives :
      {m : Master} (args : MrArgs) (order : List String) (now : ℕ)
      → Reach files n_reduce m
      → Covers order m.mmap
      → Reach files n_reduce (give_task args order now m).0

pub record Inv (files : List String) (n_reduce : ℕ) (m : Master) : Type 0 where
  pub maps_done : m.mdone ≡ true → AllFinished m.mmap
  pub reduces_done : m.rdone ≡ true → All (λ s. s ≡ finished) m.rtask
  pub ordered : m.rdone ≡ true → m.mdone ≡ true
  pub kept : (f : String) → contains files f ≡ true → lookup f m.mmap ≢ none
  pub reduces : length m.rtask ≡ n_reduce
  pub starts : length m.rstart ≡ n_reduce

make_master-lookup :
    (files : List String) (f : String) (tasks : List (String × TaskState))
    → (contains files f ≡ true) ⊎ (lookup f tasks ≢ none)
    → lookup f (idle_tasks files tasks) ≢ none
unfolding idle_tasks
make_master-lookup [] f tasks (inl h) = cc
make_master-lookup [] f tasks (inr h) = h
make_master-lookup (x ∷ files) f tasks (inl h) = elim (Bool-cases (str_eq x f)) [
  | inl same ↦
      make_master-lookup files f (insert x idle tasks)
        (inr λ e. ground (arith, same, lookup-insert x f idle tasks))
  | inr other ↦ make_master-lookup files f (insert x idle tasks) (inl (ground arith))
]
make_master-lookup (x ∷ files) f tasks (inr h) =
    make_master-lookup files f (insert x idle tasks) (inr (insert-keeps x f idle tasks h))

All-set :
    (i : ℕ) (tasks : List TaskState)
    → All (λ s. s ≡ finished) tasks
    → All (λ s. s ≡ finished) (set tasks i finished)
All-set i [] h = tt
All-set zero (s ∷ tasks) h = (refl, h.1)
All-set (suc i) (s ∷ tasks) h = (h.0, All-set i tasks h.1)

assign_worker-mmap : (args : MrArgs) (m : Master) → (assign_worker args m).0.mmap ≡ m.mmap
unfolding assign_worker
assign_worker-mmap args m = ground arith

task_finish_cases :
    (args : MrArgs) (m m' : Master)
    → task_finish args m ≡ some m'
    → (m' ≡ record m { mmap = insert args.task_name finished m.mmap })
      ⊎ ((m' ≡ record m { rtask = set m.rtask args.task_id finished }) ⊎ (m' ≡ m))
unfolding task_finish
task_finish_cases args m m' e = ground (arith, Option-cases (get_elem? m.rtask args.task_id))

module _ {files : List String} {n_reduce : ℕ} where
  make_master-Inv : Inv files n_reduce (make_master files n_reduce)
  unfolding make_master
  make_master-Inv = record {
    maps_done = λ e. absurd (cc);
    reduces_done = λ e. absurd (cc);
    ordered = λ e. absurd (cc);
    kept = λ f h. make_master-lookup files f [] (inl h);
    reduces = length-replicate n_reduce idle;
    starts = length-replicate n_reduce 0;
  }

  finish_map-Inv :
      (k : String) (m : Master)
      → Inv files n_reduce m
      → Inv files n_reduce (record m { mmap = insert k finished m.mmap })
  finish_map-Inv k m v = record {
    maps_done = λ d. insert-AllFinished k m.mmap (v.maps_done d);
    reduces_done = v.reduces_done;
    ordered = v.ordered;
    kept = λ f h. insert-keeps k f finished m.mmap (v.kept f h);
    reduces = v.reduces;
    starts = v.starts;
  }

  finish_reduce-Inv :
      (i : ℕ) (m : Master)
      → Inv files n_reduce m
      → Inv files n_reduce (record m { rtask = set m.rtask i finished })
  finish_reduce-Inv i m v = record {
    maps_done = v.maps_done;
    reduces_done = λ d. All-set i m.rtask (v.reduces_done d);
    ordered = v.ordered;
    kept = v.kept;
    reduces = length-set m.rtask i finished ∙ v.reduces;
    starts = v.starts;
  }

  task_finish-Inv :
      (args : MrArgs) (m m' : Master)
      → Inv files n_reduce m
      → task_finish args m ≡ some m'
      → Inv files n_reduce m'
  task_finish-Inv args m m' v e = elim (task_finish_cases args m m' e) [
    | inl q ↦ subst (Inv files n_reduce) (sym q) (finish_map-Inv args.task_name m v)
    | inr (inl q) ↦ subst (Inv files n_reduce) (sym q) (finish_reduce-Inv args.task_id m v)
    | inr (inr q) ↦ subst (Inv files n_reduce) (sym q) v
  ]

  assign_worker-Inv :
      (args : MrArgs) (m : Master)
      → Inv files n_reduce m
      → Inv files n_reduce (assign_worker args m).0
  unfolding assign_worker
  assign_worker-Inv args m v = elim (Bool-cases (args.worker_id == 0)) [
    | inl new ↦ rw new (record {
      maps_done = v.maps_done;
      reduces_done = v.reduces_done;
      ordered = v.ordered;
      kept = v.kept;
      reduces = v.reduces;
      starts = v.starts;
    })
    | inr old ↦ rw old v
  ]

  start_map-Inv :
      (k : String) (now : ℕ) (m : Master)
      → m.mdone ≡ false
      → Inv files n_reduce m
      → Inv files n_reduce
          (record m { mmap = insert k started m.mmap; mstart = insert k now m.mstart })
  start_map-Inv k now m f v = record {
    maps_done = λ d. absurd (cc);
    reduces_done = v.reduces_done;
    ordered = v.ordered;
    kept = λ g h. insert-keeps k g started m.mmap (v.kept g h);
    reduces = v.reduces;
    starts = v.starts;
  }

  m_is_finished-Inv :
      (order : List String) (now : ℕ) (m : Master)
      → m.mdone ≡ false
      → Covers order m.mmap
      → Inv files n_reduce m
      → Inv files n_reduce (m_is_finished order now m)
  m_is_finished-Inv order now m f cover v =
      let same = m_is_finished-SameReduces order now m in
      record {
        maps_done = λ d k s e.
            (let e' = sym (ap (lookup k) (m_is_finished_mmap order now m f d)) ∙ e in
              m_is_finished_done order now m k s f d (cover k s e') e');
        reduces_done = λ d. absurd (ground (arith, same, v.ordered));
        ordered = λ d. absurd (ground (arith, same, v.ordered));
        kept = λ g h. m_is_finished_keeps order now m g (v.kept g h);
        reduces = ap length same.rtask ∙ v.reduces;
        starts = ap length same.rstart ∙ v.starts;
      }

  give_map-Inv :
      (order : List String) (now : ℕ) (m : Master) (reply : MrReply)
      → m.mdone ≡ false
      → Covers order m.mmap
      → Inv files n_reduce m
      → Inv files n_reduce (give_map order now m reply).0
  unfolding give_map
  give_map-Inv order now m reply f cover v = elim (Option-cases (next_map order m.mmap)) [
    | inl none_left ↦ rw (none_left, give_map) (m_is_finished-Inv order now m f cover v)
    | inr (k, found) ↦ rw (found, give_map) (start_map-Inv k now m f v)
  ]

  start_reduce-Inv :
      (i now : ℕ) (m : Master)
      → m.rdone ≡ false
      → Inv files n_reduce m
      → Inv files n_reduce (record m { rtask = set m.rtask i started; rstart = set m.rstart i now })
  start_reduce-Inv i now m f v = record {
    maps_done = v.maps_done;
    reduces_done = λ d. absurd (cc);
    ordered = v.ordered;
    kept = v.kept;
    reduces = length-set m.rtask i started ∙ v.reduces;
    starts = length-set m.rstart i now ∙ v.starts;
  }

  r_is_finished-Inv :
      (now : ℕ) (m : Master)
      → m.mdone ≡ true
      → m.rdone ≡ false
      → Inv files n_reduce m
      → Inv files n_reduce (r_is_finished 0 m.rtask m.rstart now m)
  r_is_finished-Inv now m d f v =
      let same = r_is_finished-SameMaps 0 m.rtask m.rstart now m in
      let sizes = r_is_finished_lengths 0 m.rtask m.rstart now m in
      record {
        maps_done = λ d' k s e. v.maps_done d k s (sym (ap (lookup k) same.mmap) ∙ e);
        reduces_done = λ d'.
            (let (all, kept) = r_is_finished_done 0 m.rtask m.rstart now m f d' in
              subst (All (λ s. s ≡ finished)) (sym kept) all);
        ordered = λ d'. same.mdone ∙ d;
        kept = λ g h e. v.kept g h (sym (ap (lookup g) same.mmap) ∙ e);
        reduces = sizes.0 ∙ v.reduces;
        starts = sizes.1 ∙ v.starts;
      }

  give_reduce-Inv :
      (now : ℕ) (m : Master) (reply : MrReply)
      → m.mdone ≡ true
      → m.rdone ≡ false
      → Inv files n_reduce m
      → Inv files n_reduce (give_reduce now m reply).0
  unfolding give_reduce
  give_reduce-Inv now m reply d f v = elim (Option-cases (next_reduce 0 m.rtask)) [
    | inl none_left ↦ rw (none_left, give_reduce) (r_is_finished-Inv now m d f v)
    | inr (i, found) ↦ rw (found, give_reduce) (start_reduce-Inv i now m f v)
  ]

  give_task-Inv :
      (args : MrArgs) (order : List String) (now : ℕ) (m : Master)
      → Covers order m.mmap
      → Inv files n_reduce m
      → Inv files n_reduce (give_task args order now m).0
  unfolding give_task
  give_task-Inv args order now m cover v =
      let a : Master = (assign_worker args m).0 in
      let w : Inv files n_reduce a = assign_worker-Inv args m v in
      let cover' : Covers order a.mmap =
        subst (Covers order) (sym (assign_worker-mmap args m)) cover in
      elim (Bool-cases a.mdone) [
        | inl maps ↦ elim (Bool-cases a.rdone) [
          | inl reduces ↦ rw (maps, reduces) w
          | inr more ↦ rw (maps, more) (give_reduce-Inv now a _ maps more w)
        ]
        | inr more ↦ rw more (give_map-Inv order now a _ more cover' w)
      ]

  pub Reach-Inv : {m : Master} → Reach files n_reduce m → Inv files n_reduce m
  Reach-Inv made = make_master-Inv
  Reach-Inv (finishes args r e) = task_finish-Inv args _ _ (Reach-Inv r) e
  Reach-Inv (gives args order now r cover) = give_task-Inv args order now _ cover (Reach-Inv r)
