-- ===== src/Mr/Master/Phases/Loops.antt =====
-- The loops of `mIsFinished` and `rIsFinished` (src/mr/master.go), and updates of the map of tasks.
use Prim.Native.String.{String}
use text.Mathlib.Text.{◌==◌ as str_eq}
use text.Mathlib.TextEquality.{eq_iff}
use mit_distribution.Base.{
  ℕ, ◌+◌, ◌≡◌, ◌≢◌, refl, inl, inr, true, false, none, some, List, [], ◌∷◌, arith, Bool-cases,
  length, All, length-set,
}
use mit_distribution.Base.Maps.{contains, lookup, insert, lookup-insert}
use mit_distribution.Mr.Master.{TaskState, idle, finished, Master, m_is_finished, r_is_finished}

abbrev pub AllFinished : List (String × TaskState) → Type 0
AllFinished tasks = (k : String) (s : TaskState) → lookup k tasks ≡ some s → s ≡ finished

pub insert-keeps :
    (k f : String) (s : TaskState) (tasks : List (String × TaskState))
    → lookup f tasks ≢ none
    → lookup f (insert k s tasks) ≢ none
insert-keeps k f s tasks h e = elim (Bool-cases (str_eq k f)) [
  | inl same ↦ ground (arith, same, lookup-insert k f s tasks)
  | inr other ↦ h (ground (arith, other, lookup-insert k f s tasks))
]

pub insert-AllFinished :
    (k : String) (tasks : List (String × TaskState))
    → AllFinished tasks
    → AllFinished (insert k finished tasks)
insert-AllFinished k tasks h j s e = elim (Bool-cases (str_eq k j)) [
  | inl same ↦ ground (arith, same, lookup-insert k j finished tasks)
  | inr other ↦ h j s (ground (arith, other, lookup-insert k j finished tasks))
]

-- The loop reports the map phase done only after it has met no unfinished task.
pub m_is_finished_done :
    (order : List String) (now : ℕ) (m : Master) (k : String) (s : TaskState)
    → m.mdone ≡ false
    → (m_is_finished order now m).mdone ≡ true
    → contains order k ≡ true
    → lookup k m.mmap ≡ some s
    → s ≡ finished
unfolding m_is_finished
m_is_finished_done [] now m k s f d c e = cc
m_is_finished_done (x ∷ order) now m k s f d c e =
    ground (arith, eq_iff x k, m_is_finished_done order now m k s)

-- Then it has changed no task.
pub m_is_finished_mmap :
    (order : List String) (now : ℕ) (m : Master)
    → m.mdone ≡ false
    → (m_is_finished order now m).mdone ≡ true
    → (m_is_finished order now m).mmap ≡ m.mmap
unfolding m_is_finished
m_is_finished_mmap [] now m f d = refl
m_is_finished_mmap (x ∷ order) now m f d = ground (arith, m_is_finished_mmap order now m)

pub m_is_finished_keeps :
    (order : List String) (now : ℕ) (m : Master) (f : String)
    → lookup f m.mmap ≢ none
    → lookup f (m_is_finished order now m).mmap ≢ none
unfolding m_is_finished
m_is_finished_keeps [] now m f h = h
m_is_finished_keeps (x ∷ order) now m f h =
    ground (arith, m_is_finished_keeps order now m f, insert-keeps x f idle m.mmap)

-- It touches nothing of the reduce phase.
pub record SameReduces (m m' : Master) : Type 0 where
  pub rtask : m'.rtask ≡ m.rtask
  pub rstart : m'.rstart ≡ m.rstart
  pub rdone : m'.rdone ≡ m.rdone

pub m_is_finished-SameReduces :
    (order : List String) (now : ℕ) (m : Master) → SameReduces m (m_is_finished order now m)
unfolding m_is_finished
m_is_finished-SameReduces [] now m = ground arith
m_is_finished-SameReduces (x ∷ order) now m = ground (arith, m_is_finished-SameReduces order now m)

-- The loop over the reduce tasks touches nothing of the map phase.
pub record SameMaps (m m' : Master) : Type 0 where
  pub mmap : m'.mmap ≡ m.mmap
  pub mdone : m'.mdone ≡ m.mdone

pub r_is_finished-SameMaps :
    (i : ℕ) (tasks : List TaskState) (starts : List ℕ) (now : ℕ) (m : Master)
    → SameMaps m (r_is_finished i tasks starts now m)
unfolding r_is_finished
r_is_finished-SameMaps i [] starts now m = ground arith
r_is_finished-SameMaps i (s ∷ tasks) [] now m =
    ground (arith, r_is_finished-SameMaps (i + 1) tasks [] now m)
r_is_finished-SameMaps i (s ∷ tasks) (t ∷ starts) now m =
    ground (arith, r_is_finished-SameMaps (i + 1) tasks starts now m)

pub r_is_finished_lengths :
    (i : ℕ) (tasks : List TaskState) (starts : List ℕ) (now : ℕ) (m : Master)
    → (length (r_is_finished i tasks starts now m).rtask ≡ length m.rtask)
      × (length (r_is_finished i tasks starts now m).rstart ≡ length m.rstart)
unfolding r_is_finished
r_is_finished_lengths i [] starts now m = ground arith
r_is_finished_lengths i (s ∷ tasks) [] now m =
    ground (arith, r_is_finished_lengths (i + 1) tasks [] now m)
r_is_finished_lengths i (s ∷ tasks) (t ∷ starts) now m = ground (
  arith,
  r_is_finished_lengths (i + 1) tasks starts now m,
  length-set m.rtask i idle,
  length-set m.rstart i 0,
)

pub r_is_finished_done :
    (i : ℕ) (tasks : List TaskState) (starts : List ℕ) (now : ℕ) (m : Master)
    → m.rdone ≡ false
    → (r_is_finished i tasks starts now m).rdone ≡ true
    → All (λ s. s ≡ finished) tasks × ((r_is_finished i tasks starts now m).rtask ≡ m.rtask)
unfolding r_is_finished
r_is_finished_done i [] starts now m f d = (tt, refl)
r_is_finished_done i (s ∷ tasks) [] now m f d =
    ground (arith, r_is_finished_done (i + 1) tasks [] now m)
r_is_finished_done i (s ∷ tasks) (t ∷ starts) now m f d =
    ground (arith, r_is_finished_done (i + 1) tasks starts now m)
