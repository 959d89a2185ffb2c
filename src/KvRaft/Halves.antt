-- ===== src/KvRaft/Halves.antt =====
-- The two sides that `make_partition` makes (src/kvraft/config.go).
use mit_distribution.Base.{
  ℕ, zero, suc, ◌+◌, ◌-◌, ◌/◌, ◌<◌, ◌≤◌, ◌≡◌, refl, sym, ap, ap₂, ◌∙◌, inl, inr, true, false, some,
  List, [], ◌∷◌, ◌++◌, arith, if◌then◌else◌, ltb, ◌==◌, Bool-cases, length, set, replicate,
  length-replicate, length-append, length-set,
}
use mathlib.Core.List.{append_assoc}
use mit_distribution.KvRaft.{up_to}
use mit_distribution.KvRaft.Leader.{place, deal, seat_leader, halves}
use mit_distribution.KvRaft.Links.{mem}

-- How often a server is listed.
abbrev pub count : ℕ → List ℕ → ℕ
count x [] = 0
count x (y ∷ ys) = if x == y then suc (count x ys) else count x ys

abbrev without : ℕ → List ℕ → List ℕ
without l [] = []
without l (x ∷ xs) = if x == l then without l xs else x ∷ without l xs

-- Values written one after another from a place on.
abbrev write : ℕ → List ℕ → List ℕ → List ℕ
write j [] xs = xs
write j (w ∷ ws) xs = write (j + 1) ws (set xs j w)

count-append : (x : ℕ) (xs ys : List ℕ) → count x (xs ++ ys) ≡ count x xs + count x ys
count-append x [] ys = omega arith
count-append x (y ∷ xs) ys = ground (arith, count-append x xs ys)

pub count-up_to : (x m : ℕ) → count x (up_to m) ≡ (if ltb x m then 1 else 0)
unfolding up_to
count-up_to x zero = ground arith
count-up_to x (suc m) = count-append x (up_to m) (m ∷ []) ∙ ground (arith, count-up_to x m)

count-without :
    (x l : ℕ) (xs : List ℕ) → count x (without l xs) ≡ (if x == l then 0 else count x xs)
count-without x l [] = ground arith
count-without x l (y ∷ xs) = ground (arith, count-without x l xs)

length-up_to : (m : ℕ) → length (up_to m) ≡ m
unfolding up_to
length-up_to zero = refl
length-up_to (suc m) = length-append (up_to m) (m ∷ []) ∙ omega (arith, length-up_to m)

length-without : (l : ℕ) (xs : List ℕ) → length (without l xs) + count l xs ≡ length xs
length-without l [] = refl
length-without l (x ∷ xs) = ground (arith, length-without l xs)

-- Writing in the first or the second of two lists that stand one after the other.
set-append_left : (xs ys : List ℕ) (j v : ℕ) → j < length xs → set xs j v ++ ys ≡ set (xs ++ ys) j v
set-append_left [] ys j v h = absurd (omega (arith, h))
set-append_left (x ∷ xs) ys zero v h = refl
set-append_left (x ∷ xs) ys (suc j) v h = ap (◌∷◌ x) (set-append_left xs ys j v (omega (arith, h)))

set-append_right :
    (xs ys : List ℕ) (j v : ℕ) → length xs ≤ j → xs ++ set ys (j - length xs) v ≡ set (xs ++ ys) j v
set-append_right [] ys j v h = ap (λ k. set ys k v) (omega arith)
set-append_right (x ∷ xs) ys zero v h = absurd (omega (arith, h))
set-append_right (x ∷ xs) ys (suc j) v h =
    ap (◌∷◌ x)
      (ap (λ k. xs ++ set ys k v) (omega arith) ∙ set-append_right xs ys j v (omega (arith, h)))

set_at_end : (xs ys : List ℕ) (y v : ℕ) → set (xs ++ (y ∷ ys)) (length xs) v ≡ xs ++ (v ∷ ys)
set_at_end [] ys y v = refl
set_at_end (x ∷ xs) ys y v = ap (◌∷◌ x) (set_at_end xs ys y v)

-- As many values as there are places left fill them.
write_all :
    (xs ws ys : List ℕ) (j : ℕ)
    → j ≡ length xs
    → length ws ≡ length ys
    → write j ws (xs ++ ys) ≡ xs ++ ws
write_all xs [] [] j at size = refl
write_all xs [] (y ∷ ys) j at size = absurd (omega (arith, size))
write_all xs (w ∷ ws) [] j at size = absurd (omega (arith, size))
write_all xs (w ∷ ws) (y ∷ ys) j at size =
    let next : j + 1 ≡ length (xs ++ (w ∷ [])) = omega (arith, at, length-append xs (w ∷ [])) in
    ap (write (j + 1) ws) (
      ap (λ k. set (xs ++ (y ∷ ys)) k w) at
      ∙ set_at_end xs ys y w
      ∙ sym (append_assoc xs (w ∷ []) ys))
    ∙ write_all (xs ++ (w ∷ [])) ws ys (j + 1) next (omega (arith, size))
    ∙ append_assoc xs (w ∷ []) ws

write-append :
    (j : ℕ) (ws xs : List ℕ) (l : ℕ)
    → write j (ws ++ (l ∷ [])) xs ≡ set (write j ws xs) (j + length ws) l
write-append j [] xs l = ap (λ k. set xs k l) (omega arith)
write-append j (w ∷ ws) xs l =
    write-append (j + 1) ws (set xs j w) l
    ∙ ap (λ k. set (write (j + 1) ws (set xs j w)) k l) (omega arith)

place_lem :
    (l i j : ℕ) (p1 p2 : List ℕ)
    → (i == l) ≡ false
    → j < length p1 + length p2
    → (q1 : List ℕ) × (q2 : List ℕ) × (place l i j p1 p2 ≡ some (j + 1, q1, q2))
      × (length q1 ≡ length p1)
      × (length q2 ≡ length p2)
      × (q1 ++ q2 ≡ set (p1 ++ p2) j i)
unfolding place
place_lem l i j p1 p2 other room = elim (Bool-cases (ltb j (length p1))) [
  | inl first ↦ (
    set p1 j i,
    p2,
    ground (arith, other, first),
    length-set p1 j i,
    refl,
    set-append_left p1 p2 j i (ground (arith, first)),
  )
  | inr second ↦
      (let k : ℕ = j - length p1 in
        (
          p1,
          set p2 k i,
          ground (arith, other, second, room),
          refl,
          length-set p2 k i,
          set-append_right p1 p2 j i (ground (arith, second)),
        ))
]

deal_lem :
    (l : ℕ) (is : List ℕ) (j : ℕ) (p1 p2 : List ℕ)
    → j + length (without l is) ≤ length p1 + length p2
    → (q1 : List ℕ) × (q2 : List ℕ) × (deal l is j p1 p2 ≡ some (q1, q2))
      × (length q1 ≡ length p1)
      × (length q2 ≡ length p2)
      × (q1 ++ q2 ≡ write j (without l is) (p1 ++ p2))
unfolding deal
deal_lem l [] j p1 p2 room = (p1, p2, refl, refl, refl, refl)
deal_lem l (i ∷ is) j p1 p2 room = elim (Bool-cases (i == l)) [
  | inl mine ↦
      (let (q1, q2, ran, s1, s2, e) = deal_lem l is j p1 p2 (ground (arith, mine, room)) in
        (
          q1,
          q2,
          ground (arith, mine, ran),
          s1,
          s2,
          e ∙ ap (λ ws. write j ws (p1 ++ p2)) (left_out mine),
        ))
  | inr other ↦
      (let (r1, r2, put, t1, t2, e) = place_lem l i j p1 p2 other (ground (arith, other, room)) in
        let (q1, q2, ran, s1, s2, e') =
          deal_lem l is (j + 1) r1 r2 (ground (arith, other, room, t1, t2)) in
        (
          q1,
          q2,
          ground (arith, put, ran),
          s1 ∙ t1,
          s2 ∙ t2,
          e'
              ∙ ap (write (j + 1) (without l is)) e
              ∙ ap (λ ws. write j ws (p1 ++ p2)) (left_in other),
        ))
]
  where
    left_out : (i == l) ≡ true → without l is ≡ without l (i ∷ is)
    left_out mine = ground (arith, mine)

    left_in : (i == l) ≡ false → i ∷ without l is ≡ without l (i ∷ is)
    left_in other = ground (arith, other)

mem-set : (xs : List ℕ) (j v : ℕ) → j < length xs → mem v (set xs j v) ≡ true
mem-set [] j v h = absurd (omega (arith, h))
mem-set (x ∷ xs) zero v h = ground arith
mem-set (x ∷ xs) (suc j) v h = ground (arith, mem-set xs j v (omega (arith, h)))

-- All the places: the servers in order, and the leader last.
dealt :
    (k l : ℕ) (q1 q2 ws arr : List ℕ)
    → 0 < k
    → length q1 ≡ k + 1
    → length q2 ≡ k
    → length ws ≡ k + k
    → length arr ≡ k + k + 1
    → q1 ++ q2 ≡ write 0 ws arr
    → q1 ++ set q2 (length q2 - 1) l ≡ ws ++ (l ∷ [])
dealt k l q1 q2 ws arr pos_k s1 s2 size full e =
    ap (λ j. q1 ++ set q2 j l) (omega (arith, s1, s2, pos_k))
    ∙ set-append_right q1 q2 (k + k) l (omega (arith, s1, pos_k))
    ∙ ap₂ (λ xs j. set xs j l) e (omega (arith, size))
    ∙ sym (write-append 0 ws arr l)
    ∙ write_all [] (ws ++ (l ∷ [])) arr 0 refl
        (omega (arith, length-append ws (l ∷ []), size, full))

-- For an odd number of servers, three at least, each stands on one side and once, the leader on the second
-- side, and the first side is the majority.
pub halves_lem :
    (k l : ℕ)
    → 0 < k
    → l < k + k + 1
    → (p1 : List ℕ) × (p2 : List ℕ) × (halves (k + k + 1) l ≡ some (p1, p2))
      × (length p1 ≡ k + 1)
      × (length p2 ≡ k)
      × (mem l p2 ≡ true)
      × ((i : ℕ) → count i p1 + count i p2 ≡ (if ltb i (k + k + 1) then 1 else 0))
unfolding halves seat_leader
halves_lem k l pos_k lt =
    let n : ℕ = k + k + 1 in
    let half : n / 2 ≡ k = omega arith in
    let ws : List ℕ = without l (up_to n) in
    let size : length ws ≡ k + k =
      ground (arith, length-without l (up_to n), count-up_to l n, length-up_to n, lt) in
    let a1 : List ℕ = replicate (n / 2 + 1) 0 in
    let a2 : List ℕ = replicate (n / 2) 0 in
    let t1 : length a1 ≡ k + 1 = omega (arith, length-replicate {A = ℕ} (n / 2 + 1) 0, half) in
    let t2 : length a2 ≡ k = omega (arith, length-replicate {A = ℕ} (n / 2) 0, half) in
    let (q1, q2, ran, s1, s2, e) = deal_lem l (up_to n) 0 a1 a2 (omega (arith, size, t1, t2)) in
    let p2 : List ℕ = set q2 (length q2 - 1) l in
    let whole =
      dealt k l q1 q2 ws (a1 ++ a2) pos_k (s1 ∙ t1) (s2 ∙ t2) size
        (omega (arith, length-append a1 a2, t1, t2)) e in
    (
      q1,
      p2,
      ground (arith, ran, s2, t2, pos_k),
      s1 ∙ t1,
      length-set q2 (length q2 - 1) l ∙ s2 ∙ t2,
      mem-set q2 (length q2 - 1) l (omega (arith, s2, t2, pos_k)),
      λ i.
          sym (count-append i q1 p2)
          ∙ ap (count i) whole
          ∙ count-append i ws (l ∷ [])
          ∙ ground (arith, count-without i l (up_to n), count-up_to i n, lt),
    )
