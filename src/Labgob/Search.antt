-- ===== src/Labgob/Search.antt =====
-- `checkType` (src/labgob/labgob.go) looks at every type that the first one is made of.
use mathlib.Core.List.{Memᴰ}
use mathlib.Core.List.Memᴰ
use mit_distribution.Base.{
  ℕ, zero, suc, ◌+◌, ◌<◌, ◌≤◌, ◌≡◌, refl, sym, ap, subst, ◌∙◌, inl, inr, ◌↔◌, true, false,
  Bool-cases, some, List, [], ◌∷◌, ◌++◌, map, if◌then◌else◌, update, update_at, update_cases, arith,
}
use mit_distribution.Labgob.{
  Field, Kind, struct, elem_of, map_of, plain, State, empty_state, complain, check_fields,
  check_kind, check_type,
}
use mit_distribution.Labgob.Sums.{sum_where, sum_where-update, sum_where-le, sum_where-none}

-- How many fields have a name that does not begin with a capital.
abbrev pub count_lower : List Field → ℕ
count_lower [] = 0
count_lower (f ∷ fields) = (if f.is_upper then 0 else 1) + count_lower fields

abbrev pub lower_fields : Kind → ℕ
lower_fields (struct fields) = count_lower fields
lower_fields (elem_of e) = 0
lower_fields (map_of e k) = 0
lower_fields plain = 0

-- The types that a type is made of.
abbrev pub parts : Kind → List ℕ
parts (struct fields) = map (λ (f : Field). f.type_of) fields
parts (elem_of e) = e ∷ []
parts (map_of e k) = e ∷ k ∷ []
parts plain = []

pub data Reaches (kind : ℕ → Kind) : ℕ → ℕ → Type 0 where
  itself : {x : ℕ} → Reaches kind x x
  through : {x y z : ℕ} → Memᴰ y (parts (kind x)) → Reaches kind y z → Reaches kind x z

module _ (kind : ℕ → Kind) (n : ℕ) where
  -- The fields to complain about in the checked types, and the number of these types.
  abbrev total : State → ℕ
  total s = sum_where n s.checked (λ x. lower_fields (kind x))

  abbrev size : State → ℕ
  size s = sum_where n s.checked (λ x. 1)

  -- A part of the search that looks at the given types and complains `extra` times of its own.
  record Visited (s s' : State) (types : List ℕ) (extra : ℕ) : Type 0 where
    grows : (x : ℕ) → s.checked x ≡ true → s'.checked x ≡ true
    all : (x : ℕ) → Memᴰ x types → s'.checked x ≡ true
    closed :
        (x y : ℕ)
        → s.checked x ≡ false
        → s'.checked x ≡ true
        → Memᴰ y (parts (kind x))
        → s'.checked y ≡ true
    only :
        (x : ℕ)
        → s.checked x ≡ false
        → s'.checked x ≡ true
        → (c : ℕ) × Memᴰ c types × Reaches kind c x
    errors : s'.error_count + total s ≡ s.error_count + total s' + extra
    more : size s ≤ size s'

  Visited-append :
      (s s₁ s₂ : State) (l₁ l₂ : List ℕ) (e₁ e₂ : ℕ)
      → Visited s s₁ l₁ e₁
      → Visited s₁ s₂ l₂ e₂
      → Visited s s₂ (l₁ ++ l₂) (e₁ + e₂)
  Visited-append s s₁ s₂ l₁ l₂ e₁ e₂ v w = record {
    grows = λ x on. w.grows x (v.grows x on);
    all = λ x m. elim (Memᴰ.append_cases l₁ m) [
      | inl first ↦ w.grows x (v.all x first)
      | inr second ↦ w.all x second
    ];
    closed = λ x y off on child. elim (Bool-cases (s₁.checked x)) [
      | inl early ↦ w.grows y (v.closed x y off early child)
      | inr late ↦ w.closed x y late on child
    ];
    only = λ x off on. elim (Bool-cases (s₁.checked x)) [
      | inl early ↦ (let (c, m, r) = v.only x off early in (c, Memᴰ.append_left l₂ m, r))
      | inr late ↦ (let (c, m, r) = w.only x late on in (c, Memᴰ.append_right l₁ m, r))
    ];
    errors = omega (arith, v.errors, w.errors);
    more = omega (arith, v.more, w.more);
  }

  Visited-none : (s : State) → Visited s s [] 0
  Visited-none s = record {
    grows = λ x e. e;
    all = λ x m. absurd (Memᴰ.not-nil m);
    closed = λ x y off on child. absurd (ground (arith, off, on));
    only = λ x off on. absurd (ground (arith, off, on));
    errors = omega arith;
    more = omega arith;
  }

  -- A type that has been checked before.
  Visited-known : (s : State) (t : ℕ) → s.checked t ≡ true → Visited s s (t ∷ []) 0
  Visited-known s t on = record {
    grows = λ x e. e;
    all = λ x m. ap s.checked (Memᴰ.eq_of_singleton m) ∙ on;
    closed = λ x y off on' child. absurd (ground (arith, off, on'));
    only = λ x off on'. absurd (ground (arith, off, on'));
    errors = omega arith;
    more = omega arith;
  }

  abbrev mark : ℕ → State → State
  mark t s = record s { checked = update s.checked t true }

  -- A type is marked, and then its parts are looked at.
  Visited-enter :
      (s s' : State) (t : ℕ)
      → t < n
      → s.checked t ≡ false
      → Visited (mark t s) s' (parts (kind t)) (lower_fields (kind t))
      → Visited s s' (t ∷ []) 0
  Visited-enter s s' t lt fresh v = record {
    grows = λ x on.
        v.grows x
          (elim (update_cases s.checked t x true) [ inl (here, e) ↦ e | inr (other, e) ↦ e ∙ on ]);
    all = λ x m.
        ap s'.checked (Memᴰ.eq_of_singleton m) ∙ v.grows t (update_at s.checked t t true refl);
    closed = λ x y off on child. elim (update_cases s.checked t x true) [
      | inl (here, e) ↦ v.all y (subst (λ k. Memᴰ y (parts (kind k))) (sym here) child)
      | inr (other, e) ↦ v.closed x y (e ∙ off) on child
    ];
    only = λ x off on. elim (update_cases s.checked t x true) [
      | inl (here, e) ↦ (t, Memᴰ.head refl, subst (Reaches kind t) here itself)
      | inr (other, e) ↦ (let (c, m, r) = v.only x (e ∙ off) on in (t, Memᴰ.head refl, through m r))
    ];
    errors =
        omega
          (arith, v.errors, sum_where-update n t s.checked (λ x. lower_fields (kind x)) lt fresh);
    more = omega (arith, v.more, sum_where-update n t s.checked (λ x. 1) lt fresh);
  }

  Visited-complain :
      (f : Field) (s s' : State) (types : List ℕ)
      → Visited (complain f s) s' types 0
      → Visited s s' types (if f.is_upper then 0 else 1)
  unfolding complain
  Visited-complain f s s' types v = elim (Bool-cases f.is_upper) [
    | inl upper ↦
        (let same : complain f s ≡ s = ground (arith, upper) in
          subst (Visited s s' types) (ground (arith, upper))
            (subst (λ q. Visited q s' types 0) same v))
    | inr lower ↦
        (let counted : State = record s { error_count = s.error_count + 1 } in
          let same : complain f s ≡ counted = ground (arith, lower) in
          let w : Visited counted s' types 0 = subst (λ q. Visited q s' types 0) same v in
          let one : Visited s s' types 1 = record {
            grows = w.grows;
            all = w.all;
            closed = w.closed;
            only = w.only;
            errors = omega (arith, w.errors);
            more = w.more;
          } in
          subst (Visited s s' types) (ground (arith, lower)) one)
  ]

  size-complain : (f : Field) (s : State) → size (complain f s) ≡ size s
  unfolding complain
  size-complain f s =
      ap (λ c. sum_where n c (λ x. 1))
        (elim (Bool-cases f.is_upper) [
          | inl upper ↦ ground (arith, upper)
          | inr lower ↦ ground (arith, lower)
        ])

  -- A check that has fuel enough for the types that are not yet checked.
  Checks : ℕ → Type 0
  Checks fuel =
      (t : ℕ) (s : State)
      → t < n
      → n < fuel + size s
      → (s' : State) × (check_type kind fuel t s ≡ some s') × Visited s s' (t ∷ []) 0

  check_fields-Visited :
      (fuel : ℕ)
      → Checks fuel
      → (fields : List Field) (s : State) → ((y : ℕ) → Memᴰ y (parts (struct fields)) → y < n)
      → n < fuel + size s
      → (s' : State) × (check_fields (check_type kind fuel) fields s ≡ some s')
        × Visited s s' (parts (struct fields)) (count_lower fields)
  unfolding Checks check_fields
  check_fields-Visited fuel ih [] s small enough = (s, refl, Visited-none s)
  check_fields-Visited fuel ih (f ∷ fields) s small enough =
      let (s₁, run, v) =
        ih f.type_of (complain f s) (small f.type_of (Memᴰ.head refl))
          (omega (arith, enough, size-complain f s)) in
      let first = Visited-complain f s s₁ (f.type_of ∷ []) v in
      let (s₂, run', w) =
        check_fields-Visited fuel ih fields s₁ (λ y m. small y (Memᴰ.tail m))
          (omega (arith, enough, first.more)) in
      (s₂, ground (arith, run, run'), Visited-append s s₁ s₂ (f.type_of ∷ []) _ _ _ first w)

  check_kind-Visited :
      (fuel : ℕ)
      → Checks fuel
      → (k : Kind) (s : State) → ((y : ℕ) → Memᴰ y (parts k) → y < n)
      → n < fuel + size s
      → (s' : State) × (check_kind (check_type kind fuel) k s ≡ some s')
        × Visited s s' (parts k) (lower_fields k)
  unfolding Checks check_kind
  check_kind-Visited fuel ih (struct fields) s small enough =
      check_fields-Visited fuel ih fields s small enough
  check_kind-Visited fuel ih (elem_of e) s small enough = ih e s (small e (Memᴰ.head refl)) enough
  check_kind-Visited fuel ih (map_of e k) s small enough =
      let (s₁, run, v) = ih e s (small e (Memᴰ.head refl)) enough in
      let (s₂, run', w) =
        ih k s₁ (small k (Memᴰ.tail (Memᴰ.head refl))) (omega (arith, enough, v.more)) in
      (s₂, ground (arith, run, run'), Visited-append s s₁ s₂ (e ∷ []) (k ∷ []) 0 0 v w)
  check_kind-Visited fuel ih plain s small enough = (s, refl, Visited-none s)

  check_type-Visited :
      ((x y : ℕ) → x < n → Memᴰ y (parts (kind x)) → y < n) → (fuel : ℕ) → Checks fuel
  unfolding Checks check_type
  check_type-Visited small zero t s lt enough =
      absurd (omega (arith, enough, sum_where-le n s.checked))
  check_type-Visited small (suc fuel) t s lt enough = elim (Bool-cases (s.checked t)) [
    | inl known ↦ (s, ground (arith, known), Visited-known s t known)
    | inr fresh ↦
        (let more = sum_where-update n t s.checked (λ x. 1) lt fresh in
          let (s', run, v) =
            check_kind-Visited fuel (check_type-Visited small fuel) (kind t) (mark t s)
              (λ y m. small t y lt m) (omega (arith, enough, more)) in
          (s', ground (arith, fresh, run), Visited-enter s s' t lt fresh v))
  ]

  Reaches-checked :
      (s s' : State) (types : List ℕ) (e : ℕ)
      → Visited s s' types e
      → ((x : ℕ) → s.checked x ≡ false)
      → (x y : ℕ) → s'.checked x ≡ true
      → Reaches kind x y
      → s'.checked y ≡ true
  Reaches-checked s s' types e v none_yet x _ on itself = on
  Reaches-checked s s' types e v none_yet x y on (through {y = z} child rest) =
      Reaches-checked s s' types e v none_yet z y (v.closed x z (none_yet x) on child) rest

-- From a state in which nothing is checked, `checkType` ends: its depth is at most one more than the number of types.
-- It has then checked exactly the types that the first one is made of, however deep and with whatever
-- cycles, and has complained once about each lower-case field of each of them. The table has `n` types.
pub check_type_lem :
    (kind : ℕ → Kind) (n t : ℕ)
    → ((x y : ℕ) → x < n → Memᴰ y (parts (kind x)) → y < n)
    → t < n
    → (s : State) × (check_type kind (suc n) t empty_state ≡ some s)
      × ((x : ℕ) → (s.checked x ≡ true) ↔ Reaches kind t x)
      × (s.error_count ≡ sum_where n s.checked (λ x. lower_fields (kind x)))
unfolding Checks
check_type_lem kind n t small lt =
    let (s, run, v) = check_type-Visited kind n small (suc n) t empty_state lt (omega arith) in
    (
      s,
      run,
      λ x. (
        λ on.
            (let (c, m, r) = v.only x refl on in
              subst (λ k. Reaches kind k x) (Memᴰ.eq_of_singleton m) r),
        Reaches-checked kind n empty_state s (t ∷ []) 0 v (λ x. refl) t x
            (v.all t (Memᴰ.head refl)),
      ),
      omega (arith, v.errors, sum_where-none n (λ x. lower_fields (kind x))),
    )
