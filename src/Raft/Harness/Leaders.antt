-- ===== src/Raft/Harness/Leaders.antt =====
-- `checkOneLeader` (src/raft/config.go) on the peers of a cluster (src/raft/raft.go).
use mit_distribution.Base.{
  ℕ, zero, suc, ◌<◌, ◌≤◌, ◌≡◌, refl, sym, ap, subst, ◌∙◌, ◌⊎◌, ◌↔◌, inl, inr, Bool, true, ◌&&◌,
  Option, none, some, List, [], ◌∷◌, ◌++◌, length, update_cases, ltb, Bool-cases, Option-cases,
  arith,
}
use mathlib.Core.List.{Memᴰ}
use mathlib.Core.List.Memᴰ
use native.Mathlib.Decide.{ℕ_discrete}
use mit_distribution.Raft.State.{get_state}
use mit_distribution.Raft.Cluster.{System, Reach}
use mit_distribution.Raft.Cluster.Elections.{election_safety}
use mit_distribution.Raft.Harness.Checks.{
  leaders_of, later_term, last_term, again, found, Sight, round_of, check_one_leader,
}

module _ (connected : ℕ → Bool) (states : ℕ → ℕ × Bool) where
  -- The peer is attached and says that it leads in the term.
  abbrev pub Leads : ℕ → ℕ → Type 0
  Leads i t = (connected i ≡ true) × (states i ≡ (t, true))

  Leads-cases : (i t : ℕ) → Leads i t ⊎ ¬ Leads i t
  Leads-cases i t = elim (Bool-cases (connected i)) [
    | inr away ↦ inr (λ h. ground (arith, away, h.0))
    | inl on ↦ elim (Bool-cases (states i).1) [
      | inr follows ↦ inr (λ h. ground (arith, follows, ap (λ (p : ℕ × Bool). p.1) h.1))
      | inl leads ↦ elim (ℕ_discrete (states i).0 t) [
        | yes here ↦ inl (on, ground (arith, here, leads))
        | no other ↦ inr (λ h. other (ap (λ (p : ℕ × Bool). p.0) h.1))
      ]
    ]
  ]

  leaders_of-skips :
      (m t : ℕ)
      → ¬ Leads m t
      → leaders_of (suc m) connected states t ≡ leaders_of m connected states t
  unfolding leaders_of
  leaders_of-skips m t idle = elim (Bool-cases (connected m && (states m).1)) [
    | inr quiet ↦ ground (arith, quiet)
    | inl leads ↦
        elim (update_cases (leaders_of m connected states) (states m).0 t
          (leaders_of m connected states (states m).0 ++ (m ∷ []))) [
            | inl (here, e) ↦ absurd (idle (ground (arith, leads), ground (arith, leads, here)))
            | inr (other, e) ↦ ground (arith, leads, e)
          ]
  ]

  leaders_of-adds :
      (m t : ℕ)
      → Leads m t
      → leaders_of (suc m) connected states t ≡ leaders_of m connected states t ++ (m ∷ [])
  unfolding leaders_of
  leaders_of-adds m t (on, is) = ground (arith, on, is)

  leaders_of_lem :
      (m t : ℕ)
      → ((i j : ℕ) → Leads i t → Leads j t → i ≡ j)
      → ((leaders_of m connected states t ≡ []) × ((i : ℕ) → i < m → ¬ Leads i t))
        ⊎ ((i : ℕ) × (leaders_of m connected states t ≡ i ∷ []) × (i < m) × Leads i t)
  unfolding leaders_of
  leaders_of_lem zero t one = inl (refl, λ i h. absurd (omega (arith, h)))
  leaders_of_lem (suc m) t one = elim (Leads-cases m t) [
    | inl leads ↦ elim (leaders_of_lem m t one) [
      | inl (e, idle) ↦
          inr (m, leaders_of-adds m t leads ∙ ap (λ l. l ++ (m ∷ [])) e, omega arith, leads)
      | inr (i, e, lt, leads') ↦ absurd (omega (arith, lt, one i m leads' leads))
    ]
    | inr quiet ↦ elim (leaders_of_lem m t one) [
      | inl (e, idle) ↦ inl (
        leaders_of-skips m t quiet ∙ e,
        λ i h leads'. elim (ℕ_discrete i m) [
          | yes last ↦ quiet (subst (λ k. Leads k t) last leads')
          | no before ↦ idle i (omega (arith, h, before)) leads'
        ],
      )
      | inr (i, e, lt, leads') ↦ inr (i, leaders_of-skips m t quiet ∙ e, omega (arith, lt), leads')
    ]
  ]

leaders_of-length :
    (connected : ℕ → Bool) (m : ℕ) (states : ℕ → ℕ × Bool)
    → ((t i j : ℕ) → Leads connected states i t → Leads connected states j t → i ≡ j)
    → (t : ℕ) → length (leaders_of m connected states t) ≤ 1
leaders_of-length connected m states one t = elim (leaders_of_lem connected states m t (one t)) [
  | inl (e, idle) ↦ omega (arith, ap length e)
  | inr (i, e, lt, leads) ↦ omega (arith, ap length e)
]

-- The last term that the loop finds, if no term has two leaders.
last_term_lem :
    (terms : List ℕ) (leaders : ℕ → List ℕ) (last : Option ℕ)
    → ((t : ℕ) → length (leaders t) ≤ 1)
    → (r : Option ℕ) × (last_term terms leaders last ≡ some r)
      × ((t : ℕ) → (last ≡ some t) ⊎ Memᴰ t terms → (u : ℕ) × (r ≡ some u) × (t ≤ u))
      × ((u : ℕ) → r ≡ some u → (last ≡ some u) ⊎ Memᴰ u terms)
unfolding last_term
last_term_lem [] leaders last one = (
  last,
  refl,
  λ t m. elim m [ inl e ↦ (t, e, omega arith) | inr none_left ↦ absurd (Memᴰ.not-nil none_left) ],
  λ u e. inl e,
)
last_term_lem (t ∷ terms) leaders last one =
    let (r, run, most, source) = last_term_lem terms leaders (some (later_term last t)) one in
    let (top, is_r, bound) = most (later_term last t) (inl refl) in
    (
      r,
      ground (arith, run, one t),
      λ v m. elim m [
        | inl e ↦ (top, is_r, ground (arith, e, bound))
        | inr m' ↦ elim (Memᴰ.cases_cons m') [
          | inl here ↦ (
            top,
            is_r,
            elim (Option-cases last) [
              | inl nil ↦ ground (arith, nil, bound, here)
              | inr (w, e) ↦ ground (arith, e, bound, here)
            ],
          )
          | inr after ↦ most v (inr after)
        ]
      ],
      λ u e. elim (source u e) [
        | inr after ↦ inr (Memᴰ.tail after)
        | inl is_later ↦ elim (Option-cases last) [
          | inl nil ↦ inr (Memᴰ.head (ground (arith, nil, is_later)))
          | inr (w, there) ↦ elim (Bool-cases (ltb w t)) [
            | inl newer ↦ inr (Memᴰ.head (ground (arith, there, newer, is_later)))
            | inr older ↦ inl (ground (arith, there, older, is_later))
          ]
        ]
      ],
    )

-- What a turn of `checkOneLeader` sees of a cluster at one moment: each of its peers, and the terms in which
-- an attached peer leads.
pub record Seen {A : Type 0} (n : ℕ) (connected : ℕ → Bool) (sight : Sight) (s : System A)
    : Type 0 where
  pub reached : Reach true n s
  pub states : (i : ℕ) → sight.states i ≡ get_state (s.peer i)
  pub terms : (t : ℕ) → Memᴰ t sight.terms ↔ ((i : ℕ) × (i < n) × Leads connected sight.states i t)

module _ {A : Type 0} (n : ℕ) (connected : ℕ → Bool) where
  Seen-one :
      (sight : Sight) (s : System A)
      → Seen n connected sight s
      → (t i j : ℕ) → Leads connected sight.states i t
      → Leads connected sight.states j t
      → i ≡ j
  unfolding get_state
  Seen-one sight s seen t i j leads_i leads_j =
      let of_i = sym (seen.states i) ∙ leads_i.1 in
      let of_j = sym (seen.states j) ∙ leads_j.1 in
      election_safety n s seen.reached i j (ap (λ (p : ℕ × Bool). p.1) of_i)
        (ap (λ (p : ℕ × Bool). p.1) of_j)
        (ap (λ (p : ℕ × Bool). p.0) of_i ∙ sym (ap (λ (p : ℕ × Bool). p.0) of_j))

  -- A turn finds no two leaders in a term, and then a leader of the last term or none at all.
  round_of_lem :
      (sight : Sight) (s : System A)
      → Seen n connected sight s
      → ((round_of n connected sight ≡ again)
          × ((i t : ℕ) → i < n → ¬ Leads connected sight.states i t))
        ⊎ ((i : ℕ) × (t : ℕ) × (round_of n connected sight ≡ found i)
            × (i < n)
            × Leads connected sight.states i t
            × ((j u : ℕ) → j < n → Leads connected sight.states j u → u ≤ t))
  unfolding round_of
  round_of_lem sight s seen =
      let states = sight.states in
      let leaders = leaders_of n connected states in
      let one = Seen-one sight s seen in
      let (r, run, most, source) =
        last_term_lem sight.terms leaders none (leaders_of-length connected n states one) in
      elim (Option-cases r) [
        | inl no_term ↦ inl (
          ground (arith, run, no_term),
          λ i t lt leads.
              (let (u, is, bound) = most t (inr ((seen.terms t).1 (i, lt, leads))) in
                ground (arith, no_term, is)),
        )
        | inr (t, last) ↦ elim (source t last) [
          | inl start ↦ absurd (ground (arith, start))
          | inr listed ↦ elim (leaders_of_lem connected states n t (one t)) [
            | inl (e, idle) ↦
                (let (i, lt, leads) = (seen.terms t).0 listed in absurd (idle i lt leads))
            | inr (i, e, lt, leads) ↦ inr (
              i,
              t,
              ground (arith, run, last, e),
              lt,
              leads,
              λ j u h leads'.
                  (let (w, is, bound) = most u (inr ((seen.terms u).1 (j, h, leads'))) in
                    ground (arith, last, is, bound)),
            )
          ]
        ]
      ]

  -- On a cluster whose goroutines of `RequestHeartBeat` run while their peer still leads, `checkOneLeader` fails
  -- only if no attached peer leads in any of its turns. Else it gives an attached peer that leads in one of the
  -- turns, and in that turn no attached peer leads in a later term.
  pub check_one_leader_lem :
      (sights : List Sight)
      → ((sight : Sight) → Memᴰ sight sights → (s : System A) × Seen n connected sight s)
      → ((check_one_leader n connected sights ≡ none)
          × ((sight : Sight) (i t : ℕ)
              → Memᴰ sight sights
              → i < n
              → ¬ Leads connected sight.states i t))
        ⊎ ((sight : Sight) × (i : ℕ) × (t : ℕ) × Memᴰ sight sights
            × (check_one_leader n connected sights ≡ some i)
            × (i < n)
            × Leads connected sight.states i t
            × ((j u : ℕ) → j < n → Leads connected sight.states j u → u ≤ t))
  unfolding check_one_leader
  check_one_leader_lem [] seen = inl (refl, λ sight i t m. absurd (Memᴰ.not-nil m))
  check_one_leader_lem (sight ∷ sights) seen =
      let (s, here) = seen sight (Memᴰ.head refl) in
      elim (round_of_lem sight s here) [
        | inr (i, t, e, lt, leads, last) ↦
            inr (sight, i, t, Memᴰ.head refl, ground (arith, e), lt, leads, last)
        | inl (e, idle) ↦ elim (check_one_leader_lem sights (λ x m. seen x (Memᴰ.tail m))) [
          | inl (e', idle') ↦ inl (
            ground (arith, e, e'),
            λ x i t m lt leads. elim (Memᴰ.cases_cons m) [
              | inl same ↦
                  idle i t lt (subst (λ (y : Sight). Leads connected y.states i t) same leads)
              | inr after ↦ idle' x i t after lt leads
            ],
          )
          | inr (x, i, t, m, e', lt, leads, last) ↦
              inr (x, i, t, Memᴰ.tail m, ground (arith, e, e'), lt, leads, last)
        ]
      ]
