-- ===== src/Raft/Cluster/Ghost.antt =====
-- What the proof of election safety remembers of a run: the first vote of each peer in each term, and
-- who was the first to be elected in each term. The invariant ties the state to this memory.
use mit_distribution.Base.{
  ℕ, ◌+◌, ◌/◌, ◌<◌, ◌≤◌, ◌≡◌, ◌∙◌, ◌⊎◌, inl, inr, Bool, true, false, Option, none, some, arith,
  ◌==◌, Option-cases, pos, minus_one,
}
use mit_distribution.Raft.State.{Raft, leader, candidate}
use mit_distribution.Raft.Append.{RequestAppendEntriesArgs}
use mit_distribution.Raft.Cluster.{Call, pending, answered, consumed, Round, System}
use mit_distribution.Raft.Cluster.Counts.{count, count-le}

pub record Ghost : Type 0 where
  pub ballot : ℕ → ℕ → Option ℕ
  pub elected : ℕ → Option ℕ

-- The peer's first vote of the term was for the candidate, or the candidate has been elected.
abbrev pub Supports : Ghost → ℕ → ℕ → ℕ → Type 0
Supports g j term c = (g.ballot j term ≡ some c) ⊎ (g.elected term ≡ some c)

-- Nothing is forgotten.
pub record Extends (g g' : Ghost) : Type 0 where
  pub ballots : (j term c : ℕ) → g.ballot j term ≡ some c → g'.ballot j term ≡ some c
  pub elections : (term c : ℕ) → g.elected term ≡ some c → g'.elected term ≡ some c

pub record PeerOk {A : Type 0} (g : Ghost) (n i : ℕ) (rf : Raft A) : Type 0 where
  pub itself : rf.me ≡ i
  pub all : rf.peers ≡ n
  pub vote : (c : ℕ) → rf.vote_for ≡ pos c → Supports g i rf.current_term c
  pub free : rf.vote_for ≡ minus_one → g.ballot i rf.current_term ≡ none
  pub future : (term : ℕ) → rf.current_term < term → g.ballot i term ≡ none
  pub runs : rf.state ≡ candidate → g.ballot i rf.current_term ≡ some i
  pub leads : rf.state ≡ leader → g.elected rf.current_term ≡ some i

-- A reply that grants, seen by the candidate or not.
abbrev pub grants : Call → Bool
grants pending = false
grants (answered reply) = reply.vote_granted
grants (consumed reply) = reply.vote_granted

abbrev pub counted : Call → Bool
counted pending = false
counted (answered reply) = false
counted (consumed reply) = reply.vote_granted

pub record RoundOk (g : Ghost) (n : ℕ) (rd : Round) : Type 0 where
  pub in_range : rd.args.candidate_id < n
  pub own : rd.call rd.args.candidate_id ≡ pending
  pub granted : (j : ℕ) → grants (rd.call j) ≡ true → Supports g j rd.args.term rd.args.candidate_id
  pub tallied : rd.votes ≤ count n (λ j. counted (rd.call j)) + 1

abbrev pub votes_for : Ghost → ℕ → ℕ → ℕ → Bool
votes_for g term c j = elim (g.ballot j term) [ none ↦ false | some d ↦ d == c ]

pub record Inv {A : Type 0} (g : Ghost) (n : ℕ) (s : System A) : Type 0 where
  pub peers : (i : ℕ) → PeerOk g n i (s.peer i)
  pub rounds : (r : ℕ) (rd : Round) → s.round r ≡ some rd → RoundOk g n rd
  pub requests :
      (k : ℕ) (args : RequestAppendEntriesArgs A)
      → s.sent k ≡ some args
      → g.elected args.term ≡ some args.leader_id
  pub majorities : (term c : ℕ) → g.elected term ≡ some c → n / 2 < count n (votes_for g term c)

pub Extends-refl : (g : Ghost) → Extends g g
Extends-refl g = record { ballots = λ j t c e. e; elections = λ t c e. e }

pub Supports-Extends :
    {g g' : Ghost} (x : Extends g g') (j term c : ℕ) → Supports g j term c → Supports g' j term c
Supports-Extends x j term c (inl e) = inl (x.ballots j term c e)
Supports-Extends x j term c (inr e) = inr (x.elections term c e)

pub RoundOk-Extends :
    {g g' : Ghost} {n : ℕ} {rd : Round} (x : Extends g g') → RoundOk g n rd → RoundOk g' n rd
RoundOk-Extends {rd} x ok = record {
  in_range = ok.in_range;
  own = ok.own;
  granted = λ j e. Supports-Extends x j rd.args.term rd.args.candidate_id (ok.granted j e);
  tallied = ok.tallied;
}

-- A peer whose own votes are as before stays in order.
pub PeerOk-Extends :
    {A : Type 0} {g g' : Ghost} {n i : ℕ} {rf : Raft A} (x : Extends g g')
    → ((term : ℕ) → g'.ballot i term ≡ g.ballot i term)
    → PeerOk g n i rf
    → PeerOk g' n i rf
PeerOk-Extends {i} {rf} x same ok = record {
  itself = ok.itself;
  all = ok.all;
  vote = λ c e. Supports-Extends x i rf.current_term c (ok.vote c e);
  free = λ e. same rf.current_term ∙ ok.free e;
  future = λ t h. same t ∙ ok.future t h;
  runs = λ e. x.ballots i rf.current_term i (ok.runs e);
  leads = λ e. x.elections rf.current_term i (ok.leads e);
}

pub votes_for-ballot :
    (g : Ghost) (term c j : ℕ) → votes_for g term c j ≡ true → g.ballot j term ≡ some c
votes_for-ballot g term c j e = elim (Option-cases (g.ballot j term)) [
  | inl none_yet ↦ absurd (ground arith)
  | inr (d, there) ↦ ground (arith, there)
]

pub ballot-votes_for :
    (g : Ghost) (term c j : ℕ) → g.ballot j term ≡ some c → votes_for g term c j ≡ true
ballot-votes_for g term c j e = ground (arith, e)

pub votes_for-Extends :
    {g g' : Ghost} (x : Extends g g') (n term c : ℕ)
    → count n (votes_for g term c) ≤ count n (votes_for g' term c)
votes_for-Extends {g} {g'} x n term c =
    count-le n (votes_for g term c) (votes_for g' term c)
      λ j e. ballot-votes_for g' term c j (x.ballots j term c (votes_for-ballot g term c j e))
