-- ===== src/Scheduler/Queue/All.antt =====
-- Properties of every sequence of a queue (crates/orion-scheduler/src/queue.rs).
use orion_serve_rs.Prelude.{
  ℕ, suc, ◌≤◌, ◌≡◌, refl, ap, inl, inr, Bool, some, [], ◌∷◌, arith, ◌==◌, length, Option-cases,
  Bool-cases, All, map,
}
use orion_serve_rs.Core.Sequence.{Sequence}
use orion_serve_rs.Scheduler.Queue.{Queue, drain_where, remove}
use orion_serve_rs.Scheduler.Queue.Counts.{count_id}

pub count_id-map :
    (a : ℕ) (f : Sequence → Sequence) (q : Queue)
    → ((s : Sequence) → (f s).id ≡ s.id)
    → count_id a (map f q) ≡ count_id a q
count_id-map a f [] same = refl
count_id-map a f (s ∷ q) same = ground (arith, same s, count_id-map a f q same)

pub length-map : (f : Sequence → Sequence) (q : Queue) → length (map f q) ≡ length q
length-map f [] = refl
length-map f (s ∷ q) = ap suc (length-map f q)

pub All-map {κ} :
    (P : Sequence → Type κ) (f : Sequence → Sequence) (q : Queue)
    → ((s : Sequence) → P s → P (f s))
    → All P q
    → All P (map f q)
All-map P f [] keep h = tt
All-map P f (s ∷ q) keep h = (keep s h.0, All-map P f q keep h.1)

-- The kept part of a queue keeps what held of all, and is no longer.
pub All-drain_where {κ} :
    (P : Sequence → Type κ) (test : Sequence → Bool) (q : Queue)
    → All P q
    → All P (drain_where test q).1 × (length (drain_where test q).1 ≤ length q)
unfolding drain_where
All-drain_where P test [] h = (tt, omega arith)
All-drain_where P test (s ∷ q) h =
    let (rest, fewer) = All-drain_where P test q h.1 in
    elim (Bool-cases (test s)) [
      | inl out ↦ rw (out, drain_where) (rest, omega arith)
      | inr stay ↦ rw (stay, drain_where) ((h.0, rest), omega arith)
    ]

-- What is left of a queue keeps what held of all.
pub All-remove {κ} :
    (P : Sequence → Type κ) (q : Queue) (id : ℕ) (s : Sequence) (rest : Queue)
    → remove q id ≡ some (s, rest)
    → All P q
    → All P rest
unfolding remove
All-remove P [] id s rest e h = absurd (ground arith)
All-remove P (x ∷ q) id s rest e h = elim (Bool-cases (x.id == id)) [
  | inl hit ↦ let tail : rest ≡ q = ground arith in rw tail (h.1)
  | inr miss ↦ elim (Option-cases (remove q id)) [
    | inl missing ↦ absurd (ground arith)
    | inr ((y, r), found) ↦
        let kept : rest ≡ x ∷ r = ground arith in rw kept (h.0, All-remove P q id y r found h.1)
  ]
]
