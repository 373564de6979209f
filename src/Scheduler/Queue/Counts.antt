-- ===== src/Scheduler/Queue/Counts.antt =====
-- The queues as multisets of ids (crates/orion-scheduler/src/queue.rs), and the two removal loops.
use orion_serve_rs.Prelude.{
  ℕ, suc, ◌+◌, ◌<◌, ◌≡◌, refl, inl, inr, Bool, none, some, [], ◌∷◌, ◌++◌, arith, if◌then◌else◌,
  ◌==◌, length, Option-cases, Bool-cases, if_elim, All,
}
use orion_serve_rs.Core.Sequence.{Sequence}
use orion_serve_rs.Scheduler.Queue.{Queue, remove, update, drain_where, pop_newest}

-- How often an id stands in a queue.
abbrev pub count_id : ℕ → Queue → ℕ
count_id a [] = 0
count_id a (s ∷ q) = (if s.id == a then 1 else 0) + count_id a q

pub count_id-append : (a : ℕ) (p q : Queue) → count_id a (p ++ q) ≡ count_id a p + count_id a q
count_id-append a [] q = omega arith
count_id-append a (s ∷ p) q = omega (arith, count_id-append a p q)

-- The newest sequence is the last one.
pub pop_newest-append :
    (q : Queue) (v : Sequence) (rest : Queue) → pop_newest q ≡ some (v, rest) → q ≡ rest ++ v ∷ []
unfolding pop_newest
pop_newest-append [] v rest e = absurd (ground arith)
pop_newest-append (s ∷ q) v rest e = elim (Option-cases (pop_newest q)) [
  | inl last ↦ ground (arith, pop_newest_none q last)
  | inr ((w, r), found) ↦ ground (arith, pop_newest-append q w r found)
]
  where
    pop_newest_none : (q : Queue) → pop_newest q ≡ none → q ≡ []
    pop_newest_none [] e = refl
    pop_newest_none (s ∷ q) e = absurd (ground arith)

-- A queue with a last sequence gives it up.
pub pop_newest-some :
    (q : Queue) → 0 < length q → (v : Sequence) × (rest : Queue) × (pop_newest q ≡ some (v, rest))
unfolding pop_newest
pop_newest-some [] h = absurd (omega arith)
pop_newest-some (s ∷ q) h = elim (Option-cases (pop_newest q)) [
  | inl last ↦ (s, [], ground arith)
  | inr ((w, r), found) ↦ (w, s ∷ r, ground arith)
]

-- A write that keeps ids keeps the counts and the length.
pub count_id-update :
    (q : Queue) (id a : ℕ) (f : Sequence → Sequence)
    → ((s : Sequence) → (f s).id ≡ s.id)
    → count_id a (update q id f) ≡ count_id a q
unfolding update
count_id-update [] id a f same = refl
count_id-update (s ∷ q) id a f same = ground (arith, same s, count_id-update q id a f same)

pub length-update :
    (q : Queue) (id : ℕ) (f : Sequence → Sequence) → length (update q id f) ≡ length q
unfolding update
length-update [] id f = refl
length-update (s ∷ q) id f = ground (arith, length-update q id f)

-- The one removed and the rest make up the queue.
pub count_id-remove :
    (q : Queue) (id a : ℕ) (s : Sequence) (rest : Queue)
    → remove q id ≡ some (s, rest)
    → (count_id a q ≡ (if id == a then 1 else 0) + count_id a rest)
      × (s.id ≡ id)
      × (length q ≡ suc (length rest))
unfolding remove
count_id-remove [] id a s rest e = absurd (ground arith)
count_id-remove (x ∷ q) id a s rest e = elim (Option-cases (remove q id)) [
  | inl missing ↦ (ground arith, ground arith, ground arith)
  | inr ((y, r), found) ↦
      let ih = count_id-remove q id a y r found in
      (ground (arith, ih), ground (arith, ih), ground (arith, ih))
]

-- Nothing is removed only where the id does not stand in the queue.
pub count_id-remove-none : (q : Queue) (id : ℕ) → remove q id ≡ none → count_id id q ≡ 0
unfolding remove
count_id-remove-none [] id e = refl
count_id-remove-none (x ∷ q) id e = elim (Option-cases (remove q id)) [
  | inl missing ↦ ground (arith, count_id-remove-none q id)
  | inr ((y, r), found) ↦ absurd (ground arith)
]

-- A queue is what was drained and what was kept.
pub count_id-drain_where :
    (test : Sequence → Bool) (q : Queue) (a : ℕ)
    → count_id a (drain_where test q).0 + count_id a (drain_where test q).1 ≡ count_id a q
unfolding drain_where
count_id-drain_where test [] a = refl
count_id-drain_where test (s ∷ q) a = elim (Bool-cases (test s)) [
  | inl out ↦ rw (out, drain_where) (omega (arith, count_id-drain_where test q a))
  | inr stay ↦ rw (stay, drain_where) (omega (arith, count_id-drain_where test q a))
]

-- A write that keeps a property of each sequence.
pub All-update {κ} :
    (P : Sequence → Type κ) (q : Queue) (id : ℕ) (f : Sequence → Sequence)
    → ((s : Sequence) → P s → P (f s))
    → All P q
    → All P (update q id f)
unfolding update
All-update P [] id f keep h = tt
All-update P (s ∷ q) id f keep h =
    if_elim (All P) (s.id == id) (λ _. (keep s h.0, h.1)) (λ _. (h.0, All-update P q id f keep h.1))
