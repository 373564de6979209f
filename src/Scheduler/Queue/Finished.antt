-- ===== src/Scheduler/Queue/Finished.antt =====
-- `RunningQueue::take_finished` (crates/orion-scheduler/src/queue.rs): the loop that removes in place
-- and the plain split of the queue.
use orion_serve_rs.Prelude.{
  ℕ, zero, suc, ◌≤◌, ◌≡◌, refl, ap, inl, inr, none, some, List, [], ◌∷◌, ◌++◌, arith, length,
  get_elem?, Bool-cases, append-nil, append_assoc,
}
use orion_serve_rs.Core.Sequence.{Sequence, is_finished}
use orion_serve_rs.Scheduler.Queue.{Queue, drain_where, take_loop, take_finished, remove_at}

get_elem?-middle :
    (p : Queue) (s : Sequence) (q : Queue) → get_elem? (p ++ s ∷ q) (length p) ≡ some s
get_elem?-middle [] s q = refl
get_elem?-middle (x ∷ p) s q = get_elem?-middle p s q

get_elem?-end : (p : Queue) → get_elem? p (length p) ≡ none
get_elem?-end [] = refl
get_elem?-end (x ∷ p) = get_elem?-end p

remove_at-middle :
    (p : Queue) (s : Sequence) (q : Queue) → remove_at (p ++ s ∷ q) (length p) ≡ p ++ q
unfolding remove_at
remove_at-middle [] s q = refl
remove_at-middle (x ∷ p) s q = ap (◌∷◌ x) (remove_at-middle p s q)

length-snoc : (p : Queue) (s : Sequence) → length (p ++ s ∷ []) ≡ suc (length p)
length-snoc [] s = refl
length-snoc (x ∷ p) s = ap suc (length-snoc p s)

-- With the loop at the end of `kept`, the rest of the queue is split behind what was done before.
take_loop-drain_where :
    (rounds : ℕ) (kept q : Queue) (taken : List Sequence)
    → length q ≤ rounds
    → take_loop rounds (length kept) (kept ++ q) taken
      ≡ (taken ++ (drain_where is_finished q).0, kept ++ (drain_where is_finished q).1)
unfolding take_loop drain_where
take_loop-drain_where zero kept [] taken h = simp append-nil
take_loop-drain_where zero kept (s ∷ q) taken h = absurd (omega arith)
take_loop-drain_where (suc rounds) kept [] taken h =
    rw (append-nil kept, get_elem?-end kept, take_loop) (simp append-nil)
take_loop-drain_where (suc rounds) kept (s ∷ q) taken h = elim (Bool-cases (is_finished s)) [
  | inl done ↦
      rw (get_elem?-middle kept s q, take_loop)
        (rw done (
          rw (remove_at-middle kept s q) (
            simp append_assoc at
              (take_loop-drain_where rounds kept q (taken ++ s ∷ []) (omega arith)))))
  | inr live ↦
      rw (get_elem?-middle kept s q, take_loop)
        (rw live (
          simp (length-snoc, append_assoc) at
            (take_loop-drain_where rounds (kept ++ s ∷ []) q taken (omega arith))))
]

-- The loop of `take_finished`, which removes in place, gives the finished sequences and the
-- others, both in the order of the queue.
pub take_finished-drain_where : (q : Queue) → take_finished q ≡ drain_where is_finished q
unfolding take_finished
take_finished-drain_where q = take_loop-drain_where (length q) [] q [] (omega arith)
