-- ===== src/Scheduler/Queue.antt =====
-- crates/orion-scheduler/src/queue.rs: the waiting and the running queue, oldest first.
pub mod Counts
pub mod Finished
pub mod All
use orion_serve_rs.Prelude.{
  ℕ, zero, suc, ◌+◌, Bool, true, false, Option, none, some, List, [], ◌∷◌, ◌++◌, if◌then◌else◌,
  ◌==◌, get_elem?, length,
}
use orion_serve_rs.Core.Sequence.{Sequence, is_finished, total_len}

abbrev pub Queue : Type 0
Queue = List Sequence

abbrev pub push_back : Queue → Sequence → Queue
push_back q s = q ++ s ∷ []

abbrev pub push_front : Queue → Sequence → Queue
push_front q s = s ∷ q

abbrev pub pop_front : Queue → Option (Sequence × Queue)
pop_front [] = none
pop_front (s ∷ q) = some (s, q)

abbrev pub peek : Queue → Option Sequence
peek [] = none
peek (s ∷ q) = some s

-- `RunningQueue::get`: the first sequence with the id.
unfoldable pub get : Queue → ℕ → Option Sequence
get [] id = none
get (s ∷ q) id = if s.id == id then some s else get q id

abbrev cons_rest : Sequence → Option (Sequence × Queue) → Option (Sequence × Queue)
cons_rest s none = none
cons_rest s (some (found, rest)) = some (found, s ∷ rest)

-- The first sequence with the id, and the queue without it, for both queues.
unfoldable pub remove : Queue → ℕ → Option (Sequence × Queue)
remove [] id = none
remove (s ∷ q) id = if s.id == id then some (s, q) else cons_rest s (remove q id)

-- A write through `RunningQueue::get_mut`.
unfoldable pub update : Queue → ℕ → (Sequence → Sequence) → Queue
update [] id f = []
update (s ∷ q) id f = if s.id == id then f s ∷ q else s ∷ update q id f

abbrev take_out : Bool → Sequence → List Sequence × Queue → List Sequence × Queue
take_out true s (removed, kept) = (s ∷ removed, kept)
take_out false s (removed, kept) = (removed, s ∷ kept)

-- Those for which the test holds, and the rest, both in order.
unfoldable pub drain_where : (Sequence → Bool) → Queue → List Sequence × Queue
drain_where test [] = ([], [])
drain_where test (s ∷ q) = take_out (test s) s (drain_where test q)

-- `Vec::remove(i)`, where there is an element at `i`.
pub remove_at : Queue → ℕ → Queue
remove_at [] i = []
remove_at (s ∷ q) zero = q
remove_at (s ∷ q) (suc i) = s ∷ remove_at q i

-- `while i < self.inner.len()`: each round takes one sequence out or moves past one, so the length
-- of the queue bounds the rounds.
pub take_loop : ℕ → ℕ → Queue → List Sequence → List Sequence × Queue
take_loop zero i q taken = (taken, q)
take_loop (suc rounds) i q taken = elim (get_elem? q i) [
  | none ↦ (taken, q)
  | some s ↦ elim (is_finished s) [
    | true ↦ take_loop rounds i (remove_at q i) (taken ++ s ∷ [])
    | false ↦ take_loop rounds (suc i) q taken
  ]
]

unfoldable pub take_finished : Queue → List Sequence × Queue
unfolding take_loop remove_at
take_finished q = take_loop (length q) 0 q []

-- The last one, and the rest.
unfoldable pub pop_newest : Queue → Option (Sequence × Queue)
pop_newest [] = none
pop_newest (s ∷ q) = elim (pop_newest q) [
  | none ↦ some (s, [])
  | some (newest, rest) ↦ some (newest, s ∷ rest)
]

unfoldable pub total_tokens : Queue → ℕ
total_tokens [] = 0
total_tokens (s ∷ q) = total_len s + total_tokens q
