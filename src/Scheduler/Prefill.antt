-- ===== src/Scheduler/Prefill.antt =====
-- crates/orion-scheduler/src/scheduler.rs: the prefill half of a pass. The time that the transitions
-- stamp is an argument.
pub mod Keeps
pub mod Rounds
use orion_serve_rs.Prelude.{
  ℕ, zero, suc, ◌+◌, ◌-◌, ◌*◌, min, Bool, true, false, not, ◌&&◌, ◌||◌, Option, none, some, List,
  [], ◌∷◌, ◌++◌, if◌then◌else◌, ltb, leb, ◌==◌, length,
}
use orion_serve_rs.Core.Error.{Result, ok, err}
use orion_serve_rs.Core.Sequence.{
  Sequence, SequenceState, prefilling, decoding, state_eq, prompt_len, remaining_prefill,
  is_prefill_complete, advance_prefill, transition_to, preempt,
}
use orion_serve_rs.Core.Config.{SchedulerConfig}
use orion_serve_rs.Core.Traits.{KvCacheManagerLike}
use orion_serve_rs.Scheduler.Queue.{Queue, push_front}
use orion_serve_rs.Scheduler.Queue
use orion_serve_rs.Scheduler.Output.{ScheduledSequence}
use orion_serve_rs.Scheduler.Pass.{Pass, emit, with_cache, and_then, preempt_one}

-- Running sequences in the middle of a prefill: id, tokens done, tokens left.
unfoldable pub prefill_candidates : Queue → List (ℕ × ℕ × ℕ)
prefill_candidates [] = []
prefill_candidates (s ∷ q) =
    if state_eq s.state prefilling && not (is_prefill_complete s)
    then (s.id, s.computed_prefix_len, remaining_prefill s) ∷ prefill_candidates q
    else prefill_candidates q

-- The tokens of a prefill that fit the room left, `none` where an unchunked prompt does not fit.
abbrev pub chunk_for : SchedulerConfig → ℕ → ℕ → Option ℕ
chunk_for config remaining room =
    if config.enable_chunked_prefill
    then some (min remaining room)
    else (if leb remaining room then some remaining else none)

abbrev pub prefill_entry : ℕ → ℕ → ℕ → ScheduledSequence
prefill_entry id chunk start = record {
  id = id;
  num_tokens = chunk;
  start_position = start;
  is_prefill = true;
}

-- An illegal transition is logged and changes nothing.
abbrev pub enter_prefill : ℕ → Sequence → Sequence
enter_prefill now s =
    if state_eq s.state SequenceState.waiting then (transition_to s now prefilling).1 else s

abbrev pub enter_decode : ℕ → Sequence → Sequence
enter_decode now s = if is_prefill_complete s then (transition_to s now decoding).1 else s

-- A running sequence after its next chunk.
abbrev pub resume : ℕ → ℕ → Sequence → Sequence
resume now chunk s = enter_decode now (advance_prefill s chunk)

module _ {C : Type 0} ⦃k : KvCacheManagerLike C⦄ where
  unfoldable pub resume_one : ℕ → ℕ → ℕ → ℕ → Pass C → Pass C
  resume_one now id already chunk p = elim (Queue.get p.sched.running id) [
    | none ↦ p
    | some s ↦
        emit
          (record p {
            sched = record (p.sched) {
              running = Queue.update p.sched.running id (resume now chunk);
            };
          })
          (prefill_entry id chunk already)
  ]

  -- Passes over a candidate that does not fit or has nothing left.
  unfoldable pub resume_chunk : ℕ → ℕ → ℕ → Option ℕ → Pass C → Pass C
  unfolding resume_one
  resume_chunk now id already none p = p
  resume_chunk now id already (some chunk) p =
      if chunk == 0 then p else resume_one now id already chunk p

  unfoldable pub resume_loop : ℕ → ℕ → List (ℕ × ℕ × ℕ) → Pass C → Pass C
  unfolding resume_chunk
  resume_loop now budget [] p = p
  resume_loop now budget ((id, already, remaining) ∷ cs) p = elim (leb budget p.used) [
    | true ↦ p
    | false ↦
        resume_loop now budget cs
          (resume_chunk now id already (chunk_for p.sched.config remaining (budget - p.used)) p)
  ]

  unfoldable pub schedule_partial_prefills : ℕ → ℕ → Pass C → Pass C
  unfolding resume_loop
  schedule_partial_prefills now budget p =
      resume_loop now budget (prefill_candidates p.sched.running) p

  -- The head of the waiting queue joins the batch and the running set.
  unfoldable pub start_prefill : ℕ → ℕ → Sequence → Queue → Pass C → Pass C
  start_prefill now chunk seq rest p =
      let started = enter_decode now (enter_prefill now (advance_prefill seq chunk)) in
      emit
        (record p {
          sched = record (p.sched) { waiting = rest; running = p.sched.running ++ started ∷ [] };
        })
        (prefill_entry seq.id chunk seq.computed_prefix_len)

  -- A failed allocation puts the sequence back and ends the loop.
  unfoldable pub after_allocate :
      ℕ → ℕ → Sequence → Queue → Pass C → Result (Unit {0}) × C → Bool × Pass C
  unfolding start_prefill
  after_allocate now chunk seq rest p (ok _, c) =
      (true, start_prefill now chunk seq rest (with_cache p c))
  after_allocate now chunk seq rest p (err _, c) = (
    false,
    record p { sched = record (p.sched) { cache = c; waiting = push_front rest (preempt seq).1 } },
  )

  -- Admits the head with a chunk that is not empty, or evicts to make room for it.
  unfoldable pub admit_chunk : ℕ → ℕ → Sequence → Queue → Pass C → Bool × Pass C
  unfolding preempt_one after_allocate start_prefill
  admit_chunk now chunk seq rest p =
      if seq.computed_prefix_len == 0
      then (if k.can_allocate p.sched.cache (prompt_len seq)
          then after_allocate now chunk seq rest p (k.allocate p.sched.cache seq.id seq.prompt)
          else preempt_one p)
      else (true, start_prefill now chunk seq rest p)

  unfoldable pub admit_head : ℕ → ℕ → Sequence → Queue → Pass C → Bool × Pass C
  unfolding admit_chunk
  admit_head now budget seq rest p =
      elim (chunk_for p.sched.config (prompt_len seq - seq.computed_prefix_len) (budget - p.used)) [
        | none ↦ (false, p)
        | some chunk ↦ if chunk == 0 then (false, p) else admit_chunk now chunk seq rest p
      ]

  -- The loop goes on while there is a batch slot, room in the budget, and a head of the queue.
  unfoldable pub admit_next : ℕ → ℕ → Queue → Pass C → Bool × Pass C
  unfolding admit_head
  admit_next now budget [] p = (false, p)
  admit_next now budget (seq ∷ rest) p = admit_head now budget seq rest p

  -- One round of the loop; `false` ends it.
  unfoldable pub prefill_round : ℕ → ℕ → Pass C → Bool × Pass C
  unfolding admit_next
  prefill_round now budget p =
      if leb p.sched.config.max_num_seqs (length p.sched.running) || leb budget p.used
      then (false, p)
      else admit_next now budget p.sched.waiting p

  unfoldable pub prefill_loop : ℕ → ℕ → ℕ → Pass C → Pass C
  unfolding prefill_round
  prefill_loop now budget zero p = p
  prefill_loop now budget (suc rounds) p =
      and_then (prefill_round now budget p) (prefill_loop now budget rounds)

  -- Each admission takes from the budget, and each eviction from the running set.
  abbrev pub prefill_rounds : ℕ → Pass C → ℕ
  prefill_rounds budget p = 2 * (budget - p.used) + length p.sched.running + 1

  unfoldable pub schedule_prefills : ℕ → ℕ → Pass C → Pass C
  unfolding schedule_partial_prefills prefill_loop
  schedule_prefills now budget p =
      let p' = schedule_partial_prefills now budget p in
      prefill_loop now budget (prefill_rounds budget p') p'
