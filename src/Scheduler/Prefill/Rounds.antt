-- ===== src/Scheduler/Prefill/Rounds.antt =====
-- The admission loop of `schedule_prefills` (crates/orion-scheduler/src/scheduler.rs) and what
-- each of its rounds takes from: the token budget or the running set.
use orion_serve_rs.Prelude.{
  ℕ, zero, suc, ◌+◌, ◌-◌, ◌*◌, ◌<◌, ◌≡◌, ◌≢◌, refl, ap, inl, inr, Bool, true, false, ◌||◌, [], ◌∷◌,
  arith, ◌==◌, leb, length, length-append, Option-cases, if_elim, ==→ne,
}
use orion_serve_rs.Core.Error.{Result, ok, err}
use orion_serve_rs.Core.Sequence.{Sequence, prompt_len}
use orion_serve_rs.Core.Traits.{KvCacheManagerLike}
use orion_serve_rs.Scheduler.Queue.{Queue, pop_newest}
use orion_serve_rs.Scheduler.Queue.Counts.{pop_newest-append}
use orion_serve_rs.Scheduler.Pass.{Pass, with_cache, and_then, evict, preempt_one}
use orion_serve_rs.Scheduler.Prefill.{
  chunk_for, start_prefill, after_allocate, admit_chunk, admit_head, admit_next, prefill_round,
  prefill_loop, prefill_rounds,
}

module _ {C : Type 0} ⦃k : KvCacheManagerLike C⦄ (budget : ℕ) where
  -- What a round that goes on takes from.
  abbrev pub measure : Pass C → ℕ
  measure p = 2 * (budget - p.used) + length p.sched.running

  abbrev Shrinks : Pass C → Bool × Pass C → Type 0
  Shrinks p r = r.0 ≡ true → measure r.1 < measure p

  preempt_one-Shrinks : (p : Pass C) → Shrinks p (preempt_one p)
  unfolding preempt_one evict
  preempt_one-Shrinks p = elim (Option-cases (pop_newest p.sched.running)) [
    | inl none_left ↦ rw (none_left, preempt_one) (λ stopped. cc)
    | inr ((victim, rest), e) ↦
        rw (e, preempt_one)
          (λ _. omega (
            arith,
            ap length (pop_newest-append p.sched.running victim rest e),
            length-append rest (victim ∷ []),
          ))
  ]

  start_prefill-Shrinks :
      (now chunk : ℕ) (seq : Sequence) (rest : Queue) (p : Pass C) (c : C)
      → chunk ≢ 0
      → p.used < budget
      → measure (start_prefill now chunk seq rest (with_cache p c)) < measure p
  unfolding start_prefill
  start_prefill-Shrinks now chunk seq rest p c some_tokens room =
      omega (arith, length-append p.sched.running (_ ∷ []))

  after_allocate-Shrinks :
      (now chunk : ℕ) (seq : Sequence) (rest : Queue) (p : Pass C) (r : Result (Unit {0}) × C)
      → chunk ≢ 0
      → p.used < budget
      → Shrinks p (after_allocate now chunk seq rest p r)
  unfolding after_allocate
  after_allocate-Shrinks now chunk seq rest p (ok _, c) some_tokens room =
      λ _. start_prefill-Shrinks now chunk seq rest p c some_tokens room
  after_allocate-Shrinks now chunk seq rest p (err _, c) some_tokens room = λ stopped. cc

  admit_chunk-Shrinks :
      (now chunk : ℕ) (seq : Sequence) (rest : Queue) (p : Pass C)
      → chunk ≢ 0
      → p.used < budget
      → Shrinks p (admit_chunk now chunk seq rest p)
  unfolding admit_chunk
  admit_chunk-Shrinks now chunk seq rest p some_tokens room =
      if_elim (Shrinks p) (seq.computed_prefix_len == 0)
        (λ first.
          if_elim (Shrinks p) (k.can_allocate p.sched.cache (prompt_len seq))
            (λ _. after_allocate-Shrinks now chunk seq rest p _ some_tokens room)
            (λ _. preempt_one-Shrinks p))
        (λ later. λ _. start_prefill-Shrinks now chunk seq rest p p.sched.cache some_tokens room)

  admit_next-Shrinks :
      (now : ℕ) (q : Queue) (p : Pass C) → p.used < budget → Shrinks p (admit_next now budget q p)
  unfolding admit_next admit_head
  admit_next-Shrinks now [] p room = λ stopped. cc
  admit_next-Shrinks now (seq ∷ rest) p room =
      elim (Option-cases
        (chunk_for p.sched.config (prompt_len seq - seq.computed_prefix_len) (budget - p.used))) [
          | inl too_long ↦ rw (too_long, admit_head) (λ stopped. cc)
          | inr (chunk, e) ↦
              rw (e, admit_head)
                (if_elim (Shrinks p) (chunk == 0) (λ _ stopped. cc)
                  (λ some_tokens.
                    admit_chunk-Shrinks now chunk seq rest p (==→ne chunk 0 some_tokens) room))
        ]

  prefill_round-Shrinks : (now : ℕ) (p : Pass C) → Shrinks p (prefill_round now budget p)
  unfolding prefill_round
  prefill_round-Shrinks now p =
      if_elim (Shrinks p)
        (leb p.sched.config.max_num_seqs (length p.sched.running) || leb budget p.used)
        (λ _ stopped. cc) (λ open_slot. admit_next-Shrinks now p.sched.waiting p (ground arith))

  -- The rounds of the loop from one pass to another, the last of which breaks. No fuel stands here:
  -- a loop that goes round for ever has no such end.
  pub data RunsTo (now : ℕ) : Pass C → Pass C → Type 0 where
    breaks : {p q : Pass C} → prefill_round now budget p ≡ (false, q) → RunsTo now p q
    goes_on :
        {p q r : Pass C} → prefill_round now budget p ≡ (true, q) → RunsTo now q r → RunsTo now p r

  ends_after :
      (now rounds : ℕ) (p : Pass C) (round : Bool × Pass C)
      → prefill_round now budget p ≡ round
      → ((q : Pass C)
          → prefill_round now budget p ≡ (true, q)
          → RunsTo now q (prefill_loop now budget rounds q))
      → RunsTo now p (and_then round (prefill_loop now budget rounds))
  ends_after now rounds p (true, q) e rest = goes_on e (rest q e)
  ends_after now rounds p (false, q) e rest = breaks e

  prefill_loop-RunsTo :
      (now rounds : ℕ) (p : Pass C)
      → measure p < rounds
      → RunsTo now p (prefill_loop now budget rounds p)
  unfolding prefill_loop
  prefill_loop-RunsTo now zero p h = absurd (omega arith)
  prefill_loop-RunsTo now (suc rounds) p h =
      ends_after now rounds p (prefill_round now budget p) refl (λ q e.
        let less : measure (prefill_round now budget p).1 < measure p =
          prefill_round-Shrinks now p (ap (λ (r : Bool × Pass C). r.0) e) in
        prefill_loop-RunsTo now rounds q (omega (arith, ap (λ (r : Bool × Pass C). measure r.1) e)))

  -- For any cache and from any state of a pass, the admission loop of `schedule_prefills` ends:
  -- after finitely many rounds that go on there is a round that breaks, and the result of the
  -- loop, as it is run with a bounded number of rounds, is what that round left.
  pub prefill_loop_ends :
      (now : ℕ) (p : Pass C) → RunsTo now p (prefill_loop now budget (prefill_rounds budget p) p)
  prefill_loop_ends now p = prefill_loop-RunsTo now (prefill_rounds budget p) p (omega arith)
