-- ===== src/Scheduler/Prefill/Keeps.antt =====
-- The prefill half of a pass, and the properties that a pass keeps
-- (crates/orion-scheduler/src/scheduler.rs).
use orion_serve_rs.Prelude.{
  ℕ, zero, suc, ◌+◌, ◌-◌, ◌≤◌, ◌<◌, ◌≡◌, refl, inl, inr, Bool, ◌||◌, Option, none, some, List, [],
  ◌∷◌, arith, ◌==◌, leb, length, Option-cases, Bool-cases, leb→gt, if_elim, ==→ne,
}
use orion_serve_rs.Core.Sequence.{Sequence, prompt_len}
use orion_serve_rs.Core.Config.{SchedulerConfig}
use orion_serve_rs.Core.Traits.{KvCacheManagerLike}
use orion_serve_rs.Scheduler.Queue.{Queue}
use orion_serve_rs.Scheduler.Queue
use orion_serve_rs.Scheduler.Pass.{Pass}
use orion_serve_rs.Scheduler.Pass.Keeps.{Keeps, keep-preempt_one, keep-and_then}
use orion_serve_rs.Scheduler.Prefill.{
  chunk_for, resume_one, resume_chunk, resume_loop, schedule_partial_prefills, admit_chunk,
  admit_head, admit_next, prefill_round, prefill_loop, prefill_candidates, schedule_prefills,
}

-- A chunk fits the room left, with and without chunking.
pub chunk_for-le :
    (config : SchedulerConfig) (remaining room chunk : ℕ)
    → chunk_for config remaining room ≡ some chunk
    → chunk ≤ room
chunk_for-le config remaining room chunk e = ground arith

module _ {C : Type 0} ⦃k : KvCacheManagerLike C⦄ {budget : ℕ} {P : Pass C → Type 0}
    (h : Keeps budget P) where
  abbrev P' : Bool × Pass C → Type 0
  P' r = P r.1

  keep-resume_one :
      (now id already chunk : ℕ) (p : Pass C)
      → P p
      → p.used + chunk ≤ budget
      → P (resume_one now id already chunk p)
  unfolding resume_one
  keep-resume_one now id already chunk p v fits =
      elim (Option-cases (Queue.get p.sched.running id)) [
        | inl gone ↦ rw (gone, resume_one) v
        | inr (s, e) ↦ rw (e, resume_one) (h.resumed now id already chunk p v fits)
      ]

  keep-resume_chunk :
      (now id already : ℕ) (chunk : Option ℕ) (p : Pass C)
      → P p
      → ((n : ℕ) → chunk ≡ some n → p.used + n ≤ budget)
      → P (resume_chunk now id already chunk p)
  unfolding resume_chunk
  keep-resume_chunk now id already none p v fits = v
  keep-resume_chunk now id already (some chunk) p v fits =
      if_elim P (chunk == 0) (λ _. v)
        (λ _. keep-resume_one now id already chunk p v (fits chunk refl))

  keep-resume_loop :
      (now : ℕ) (cs : List (ℕ × ℕ × ℕ)) (p : Pass C) → P p → P (resume_loop now budget cs p)
  unfolding resume_loop
  keep-resume_loop now [] p v = v
  keep-resume_loop now ((id, already, remaining) ∷ cs) p v = elim (Bool-cases (leb budget p.used)) [
    | inl spent_all ↦ rw (spent_all, resume_loop) v
    | inr room ↦
        let chunk = chunk_for p.sched.config remaining (budget - p.used) in
        rw (room, resume_loop)
          (keep-resume_loop now cs (resume_chunk now id already chunk p) (
            keep-resume_chunk now id already chunk p v (λ n e. omega (
              arith,
              chunk_for-le p.sched.config remaining (budget - p.used) n e,
              leb→gt budget p.used room,
            ))))
  ]

  module _ (now : ℕ) (seq : Sequence) (rest : Queue) (p : Pass C) (v : P p)
      (head : p.sched.waiting ≡ seq ∷ rest)
      (slot : length p.sched.running < p.sched.config.max_num_seqs) where
    keep-admit_chunk :
        (chunk : ℕ) → p.used + chunk ≤ budget → P (admit_chunk now chunk seq rest p).1
    unfolding admit_chunk
    keep-admit_chunk chunk fits =
        if_elim P' (seq.computed_prefix_len == 0)
          (λ first.
            if_elim P' (k.can_allocate p.sched.cache (prompt_len seq))
              (λ room. h.allocated now chunk seq rest p v head slot fits)
              (λ full. keep-preempt_one h p v))
          (λ later.
            h.started now chunk seq rest p v head slot fits (==→ne seq.computed_prefix_len 0 later))

    keep-admit_head : p.used < budget → P (admit_head now budget seq rest p).1
    unfolding admit_head
    keep-admit_head room =
        let remaining = prompt_len seq - seq.computed_prefix_len in
        elim (Option-cases (chunk_for p.sched.config remaining (budget - p.used))) [
          | inl too_long ↦ rw (too_long, admit_head) v
          | inr (chunk, e) ↦
              rw (e, admit_head)
                (if_elim P' (chunk == 0) (λ _. v)
                  (λ _. keep-admit_chunk chunk (
                    omega
                      (arith, chunk_for-le p.sched.config remaining (budget - p.used) chunk e))))
        ]

  keep-admit_next :
      (now : ℕ) (q : Queue) (p : Pass C)
      → P p
      → p.sched.waiting ≡ q
      → length p.sched.running < p.sched.config.max_num_seqs
      → p.used < budget
      → P (admit_next now budget q p).1
  unfolding admit_next
  keep-admit_next now [] p v e slot room = v
  keep-admit_next now (seq ∷ rest) p v e slot room = keep-admit_head now seq rest p v e slot room

  keep-prefill_round : (now : ℕ) (p : Pass C) → P p → P (prefill_round now budget p).1
  unfolding prefill_round
  keep-prefill_round now p v =
      if_elim P' (leb p.sched.config.max_num_seqs (length p.sched.running) || leb budget p.used)
        (λ _. v)
        (λ open_slot. keep-admit_next now p.sched.waiting p v refl (ground arith) (ground arith))

  keep-prefill_loop : (now rounds : ℕ) (p : Pass C) → P p → P (prefill_loop now budget rounds p)
  unfolding prefill_loop
  keep-prefill_loop now zero p v = v
  keep-prefill_loop now (suc rounds) p v =
      keep-and_then h (prefill_round now budget p) (prefill_loop now budget rounds)
        (keep-prefill_round now p v) (keep-prefill_loop now rounds)

  pub keep-schedule_prefills : (now : ℕ) (p : Pass C) → P p → P (schedule_prefills now budget p)
  unfolding schedule_prefills schedule_partial_prefills
  keep-schedule_prefills now p v =
      keep-prefill_loop now _ _ (keep-resume_loop now (prefill_candidates p.sched.running) p v)
