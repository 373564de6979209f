-- ===== src/Scheduler/Pass/Keeps.antt =====
-- What is to be shown of a property of a pass so that both halves of a pass keep it
-- (crates/orion-scheduler/src/scheduler.rs), and the decode half.
use orion_serve_rs.Prelude.{
  ℕ, ◌+◌, ◌≤◌, ◌<◌, ◌≡◌, ◌≢◌, inl, inr, Bool, true, false, List, [], ◌∷◌, ◌++◌, arith, leb, length,
  Option-cases, Bool-cases, leb→gt,
}
use orion_serve_rs.Core.Error.{Result, ok, err}
use orion_serve_rs.Core.Sequence.{Sequence}
use orion_serve_rs.Core.Traits.{KvCacheManagerLike}
use orion_serve_rs.Scheduler.Queue.{Queue, update, pop_newest}
use orion_serve_rs.Scheduler.Queue.Counts.{pop_newest-append}
use orion_serve_rs.Scheduler.Pass.{
  Pass, decode_entry, emit, with_cache, evict, preempt_one, after_append, retry_decode, decode_one,
  and_then, decode_loop, decode_candidates, schedule_decodes,
}
use orion_serve_rs.Scheduler.Prefill.{prefill_entry, resume, start_prefill, after_allocate}

module _ {C : Type 0} ⦃k : KvCacheManagerLike C⦄ where
  -- A running sequence after its next chunk.
  abbrev pub resume_running : ℕ → ℕ → ℕ → Pass C → Pass C
  resume_running now id chunk p = record p {
    sched = record (p.sched) { running = update p.sched.running id (resume now chunk) };
  }

  -- Each thing that a pass does keeps the property.
  pub record Keeps (budget : ℕ) (P : Pass C → Type 0) : Type 0 where
    pub appended :
        (id : ℕ) (p : Pass C) → P p → P (with_cache p (k.append_token p.sched.cache id).1)
    pub decoded :
        (id len : ℕ) (p : Pass C) → P p → p.used < budget → P (emit p (decode_entry id len))
    pub evicted :
        (victim : Sequence) (rest : Queue) (p : Pass C)
        → P p
        → p.sched.running ≡ rest ++ victim ∷ []
        → P (evict p victim rest)
    pub resumed :
        (now id already chunk : ℕ) (p : Pass C)
        → P p
        → p.used + chunk ≤ budget
        → P (emit (resume_running now id chunk p) (prefill_entry id chunk already))
    pub allocated :
        (now chunk : ℕ) (seq : Sequence) (rest : Queue) (p : Pass C)
        → P p
        → p.sched.waiting ≡ seq ∷ rest
        → length p.sched.running < p.sched.config.max_num_seqs
        → p.used + chunk ≤ budget
        → P (after_allocate now chunk seq rest p (k.allocate p.sched.cache seq.id seq.prompt)).1
    pub started :
        (now chunk : ℕ) (seq : Sequence) (rest : Queue) (p : Pass C)
        → P p
        → p.sched.waiting ≡ seq ∷ rest
        → length p.sched.running < p.sched.config.max_num_seqs
        → p.used + chunk ≤ budget
        → seq.computed_prefix_len ≢ 0
        → P (start_prefill now chunk seq rest p)

  preempt_one-used : (p : Pass C) → (preempt_one p).1.used ≡ p.used
  unfolding preempt_one evict
  preempt_one-used p = ground arith

  module _ {budget : ℕ} {P : Pass C → Type 0} (h : Keeps budget P) where
    pub keep-preempt_one : (p : Pass C) → P p → P (preempt_one p).1
    unfolding preempt_one
    keep-preempt_one p v = elim (Option-cases (pop_newest p.sched.running)) [
      | inl none_left ↦ rw (none_left, preempt_one) v
      | inr ((victim, rest), e) ↦
          rw (e, preempt_one)
            (h.evicted victim rest p v (pop_newest-append p.sched.running victim rest e))
    ]

    keep-after_append :
        (id len : ℕ) (p : Pass C) (otherwise : Pass C → Bool × Pass C) (r : Result (Unit {0}) × C)
        → P (with_cache p r.1)
        → p.used < budget
        → (P (with_cache p r.1) → P (otherwise (with_cache p r.1)).1)
        → P (after_append id len p otherwise r).1
    unfolding after_append
    keep-after_append id len p otherwise (ok _, c) v lt next =
        h.decoded id len (with_cache p c) v lt
    keep-after_append id len p otherwise (err _, c) v lt next = next v

    keep-retry_decode :
        (id len : ℕ) (r : Bool × Pass C) → P r.1 → r.1.used < budget → P (retry_decode id len r).1
    unfolding retry_decode
    keep-retry_decode id len (false, p) v lt = v
    keep-retry_decode id len (true, p) v lt =
        keep-after_append id len p (λ q. (true, q)) (k.append_token p.sched.cache id)
          (h.appended id p v) lt (λ w. w)

    keep-decode_one : (id len : ℕ) (p : Pass C) → P p → p.used < budget → P (decode_one id len p).1
    unfolding decode_one
    keep-decode_one id len p v lt =
        keep-after_append id len p (λ q. retry_decode id len (preempt_one q))
          (k.append_token p.sched.cache id) (h.appended id p v) lt
          (λ w.
            let q = with_cache p (k.append_token p.sched.cache id).1 in
            keep-retry_decode id len (preempt_one q) (keep-preempt_one q w)
              (omega (arith, preempt_one-used q)))

    -- Past one round, the rest of a loop keeps it where the round did.
    pub keep-and_then :
        (r : Bool × Pass C) (rest : Pass C → Pass C)
        → P r.1
        → ((q : Pass C) → P q → P (rest q))
        → P (and_then r rest)
    keep-and_then (true, q) rest w then = then q w
    keep-and_then (false, q) rest w then = w

    keep-decode_loop : (cs : List (ℕ × ℕ)) (p : Pass C) → P p → P (decode_loop budget cs p)
    unfolding decode_loop
    keep-decode_loop [] p v = v
    keep-decode_loop ((id, len) ∷ cs) p v = elim (Bool-cases (leb budget p.used)) [
      | inl spent_all ↦ rw (spent_all, decode_loop) v
      | inr room ↦
          rw (room, decode_loop)
            (keep-and_then (decode_one id len p) (decode_loop budget cs)
              (keep-decode_one id len p v (leb→gt budget p.used room)) (keep-decode_loop cs))
    ]

    pub keep-schedule_decodes : (p : Pass C) → P p → P (schedule_decodes budget p)
    unfolding schedule_decodes
    keep-schedule_decodes p v = keep-decode_loop (decode_candidates p.sched.running) p v
