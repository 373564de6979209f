-- ===== src/Scheduler/Pass/Sound.antt =====
-- What a pass of the scheduler (crates/orion-scheduler/src/scheduler.rs) keeps over a cache that keeps
-- the laws of the trait.
use orion_serve_rs.Prelude.{
  ℕ, ◌+◌, ◌≤◌, ◌<◌, ◌≡◌, sym, ap, ◌∙◌, true, [], ◌∷◌, ◌++◌, arith, if◌then◌else◌, ◌==◌, length, All,
  All-append, All-of_append, subst, length-append,
}
use orion_serve_rs.Core.Error.{Result, ok, err}
use orion_serve_rs.Core.Sequence.{
  Sequence, waiting, is_active, can_transition_to, transition_to, preempt,
}
use orion_serve_rs.Core.Config.{SchedulerConfig}
use orion_serve_rs.Core.Traits.{KvCacheManagerLike, CacheLaws, is_ok}
use orion_serve_rs.Scheduler.Queue.{Queue}
use orion_serve_rs.Scheduler.Queue.Counts.{count_id, count_id-append, All-update, length-update}
use orion_serve_rs.Scheduler.Output.{ScheduledSequence}
use orion_serve_rs.Scheduler.Pass.{Pass, emit, with_cache, evict, decode_entry}
use orion_serve_rs.Scheduler.Prefill.{prefill_entry, resume, start_prefill, after_allocate}
use orion_serve_rs.Scheduler.Pass.Keeps.{Keeps, resume_running}
use orion_serve_rs.Scheduler.Pass.Steady.{
  Steady, begun, begun-id, emit-Steady, with_cache-Steady, evict-Steady, resume_running-Steady,
  resume-count, after_allocate-Steady,
}

-- A waiting sequence has nothing computed, and a running one is in a live state.
abbrev pub IsIdle : Sequence → Type 0
IsIdle s = (s.computed_prefix_len ≡ 0) × (s.state ≡ waiting)

abbrev pub IsLive : Sequence → Type 0
IsLive s = is_active s.state ≡ true

preempt-IsIdle : (s : Sequence) → IsLive s → IsIdle (preempt s).1
unfolding preempt is_active can_transition_to
preempt-IsIdle s h = ground arith

resume-IsLive : (now chunk : ℕ) (s : Sequence) → IsLive s → IsLive (resume now chunk s)
unfolding transition_to is_active can_transition_to
resume-IsLive now chunk s h = ground arith

-- `preempt` refuses a waiting sequence, and leaves it waiting.
put_back-IsIdle : (s : Sequence) → IsIdle s → IsIdle (preempt s).1
unfolding preempt can_transition_to
put_back-IsIdle s h = ground arith

-- The head of the waiting queue comes into a live state.
begun-IsLive : (now chunk : ℕ) (s : Sequence) → IsIdle s → IsLive (begun now chunk s)
unfolding transition_to is_active can_transition_to
begun-IsLive now chunk s h = ground arith

module _ {C : Type 0} ⦃k : KvCacheManagerLike C⦄ (l : CacheLaws k) where
  -- What holds in any case; besides, the sequences that hold blocks are the running ones.
  pub record Sound (config : SchedulerConfig) (budget : ℕ) (total : ℕ → ℕ) (p : Pass C)
      : Type 0 where
    pub steady : Steady config budget total p
    pub holding : (a : ℕ) → (if l.holds p.sched.cache a then 1 else 0) ≡ count_id a p.sched.running
    pub idle : All IsIdle p.sched.waiting
    pub live : All IsLive p.sched.running
    pub slots : length p.sched.running ≤ config.max_num_seqs

  module _ {config : SchedulerConfig} {budget : ℕ} {total : ℕ → ℕ}
      (once : (a : ℕ) → total a ≤ 1) where
    emit-Sound :
        (p : Pass C) (e : ScheduledSequence)
        → Sound config budget total p
        → p.used + e.num_tokens ≤ budget
        → Sound config budget total (emit p e)
    emit-Sound p e v fits = record {
      steady = emit-Steady p e v.steady fits;
      holding = v.holding;
      idle = v.idle;
      live = v.live;
      slots = v.slots;
    }

    append_token-Sound :
        (id : ℕ) (p : Pass C)
        → Sound config budget total p
        → Sound config budget total (with_cache p (k.append_token p.sched.cache id).1)
    append_token-Sound id p v = record {
      steady = with_cache-Steady p _ v.steady;
      holding = λ a. rw (l.append_token_holds p.sched.cache id a) (v.holding a);
      idle = v.idle;
      live = v.live;
      slots = v.slots;
    }

    evict-Sound :
        (victim : Sequence) (rest : Queue) (p : Pass C)
        → Sound config budget total p
        → p.sched.running ≡ rest ++ victim ∷ []
        → Sound config budget total (evict p victim rest)
    unfolding evict
    evict-Sound victim rest p v e = record {
      steady = evict-Steady victim rest p v.steady e;
      holding = λ a. ground (
        arith,
        v.holding a,
        v.steady.custody a,
        once a,
        ap (count_id a) e,
        count_id-append a rest (victim ∷ []),
        l.free_holds p.sched.cache victim.id a,
      );
      idle = (preempt-IsIdle victim (was e).1.0, v.idle);
      live = (was e).0;
      slots = omega (arith, v.slots, ap length e, length-append rest (victim ∷ []));
    }
      where
        was : p.sched.running ≡ rest ++ victim ∷ [] → All IsLive rest × All IsLive (victim ∷ [])
        was e = All-of_append IsLive rest (victim ∷ []) (rw e at v.live)

    resume_running-Sound :
        (now id chunk : ℕ) (p : Pass C)
        → Sound config budget total p
        → Sound config budget total (resume_running now id chunk p)
    resume_running-Sound now id chunk p v = record {
      steady = resume_running-Steady now id chunk p v.steady;
      holding = λ a. v.holding a ∙ sym (resume-count now chunk id a p.sched.running);
      idle = v.idle;
      live =
          All-update IsLive p.sched.running id (resume now chunk) (resume-IsLive now chunk) v.live;
      slots = omega (arith, v.slots, length-update p.sched.running id (resume now chunk));
    }

    after_allocate-Sound :
        (now chunk : ℕ) (seq : Sequence) (rest : Queue) (p : Pass C) (r : Result (Unit {0}) × C)
        → Sound config budget total p
        → p.sched.waiting ≡ seq ∷ rest
        → length p.sched.running < p.sched.config.max_num_seqs
        → p.used + chunk ≤ budget
        → ((a : ℕ)
            → l.holds r.1 a ≡ (
                if is_ok r.0
                then (if seq.id == a then true else l.holds p.sched.cache a)
                else l.holds p.sched.cache a))
        → Sound config budget total (after_allocate now chunk seq rest p r).1
    unfolding after_allocate start_prefill
    after_allocate-Sound now chunk seq rest p (ok o, c) v head slot fits law = record {
      steady = after_allocate-Steady now chunk seq rest p (ok o, c) v.steady head fits;
      holding = λ a. ground (
        arith,
        law a,
        v.holding a,
        v.steady.custody a,
        once a,
        ap (count_id a) head,
        count_id-append a p.sched.running (begun now chunk seq ∷ []),
        begun-id now chunk seq,
      );
      idle = (subst (All IsIdle) head v.idle).1;
      live =
          All-append IsLive p.sched.running (begun now chunk seq ∷ []) v.live
            (begun-IsLive now chunk seq (subst (All IsIdle) head v.idle).0, tt);
      slots = omega (
        arith,
        slot,
        ap (λ q. q.max_num_seqs) v.steady.config_kept,
        length-append p.sched.running (begun now chunk seq ∷ []),
      );
    }
    after_allocate-Sound now chunk seq rest p (err e, c) v head slot fits law = record {
      steady = after_allocate-Steady now chunk seq rest p (err e, c) v.steady head fits;
      holding = λ a. ground (arith, law a, v.holding a);
      idle = (
        put_back-IsIdle seq (subst (All IsIdle) head v.idle).0,
        (subst (All IsIdle) head v.idle).1,
      );
      live = v.live;
      slots = v.slots;
    }

    pub Sound-Keeps : Keeps {C = C} budget (Sound config budget total)
    Sound-Keeps = record {
      appended = append_token-Sound;
      decoded = λ id len p v room. emit-Sound p (decode_entry id len) v (omega arith);
      evicted = evict-Sound;
      resumed = λ now id already chunk p v fits.
          emit-Sound (resume_running now id chunk p) (prefill_entry id chunk already)
            (resume_running-Sound now id chunk p v) fits;
      allocated = λ now chunk seq rest p v head slot fits.
          after_allocate-Sound now chunk seq rest p (k.allocate p.sched.cache seq.id seq.prompt) v
            head slot fits (l.allocate_holds p.sched.cache seq.id seq.prompt);
      started = λ now chunk seq rest p v head slot fits later.
          absurd (later (subst (All IsIdle) head v.idle).0.0);
    }
