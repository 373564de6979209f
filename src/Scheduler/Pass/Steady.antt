-- ===== src/Scheduler/Pass/Steady.antt =====
-- What a pass of the scheduler (crates/orion-scheduler/src/scheduler.rs) keeps over any cache and from
-- any state.
use orion_serve_rs.Prelude.{ℕ, ◌+◌, ◌≤◌, ◌≡◌, ap, ◌∙◌, List, [], ◌∷◌, ◌++◌, arith}
use orion_serve_rs.Core.Error.{Result, ok, err}
use orion_serve_rs.Core.Sequence.{Sequence, advance_prefill, transition_to, preempt}
use orion_serve_rs.Core.Config.{SchedulerConfig}
use orion_serve_rs.Core.Traits.{KvCacheManagerLike}
use orion_serve_rs.Scheduler.Queue.{Queue}
use orion_serve_rs.Scheduler.Queue
use orion_serve_rs.Scheduler.Queue.Counts.{count_id, count_id-append, count_id-update}
use orion_serve_rs.Scheduler.Output.{ScheduledSequence, tokens_of}
use orion_serve_rs.Scheduler.Pass.{Pass, emit, with_cache, evict, decode_entry}
use orion_serve_rs.Scheduler.Prefill.{
  prefill_entry, enter_prefill, enter_decode, resume, start_prefill, after_allocate,
}
use orion_serve_rs.Scheduler.Pass.Keeps.{Keeps, resume_running}

pub tokens_of-append :
    (xs ys : List ScheduledSequence) → tokens_of (xs ++ ys) ≡ tokens_of xs + tokens_of ys
tokens_of-append [] ys = omega arith
tokens_of-append (x ∷ xs) ys = omega (arith, tokens_of-append xs ys)

pub preempt-id : (s : Sequence) → (preempt s).1.id ≡ s.id
unfolding preempt
preempt-id s = ground arith

pub enter_decode-id : (now : ℕ) (s : Sequence) → (enter_decode now s).id ≡ s.id
unfolding transition_to
enter_decode-id now s = ground arith

pub enter_prefill-id : (now : ℕ) (s : Sequence) → (enter_prefill now s).id ≡ s.id
unfolding transition_to
enter_prefill-id now s = ground arith

-- The head of the waiting queue as it joins the running set.
abbrev pub begun : ℕ → ℕ → Sequence → Sequence
begun now chunk s = enter_decode now (enter_prefill now (advance_prefill s chunk))

pub begun-id : (now chunk : ℕ) (s : Sequence) → (begun now chunk s).id ≡ s.id
begun-id now chunk s = enter_decode-id now _ ∙ enter_prefill-id now (advance_prefill s chunk)

pub resume-count :
    (now chunk id a : ℕ) (q : Queue)
    → count_id a (Queue.update q id (resume now chunk)) ≡ count_id a q
resume-count now chunk id a q =
    count_id-update q id a (resume now chunk) (λ x. enter_decode-id now (advance_prefill x chunk))

-- Each id stands in the queues as often as before the pass, and the batch fits its budget.
pub record Steady {C : Type 0} (config : SchedulerConfig) (budget : ℕ) (total : ℕ → ℕ) (p : Pass C)
    : Type 0 where
  pub config_kept : p.sched.config ≡ config
  pub custody : (a : ℕ) → count_id a p.sched.waiting + count_id a p.sched.running ≡ total a
  pub spent : tokens_of p.out.scheduled ≡ p.used
  pub within : p.used ≤ budget

module _ {C : Type 0} ⦃k : KvCacheManagerLike C⦄ {config : SchedulerConfig} {budget : ℕ}
    {total : ℕ → ℕ} where
  pub emit-Steady :
      (p : Pass C) (e : ScheduledSequence)
      → Steady config budget total p
      → p.used + e.num_tokens ≤ budget
      → Steady config budget total (emit p e)
  emit-Steady p e v fits = record {
    config_kept = v.config_kept;
    custody = v.custody;
    spent = omega (arith, tokens_of-append p.out.scheduled (e ∷ []), v.spent);
    within = fits;
  }

  pub with_cache-Steady :
      (p : Pass C) (c : C)
      → Steady config budget total p
      → Steady config budget total (with_cache p c)
  with_cache-Steady p c v = record {
    config_kept = v.config_kept;
    custody = v.custody;
    spent = v.spent;
    within = v.within;
  }

  pub evict-Steady :
      (victim : Sequence) (rest : Queue) (p : Pass C)
      → Steady config budget total p
      → p.sched.running ≡ rest ++ victim ∷ []
      → Steady config budget total (evict p victim rest)
  unfolding evict
  evict-Steady victim rest p v e = record {
    config_kept = v.config_kept;
    custody = λ a. ground (
      arith,
      v.custody a,
      ap (count_id a) e,
      count_id-append a rest (victim ∷ []),
      preempt-id victim,
    );
    spent = v.spent;
    within = v.within;
  }

  pub resume_running-Steady :
      (now id chunk : ℕ) (p : Pass C)
      → Steady config budget total p
      → Steady config budget total (resume_running now id chunk p)
  resume_running-Steady now id chunk p v = record {
    config_kept = v.config_kept;
    custody = λ a. omega (arith, v.custody a, resume-count now chunk id a p.sched.running);
    spent = v.spent;
    within = v.within;
  }

  pub start_prefill-Steady :
      (now chunk : ℕ) (seq : Sequence) (rest : Queue) (p : Pass C)
      → Steady config budget total p
      → p.sched.waiting ≡ seq ∷ rest
      → p.used + chunk ≤ budget
      → Steady config budget total (start_prefill now chunk seq rest p)
  unfolding start_prefill
  start_prefill-Steady now chunk seq rest p v head fits =
      emit-Steady _ (prefill_entry seq.id chunk seq.computed_prefix_len)
        (record {
          config_kept = v.config_kept;
          custody = λ a. ground (
            arith,
            v.custody a,
            ap (count_id a) head,
            count_id-append a p.sched.running (begun now chunk seq ∷ []),
            begun-id now chunk seq,
          );
          spent = v.spent;
          within = v.within;
        })
        fits

  pub after_allocate-Steady :
      (now chunk : ℕ) (seq : Sequence) (rest : Queue) (p : Pass C) (r : Result (Unit {0}) × C)
      → Steady config budget total p
      → p.sched.waiting ≡ seq ∷ rest
      → p.used + chunk ≤ budget
      → Steady config budget total (after_allocate now chunk seq rest p r).1
  unfolding after_allocate
  after_allocate-Steady now chunk seq rest p (ok _, c) v head fits =
      start_prefill-Steady now chunk seq rest (with_cache p c) (with_cache-Steady p c v) head fits
  after_allocate-Steady now chunk seq rest p (err _, c) v head fits = record {
    config_kept = v.config_kept;
    custody = λ a. ground (arith, v.custody a, ap (count_id a) head, preempt-id seq);
    spent = v.spent;
    within = v.within;
  }

  pub Steady-Keeps : Keeps {C = C} budget (Steady {C = C} config budget total)
  Steady-Keeps = record {
    appended = λ id p v. with_cache-Steady p (k.append_token p.sched.cache id).1 v;
    decoded = λ id len p v room. emit-Steady p (decode_entry id len) v (omega arith);
    evicted = evict-Steady;
    resumed = λ now id already chunk p v fits.
        emit-Steady (resume_running now id chunk p) (prefill_entry id chunk already)
          (resume_running-Steady now id chunk p v) fits;
    allocated = λ now chunk seq rest p v head slot fits.
        after_allocate-Steady now chunk seq rest p (k.allocate p.sched.cache seq.id seq.prompt) v
          head fits;
    started = λ now chunk seq rest p v head slot fits later.
        start_prefill-Steady now chunk seq rest p v head fits;
  }
