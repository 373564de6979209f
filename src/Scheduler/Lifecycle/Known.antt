-- ===== src/Scheduler/Lifecycle/Known.antt =====
-- Which ids a call leaves in the queues (crates/orion-scheduler/src/scheduler.rs), from any state and
-- over any cache.
use orion_serve_rs.Prelude.{
  ℕ, ◌+◌, ◌*◌, ◌≤◌, ◌≡◌, ◌⊎◌, refl, inl, inr, true, List, [], ◌∷◌, arith, if◌then◌else◌, ◌==◌, leb,
  ltb, length, Option-cases, if_elim, count, count-append,
}
use orion_serve_rs.Core.Sequence.{Sequence, push_token, finish, is_finished, is_prefill_complete}
use orion_serve_rs.Core.Error.{Result, ok, err}
use orion_serve_rs.Core.Traits.{KvCacheManagerLike}
use orion_serve_rs.Scheduler.Queue.{Queue, drain_where, take_finished}
use orion_serve_rs.Scheduler.Queue
use orion_serve_rs.Scheduler.Queue.Counts.{
  count_id, count_id-append, count_id-update, count_id-remove, count_id-drain_where,
}
use orion_serve_rs.Scheduler.Queue.All.{count_id-map}
use orion_serve_rs.Scheduler.Queue.Finished.{take_finished-drain_where}
use orion_serve_rs.Scheduler.State.{
  Scheduler, add_request, cancel, cancel_running, max_model_len, requested_len,
}
use orion_serve_rs.Scheduler.Step.Consistent.{known}
use orion_serve_rs.Scheduler.Lifecycle.{
  take_token, on_token, expire_one, is_late, ids, late_ids, expire_by, expire_timeouts,
  reap_finished, commit_prefill,
}

take_token-id :
    (now token : ℕ) (eos : List ℕ) (s : Sequence) → (take_token now token eos s).1.id ≡ s.id
unfolding take_token push_token finish
take_token-id now token eos s = ground arith

expire_one-id : (now limit : ℕ) (s : Sequence) → (expire_one now limit s).id ≡ s.id
unfolding finish
expire_one-id now limit s = ground arith

count-ids : (a : ℕ) (q : Queue) → count a (ids q) ≡ count_id a q
count-ids a [] = refl
count-ids a (s ∷ q) = omega (arith, count-ids a q)

module _ {C : Type 0} ⦃k : KvCacheManagerLike C⦄ (s : Scheduler C) where
  -- What an answer to an admission promises.
  abbrev pub Kept : ℕ → Result ℕ × Scheduler C → Type 0
  Kept id (ok i, s') = (i ≡ id) × ((a : ℕ) → known s' a ≡ (if id == a then 1 else 0) + known s a)
  Kept id (err e, s') = (a : ℕ) → known s' a ≡ known s a

  pub add_request-Kept : (seq : Sequence) → Kept seq.id (add_request s seq)
  unfolding add_request
  add_request-Kept seq =
      if_elim (Kept seq.id) (leb s.config.max_waiting_requests (length s.waiting)) (λ _ a. refl)
        (λ _.
          if_elim (Kept seq.id) (ltb (max_model_len s) (requested_len seq)) (λ _ a. refl)
            (λ _.
              if_elim (Kept seq.id)
                (ltb (k.total_blocks s.cache) (k.blocks_needed_for s.cache (length seq.prompt)))
                (λ _ a. refl)
                (λ _. (refl, λ a. omega (arith, count_id-append a s.waiting (seq ∷ []))))))

  pub cancel-known : (id a : ℕ) → known s a ≤ (if id == a then 1 else 0) + known (cancel s id).1 a
  unfolding cancel cancel_running
  cancel-known id a = elim (Option-cases (Queue.remove s.waiting id)) [
    | inr ((seq, rest), e) ↦
        rw (e, cancel) (ground (arith, count_id-remove s.waiting id a seq rest e))
    | inl not_waiting ↦ elim (Option-cases (Queue.remove s.running id)) [
      | inl not_running ↦ rw (not_waiting, cancel) (rw (not_running, cancel_running) (ground arith))
      | inr ((seq, rest), e) ↦
          rw (not_waiting, cancel)
            (rw (e, cancel_running) (ground (arith, count_id-remove s.running id a seq rest e)))
    ]
  ]

  -- A refused cancellation changes nothing.
  pub cancel_refused : (id : ℕ) → ((cancel s id).0 ≡ true) ⊎ ((cancel s id).1 ≡ s)
  unfolding cancel cancel_running
  cancel_refused id = elim (Option-cases (Queue.remove s.waiting id)) [
    | inr ((seq, rest), e) ↦ inl (rw (e, cancel) refl)
    | inl not_waiting ↦ elim (Option-cases (Queue.remove s.running id)) [
      | inl not_running ↦ inr (rw (not_waiting, cancel) (rw (not_running, cancel_running) refl))
      | inr ((seq, rest), e) ↦ inl (rw (not_waiting, cancel) (rw (e, cancel_running) refl))
    ]
  ]

  pub on_token-known :
      (now id token : ℕ) (eos : List ℕ) (a : ℕ)
      → known (on_token now s id token eos).1 a ≡ known s a
  unfolding on_token
  on_token-known now id token eos a = elim (Option-cases (Queue.get s.running id)) [
    | inl gone ↦ rw (gone, on_token) refl
    | inr (seq, e) ↦
        rw (e, on_token)
          (omega (
            arith,
            count_id-update s.running id a (λ x. (take_token now token eos x).1)
                (take_token-id now token eos),
          ))
  ]

  expire_by-known :
      (now limit a : ℕ)
      → known s a ≤ count a (expire_by now limit s).0 + known (expire_by now limit s).1 a
  expire_by-known now limit a = omega (
    arith,
    count_id-map a (expire_one now limit) s.running (expire_one-id now limit),
    count_id-drain_where (is_late now limit) s.waiting a,
    count-ids a (drain_where (is_late now limit) s.waiting).0,
    count-append a (late_ids now limit s.running)
        (ids (drain_where (is_late now limit) s.waiting).0),
  )

  pub expire_timeouts-known :
      (now a : ℕ)
      → known s a ≤ count a (expire_timeouts now s).0 + known (expire_timeouts now s).1 a
  unfolding expire_timeouts
  expire_timeouts-known now a = elim (Option-cases s.config.request_timeout_secs) [
    | inl unlimited ↦ rw (unlimited, expire_timeouts) (omega arith)
    | inr (secs, e) ↦ rw (e, expire_timeouts) (expire_by-known now (secs * 1000000000) a)
  ]

  pub commit_prefill-known : (id a : ℕ) → known (commit_prefill s id) a ≡ known s a
  unfolding commit_prefill
  commit_prefill-known id a = elim (Option-cases (Queue.get s.running id)) [
    | inl gone ↦ rw (gone, commit_prefill) refl
    | inr (seq, e) ↦
        rw (e, commit_prefill)
          (if_elim (λ (t : Scheduler C). known t a ≡ known s a) (is_prefill_complete seq)
            (λ _. refl) (λ _. refl))
  ]

  pub reap_finished-known :
      (a : ℕ) → count_id a (reap_finished s).0 + known (reap_finished s).1 a ≡ known s a
  unfolding reap_finished
  reap_finished-known a =
      rw (take_finished-drain_where s.running)
        (omega (arith, count_id-drain_where is_finished s.running a))
