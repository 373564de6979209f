-- ===== src/Scheduler/Lifecycle/Consistent.antt =====
-- The scheduler's other methods and its invariant (crates/orion-scheduler/src/scheduler.rs).
use orion_serve_rs.Prelude.{
  ℕ, ◌+◌, ◌*◌, ◌≡◌, refl, sym, ◌∙◌, ◌⊎◌, inl, inr, false, none, some, List, [], ◌∷◌, arith,
  if◌then◌else◌, ◌==◌, leb, ltb, length, Option-cases, Bool-cases, if_elim, All, All-append, map,
}
use orion_serve_rs.Core.Sequence.{
  Sequence, push_token, finish, is_finished, is_active, is_prefill_complete,
}
use orion_serve_rs.Core.Error.{Result}
use orion_serve_rs.Core.Traits.{KvCacheManagerLike, CacheLaws}
use orion_serve_rs.Scheduler.Queue.{Queue, drain_where, take_finished}
use orion_serve_rs.Scheduler.Queue
use orion_serve_rs.Scheduler.Queue.Counts.{
  count_id, count_id-append, count_id-update, length-update, All-update, count_id-remove,
  count_id-remove-none, count_id-drain_where,
}
use orion_serve_rs.Scheduler.Queue.All.{
  count_id-map, length-map, All-map, All-drain_where, All-remove,
}
use orion_serve_rs.Scheduler.Queue.Finished.{take_finished-drain_where}
use orion_serve_rs.Scheduler.State.{
  Scheduler, add_request, cancel, cancel_running, max_model_len, requested_len, reject, admit,
}
use orion_serve_rs.Scheduler.Pass.Sound.{IsIdle, IsLive}
use orion_serve_rs.Scheduler.Step.Consistent.{Consistent, AllLive, IsBusy, known}
use orion_serve_rs.Scheduler.Lifecycle.{
  take_token, on_token, expire_one, is_late, expire_by, expire_timeouts, free_each, reap_finished,
  commit_prefill,
}

take_token-id :
    (now token : ℕ) (eos : List ℕ) (s : Sequence) → (take_token now token eos s).1.id ≡ s.id
unfolding take_token push_token finish
take_token-id now token eos s = ground arith

take_token-IsBusy :
    (now token : ℕ) (eos : List ℕ) (s : Sequence) → IsBusy s → IsBusy (take_token now token eos s).1
unfolding take_token push_token finish
take_token-IsBusy now token eos s h = ground arith

expire_one-id : (now limit : ℕ) (s : Sequence) → (expire_one now limit s).id ≡ s.id
unfolding finish
expire_one-id now limit s = ground arith

expire_one-IsBusy : (now limit : ℕ) (s : Sequence) → IsBusy s → IsBusy (expire_one now limit s)
unfolding finish
expire_one-IsBusy now limit s h = ground arith

-- Of the busy sequences those that are not finished are live.
kept-AllLive : (q : Queue) → All IsBusy q → All IsLive (drain_where is_finished q).1
unfolding drain_where is_active
kept-AllLive [] h = tt
kept-AllLive (s ∷ q) h = elim (Bool-cases (is_finished s)) [
  | inl done ↦ rw (done, drain_where) (kept-AllLive q h.1)
  | inr live ↦ rw (live, drain_where) (ground (arith, h.0), kept-AllLive q h.1)
]

module _ {C : Type 0} ⦃k : KvCacheManagerLike C⦄ (l : CacheLaws k) (s : Scheduler C)
    (v : Consistent l s) where
  -- From a consistent scheduler over a cache that keeps the trait's laws, `add_request` of a
  -- waiting sequence with nothing computed, under an id that neither queue has, leads to a
  -- consistent one, whether it is admitted or rejected.
  pub add_request-Consistent :
      (seq : Sequence) → known s seq.id ≡ 0 → IsIdle seq → Consistent l (add_request s seq).1
  unfolding add_request
  add_request-Consistent seq fresh idle =
      if_elim Outcome (leb s.config.max_waiting_requests (length s.waiting)) (λ _. rejected)
        (λ _.
          if_elim Outcome (ltb (max_model_len s) (requested_len seq)) (λ _. rejected)
            (λ _.
              if_elim Outcome
                (ltb (k.total_blocks s.cache) (k.blocks_needed_for s.cache (length seq.prompt)))
                (λ _. rejected) (λ _. admitted)))
    where
      Outcome : Result ℕ × Scheduler C → Type 0
      Outcome r = Consistent l r.1

      rejected : Consistent l (reject s)
      rejected = record {
        unique = v.unique;
        holding = v.holding;
        idle = v.idle;
        busy = v.busy;
        slots = v.slots;
      }

      admitted : Consistent l (admit s seq)
      admitted = record {
        unique = λ a. ground (arith, v.unique a, fresh, count_id-append a s.waiting (seq ∷ []));
        holding = v.holding;
        idle = All-append IsIdle s.waiting (seq ∷ []) v.idle (idle, tt);
        busy = v.busy;
        slots = v.slots;
      }

  -- From a consistent scheduler over a cache that keeps the trait's laws, `cancel` leads to a
  -- consistent one, with the blocks of a running sequence given back, and the id is in neither
  -- queue afterwards.
  pub cancel-Consistent : (id : ℕ) → Consistent l (cancel s id).1 × (known (cancel s id).1 id ≡ 0)
  unfolding cancel cancel_running
  cancel-Consistent id = elim (Option-cases (Queue.remove s.waiting id)) [
    | inr ((seq, rest), e) ↦
        let parts : ((a : ℕ)
            → count_id a s.waiting ≡ (if id == a then 1 else 0) + count_id a rest) =
          λ a. (count_id-remove s.waiting id a seq rest e).0 in
        rw (e, cancel)
          (
            record {
              unique = λ a. ground (arith, v.unique a, parts a);
              holding = v.holding;
              idle = All-remove IsIdle s.waiting id seq rest e v.idle;
              busy = v.busy;
              slots = v.slots;
            },
            ground (arith, v.unique id, parts id),
          )
    | inl not_waiting ↦
        rw (not_waiting, cancel)
          (from_running (Option-cases (Queue.remove s.running id)) not_waiting)
  ]
    where
      from_running :
          (Queue.remove s.running id ≡ none)
            ⊎ ((r : Sequence × Queue) × (Queue.remove s.running id ≡ some r))
          → Queue.remove s.waiting id ≡ none
          → Consistent l (cancel_running s id (Queue.remove s.running id)).1
            × (known (cancel_running s id (Queue.remove s.running id)).1 id ≡ 0)
      from_running (inl e) w =
          rw (e, cancel_running)
            (
              v,
              omega
                  (arith, count_id-remove-none s.running id e, count_id-remove-none s.waiting id w),
            )
      from_running (inr ((seq, rest), e)) w =
          let parts : ((a : ℕ)
              → count_id a s.running ≡ (if id == a then 1 else 0) + count_id a rest) =
            λ a. (count_id-remove s.running id a seq rest e).0 in
          rw (e, cancel_running)
            (
              record {
                unique = λ a. ground (arith, v.unique a, parts a);
                holding = λ a.
                    ground (arith, v.unique a, v.holding a, parts a, l.free_holds s.cache id a);
                idle = v.idle;
                busy = All-remove IsBusy s.running id seq rest e v.busy;
                slots = omega (arith, v.slots, count_id-remove s.running id id seq rest e);
              },
              ground (arith, v.unique id, parts id),
            )

  -- From a consistent scheduler over a cache that keeps the trait's laws, `on_token` leads to a
  -- consistent one, for an id that is running or not.
  pub on_token-Consistent :
      (now id token : ℕ) (eos : List ℕ) → Consistent l (on_token now s id token eos).1
  unfolding on_token
  on_token-Consistent now id token eos = elim (Option-cases (Queue.get s.running id)) [
    | inl gone ↦ rw (gone, on_token) v
    | inr (seq, e) ↦
        let f = λ (x : Sequence). (take_token now token eos x).1 in
        let count : ((a : ℕ) → count_id a (Queue.update s.running id f) ≡ count_id a s.running) =
          λ a. count_id-update s.running id a f (take_token-id now token eos) in
        rw (e, on_token)
          (record {
            unique = λ a. omega (arith, v.unique a, count a);
            holding = λ a. v.holding a ∙ sym (count a);
            idle = v.idle;
            busy = All-update IsBusy s.running id f (take_token-IsBusy now token eos) v.busy;
            slots = omega (arith, v.slots, length-update s.running id f);
          })
  ]

  expire_by-Consistent : (now limit : ℕ) → Consistent l (expire_by now limit s).1
  expire_by-Consistent now limit =
      let count : ((a : ℕ)
          → count_id a (map (expire_one now limit) s.running) ≡ count_id a s.running) =
        λ a. count_id-map a (expire_one now limit) s.running (expire_one-id now limit) in
      record {
        unique = λ a.
            omega
              (arith, v.unique a, count a, count_id-drain_where (is_late now limit) s.waiting a);
        holding = λ a. v.holding a ∙ sym (count a);
        idle = (All-drain_where IsIdle (is_late now limit) s.waiting v.idle).0;
        busy = All-map IsBusy (expire_one now limit) s.running (expire_one-IsBusy now limit) v.busy;
        slots = omega (arith, v.slots, length-map (expire_one now limit) s.running);
      }

  -- From a consistent scheduler over a cache that keeps the trait's laws, `expire_timeouts` leads
  -- to a consistent one.
  pub expire_timeouts-Consistent : (now : ℕ) → Consistent l (expire_timeouts now s).1
  unfolding expire_timeouts
  expire_timeouts-Consistent now = elim (Option-cases s.config.request_timeout_secs) [
    | inl unlimited ↦ rw (unlimited, expire_timeouts) v
    | inr (secs, e) ↦ rw (e, expire_timeouts) (expire_by-Consistent now (secs * 1000000000))
  ]

  pub commit_prefill-Consistent : (id : ℕ) → Consistent l (commit_prefill s id)
  unfolding commit_prefill
  commit_prefill-Consistent id = elim (Option-cases (Queue.get s.running id)) [
    | inl gone ↦ rw (gone, commit_prefill) v
    | inr (seq, e) ↦
        rw (e, commit_prefill)
          (if_elim (Consistent l) (is_prefill_complete seq)
            (λ _. record {
              unique = v.unique;
              holding = λ a. rw (l.commit_prefill_holds s.cache id seq.prompt a) (v.holding a);
              idle = v.idle;
              busy = v.busy;
              slots = v.slots;
            })
            (λ _. v))
  ]

  free_each-holds :
      (ss : List Sequence) (c : C) (a : ℕ)
      → l.holds (free_each ss c) a ≡ (if ltb 0 (count_id a ss) then false else l.holds c a)
  unfolding free_each
  free_each-holds [] c a = refl
  free_each-holds (x ∷ ss) c a =
      ground (arith, free_each-holds ss (k.free c x.id) a, l.free_holds c x.id a)

  -- From a consistent scheduler over a cache that keeps the trait's laws, `reap_finished` leads to
  -- a consistent one in which every running sequence is prefilling or decoding.
  pub reap_finished-Consistent : Consistent l (reap_finished s).1 × AllLive (reap_finished s).1
  unfolding reap_finished
  reap_finished-Consistent =
      let split = take_finished-drain_where s.running in
      rw split (
        record {
          unique = λ a. omega (arith, v.unique a, count_id-drain_where is_finished s.running a);
          holding = λ a. ground (
            arith,
            v.unique a,
            v.holding a,
            count_id-drain_where is_finished s.running a,
            free_each-holds (drain_where is_finished s.running).0 s.cache a,
          );
          idle = v.idle;
          busy = (All-drain_where IsBusy is_finished s.running v.busy).0;
          slots = omega (arith, v.slots, (All-drain_where IsBusy is_finished s.running v.busy).1);
        },
        kept-AllLive s.running v.busy,
      )
