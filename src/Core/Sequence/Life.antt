-- ===== src/Core/Sequence/Life.antt =====
-- The life of a sequence (crates/orion-core/src/sequence.rs): its methods in any order.
use orion_serve_rs.Prelude.{
  ℕ, ◌≤◌, ◌≡◌, ◌⊎◌, refl, sym, ap, ◌∙◌, some, List, [], ◌∷◌, ◌++◌, arith, length, append-nil,
  append_assoc, if_elim, inl, inr,
}
use orion_serve_rs.Core.Sequence.{
  Sequence, SequenceState, FinishReason, SamplingParams, new, can_transition_to, is_finished,
  transition_to, advance_prefill, push_token, finish, preempt, stamp_first,
}

-- One call of a method that changes the sequence.
pub data Step : Sequence → Sequence → Type 0 where
  moved : (s : Sequence) (now : ℕ) (next : SequenceState) → Step s (transition_to s now next).1
  advanced : (s : Sequence) (n : ℕ) → Step s (advance_prefill s n)
  took : (s : Sequence) (now token : ℕ) → Step s (push_token s now token)
  ended : (s : Sequence) (now : ℕ) (reason : FinishReason) → Step s (finish s now reason)
  preempted : (s : Sequence) → Step s (preempt s).1

-- Any number of calls.
pub data Life (start : Sequence) : Sequence → Type 0 where
  born : Life start start
  lived : {s t : Sequence} → Life start s → Step s t → Life start t

-- Progress within the prompt; a reason and an end only for what is finished; a time of the first
-- token wherever there is output.
pub record IsSound (s : Sequence) : Type 0 where
  pub progress : s.computed_prefix_len ≤ length s.prompt
  pub reason : (r : FinishReason) → s.finish_reason ≡ some r → s.state ≡ SequenceState.finished
  pub ended_at : (t : ℕ) → s.timings.finished_at ≡ some t → s.state ≡ SequenceState.finished
  pub first_token : (s.output ≡ []) ⊎ ((at : ℕ) × (s.timings.first_token_at ≡ some at))

-- What no call changes, and what it only adds to.
pub record Extends (s t : Sequence) : Type 0 where
  pub same_id : t.id ≡ s.id
  pub same_prompt : t.prompt ≡ s.prompt
  pub output : (more : List ℕ) × (t.output ≡ s.output ++ more)
  pub final : s.state ≡ SequenceState.finished → t.state ≡ SequenceState.finished
  pub reason : (r : FinishReason) → s.finish_reason ≡ some r → t.finish_reason ≡ some r

push_token-IsSound : (s : Sequence) (now token : ℕ) → IsSound s → IsSound (push_token s now token)
unfolding push_token
push_token-IsSound s now token v = record {
  progress = v.progress;
  reason = v.reason;
  ended_at = λ t e. ground (arith, v.ended_at t);
  first_token = elim (v.first_token) [
    | inl none_yet ↦ rw none_yet (inr (now, refl))
    | inr (at, e) ↦ inr (stamped s.output at e)
  ];
}
  where
    stamped :
        (output : List ℕ) (at : ℕ)
        → s.timings.first_token_at ≡ some at
        → (a : ℕ) × ((stamp_first output now s.timings).first_token_at ≡ some a)
    stamped [] at e = (now, refl)
    stamped (x ∷ xs) at e = (at, e)

transition_to-IsSound :
    (s : Sequence) (now : ℕ) (next : SequenceState)
    → IsSound s
    → IsSound (transition_to s now next).1
unfolding transition_to can_transition_to
transition_to-IsSound s now next v = record {
  progress = ground (arith, v.progress);
  reason = λ r e. ground (arith, v.reason r);
  ended_at = λ t e. ground (arith, v.ended_at t);
  first_token =
      let same : (transition_to s now next).1.timings.first_token_at ≡ s.timings.first_token_at =
        ground arith in
      let output : (transition_to s now next).1.output ≡ s.output = ground arith in
      rw (same, output) (v.first_token);
}

finish-IsSound :
    (s : Sequence) (now : ℕ) (reason : FinishReason) → IsSound s → IsSound (finish s now reason)
unfolding finish
finish-IsSound s now reason v =
    if_elim IsSound (is_finished s) (λ _. v)
      (λ _. record {
        progress = v.progress;
        reason = λ r e. refl;
        ended_at = λ t e. refl;
        first_token = v.first_token;
      })

preempt-IsSound : (s : Sequence) → IsSound s → IsSound (preempt s).1
unfolding preempt can_transition_to
preempt-IsSound s v = record {
  progress = ground (arith, v.progress);
  reason = λ r e. ground (arith, v.reason r);
  ended_at = λ t e. ground (arith, v.ended_at t);
  first_token =
      let same : (preempt s).1.timings.first_token_at ≡ s.timings.first_token_at = ground arith in
      let output : (preempt s).1.output ≡ s.output = ground arith in
      rw (same, output) (v.first_token);
}

Step-Extends : {s t : Sequence} → Step s t → IsSound s → Extends s t
unfolding transition_to push_token finish preempt can_transition_to
Step-Extends (moved s now next) v = record {
  same_id = ground arith;
  same_prompt = ground arith;
  output = ([], ground (arith, append-nil s.output));
  final = λ e. ground arith;
  reason = λ r e. ground arith;
}
Step-Extends (advanced s n) v = record {
  same_id = refl;
  same_prompt = refl;
  output = ([], sym (append-nil s.output));
  final = λ e. e;
  reason = λ r e. e;
}
Step-Extends (took s now token) v = record {
  same_id = refl;
  same_prompt = refl;
  output = (token ∷ [], refl);
  final = λ e. e;
  reason = λ r e. e;
}
Step-Extends (ended s now reason) v = record {
  same_id = ground arith;
  same_prompt = ground arith;
  output = ([], ground (arith, append-nil s.output));
  final = λ e. ground arith;
  reason = λ r e. ground (arith, v.reason r);
}
Step-Extends (preempted s) v = record {
  same_id = ground arith;
  same_prompt = ground arith;
  output = ([], ground (arith, append-nil s.output));
  final = λ e. ground arith;
  reason = λ r e. ground arith;
}

Step-IsSound : {s t : Sequence} → Step s t → IsSound s → IsSound t
Step-IsSound (moved s now next) v = transition_to-IsSound s now next v
Step-IsSound (advanced s n) v = record {
  progress = omega arith;
  reason = v.reason;
  ended_at = v.ended_at;
  first_token = v.first_token;
}
Step-IsSound (took s now token) v = push_token-IsSound s now token v
Step-IsSound (ended s now reason) v = finish-IsSound s now reason v
Step-IsSound (preempted s) v = preempt-IsSound s v

-- Along every life of a new sequence, whatever methods are called in whatever order, the computed
-- prefix is within the prompt, a finish reason and an end time stand only on a finished sequence,
-- and where there is output the time of the first token is known.
pub Life-IsSound :
    (id now : ℕ) (prompt : List ℕ) (params : SamplingParams) {t : Sequence}
    → Life (new id now prompt params) t
    → IsSound t
unfolding new
Life-IsSound id now prompt params born = record {
  progress = omega arith;
  reason = λ r e. absurd (ground arith);
  ended_at = λ t e. absurd (ground arith);
  first_token = inl refl;
}
Life-IsSound id now prompt params (lived life step) =
    Step-IsSound step (Life-IsSound id now prompt params life)

keep-IsSound : {s t : Sequence} → Life s t → IsSound s → IsSound t
keep-IsSound born v = v
keep-IsSound (lived life step) v = Step-IsSound step (keep-IsSound life v)

-- Along every life of a sequence that is sound at its start, whatever methods are called in
-- whatever order, the id and the prompt stay, the output only grows at its end, a finished
-- sequence stays finished, and the first finish reason is kept.
pub Life-Extends : {s t : Sequence} → Life s t → IsSound s → Extends s t
Life-Extends {s} born v = record {
  same_id = refl;
  same_prompt = refl;
  output = ([], sym (append-nil s.output));
  final = λ e. e;
  reason = λ r e. e;
}
Life-Extends {s} (lived life step) v =
    let before = Life-Extends life v in
    let last = Step-Extends step (keep-IsSound life v) in
    record {
      same_id = last.same_id ∙ before.same_id;
      same_prompt = last.same_prompt ∙ before.same_prompt;
      output = (
        before.output.0 ++ last.output.0,
        last.output.1
            ∙ ap (λ o. o ++ last.output.0) before.output.1
            ∙ append_assoc s.output before.output.0 last.output.0,
      );
      final = λ e. last.final (before.final e);
      reason = λ r e. last.reason r (before.reason r e);
    }
