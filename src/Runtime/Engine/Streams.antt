-- ===== src/Runtime/Engine/Streams.antt =====
-- The streams of the engine (crates/orion-runtime/src/engine.rs): what holds of them between calls, and
-- what one send or one dropped request does to it.
use orion_serve_rs.Prelude.{
  ℕ, ◌+◌, ◌≤◌, ◌≡◌, refl, inl, inr, Bool, true, false, none, some, List, [], ◌∷◌, arith,
  if◌then◌else◌, ◌==◌, Option-cases,
}
use orion_serve_rs.Prelude.Assoc
use orion_serve_rs.Prelude.Assoc.{lookup-insert, lookup-remove}
use orion_serve_rs.Core.Sequence.{FinishReason}
use orion_serve_rs.KvCache.Manager.{KvCacheManager}
use orion_serve_rs.KvCache.Trait.{manager_like}
use orion_serve_rs.Scheduler.State.{Scheduler}
use orion_serve_rs.Scheduler.State
use orion_serve_rs.Scheduler.Step.Consistent.{known}
use orion_serve_rs.Scheduler.Lifecycle.Known.{cancel-known}
use orion_serve_rs.Runtime.Engine.{
  Engine, ActiveRequest, Services, Sent, is_terminal, is_end, streams, ends, accepted, done_event,
}
use orion_serve_rs.Runtime.Engine.Calls.{close, finish_request, cancel_silently}

-- No event follows the end of a stream; the newest event stands first.
abbrev pub IsClosed : List Sent → Type 0
IsClosed [] = Unit
IsClosed (x ∷ xs) = (ends x.to xs ≡ 0) × IsClosed xs

-- Between calls each stream that a caller was given is either active or has ended once, no stream
-- goes on after its end, and the scheduler has the sequence of each active request, up to `slack`.
pub record Streaming {S : Type 0} (slack : ℕ → ℕ) (e : Engine S) : Type 0 where
  pub fresh : (a : ℕ) → e.next_id ≤ a → accepted a e.replies ≡ 0
  pub once : (a : ℕ) → accepted a e.replies ≤ 1
  pub accounts : (a : ℕ) → ends a e.sent + streams e a ≡ accepted a e.replies
  pub closed : IsClosed e.sent
  pub tracked : (a : ℕ) → streams e a ≤ slack a + known e.scheduler a

abbrev pub no_slack : ℕ → ℕ
no_slack a = 0

-- One more for an id.
abbrev pub bump : ℕ → (ℕ → ℕ) → ℕ → ℕ
bump id slack a = (if id == a then 1 else 0) + slack a

module _ {S : Type 0} where
  -- Another scheduler that has what is needed.
  pub reschedule :
      {slack : ℕ → ℕ} (slack' : ℕ → ℕ) (e : Engine S) (s : Scheduler KvCacheManager)
      → ((a : ℕ) → slack a + known e.scheduler a ≤ slack' a + known s a)
      → Streaming slack e
      → Streaming slack' (record e { scheduler = s })
  reschedule slack' e s more v = record {
    fresh = v.fresh;
    once = v.once;
    accounts = v.accounts;
    closed = v.closed;
    tracked = λ a. omega (arith, v.tracked a, more a);
  }

  pub loosen :
      {slack : ℕ → ℕ} (id : ℕ) (e : Engine S) → Streaming slack e → Streaming (bump id slack) e
  loosen id e v = record {
    fresh = v.fresh;
    once = v.once;
    accounts = v.accounts;
    closed = v.closed;
    tracked = λ a. omega (arith, v.tracked a);
  }

  streams-absent : (e : Engine S) (id : ℕ) → Assoc.lookup id e.active ≡ none → streams e id ≡ 0
  streams-absent e id gone = rw gone refl

  pub streams-present :
      (e : Engine S) (id : ℕ) (req : ActiveRequest S)
      → Assoc.lookup id e.active ≡ some req
      → streams e id ≡ 1
  streams-present e id req found = rw found refl

  pub streams-insert :
      (e : Engine S) (id : ℕ) (req : ActiveRequest S) (a : ℕ)
      → streams (record e { active = Assoc.insert id req e.active }) a
        ≡ (if id == a then 1 else streams e a)
  streams-insert e id req a = ground (arith, lookup-insert id a req e.active)

  pub streams-remove :
      (e : Engine S) (id a : ℕ)
      → streams (record e { active = Assoc.remove id e.active }) a
        ≡ (if id == a then 0 else streams e a)
  streams-remove e id a = ground (arith, lookup-remove id a e.active)

  -- An active stream has not ended.
  pub not_ended :
      {slack : ℕ → ℕ} (e : Engine S) (id : ℕ)
      → Streaming slack e
      → streams e id ≡ 1
      → ends id e.sent ≡ 0
  not_ended e id v here = omega (arith, v.accounts id, v.once id)

  -- The last event of an active stream, which is dropped.
  pub ended :
      (slack : ℕ → ℕ) (e : Engine S) (x : Sent)
      → Streaming (bump x.to slack) e
      → streams e x.to ≡ 1
      → is_end x ≡ true
      → Streaming slack (record e { active = Assoc.remove x.to e.active; sent = x ∷ e.sent })
  ended slack e x v here last = record {
    fresh = v.fresh;
    once = v.once;
    accounts = λ a.
        ground (arith, v.accounts a, not_ended e x.to v here, streams-remove e x.to a, here, last);
    closed = (not_ended e x.to v here, v.closed);
    tracked = λ a. ground (arith, v.tracked a, streams-remove e x.to a);
  }

  -- An event of an active stream that goes on.
  pub continued :
      {slack : ℕ → ℕ} (e : Engine S) (x : Sent)
      → Streaming slack e
      → streams e x.to ≡ 1
      → is_end x ≡ false
      → Streaming slack (record e { sent = x ∷ e.sent })
  continued e x v here goes_on = record {
    fresh = v.fresh;
    once = v.once;
    accounts = λ a. ground (arith, v.accounts a, goes_on);
    closed = (not_ended e x.to v here, v.closed);
    tracked = v.tracked;
  }

  module _ (w : Services S) where
    done-is_end :
        (id : ℕ) (taken : Bool) (reason : FinishReason) (prompt completion : ℕ)
        → is_end
            (record { to = id; event = done_event reason prompt completion; delivered = taken })
          ≡ true
    unfolding is_terminal
    done-is_end id true reason prompt completion = refl
    done-is_end id false reason prompt completion = refl

    pub close-Streaming :
        (slack : ℕ → ℕ) (e : Engine S) (id : ℕ) (reason : FinishReason) (completion : ℕ)
        → Streaming (bump id slack) e
        → Streaming slack (close w e id reason completion (Assoc.lookup id e.active))
    unfolding close
    close-Streaming slack e id reason completion v =
        elim (Option-cases (Assoc.lookup id e.active)) [
          | inl gone ↦
              rw (gone, close)
                (record {
                  fresh = v.fresh;
                  once = v.once;
                  accounts = v.accounts;
                  closed = v.closed;
                  tracked = λ a. ground (arith, v.tracked a, streams-absent e id gone);
                })
          | inr (req, found) ↦
              rw (found, close)
                (ended slack e _ v (streams-present e id req found)
                  (done-is_end id _ reason req.prompt_len completion))
        ]

    pub finish_request-Streaming :
        (slack : ℕ → ℕ) (e : Engine S) (id : ℕ) (reason : FinishReason)
        → Streaming (bump id slack) e
        → Streaming slack (finish_request w e id reason)
    unfolding finish_request
    finish_request-Streaming slack e id reason v = close-Streaming slack e id reason _ v

    -- A token that the channel does not take ends the stream without a further event.
    pub refused-Streaming :
        (e : Engine S) (x : Sent)
        → Streaming no_slack e
        → streams e x.to ≡ 1
        → is_end x ≡ true
        → Streaming no_slack (cancel_silently w (record e { sent = x ∷ e.sent }) x.to)
    unfolding cancel_silently
    refused-Streaming e x v here last =
        let s = (State.cancel e.scheduler x.to).1 in
        let v' =
          reschedule (bump x.to no_slack) e s (λ a. omega (arith, cancel-known e.scheduler x.to a))
            v in
        ended no_slack (record e { scheduler = s }) x v' here last
