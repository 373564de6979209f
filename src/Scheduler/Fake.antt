-- ===== src/Scheduler/Fake.antt =====
-- crates/orion-scheduler/src/testing.rs: FakeCache, the cache of the scheduler's simulations.
pub mod Accounts
pub mod Tests
use orion_serve_rs.Prelude.{
  ℕ, zero, suc, ◌+◌, ◌-◌, ◌/◌, ◌≡◌, refl, Bool, true, false, Option, none, some, List, [], ◌∷◌,
  ◌++◌, if◌then◌else◌, ◌==◌, leb, ltb, length, arith, inl, inr, Option-cases, Bool-cases,
}
use orion_serve_rs.Prelude.Assoc
use orion_serve_rs.Prelude.Assoc.{lookup-insert, lookup-remove}
use orion_serve_rs.Core.Error.{Result, ok, err, cache_exhausted, internal}
use orion_serve_rs.Core.Traits.{KvCacheManagerLike, CacheLaws, is_ok}

pub record FakeCache : Type 0 where
  pub total : ℕ
  pub block_size : ℕ
  pub tables : List (ℕ × ℕ)
  pub used : ℕ
  pub fails_append : Bool
  pub fails_allocate : Bool
  pub commits : List ℕ

unfoldable pub new : ℕ → ℕ → FakeCache
new total block_size = record {
  total = total;
  block_size = block_size;
  tables = [];
  used = 0;
  fails_append = false;
  fails_allocate = false;
  commits = [];
}

abbrev pub fail_next_append : FakeCache → FakeCache
fail_next_append c = record c { fails_append = true }

abbrev pub fail_next_allocate : FakeCache → FakeCache
fail_next_allocate c = record c { fails_allocate = true }

abbrev or_zero : Option ℕ → ℕ
or_zero none = 0
or_zero (some n) = n

abbrev pub blocks_held : FakeCache → ℕ → ℕ
blocks_held c seq = or_zero (Assoc.lookup seq c.tables)

abbrev pub num_sequences : FakeCache → ℕ
num_sequences c = length c.tables

-- `div_ceil`; a block size of 0 panics.
abbrev pub blocks_needed_for : FakeCache → ℕ → ℕ
blocks_needed_for c n = (n + (c.block_size - 1)) / c.block_size

abbrev pub free_blocks : FakeCache → ℕ
free_blocks c = c.total - c.used

abbrev pub can_allocate : FakeCache → ℕ → Bool
can_allocate c n = leb (blocks_needed_for c n) (free_blocks c)

unfoldable pub allocate : FakeCache → ℕ → List ℕ → Result (Unit {0}) × FakeCache
allocate c seq prompt =
    let needed = blocks_needed_for c (length prompt) in
    if c.fails_allocate
    then (err (cache_exhausted 1 0), record c { fails_allocate = false })
    else (if ltb (free_blocks c) needed
        then (err (cache_exhausted needed (free_blocks c)), c)
        else (
          ok tt,
          record c { used = c.used + needed; tables = Assoc.insert seq needed c.tables },
        ))

unfoldable pub append_held : FakeCache → ℕ → Option ℕ → Result (Unit {0}) × FakeCache
append_held c seq none = (err (internal "has no block table"), c)
append_held c seq (some held) =
    if free_blocks c == 0
    then (err (cache_exhausted 1 0), c)
    else (ok tt, record c { used = c.used + 1; tables = Assoc.insert seq (held + 1) c.tables })

unfoldable pub append_token : FakeCache → ℕ → Result (Unit {0}) × FakeCache
unfolding append_held
append_token c seq =
    if c.fails_append
    then (err (cache_exhausted 1 0), record c { fails_append = false })
    else append_held c seq (Assoc.lookup seq c.tables)

unfoldable pub free_held : FakeCache → ℕ → Option ℕ → FakeCache
free_held c seq none = c
free_held c seq (some n) = record c { tables = Assoc.remove seq c.tables; used = c.used - n }

unfoldable pub free : FakeCache → ℕ → FakeCache
unfolding free_held
free c seq = free_held c seq (Assoc.lookup seq c.tables)

abbrev pub commit_prefill : FakeCache → ℕ → List ℕ → FakeCache
commit_prefill c seq prompt = record c { commits = c.commits ++ seq ∷ [] }

instance abbrev pub fake_like : KvCacheManagerLike FakeCache
fake_like = record {
  blocks_needed_for = blocks_needed_for;
  total_blocks = λ c. c.total;
  free_blocks = free_blocks;
  can_allocate = can_allocate;
  allocate = allocate;
  append_token = append_token;
  free = free;
  commit_prefill = commit_prefill;
}

abbrev pub is_held : Option ℕ → Bool
is_held none = false
is_held (some n) = true

abbrev pub holds : FakeCache → ℕ → Bool
holds c a = is_held (Assoc.lookup a c.tables)

pub allocate-holds :
    (c : FakeCache) (seq : ℕ) (prompt : List ℕ) (a : ℕ)
    → holds (allocate c seq prompt).1 a ≡ (
        if is_ok (allocate c seq prompt).0
        then (if seq == a then true else holds c a)
        else holds c a)
unfolding allocate
allocate-holds c seq prompt a =
    ground (arith, lookup-insert seq a (blocks_needed_for c (length prompt)) c.tables)

pub append_token-holds : (c : FakeCache) (seq a : ℕ) → holds (append_token c seq).1 a ≡ holds c a
unfolding append_token append_held
append_token-holds c seq a = elim (Option-cases (Assoc.lookup seq c.tables)) [
  | inl missing ↦ rw (missing, append_token) (ground arith)
  | inr (held, e) ↦
      rw (e, append_token) (ground (arith, lookup-insert seq a (held + 1) c.tables, e))
]

pub free-holds :
    (c : FakeCache) (seq a : ℕ) → holds (free c seq) a ≡ (if seq == a then false else holds c a)
unfolding free free_held
free-holds c seq a = elim (Option-cases (Assoc.lookup seq c.tables)) [
  | inl missing ↦ rw (missing, free) (ground (arith, missing))
  | inr (held, e) ↦ rw (e, free) (ground (arith, lookup-remove seq a c.tables))
]

-- The fake keeps the laws that the scheduler relies on.
abbrev pub fake_laws : CacheLaws fake_like
fake_laws = record {
  holds = holds;
  allocate_holds = allocate-holds;
  append_token_holds = append_token-holds;
  free_holds = free-holds;
  commit_prefill_holds = λ c seq prompt a. refl;
}
