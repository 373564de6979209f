-- ===== src/Scheduler/Fake/Accounts.antt =====
-- The blocks of the fake cache (crates/orion-scheduler/src/testing.rs).
use orion_serve_rs.Prelude.{
  ℕ, ◌+◌, ◌≤◌, ◌≡◌, refl, none, List, arith, ◌==◌, ltb, ltb→ge, length, inl, inr, Option-cases,
  if_elim,
}
use orion_serve_rs.Prelude.Assoc
use orion_serve_rs.Prelude.Assoc.{
  Unique, insert-Unique, remove-Unique, total, total-insert_new, total-insert_old, total-remove,
}
use orion_serve_rs.Core.Error.{Result}
use orion_serve_rs.Scheduler.Fake.{
  FakeCache, new, fail_next_append, fail_next_allocate, blocks_needed_for, free_blocks, allocate,
  append_held, append_token, free_held, free, commit_prefill,
}

-- The blocks in use are those of the tables, and no more than there are.
pub record IsAccounted (c : FakeCache) : Type 0 where
  pub unique : Unique c.tables
  pub counted : total (λ n. n) c.tables ≡ c.used
  pub bounded : c.used ≤ c.total

-- The states that calls lead to, where only a sequence without blocks is given an allocation.
pub data FakeCalls : FakeCache → Type 0 where
  started : (blocks block_size : ℕ) → FakeCalls (new blocks block_size)
  told_append : {c : FakeCache} → FakeCalls c → FakeCalls (fail_next_append c)
  told_allocate : {c : FakeCache} → FakeCalls c → FakeCalls (fail_next_allocate c)
  allocated :
      {c : FakeCache} (seq : ℕ) (prompt : List ℕ)
      → Assoc.lookup seq c.tables ≡ none
      → FakeCalls c
      → FakeCalls (allocate c seq prompt).1
  appended : {c : FakeCache} (seq : ℕ) → FakeCalls c → FakeCalls (append_token c seq).1
  freed : {c : FakeCache} (seq : ℕ) → FakeCalls c → FakeCalls (free c seq)
  committed :
      {c : FakeCache} (seq : ℕ) (prompt : List ℕ)
      → FakeCalls c
      → FakeCalls (commit_prefill c seq prompt)

abbrev After : Result (Unit {0}) × FakeCache → Type 0
After r = IsAccounted r.1

same_blocks :
    (c c' : FakeCache)
    → c'.tables ≡ c.tables
    → c'.used ≡ c.used
    → c'.total ≡ c.total
    → IsAccounted c
    → IsAccounted c'
same_blocks c c' t u n v = record {
  unique = rw t v.unique;
  counted = rw t (omega (arith, v.counted, u));
  bounded = omega (arith, v.bounded, u, n);
}

allocate-IsAccounted :
    (c : FakeCache) (seq : ℕ) (prompt : List ℕ)
    → Assoc.lookup seq c.tables ≡ none
    → IsAccounted c
    → IsAccounted (allocate c seq prompt).1
unfolding allocate
allocate-IsAccounted c seq prompt absent v =
    let needed = blocks_needed_for c (length prompt) in
    if_elim After c.fails_allocate (λ _. same_blocks c _ refl refl refl v)
      (λ _.
        if_elim After (ltb (free_blocks c) needed) (λ _. v)
          (λ room. record {
            unique = insert-Unique seq needed c.tables v.unique;
            counted =
                omega (arith, total-insert_new (λ n. n) seq needed c.tables absent, v.counted);
            bounded = omega (arith, ltb→ge (free_blocks c) needed room, v.bounded);
          }))

append_token-IsAccounted :
    (c : FakeCache) (seq : ℕ) → IsAccounted c → IsAccounted (append_token c seq).1
unfolding append_token append_held
append_token-IsAccounted c seq v =
    if_elim After c.fails_append (λ _. same_blocks c _ refl refl refl v)
      (λ _. elim (Option-cases (Assoc.lookup seq c.tables)) [
        | inl missing ↦ rw missing v
        | inr (held, e) ↦ rw e (
            if_elim After (free_blocks c == 0) (λ _. v)
              (λ room. record {
                unique = insert-Unique seq (held + 1) c.tables v.unique;
                counted =
                    omega
                      (arith, total-insert_old (λ n. n) seq (held + 1) held c.tables e, v.counted);
                bounded = ground (arith, room, v.bounded);
              }))
      ])

free-IsAccounted : (c : FakeCache) (seq : ℕ) → IsAccounted c → IsAccounted (free c seq)
unfolding free free_held
free-IsAccounted c seq v = elim (Option-cases (Assoc.lookup seq c.tables)) [
  | inl missing ↦ rw (missing, free) v
  | inr (held, e) ↦
      rw (e, free)
        (record {
          unique = remove-Unique seq c.tables v.unique;
          counted = omega (arith, total-remove (λ n. n) seq held c.tables v.unique e, v.counted);
          bounded = omega (arith, v.bounded);
        })
]

-- After any calls on a new fake cache, failures on demand included, where only a sequence without
-- blocks is given an allocation, the blocks in use are exactly those of the tables, each sequence
-- has one table, and no more blocks are in use than there are.
pub FakeCalls-IsAccounted : {c : FakeCache} → FakeCalls c → IsAccounted c
unfolding new
FakeCalls-IsAccounted (started blocks block_size) = record {
  unique = tt;
  counted = refl;
  bounded = omega arith;
}
FakeCalls-IsAccounted (told_append h) = same_blocks _ _ refl refl refl (FakeCalls-IsAccounted h)
FakeCalls-IsAccounted (told_allocate h) = same_blocks _ _ refl refl refl (FakeCalls-IsAccounted h)
FakeCalls-IsAccounted (allocated seq prompt absent h) =
    allocate-IsAccounted _ seq prompt absent (FakeCalls-IsAccounted h)
FakeCalls-IsAccounted (appended seq h) = append_token-IsAccounted _ seq (FakeCalls-IsAccounted h)
FakeCalls-IsAccounted (freed seq h) = free-IsAccounted _ seq (FakeCalls-IsAccounted h)
FakeCalls-IsAccounted (committed seq prompt h) =
    same_blocks _ _ refl refl refl (FakeCalls-IsAccounted h)
