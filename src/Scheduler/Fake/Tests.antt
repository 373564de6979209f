-- ===== src/Scheduler/Fake/Tests.antt =====
-- The fake cache (crates/orion-scheduler/src/testing.rs) with four blocks of two tokens.
use orion_serve_rs.Prelude.{◌≡◌, refl, [], ◌∷◌}
use orion_serve_rs.Core.Error.{err, cache_exhausted}
use orion_serve_rs.Scheduler.Fake.{
  FakeCache, new, fail_next_append, allocate, append_held, append_token, free_blocks, fake_like,
}
use orion_serve_rs.Scheduler.Fake.Accounts.{
  IsAccounted, FakeCalls, started, allocated, appended, FakeCalls-IsAccounted,
}

abbrev held : FakeCache
held = (allocate (new 4 2) 1 (5 ∷ 6 ∷ 7 ∷ [])).1

abbrev grown : FakeCache
grown = (append_token held 1).1

grown-FakeCalls : FakeCalls grown
unfolding new
grown-FakeCalls = appended 1 (allocated 1 (5 ∷ 6 ∷ 7 ∷ []) refl (started 4 2))

FakeCalls-IsAccounted_example : IsAccounted grown
FakeCalls-IsAccounted_example = FakeCalls-IsAccounted grown-FakeCalls

run_blocks : free_blocks grown ≡ 1
unfolding new allocate append_token append_held
run_blocks = refl

-- A failure on demand leaves the blocks.
run_failure : append_token (fail_next_append held) 1 ≡ (err (cache_exhausted 1 0), held)
unfolding new allocate append_token
run_failure = refl
