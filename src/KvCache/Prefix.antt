-- ===== src/KvCache/Prefix.antt =====
-- crates/orion-kv-cache/src/prefix.rs: the hash-indexed map from computed prefixes to blocks.
use orion_serve_rs.Prelude.{ℕ, ◌+◌, ◌%◌, Option, none, some, List, [], if◌then◌else◌, ◌==◌, list_eq}
use orion_serve_rs.Prelude.Assoc

pub record CacheEntry : Type 0 where
  pub block : ℕ
  pub tokens : List ℕ

pub record PrefixCache : Type 0 where
  pub entries : List (ℕ × CacheEntry)
  pub hits : ℕ
  pub misses : ℕ

abbrev pub empty_cache : PrefixCache
empty_cache = record { entries = []; hits = 0; misses = 0 }

abbrev u64_mod : ℕ
u64_mod = 18446744073709551616

abbrev hit : PrefixCache → PrefixCache
hit c = record c { hits = (c.hits + 1) % u64_mod }

abbrev miss : PrefixCache → PrefixCache
miss c = record c { misses = (c.misses + 1) % u64_mod }

-- The tokens are compared too: a hash collision is a miss.
unfoldable pub lookup : PrefixCache → ℕ → List ℕ → Option ℕ × PrefixCache
lookup c hash tokens = elim (Assoc.lookup hash c.entries) [
  | none ↦ (none, miss c)
  | some entry ↦ if list_eq entry.tokens tokens then (some entry.block, hit c) else (none, miss c)
]

unfoldable pub peek : PrefixCache → ℕ → Option ℕ
peek c hash = elim (Assoc.lookup hash c.entries) [ none ↦ none | some e ↦ some e.block ]

-- `entry(hash).or_insert(..)`: an existing entry is kept.
unfoldable pub insert : PrefixCache → ℕ → ℕ → List ℕ → PrefixCache
insert c hash block tokens = elim (Assoc.lookup hash c.entries) [
  | none ↦ record c {
    entries = Assoc.insert hash (record { block = block; tokens = tokens }) c.entries;
  }
  | some entry ↦ c
]

unfoldable pub remove : PrefixCache → ℕ → ℕ → PrefixCache
remove c hash block = elim (Assoc.lookup hash c.entries) [
  | none ↦ c
  | some entry ↦
      if entry.block == block then record c { entries = Assoc.remove hash c.entries } else c
]

abbrev pub clear : PrefixCache → PrefixCache
clear c = record c { entries = [] }

abbrev pub reset_stats : PrefixCache → PrefixCache
reset_stats c = record c { hits = 0; misses = 0 }
