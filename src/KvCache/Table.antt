-- ===== src/KvCache/Table.antt =====
-- crates/orion-kv-cache/src/table.rs: per-sequence block tables and prefix hashing.
use Prim.Native.Nat.{bit_xor}
use orion_serve_rs.Prelude.{
  ℕ, ◌+◌, ◌-◌, ◌*◌, ◌/◌, ◌%◌, Option, none, some, List, [], ◌∷◌, ◌++◌, length, take, drop,
}

pub record BlockTable : Type 0 where
  pub blocks : List ℕ
  pub num_tokens : ℕ

abbrev pub empty_table : BlockTable
empty_table = record { blocks = []; num_tokens = 0 }

abbrev pub push : BlockTable → ℕ → BlockTable
push t id = record t { blocks = t.blocks ++ id ∷ [] }

abbrev pub set_num_tokens : BlockTable → ℕ → BlockTable
set_num_tokens t n = record t { num_tokens = n }

-- `capacity.saturating_sub(self.num_tokens)`
unfoldable pub slack : BlockTable → ℕ → ℕ
slack t block_size = length t.blocks * block_size - t.num_tokens

-- `num_tokens.div_ceil(block_size)`
unfoldable pub blocks_required : ℕ → ℕ → ℕ
blocks_required num_tokens block_size = (num_tokens + (block_size - 1)) / block_size

unfoldable pub additional_blocks_for : BlockTable → ℕ → ℕ → ℕ
additional_blocks_for t target block_size = blocks_required target block_size - length t.blocks

-- The blocks, and the table left empty.
abbrev pub take_blocks : BlockTable → List ℕ × BlockTable
take_blocks t = (t.blocks, empty_table)

-- The dropped tail, and the table without it.
unfoldable pub truncate_blocks : BlockTable → ℕ → List ℕ × BlockTable
truncate_blocks t n =
    let keep = length t.blocks - n in (drop keep t.blocks, record t { blocks = take keep t.blocks })

abbrev u64_mod : ℕ
u64_mod = 18446744073709551616

-- `state.rotate_left(5)` on 64 bits.
abbrev rotate_left_5 : ℕ → ℕ
rotate_left_5 state = (state * 32) % u64_mod + state / 576460752303423488

mix : ℕ → ℕ → ℕ
mix state value = (bit_xor (rotate_left_5 state) value * 0x517cc1b727220a95) % u64_mod

mix_all : ℕ → List ℕ → ℕ
mix_all state [] = state
mix_all state (t ∷ ts) = mix_all (mix state t) ts

abbrev hash_seed : Option ℕ → ℕ
hash_seed none = 0xcbf29ce484222325
hash_seed (some h) = h

unfoldable pub hash_block : Option ℕ → List ℕ → ℕ
unfolding mix mix_all
hash_block parent tokens = mix_all (mix (hash_seed parent) (length tokens)) tokens
