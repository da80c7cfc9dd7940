-- ===== src/Arena.antt =====
-- RuruArena.h and RuruArena.cpp: the bump allocator that received data is copied into. A block is
-- the offset of its first byte in `memory`; `nullptr` is `none`.
pub mod Bounds
use ruru.Base.{
  ℕ, ◌+◌, ◌^◌, Option, none, some, ℤ, pos_part, sub_ℕ, leb_ℤ, ltb_ℤ, if◌then◌else◌, Bytes, blit,
  slice,
}

pub record Arena : Type 0 where
  pub memory : Bytes
  pub pos : ℕ
  pub capacity : ℕ

-- The constructor: `1 << capacity` bytes (`capacity < 31`). `memory` is what `new` returns.
unfoldable pub new_arena : ℕ → Bytes → Arena
new_arena capacity memory = record { memory = memory; pos = 0; capacity = 2 ^ capacity }

-- `ArenaAlloc`. `pos <= capacity` makes the `int32_t` subtraction exact (Arena.Bounds).
unfoldable pub arena_alloc : Arena → ℤ → Option ℕ × Arena
arena_alloc a block_size =
    if leb_ℤ block_size (ℤ.pos 0)
    then (none, a)
    else let remain = sub_ℕ a.capacity a.pos in
      if ltb_ℤ remain block_size
      then (none, a)
      else (some a.pos, record a { pos = a.pos + pos_part block_size })

-- `ArenaReset`.
unfoldable pub arena_reset : Arena → Arena
arena_reset a = record a { pos = 0 }

-- `memcpy` into a block.
unfoldable pub arena_copy : Arena → ℕ → Bytes → Arena
arena_copy a off src = record a { memory = blit a.memory off src }
