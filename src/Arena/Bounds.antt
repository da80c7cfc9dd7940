-- ===== src/Arena/Bounds.antt =====
-- RuruArena.cpp: blocks lie inside the memory and never overlap.
use ruru.Base.{
  ℕ, ◌+◌, ◌^◌, ◌≤◌, ◌<◌, ◌≡◌, ◌⊎◌, Option, none, some, List, [], ◌∷◌, arith, ℤ, pos_part, Bytes,
  length, length-blit,
}
use ruru.Arena.{Arena, new_arena, arena_alloc, arena_reset, arena_copy}

pub record IsValid (a : Arena) : Type 0 where
  pub storage : length a.memory ≡ a.capacity
  pub inside : a.pos ≤ a.capacity
  pub int32 : a.capacity < 2 ^ 31

pub new_arena-IsValid :
    (k : ℕ) (memory : Bytes) → length memory ≡ 2 ^ k → 2 ^ k < 2 ^ 31 → IsValid (new_arena k memory)
unfolding new_arena
new_arena-IsValid k memory h b = record { storage = h; inside = omega arith; int32 = b }

pub arena_reset-IsValid : {a : Arena} → IsValid a → IsValid (arena_reset a)
unfolding arena_reset
arena_reset-IsValid v = ground arith

pub arena_copy-IsValid :
    {a : Arena} (off : ℕ) (src : Bytes) → IsValid a → IsValid (arena_copy a off src)
unfolding arena_copy
arena_copy-IsValid {a} off src v = ground (arith, length-blit a.memory off src)

-- The two ways in which an allocation ends.
abbrev pub Allocated : Arena → ℤ → Option ℕ × Arena → Type 0
Allocated a block_size (none, b) =
    (b ≡ a) × ((pos_part block_size ≡ 0) ⊎ (a.capacity < a.pos + pos_part block_size))
Allocated a block_size (some off, b) =
    (off ≡ a.pos)
    × (0 < pos_part block_size)
    × (b ≡ record a { pos = off + pos_part block_size })
    × (off + pos_part block_size ≤ a.capacity)

-- For a valid arena `ArenaAlloc` fails exactly on a size that is not positive or exceeds what is
-- left, and changes nothing then; otherwise the block starts where the last one ended, has the
-- size asked for, ends within the capacity, and `pos` moves to its end. The arena stays valid.
pub arena_alloc-Allocated :
    {a : Arena} (block_size : ℤ)
    → IsValid a
    → Allocated a block_size (arena_alloc a block_size) × IsValid (arena_alloc a block_size).1
unfolding arena_alloc
arena_alloc-Allocated block_size v = ground arith

-- A series of calls without a reset, and the blocks handed out: offset and size.
unfoldable pub alloc_all : Arena → List ℤ → List (ℕ × ℕ)
alloc_all a [] = []
alloc_all a (n ∷ ns) =
    let (block, b) = arena_alloc a n in
    let rest = alloc_all b ns in elim block [ none ↦ rest | some off ↦ (off, pos_part n) ∷ rest ]

-- Blocks follow one another from `lo` up to `hi`, none empty.
abbrev pub Follow : ℕ → ℕ → List (ℕ × ℕ) → Type 0
Follow lo hi [] = lo ≤ hi
Follow lo hi ((off, size) ∷ bs) = (lo ≤ off) × (0 < size) × Follow (off + size) hi bs

Follow-weaken : (k lo hi : ℕ) (bs : List (ℕ × ℕ)) → k ≤ lo → Follow lo hi bs → Follow k hi bs
Follow-weaken k lo hi [] h f = omega arith
Follow-weaken k lo hi ((off, size) ∷ bs) h f = (omega arith, f.1, f.2)

-- The blocks that a series of calls hands out from a valid arena begin at or behind `pos`, each
-- begins at or behind the end of the one before it, and all end within the memory: no two overlap.
pub alloc_all-Follow :
    {a : Arena} (sizes : List ℤ) → IsValid a → Follow a.pos (length a.memory) (alloc_all a sizes)
unfolding alloc_all
alloc_all-Follow [] v = ground arith
alloc_all-Follow {a} (n ∷ ns) v = ground (
  arith,
  arena_alloc-Allocated n v,
  alloc_all-Follow {a = (arena_alloc a n).1} ns,
  Follow-weaken a.pos (arena_alloc a n).1.pos (length a.memory) (alloc_all (arena_alloc a n).1 ns),
)
