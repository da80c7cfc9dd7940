-- ===== src/Tests/Buffers.antt =====
-- The arena, the ring and the socket writer.
use ruru.Base.{◌≤◌, ◌≡◌, refl, List, [], ◌∷◌, ◌++◌, arith, ℤ, Bytes, take, length, done}
use mathlib.Core.Path.{subst}
use ruru.Arena.{arena_alloc}
use ruru.Arena.Bounds.{
  IsValid, Allocated, arena_alloc-Allocated, alloc_all, Follow, alloc_all-Follow,
}
use ruru.Ring.Inv
use ruru.Ring.Inv.{ring_read-IsValid, ring_write-IsValid}
use ruru.Net.{WriteResult, count, failed, Stream, socket_write, socket_write_from}
use ruru.Net.Write.{IsStream}
use ruru.Tests.World.{arena, beats}

arena-IsValid : IsValid arena
arena-IsValid = omega arith

arena_alloc-Allocated_example :
    Allocated arena (ℤ.pos 10) (arena_alloc arena (ℤ.pos 10))
    × IsValid (arena_alloc arena (ℤ.pos 10)).1
arena_alloc-Allocated_example = arena_alloc-Allocated (ℤ.pos 10) arena-IsValid

abbrev sizes : List ℤ
sizes = ℤ.pos 10 ∷ ℤ.pos 7 ∷ ℤ.negsuc 0 ∷ ℤ.pos 6 ∷ []

-- The second block does not fit, and the third has no size.
alloc_all-sizes : alloc_all arena sizes ≡ (0, 10) ∷ (10, 6) ∷ []
unfolding alloc_all arena_alloc
alloc_all-sizes = refl

alloc_all-Follow_example : Follow 0 16 (alloc_all arena sizes)
alloc_all-Follow_example = alloc_all-Follow sizes arena-IsValid

beats-IsValid : Inv.IsValid beats
beats-IsValid = omega arith

-- A socket that takes two bytes at a time; its state is what has come through.
abbrev pub two_by_two : Stream Bytes
two_by_two = record {
  write = λ buf got. (count (length (take 2 buf)), got ++ take 2 buf);
  received = λ got. got;
}

abbrev pub Taken : Bytes → Bytes → WriteResult × Bytes → Type 0
Taken buf w (count n, w') = (n ≤ length buf) × (w' ≡ w ++ take n buf)
Taken buf w (failed, w') = w' ≡ w

two_by_two-Taken : (buf w : Bytes) → Taken buf w (two_by_two.write buf w)
two_by_two-Taken [] w = (omega arith, refl)
two_by_two-Taken (a ∷ []) w = (omega arith, refl)
two_by_two-Taken (a ∷ b ∷ buf) w = (omega arith, refl)

pub two_by_two-IsStream : IsStream two_by_two
two_by_two-IsStream = record {
  front = λ buf w n w' e. subst (Taken buf w) e (two_by_two-Taken buf w);
  nothing = λ buf w w' e. subst (Taken buf w) e (two_by_two-Taken buf w);
}

socket_write_run : socket_write two_by_two (1 ∷ 2 ∷ 3 ∷ []) [] ≡ done (count 3, 1 ∷ 2 ∷ 3 ∷ [])
unfolding socket_write socket_write_from
socket_write_run = refl
