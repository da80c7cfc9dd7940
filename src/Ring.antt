-- ===== src/Ring.antt =====
-- RuruRingBuf.h: the ring that keeps heart beats. One slot stays free, so that `rd == wt` means
-- empty. `rd`, `wt` and `cap` are `uint32_t`.
pub mod Inv
pub mod Refine
pub mod Traces
use ruru.Base.{
  ℕ, ◌%◌, Option, none, some, Bool, true, false, List, ◌==◌, not, if◌then◌else◌, get_elem?, set,
  add32,
}

pub record Ring (A : Type 0) : Type 0 where
  pub memory : List A
  pub cap : ℕ
  pub rd : ℕ
  pub wt : ℕ

module _ {A : Type 0} where
  -- The constructor; `memory` is what `new T[cap]` returns.
  unfoldable pub new_ring : ℕ → List A → Ring A
  new_ring cap memory = record { memory = memory; cap = cap; rd = 0; wt = 0 }

  -- `RingBufReset`.
  unfoldable pub ring_reset : Ring A → Ring A
  ring_reset r = record r { rd = 0; wt = 0 }

  -- `RingBufEmpty`.
  unfoldable pub ring_empty : Ring A → Bool
  ring_empty r = r.rd == r.wt

  -- `RingBufRead`: what goes through `out`, and the ring. `none` is `return false`. A read out of
  -- range (which Ring.Inv excludes) would be `none` too.
  unfoldable pub ring_read : Ring A → Option A × Ring A
  ring_read r =
      if not (r.wt == r.rd)
      then (get_elem? r.memory r.rd, record r { rd = add32 r.rd 1 % r.cap })
      else (none, r)

  -- `RingBufWrite`.
  unfoldable pub ring_write : Ring A → A → Bool × Ring A
  ring_write r input =
      if not (r.rd == (add32 r.wt 1 % r.cap))
      then (true, record r { memory = set r.memory r.wt input; wt = add32 r.wt 1 % r.cap })
      else (false, r)
