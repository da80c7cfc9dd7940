-- ===== src/Ring/Inv.antt =====
-- RuruRingBuf.h: the representation invariant of the ring.
use ruru.Base.{
  ℕ, ◌+◌, ◌-◌, ◌%◌, ◌^◌, ◌<◌, ◌≡◌, List, arith, length, length-set, ltb, if◌then◌else◌, add32,
}
use native.Mathlib.Nat.{mod-eq_of_lt, mod_self}
use native.Mathlib.Decide.{dec_lt}
use ruru.Ring.{Ring, new_ring, ring_reset, ring_read, ring_write}

-- The index behind `i`, going round at the capacity.
abbrev pub next : ℕ → ℕ → ℕ
next size i = if ltb (i + 1) size then i + 1 else 0

pub add32-mod : (size i : ℕ) → i < size → size < 2 ^ 32 → add32 i 1 % size ≡ next size i
add32-mod size i h b =
    let exact : (i + 1) % 2 ^ 32 ≡ i + 1 = omega arith in
    elim (dec_lt (i + 1) size) [
      | yes p ↦ rw (exact, mod-eq_of_lt p) (ground arith)
      | no p ↦ let e : i + 1 ≡ size = omega arith in rw (exact, e, mod_self) (ground arith)
    ]

module _ {A : Type 0} where
  pub record IsValid (r : Ring A) : Type 0 where
    pub storage : length r.memory ≡ r.cap
    pub rd_in : r.rd < r.cap
    pub wt_in : r.wt < r.cap
    pub uint32 : r.cap < 2 ^ 32

  -- How many values the ring holds.
  abbrev pub used : Ring A → ℕ
  used r = if ltb r.wt r.rd then r.cap + r.wt - r.rd else r.wt - r.rd

  pub new_ring-IsValid :
      (size : ℕ) (memory : List A)
      → 0 < size
      → size < 2 ^ 32
      → length memory ≡ size
      → IsValid (new_ring size memory) × (used (new_ring size memory) ≡ 0)
  unfolding new_ring
  new_ring-IsValid size memory h b l = ground arith

  pub ring_reset-IsValid :
      {r : Ring A} → IsValid r → IsValid (ring_reset r) × (used (ring_reset r) ≡ 0)
  unfolding ring_reset
  ring_reset-IsValid v = ground arith

  -- `RingBufRead` keeps a valid ring valid.
  pub ring_read-IsValid : {r : Ring A} → IsValid r → IsValid (ring_read r).1
  unfolding ring_read
  ring_read-IsValid {r} v = ground (arith, add32-mod r.cap r.rd)

  -- `RingBufWrite` keeps a valid ring valid.
  pub ring_write-IsValid : {r : Ring A} (a : A) → IsValid r → IsValid (ring_write r a).1
  unfolding ring_write
  ring_write-IsValid {r} a v = ground (arith, add32-mod r.cap r.wt, length-set r.memory r.wt a)
