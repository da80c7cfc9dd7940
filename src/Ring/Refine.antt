-- ===== src/Ring/Refine.antt =====
-- RuruRingBuf.h: a valid ring is a first-in first-out queue of at most `cap - 1` values.
use ruru.Base.{
  ℕ, zero, suc, ◌+◌, ◌-◌, ◌<◌, ◌≤◌, ◌≡◌, refl, ap, ◌≢◌, Bool, true, false, List, [], ◌∷◌, ◌++◌,
  Option, none, some, ◌↔◌, sym, arith, length, set, get_elem?, get_elem?-set_self, get_elem?-set_ne,
  ltb, if◌then◌else◌, ◌∙◌,
}
use mathlib.Core.Path.{subst}
use native.Mathlib.Decide.{ℕ_discrete, dec_lt}
use ruru.Ring.{Ring, ring_read, ring_write, ring_empty}
use ruru.Ring.Inv.{IsValid, used, next, add32-mod, ring_read-IsValid}

-- The queue that a ring stands for: what a client can ask of it.
module _ {A : Type 0} where
  unfoldable pub queue_pop : List A → Option A × List A
  queue_pop [] = (none, [])
  queue_pop (x ∷ q) = (some x, q)

  unfoldable pub queue_push : ℕ → List A → A → Bool × List A
  queue_push limit q a = if ltb (length q) limit then (true, q ++ a ∷ []) else (false, q)

  -- The `n` values from index `i` on, going round at `size`.
  abbrev pub window : List A → ℕ → ℕ → ℕ → List A
  window memory size i zero = []
  window memory size i (suc n) = elim (get_elem? memory i) [
    | none ↦ []
    | some a ↦ a ∷ window memory size (next size i) n
  ]

  -- What the ring holds, oldest first.
  abbrev pub contents : Ring A → List A
  contents r = window r.memory r.cap r.rd (used r)

  get_elem?-some : (xs : List A) (i : ℕ) → i < length xs → (a : A) × (get_elem? xs i ≡ some a)
  get_elem?-some [] i h = absurd (omega arith)
  get_elem?-some (x ∷ xs) zero h = (x, refl)
  get_elem?-some (x ∷ xs) (suc i) h = get_elem?-some xs i (omega arith)

  -- Reading off one value of a window inside the memory.
  window-suc :
      (memory : List A) (size i n : ℕ)
      → size ≡ length memory
      → i < size
      → (a : A) × (get_elem? memory i ≡ some a)
        × (window memory size i (suc n) ≡ a ∷ window memory size (next size i) n)
  window-suc memory size i n e h =
      let (a, found) = get_elem?-some memory i (omega arith) in (a, found, ground arith)

  pub length-window :
      (memory : List A) (size i n : ℕ)
      → size ≡ length memory
      → i < size
      → length (window memory size i n) ≡ n
  length-window memory size i zero e h = refl
  length-window memory size i (suc n) e h =
      ground (arith, get_elem?-some memory i, length-window memory size (next size i) n)

  -- A write just past a window extends it by the value.
  window-set :
      (memory : List A) (size i j n : ℕ) (a : A)
      → size ≡ length memory
      → i < size
      → n < size
      → j ≡ (if ltb (i + n) size then i + n else i + n - size)
      → window (set memory j a) size i (suc n) ≡ window memory size i n ++ a ∷ []
  window-set memory size i j zero a e h m p =
      let same : j ≡ i = ground arith in rw same (ground (arith, get_elem?-set_self memory i a))
  window-set memory size i j (suc n) a e h m p = ground (
    arith,
    get_elem?-some memory i,
    get_elem?-set_ne memory {i = j} {j = i} a,
    window-set memory size (next size i) j n a,
  )

  -- The state behind a read that succeeds.
  abbrev pub advanced : Ring A → Ring A
  advanced r = record r { rd = next r.cap r.rd }

  pub ring_read_step :
      {r : Ring A}
      → IsValid r
      → r.wt ≢ r.rd
      → (ring_read r ≡ (get_elem? r.memory r.rd, advanced r)) × (used r ≡ suc (used (advanced r)))
  unfolding ring_read
  ring_read_step {r} v h = ground (arith, add32-mod r.cap r.rd)

  pub ring_read_empty :
      {r : Ring A}
      → r.wt ≡ r.rd
      → (ring_read r ≡ (none, r)) × (used r ≡ 0) × (contents r ≡ []) × (ring_empty r ≡ true)
  unfolding ring_read ring_empty
  ring_read_empty {r} h = ground arith

  -- A successful read, with the value.
  pub ring_read-some :
      {r : Ring A}
      → IsValid r
      → r.wt ≢ r.rd
      → (a : A) × (ring_read r ≡ (some a, advanced r))
        × (contents r ≡ a ∷ contents (advanced r))
        × (used r ≡ suc (used (advanced r)))
        × (ring_empty r ≡ false)
        × IsValid (advanced r)
  unfolding ring_empty
  ring_read-some {r} v ne =
      let (a, found, split) =
        window-suc r.memory r.cap r.rd (used (advanced r)) (sym v.storage) v.rd_in in
      let (step, count) = ring_read_step v ne in
      (
        a,
        step ∙ ap (λ o. (o, advanced r)) found,
        ap (window r.memory r.cap r.rd) count ∙ split,
        count,
        ground arith,
        subst (λ p. IsValid p.1) step (ring_read-IsValid v),
      )

  -- `RingBufRead` takes the oldest value off the queue that a valid ring holds, and fails exactly on
  -- the empty one.
  pub ring_read_refines :
      {r : Ring A}
      → IsValid r
      → let (out, r') = ring_read r in (out, contents r') ≡ queue_pop (contents r)
  unfolding queue_pop
  ring_read_refines {r} v = elim (ℕ_discrete r.wt r.rd) [
    | yes e ↦ ground (arith, ring_read_empty {r = r} e)
    | no ne ↦
        ground (arith, ring_read_step v ne, window-suc r.memory r.cap r.rd (used (advanced r)))
  ]

  abbrev extended : Ring A → A → Ring A
  extended r a = record r { memory = set r.memory r.wt a; wt = next r.cap r.wt }

  ring_write_step :
      {r : Ring A} (a : A)
      → IsValid r
      → used r + 1 < r.cap
      → (ring_write r a ≡ (true, extended r a)) × (used (extended r a) ≡ suc (used r))
  unfolding ring_write
  ring_write_step {r} a v h = ground (arith, add32-mod r.cap r.wt)

  ring_write_full :
      {r : Ring A} (a : A) → IsValid r → r.cap ≤ used r + 1 → ring_write r a ≡ (false, r)
  unfolding ring_write
  ring_write_full {r} a v h = ground (arith, add32-mod r.cap r.wt)

  pub length-contents : {r : Ring A} → IsValid r → length (contents r) ≡ used r
  length-contents {r} v = length-window r.memory r.cap r.rd (used r) (sym v.storage) v.rd_in

  -- `RingBufWrite` puts a value behind those that a valid ring holds if there are fewer than
  -- `cap - 1`, and otherwise refuses it and leaves them as they are.
  pub ring_write_refines :
      {r : Ring A} (a : A)
      → IsValid r
      → let (ok, r') = ring_write r a in (ok, contents r') ≡ queue_push (r.cap - 1) (contents r) a
  unfolding queue_push
  ring_write_refines {r} a v = elim (dec_lt (used r + 1) r.cap) [
    | yes h ↦ ground (
      arith,
      ring_write_step a v h,
      length-contents v,
      window-set r.memory r.cap r.rd r.wt (used r) a,
    )
    | no h ↦ ground (arith, ring_write_full {r = r} a v, length-contents v)
  ]

  -- `RingBufEmpty` tells whether the ring holds nothing.
  pub ring_empty_iff : {r : Ring A} → IsValid r → (ring_empty r ≡ true) ↔ (contents r ≡ [])
  unfolding ring_empty
  ring_empty_iff {r} v = (
    λ e. ground (arith, ring_read_empty {r = r}),
    λ e. ground (arith, ap length e, length-contents v),
  )
