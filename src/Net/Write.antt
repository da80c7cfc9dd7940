-- ===== src/Net/Write.antt =====
-- RuruNetwork.cpp, `SocketWrite`.
use ruru.Base.{
  ℕ, zero, suc, ◌+◌, ◌≤◌, ◌<◌, ◌≡◌, refl, ◌≢◌, Bytes, ◌++◌, length, take, drop, done, arith, ◌∙◌,
  ap, append-take_zero, length-drop, sym, append-nil, append_assoc, take-add,
}
use native.Mathlib.Decide.{ℕ_discrete}
use ruru.Net.{WriteResult, count, failed, Stream, socket_write_from, socket_write}
use Prim.Native.Nat.{zero-le}

-- `write` takes no more than it is offered, and passes on the front of it: so POSIX has it.
pub record IsStream {W : Type 0} (io : Stream W) : Type 0 where
  pub front :
      (buf : Bytes) (w : W) (n : ℕ) (w' : W)
      → io.write buf w ≡ (count n, w')
      → (n ≤ length buf) × (io.received w' ≡ io.received w ++ take n buf)
  pub nothing :
      (buf : Bytes) (w w' : W) → io.write buf w ≡ (failed, w') → io.received w' ≡ io.received w

module _ {W : Type 0} (io : Stream W) (is : IsStream io) (buf base : Bytes) where
  -- What a result says of what the peer has got, behind `base`.
  abbrev pub Wrote : WriteResult × W → Type 0
  Wrote (count n, w) = (n ≤ length buf) × (io.received w ≡ base ++ take n buf)
  Wrote (failed, w) = (n : ℕ) × (n ≤ length buf) × (io.received w ≡ base ++ take n buf)

  abbrev Ends : ℕ → ℕ → W → Type 0
  Ends fuel written w =
      (r : WriteResult × W) × (socket_write_from io fuel buf written w ≡ done r) × Wrote r

  -- The peer has the first `written` bytes, and the rounds left are enough.
  abbrev At : ℕ → ℕ → W → Type 0
  At fuel written w =
      (written ≤ length buf)
      × (length buf < fuel + written)
      × (io.received w ≡ base ++ take written buf)

  socket_write_all :
      (fuel written : ℕ) (w : W)
      → written ≡ length buf
      → socket_write_from io (suc fuel) buf written w ≡ done (count written, w)
  unfolding socket_write_from
  socket_write_all fuel written w e = ground arith

  socket_write_more :
      (fuel written : ℕ) (w : W) (n : ℕ) (w' : W)
      → written ≢ length buf
      → n ≢ 0
      → io.write (drop written buf) w ≡ (count n, w')
      → socket_write_from io (suc fuel) buf written w
        ≡ socket_write_from io fuel buf (written + n) w'
  unfolding socket_write_from
  socket_write_more fuel written w n w' ne more e = ground (arith, e)

  after_write :
      (fuel written : ℕ) (w : W)
      → ((k : ℕ) (w' : W) → At fuel k w' → Ends fuel k w')
      → At (suc fuel) written w
      → written ≢ length buf
      → (r : WriteResult) (w' : W) → io.write (drop written buf) w ≡ (r, w')
      → Ends (suc fuel) written w
  unfolding socket_write_from
  after_write fuel written w ih h ne failed w' e =
      ((failed, w'), ground (arith, e), (written, h.0, is.nothing _ w w' e ∙ h.2))
  after_write fuel written w ih h ne (count n) w' e = elim (ℕ_discrete n 0) [
    | yes z ↦
        let (_, got) = is.front (drop written buf) w n w' e in
        (
          (count written, w'),
          ground (arith, e),
          (h.0, got ∙ append-take_zero n (io.received w) (drop written buf) z ∙ h.2),
        )
    | no more ↦
        let (le, got) = is.front (drop written buf) w n w' e in
        let fits : written + n ≤ length buf = omega (arith, length-drop written buf) in
        let enough : length buf < fuel + (written + n) = omega arith in
        let joined : io.received w' ≡ base ++ take (written + n) buf =
          got
          ∙ ap (λ t. t ++ take n (drop written buf)) h.2
          ∙ append_assoc base (take written buf) (take n (drop written buf))
          ∙ ap (λ t. base ++ t) (sym (take-add written n buf)) in
        let (r, ends, wrote) = ih (written + n) w' (fits, enough, joined) in
        (r, socket_write_more fuel written w n w' ne more e ∙ ends, wrote)
  ]

  socket_write_from-Ends : (fuel written : ℕ) (w : W) → At fuel written w → Ends fuel written w
  socket_write_from-Ends zero written w h = absurd (omega arith)
  socket_write_from-Ends (suc fuel) written w h = elim (ℕ_discrete written (length buf)) [
    | yes e ↦ ((count written, w), socket_write_all fuel written w e, (h.0, h.2))
    | no ne ↦
        after_write fuel written w (socket_write_from-Ends fuel) h ne
          (io.write (drop written buf) w).0 (io.write (drop written buf) w).1 refl
  ]

-- `SocketWrite` ends on every stream that takes from the front of what it is offered, and the peer
-- gets a front of `buf` and nothing else: the `n` bytes that a result `n` says, and for -1 some
-- number of them, which the caller is not told.
pub socket_write-Wrote :
    {W : Type 0} (io : Stream W) (is : IsStream io) (buf : Bytes) (w : W)
    → (r : WriteResult × W) × (socket_write io buf w ≡ done r) × Wrote io is buf (io.received w) r
unfolding socket_write
socket_write-Wrote io is buf w =
    socket_write_from-Ends io is buf (io.received w) (suc (length buf)) 0 w
      (zero-le, omega arith, sym (append-nil (io.received w)))
