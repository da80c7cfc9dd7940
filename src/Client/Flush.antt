-- ===== src/Client/Flush.antt =====
-- RuruClient.cpp, `ClientSendPendingDtls`: everything that the outgoing BIO holds is sent.
use ruru.Base.{
  ℕ, zero, suc, ◌≤◌, ◌<◌, ◌≡◌, refl, List, [], ◌∷◌, ◌++◌, arith, length, take, done, Bytes,
  length-take, take-append-drop, append_assoc, append-nil, lt→ltb, sym, ◌∙◌, ap, length-append,
}
use native.Mathlib.Decide.{dec_lt}
use ruru.Event.{Address, Datagram}
use ruru.Dtls.{Tls, MemBio}
use ruru.Client.{
  network_order, Node, set_ssl, send_to, send_pending_step, send_pending, client_send_pending_dtls,
}

-- The payloads of a series of datagrams, joined.
abbrev pub payloads : List Datagram → Bytes
payloads [] = []
payloads (d ∷ ds) = d.payload ++ payloads ds

-- Each goes to `a`, in network byte order, is not empty and fits the buffer of 4096 bytes.
abbrev pub AreSentTo : Address → List Datagram → Type 0
AreSentTo a [] = Unit {0}
AreSentTo a (d ∷ ds) =
    (d.to ≡ network_order a) × (0 < length d.payload) × (length d.payload ≤ 4096) × AreSentTo a ds

nil_of_length : (xs : Bytes) → length xs ≡ 0 → xs ≡ []
nil_of_length [] h = refl
nil_of_length (x ∷ xs) h = absurd (omega arith)

module _ (tls : Tls) (bio : MemBio tls) {L : Type 0} where
  -- `m` is `n` with what `bytes` became on the wire, and an outgoing BIO that is empty.
  pub record Flushed (n : Node tls.State L) (bytes : Bytes) (m : Node tls.State L) : Type 0 where
    pub sent : List Datagram
    pub frame : m ≡ record (set_ssl m.client.ssl n) { wire = n.wire ++ sent }
    pub whole : payloads sent ≡ bytes
    pub sized : AreSentTo n.client.address sent
    pub drained : tls.out_pending m.client.ssl ≡ 0

  Flushed-now :
      (n : Node tls.State L)
      → tls.out_pending n.client.ssl ≡ 0
      → bio.out_bytes n.client.ssl ≡ []
      → Flushed n (bio.out_bytes n.client.ssl) n
  Flushed-now n h e = record {
    sent = [];
    frame = ground (arith, append-nil n.wire);
    whole = sym e;
    sized = tt;
    drained = h;
  }

  -- One datagram more in front.
  Flushed-after :
      (n : Node tls.State L) (s : tls.State) (chunk rest bytes : Bytes) (m : Node tls.State L)
      → 0 < length chunk
      → length chunk ≤ 4096
      → chunk ++ rest ≡ bytes
      → Flushed (send_to chunk (set_ssl s n)) rest m
      → Flushed n bytes m
  unfolding send_to
  Flushed-after n s chunk rest bytes m lo hi e f = record {
    sent = d ∷ f.sent;
    frame =
        f.frame
        ∙ ap (λ w. record (set_ssl m.client.ssl n) { wire = w })
            (append_assoc n.wire (d ∷ []) f.sent);
    whole = ap (λ t. chunk ++ t) f.whole ∙ e;
    sized = (refl, lo, hi, f.sized);
    drained = f.drained;
  }
    where
      d : Datagram
      d = record { to = network_order n.client.address; payload = chunk }

  module _ (n : Node tls.State L) where
    open n.client use {ssl}

    -- What one `BIO_read` of 4096 bytes leaves in the BIO.
    left : tls.State
    left = (tls.bio_read_out 4096 ssl).1

    chunk : Bytes
    chunk = take 4096 (bio.out_bytes ssl)

    chunk_bounds : 0 < tls.out_pending ssl → (0 < length chunk) × (length chunk ≤ 4096)
    unfolding chunk
    chunk_bounds h = omega (arith, length-take 4096 (bio.out_bytes ssl), bio.pending ssl)

    chunk-left : chunk ++ bio.out_bytes left ≡ bio.out_bytes ssl
    unfolding chunk left
    chunk-left = rw (bio.read_rest 4096 ssl) (take-append-drop 4096 (bio.out_bytes ssl))

    left-lt : 0 < tls.out_pending ssl → tls.out_pending left < tls.out_pending ssl
    left-lt h = omega (
      arith,
      chunk_bounds h,
      ap length chunk-left,
      length-append chunk (bio.out_bytes left),
      bio.pending ssl,
      bio.pending left,
    )

    step_lem : 0 < tls.out_pending ssl → send_pending_step tls n ≡ send_to chunk (set_ssl left n)
    unfolding send_pending_step chunk left
    step_lem h = rw (bio.read_front 4096 ssl, lt→ltb _ _ (chunk_bounds h).0)

  send_pending_more :
      (fuel : ℕ) (n : Node tls.State L)
      → 0 < tls.out_pending n.client.ssl
      → send_pending tls (suc fuel) n
        ≡ send_pending tls fuel (send_to (chunk n) (set_ssl (left n) n))
  unfolding send_pending
  send_pending_more fuel n h = ground (arith, step_lem n h)

  send_pending_over :
      (fuel : ℕ) (n : Node tls.State L)
      → tls.out_pending n.client.ssl ≡ 0
      → send_pending tls (suc fuel) n ≡ done n
  unfolding send_pending
  send_pending_over fuel n h = ground arith

  send_pending-Flushed :
      (fuel : ℕ) (n : Node tls.State L)
      → tls.out_pending n.client.ssl < fuel
      → (m : Node tls.State L) × (send_pending tls fuel n ≡ done m)
        × Flushed n (bio.out_bytes n.client.ssl) m
  unfolding send_to
  send_pending-Flushed zero n h = absurd (omega arith)
  send_pending-Flushed (suc fuel) n h = elim (dec_lt 0 (tls.out_pending n.client.ssl)) [
    | yes some ↦
        let (lo, hi) = chunk_bounds n some in
        let (m, e, f) =
          send_pending-Flushed fuel (send_to (chunk n) (set_ssl (left n) n))
            (omega (arith, left-lt n some)) in
        (
          m,
          send_pending_more fuel n some ∙ e,
          Flushed-after n (left n) (chunk n) _ _ m lo hi (chunk-left n) f,
        )
    | no over ↦
        let none : tls.out_pending n.client.ssl ≡ 0 = omega arith in
        let nothing =
          nil_of_length (bio.out_bytes n.client.ssl) (omega (arith, bio.pending n.client.ssl)) in
        (n, send_pending_over fuel n none, Flushed-now n none nothing)
  ]

  pub client_send_pending_dtls-Flushed :
      (n : Node tls.State L)
      → (m : Node tls.State L) × (client_send_pending_dtls tls n ≡ done m)
        × Flushed n (bio.out_bytes n.client.ssl) m
  unfolding client_send_pending_dtls
  client_send_pending_dtls-Flushed n =
      send_pending-Flushed (suc (tls.out_pending n.client.ssl)) n (omega arith)
