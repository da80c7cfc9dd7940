-- ===== src/Client/HeartBeat.antt =====
-- RuruClient.cpp, `ClientSendData` and `ClientSendHeartBeatData`.
use ruru.Base.{
  ℕ, zero, suc, ◌<◌, ◌≡◌, Bool, true, false, List, [], ◌∷◌, ◌++◌, some, ◌>>=◌, sym, if◌then◌else◌,
  map, arith, refl, Bytes, take, done, ◌⊎◌, Bool-cases, inl, inr, if-true, ◌∙◌, if-false,
  append_assoc, append-nil,
}
use native.Mathlib.Decide.{ℕ_discrete}
use mathlib.Core.Path.{subst, ap}
use ruru.Event.{HeartBeatData}
use ruru.Ring.{Ring, ring_empty, ring_read}
use ruru.Ring.Inv.{IsValid, used}
use ruru.Ring.Refine.{contents, advanced, ring_read_empty, ring_read-some}
use ruru.Dtls.{Tls, MemBio}
use ruru.Client.{
  Node, set_ssl, client_send_data, send_heart_beats, client_send_heart_beat_data, write_ssl,
  send_beat,
}
use ruru.Client.Flush.{client_send_pending_dtls-Flushed}

-- What the sending functions of the client leave alone: all but `ssl` and what is seen of it.
abbrev pub SendFrame : {S L : Type 0} → Node S L → Node S L → Type 0
SendFrame n m = m ≡ record (set_ssl m.client.ssl n) { wire = m.wire; written = m.written }

-- The plain text of a beat.
abbrev pub beat_bytes : HeartBeatData → Bytes
beat_bytes b = take b.length b.bytes

module _ (tls : Tls) (bio : MemBio tls) {L : Type 0} where
  -- After the DTLS handshake `ClientSendData` hands its bytes to `SSL_write` once and leaves no
  -- record behind in the outgoing BIO; before it nothing at all happens. It ends either way.
  pub client_send_data_lem :
      (bytes : Bytes) (n : Node tls.State L)
      → (m : Node tls.State L) × (client_send_data tls bytes n ≡ done m)
        × SendFrame n m
        × ((n.client.dtls_hand_shake_done ≡ true
              × m.written ≡ n.written ++ bytes ∷ []
              × tls.out_pending m.client.ssl ≡ 0)
            ⊎ (n.client.dtls_hand_shake_done ≡ false × m ≡ n))
  unfolding client_send_data write_ssl
  client_send_data_lem bytes n = elim (Bool-cases n.client.dtls_hand_shake_done) [
    | inl on ↦
        let (m, e, f) = client_send_pending_dtls-Flushed tls bio (write_ssl tls bytes n) in
        (
          m,
          if-true _ _ on ∙ e,
          ground (arith, f.frame),
          inl (on, ground (arith, f.frame), f.drained),
        )
    | inr off ↦ (n, if-false _ _ off, refl, inr (off, refl))
  ]

-- `written` behind the beats: each once, oldest first, if the DTLS handshake is over, else none.
abbrev pub written_after : Bool → List Bytes → List HeartBeatData → List Bytes
written_after on written beats = if on then written ++ map beat_bytes beats else written

-- What the loop over the ring leaves: an empty valid ring, and the beats written. Nothing else
-- changes but `ssl` and the wire.
pub record Drained {S L : Type 0} (n m : Node S L) : Type 0 where
  pub valid : IsValid m.client.heart_beat_ring
  pub empty : contents m.client.heart_beat_ring ≡ []
  pub beats :
      m.written
      ≡ written_after n.client.dtls_hand_shake_done n.written (contents n.client.heart_beat_ring)
  pub frame : m ≡ record n {
    client = record (n.client) { ssl = m.client.ssl; heart_beat_ring = m.client.heart_beat_ring };
    wire = m.wire;
    written = m.written;
  }

abbrev set_ring : {S L : Type 0} → Ring HeartBeatData → Node S L → Node S L
set_ring r n = record n { client = record (n.client) { heart_beat_ring = r } }

module _ (tls : Tls) {L : Type 0} where
  loop_over :
      (fuel : ℕ) (n : Node tls.State L)
      → ring_empty n.client.heart_beat_ring ≡ true
      → send_heart_beats tls (suc fuel) n ≡ done n
  unfolding send_heart_beats
  loop_over fuel n h = rw (h, send_heart_beats)

  loop_more :
      (fuel : ℕ) (n : Node tls.State L) (b : HeartBeatData) (r : Ring HeartBeatData)
      → ring_empty n.client.heart_beat_ring ≡ false
      → ring_read n.client.heart_beat_ring ≡ (some b, r)
      → send_heart_beats tls (suc fuel) n
        ≡ (client_send_data tls (beat_bytes b) (set_ring r n) >>= send_heart_beats tls fuel)
  unfolding send_heart_beats send_beat
  loop_more fuel n b r h e =
      rw (h, send_heart_beats) (ap (λ p. send_beat tls p n >>= send_heart_beats tls fuel) e)

written_after_nil : (on : Bool) (ws : List Bytes) → ws ≡ written_after on ws []
written_after_nil on ws = ground (arith, append-nil ws)

beats_after :
    (on : Bool) (ws kw mw : List Bytes) (b : HeartBeatData) (rest : List HeartBeatData)
    → ((on ≡ true × kw ≡ ws ++ beat_bytes b ∷ []) ⊎ (on ≡ false × kw ≡ ws))
    → mw ≡ written_after on kw rest
    → mw ≡ written_after on ws (b ∷ rest)
beats_after on ws kw mw b rest sent e =
    ground (arith, append_assoc ws (beat_bytes b ∷ []) (map beat_bytes rest))

module _ (tls : Tls) {L : Type 0} where
  Drained-after :
      (n k m : Node tls.State L) (b : HeartBeatData)
      → contents n.client.heart_beat_ring ≡ b ∷ contents (advanced n.client.heart_beat_ring)
      → SendFrame (set_ring (advanced n.client.heart_beat_ring) n) k
      → ((n.client.dtls_hand_shake_done ≡ true × k.written ≡ n.written ++ beat_bytes b ∷ [])
          ⊎ (n.client.dtls_hand_shake_done ≡ false × k.written ≡ n.written))
      → Drained k m
      → Drained n m
  Drained-after n k m b split frame sent d =
      let ring_k : k.client.heart_beat_ring ≡ advanced n.client.heart_beat_ring =
        ap (λ x. x.client.heart_beat_ring) frame in
      let on_k : k.client.dtls_hand_shake_done ≡ n.client.dtls_hand_shake_done =
        ap (λ x. x.client.dtls_hand_shake_done) frame in
      let beats_k =
        subst
          (λ on.
            m.written ≡ written_after on k.written (contents (advanced n.client.heart_beat_ring)))
          on_k
          (subst
            (λ r. m.written ≡ written_after k.client.dtls_hand_shake_done k.written (contents r))
            ring_k d.beats) in
      record {
        valid = d.valid;
        empty = d.empty;
        beats =
            subst (λ c. m.written ≡ written_after n.client.dtls_hand_shake_done n.written c)
              (sym split) (beats_after _ n.written k.written m.written b _ sent beats_k);
        frame = ground (arith, frame, d.frame);
      }

used_bound : {A : Type 0} (r : Ring A) → IsValid r → used r < suc r.cap
used_bound r v = ground arith

module _ (tls : Tls) (bio : MemBio tls) {L : Type 0} where
  send_heart_beats-Drained :
      (fuel : ℕ) (n : Node tls.State L)
      → IsValid n.client.heart_beat_ring
      → used n.client.heart_beat_ring < fuel
      → (m : Node tls.State L) × (send_heart_beats tls fuel n ≡ done m) × Drained n m
  send_heart_beats-Drained zero n v h = absurd (omega arith)
  send_heart_beats-Drained (suc fuel) n v h =
      let r = n.client.heart_beat_ring in
      elim (ℕ_discrete r.wt r.rd) [
        | yes e ↦
            let (_, none_used, nothing, is_empty) = ring_read_empty {r = r} e in
            (
              n,
              loop_over tls fuel n is_empty,
              record {
                valid = v;
                empty = nothing;
                beats =
                    subst (λ c. n.written ≡ written_after n.client.dtls_hand_shake_done n.written c)
                      (sym nothing) (written_after_nil n.client.dtls_hand_shake_done n.written);
                frame = refl;
              },
            )
        | no ne ↦
            let (b, read, split, count, more, valid) = ring_read-some v ne in
            let (k, sent, frame, what) =
              client_send_data_lem tls bio (beat_bytes b) (set_ring (advanced r) n) in
            let ring_k : k.client.heart_beat_ring ≡ advanced r =
              ap (λ x. x.client.heart_beat_ring) frame in
            let (m, e, d) =
              send_heart_beats-Drained fuel k (subst IsValid (sym ring_k) valid)
                (subst (λ x. used x < fuel) (sym ring_k) (omega (arith, count))) in
            (
              m,
              loop_more tls fuel n b (advanced r) more read
                  ∙ ap (λ x. x >>= send_heart_beats tls fuel) sent
                  ∙ e,
              Drained-after tls n k m b split frame (ground (arith, what)) d,
            )
      ]

  -- For a client whose ring is valid `ClientSendHeartBeatData` ends without a fault and empties the
  -- ring: after the DTLS handshake each beat's `length` bytes are written to TLS once, oldest first;
  -- before it all beats are dropped and nothing is written. Beside ring, `ssl` and wire all stays.
  pub client_send_heart_beat_data-Drained :
      (n : Node tls.State L)
      → IsValid n.client.heart_beat_ring
      → (m : Node tls.State L) × (client_send_heart_beat_data tls n ≡ done m) × Drained n m
  unfolding client_send_heart_beat_data
  client_send_heart_beat_data-Drained n v =
      send_heart_beats-Drained (suc n.client.heart_beat_ring.cap) n v
        (used_bound n.client.heart_beat_ring v)
