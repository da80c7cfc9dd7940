-- ===== src/Sctp/Sound.antt =====
-- RuruSctp.cpp and RuruClient.cpp: every operation of a client keeps its ring valid, and the events that it
-- queues name clients that are there.
use ruru.Base.{
  ℕ, ◌<◌, ◌≡◌, refl, sym, ap, List, [], ◌∷◌, ◌++◌, Option, none, some, Bytes, length, ltb, ◌==◌,
  ◌||◌, Post, Post-bind, Post-intro, Bool-cases, inl, inr, if-true, if-false,
}
use mathlib.Core.Path.{subst}
use ruru.Event.{Event, RcvInfo, Upcall, outbound, inbound}
use ruru.Arena.{Arena}
use ruru.Dtls.{Tls}
use ruru.Ring.Inv.{IsValid, ring_write-IsValid}
use ruru.Client.{Node, client_send_pending_dtls}
use ruru.Client.HeartBeat.{SendFrame}
use ruru.Sctp.Frame.{client_send_data-SendFrame, send_pending-SendFrame}
use ruru.Sctp.{
  push_event, store_heart_beat, receive_into, push_client_recv_data, on_sctp_inbound_packet,
  on_sctp_outbound_packet, run_upcall, run_upcalls, chunk_type, sizeof_sctp_header,
}
use ruru.Event.{heart_beat_size}

-- An event names one of the first `k` clients.
abbrev pub Names : ℕ → Option ℕ → Type 0
Names k none = ⊥
Names k (some i) = i < k

abbrev pub AreNamed : ℕ → List Event → Type 0
AreNamed k [] = Unit
AreNamed k (e ∷ es) = Names k e.client × AreNamed k es

pub AreNamed-append :
    (k : ℕ) (es fs : List Event) → AreNamed k es → AreNamed k fs → AreNamed k (es ++ fs)
AreNamed-append k [] fs a b = b
AreNamed-append k (e ∷ es) fs (n, a) b = (n, AreNamed-append k es fs a b)

module _ {S L : Type 0} (k : ℕ) where
  -- The invariant of one client, among `k`.
  pub record IsKept (n : Node S L) : Type 0 where
    pub ring : IsValid n.client.heart_beat_ring
    pub named : AreNamed k n.que
    pub self : n.self < k

  -- It depends on the ring, the queue and the client's own number only.
  pub IsKept-same :
      (n m : Node S L)
      → m.client.heart_beat_ring ≡ n.client.heart_beat_ring
      → m.que ≡ n.que
      → m.self ≡ n.self
      → IsKept n
      → IsKept m
  IsKept-same n m r q s h = record {
    ring = subst IsValid (sym r) h.ring;
    named = subst (AreNamed k) (sym q) h.named;
    self = subst (λ i. i < k) (sym s) h.self;
  }

  push_event-IsKept :
      (e : Event) (n : Node S L) → Names k e.client → IsKept n → IsKept (push_event e n)
  push_event-IsKept e n i h = record {
    ring = h.ring;
    named = AreNamed-append k n.que (e ∷ []) h.named (i, tt);
    self = h.self;
  }

  store_heart_beat-IsKept :
      (packet : Bytes) (n : Node S L) → IsKept n → Post IsKept (store_heart_beat packet n)
  unfolding store_heart_beat
  store_heart_beat-IsKept packet n h = elim (Bool-cases (ltb heart_beat_size (length packet))) [
    | inl long ↦ subst (Post IsKept) (sym (if-true _ _ long)) tt
    | inr fits ↦ subst (Post IsKept) (sym (if-false _ _ fits)) (
        push_event-IsKept _ _ h.self
          (record { ring = ring_write-IsValid _ h.ring; named = h.named; self = h.self }))
  ]

  receive_into-IsKept :
      (o : Option ℕ × Arena) (packet : Bytes) (rcv : RcvInfo) (n : Node S L)
      → IsKept n
      → IsKept (receive_into o packet rcv n)
  unfolding receive_into
  receive_into-IsKept (none, arena) packet rcv n h = IsKept-same n _ refl refl refl h
  receive_into-IsKept (some off, arena) packet rcv n h =
      push_event-IsKept _ _ h.self (IsKept-same n _ refl refl refl h)

  on_sctp_inbound_packet-IsKept :
      (packet : Option Bytes) (rcv : RcvInfo) (n : Node S L)
      → IsKept n
      → IsKept (on_sctp_inbound_packet packet rcv n)
  unfolding on_sctp_inbound_packet push_client_recv_data
  on_sctp_inbound_packet-IsKept none rcv n h = h
  on_sctp_inbound_packet-IsKept (some packet) rcv n h = elim (Bool-cases n.client.attached) [
    | inl on ↦ subst IsKept (sym (if-true _ _ on)) (receive_into-IsKept _ packet rcv n h)
    | inr off ↦ subst IsKept (sym (if-false _ _ off)) h
  ]

module _ (tls : Tls) {L : Type 0} (k : ℕ) where
  abbrev Kept : Node tls.State L → Type 0
  Kept = IsKept k

  SendFrame-IsKept : (n m : Node tls.State L) → SendFrame n m → Kept n → Kept m
  SendFrame-IsKept n m f h =
      IsKept-same k n m (ap (λ x. x.client.heart_beat_ring) f) (ap (λ x. x.que) f)
        (ap (λ x. x.self) f) h

  on_sctp_outbound_packet-IsKept :
      (packet : Option Bytes) (n : Node tls.State L)
      → Kept n
      → Post Kept (on_sctp_outbound_packet tls packet n)
  unfolding on_sctp_outbound_packet
  on_sctp_outbound_packet-IsKept none n h = h
  on_sctp_outbound_packet-IsKept (some packet) n h =
      elim (Bool-cases (ltb (length packet) sizeof_sctp_header)) [
        | inl short ↦ subst (Post Kept) (sym (if-true _ _ short)) h
        | inr whole ↦
            subst (Post Kept) (sym (if-false _ _ whole))
              (elim (Bool-cases ((chunk_type packet == 4) || (chunk_type packet == 5))) [
                | inl beat ↦
                    subst (Post Kept) (sym (if-true _ _ beat))
                      (store_heart_beat-IsKept k packet n h)
                | inr other ↦ subst (Post Kept) (sym (if-false _ _ other)) (
                    Post-intro _
                      λ m e. SendFrame-IsKept n m (client_send_data-SendFrame tls packet n e) h)
              ])
      ]

  -- The functions that usrsctp calls back keep the invariant.
  pub run_upcalls-IsKept :
      (us : List Upcall) (n : Node tls.State L) → Kept n → Post Kept (run_upcalls tls us n)
  unfolding run_upcalls run_upcall
  run_upcalls-IsKept [] n h = h
  run_upcalls-IsKept (outbound packet ∷ us) n h =
      Post-bind Kept Kept _ _ (on_sctp_outbound_packet-IsKept packet n h) (run_upcalls-IsKept us)
  run_upcalls-IsKept (inbound packet rcv ∷ us) n h =
      run_upcalls-IsKept us _ (on_sctp_inbound_packet-IsKept k packet rcv n h)

  pub client_send_pending_dtls-IsKept :
      (n : Node tls.State L) → Kept n → Post Kept (client_send_pending_dtls tls n)
  unfolding client_send_pending_dtls
  client_send_pending_dtls-IsKept n h =
      Post-intro _ λ m e. SendFrame-IsKept n m (send_pending-SendFrame tls _ n e) h
