-- ===== src/Sctp/Receipt.antt =====
-- RuruSctp.cpp, `PushClientRecvData`: the data of the events in the queue stays in the arena as it
-- was received, in order, until it is read.
use ruru.Base.{
  ℕ, ◌+◌, ◌-◌, ◌%◌, ◌^◌, ◌<◌, ◌≤◌, ◌≡◌, refl, ap, ◌∙◌, sym, append_assoc, Bool, true, false, List,
  [], ◌∷◌, ◌++◌, Option, none, some, arith, Bytes, length, slice, blit, ltb, leb, if◌then◌else◌,
  ◌&&◌, to_int32, slice-blit_before, slice-blit_self, append-nil, ℤ, if-true,
}
use mathlib.Core.Path.{ap₂, subst, subst₂}
use ruru.Event.{Event, RcvInfo, Upcall, outbound, inbound}
use ruru.Arena.{Arena, arena_alloc, arena_copy}
use ruru.Arena.Bounds.{IsValid, Allocated, arena_alloc-Allocated, arena_copy-IsValid}
use ruru.Client.{Node}
use ruru.Sctp.{receive_into, push_client_recv_data}

-- The block that an event points to, if it points to one.
abbrev pub block_at : Bytes → Option ℕ → ℕ → List Bytes
block_at memory none size = []
block_at memory (some off) size = slice memory off size ∷ []

abbrev pub EndsBelow : ℕ → Option ℕ → ℕ → Type 0
EndsBelow bound none size = Unit {0}
EndsBelow bound (some off) size = off + size ≤ bound

-- The data that the events of a queue point to, in order.
abbrev pub read_que : Bytes → List Event → List Bytes
read_que memory [] = []
read_que memory (e ∷ es) = block_at memory e.bytes e.length ++ read_que memory es

-- All of it lies below `bound`.
abbrev pub Below : ℕ → List Event → Type 0
Below bound [] = Unit {0}
Below bound (e ∷ es) = EndsBelow bound e.bytes e.length × Below bound es

EndsBelow-mono :
    (a b : ℕ) (o : Option ℕ) (size : ℕ) → a ≤ b → EndsBelow a o size → EndsBelow b o size
EndsBelow-mono a b none size h d = tt
EndsBelow-mono a b (some off) size h d = omega arith

Below-mono : (a b : ℕ) (es : List Event) → a ≤ b → Below a es → Below b es
Below-mono a b [] h d = tt
Below-mono a b (e ∷ es) h d = (EndsBelow-mono a b e.bytes e.length h d.0, Below-mono a b es h d.1)

Below-append : (b : ℕ) (es fs : List Event) → Below b es → Below b fs → Below b (es ++ fs)
Below-append b [] fs d g = g
Below-append b (e ∷ es) fs d g = (d.0, Below-append b es fs d.1 g)

read_que-append :
    (m : Bytes) (es fs : List Event) → read_que m (es ++ fs) ≡ read_que m es ++ read_que m fs
read_que-append m [] fs = refl
read_que-append m (e ∷ es) fs =
    ap (λ t. block_at m e.bytes e.length ++ t) (read_que-append m es fs)
    ∙ sym (append_assoc (block_at m e.bytes e.length) (read_que m es) (read_que m fs))

block_at-blit :
    (m : Bytes) (off : ℕ) (src : Bytes) (o : Option ℕ) (size : ℕ)
    → EndsBelow off o size
    → block_at (blit m off src) o size ≡ block_at m o size
block_at-blit m off src none size d = refl
block_at-blit m off src (some o) size d = ap (λ t. t ∷ []) (slice-blit_before m o size off src d)

-- A copy behind the data of the queue does not change it.
read_que-blit :
    (m : Bytes) (off : ℕ) (src : Bytes) (es : List Event)
    → Below off es
    → read_que (blit m off src) es ≡ read_que m es
read_que-blit m off src [] d = refl
read_que-blit m off src (e ∷ es) d =
    ap₂ ◌++◌ (block_at-blit m off src e.bytes e.length d.0) (read_que-blit m off src es d.1)

-- What is free in an arena; what a packet takes of it, and whether it is kept at all.
abbrev pub free : Arena → ℕ
free a = a.capacity - a.pos

abbrev pub fits : ℕ → Bytes → Bool
fits room packet = ltb 0 (length packet) && leb (length packet) room

-- The packets, among those of some upcalls, that find room.
abbrev pub kept : ℕ → List Upcall → List Bytes
kept room [] = []
kept room (outbound packet ∷ us) = kept room us
kept room (inbound none rcv ∷ us) = kept room us
kept room (inbound (some packet) rcv ∷ us) =
    if fits room packet then packet ∷ kept (room - length packet) us else kept room us

module _ {S L : Type 0} where
  -- The queue's data lies in the used part of a valid arena.
  pub record IsStored (n : Node S L) : Type 0 where
    pub arena : IsValid n.arena
    pub data_below : Below n.arena.pos n.que
    pub attached : n.client.attached ≡ true

  abbrev pub queued : Node S L → List Bytes
  queued n = read_que n.arena.memory n.que

  -- `m` is `n` with `more` received behind what was queued.
  pub record Received (n : Node S L) (more : List Bytes) (room : ℕ) (m : Node S L) : Type 0 where
    pub stored : IsStored m
    pub data_kept : queued m ≡ queued n ++ more
    pub left : free m.arena ≡ room

  -- A packet for which there is room goes behind the used part of the arena.
  module _ (packet : Bytes) (rcv : RcvInfo) (n : Node S L) (s : IsStored n) where
    abbrev used_arena : Arena
    used_arena = record (n.arena) { pos = n.arena.pos + length packet }

    receive_room :
        length packet < 2 ^ 16
        → n.arena.pos + length packet ≤ n.arena.capacity
        → Received n
            (packet ∷ [])
            (free n.arena - length packet)
            (receive_into (some n.arena.pos, used_arena) packet rcv n)
    unfolding receive_into arena_copy
    receive_room small h =
        let exact : length packet % 2 ^ 16 ≡ length packet = omega arith in
        let inside : n.arena.pos + length packet ≤ length n.arena.memory =
          omega (arith, s.arena.storage) in
        record {
          stored = record {
            arena =
                arena_copy-IsValid n.arena.pos packet
                  (record { storage = s.arena.storage; inside = h; int32 = s.arena.int32 });
            data_below =
                Below-append _ n.que _ (Below-mono _ _ n.que (omega arith) s.data_below)
                  (omega arith, tt);
            attached = s.attached;
          };
          data_kept =
              read_que-append _ n.que _
              ∙ ap₂ ◌++◌ (read_que-blit n.arena.memory n.arena.pos packet n.que s.data_below) (
                  ap (λ k. slice (blit n.arena.memory n.arena.pos packet) n.arena.pos k ∷ []) exact
                  ∙ ap (λ t. t ∷ []) (slice-blit_self n.arena.memory n.arena.pos packet inside));
          left = omega arith;
        }

    receive_full : Received n [] (free n.arena) (receive_into (none, n.arena) packet rcv n)
    unfolding receive_into
    receive_full = record {
      stored = record { arena = s.arena; data_below = s.data_below; attached = s.attached };
      data_kept = sym (append-nil (queued n));
      left = refl;
    }

    -- What becomes of one packet, and the room behind it.
    abbrev pub ReceivedIf : Bool → Node S L → Type 0
    ReceivedIf true m = Received n (packet ∷ []) (free n.arena - length packet) m
    ReceivedIf false m = Received n [] (free n.arena) m

    receive_into-ReceivedIf :
        (r : Option ℕ × Arena)
        → length packet < 2 ^ 16
        → Allocated n.arena (ℤ.pos (length packet)) r
        → ReceivedIf (fits (free n.arena) packet) (receive_into r packet rcv n)
    receive_into-ReceivedIf (none, a) h (same, why) =
        let no_room : fits (free n.arena) packet ≡ false = ground arith in
        subst (λ x. ReceivedIf (fits (free n.arena) packet) (receive_into (none, x) packet rcv n))
          (sym same)
          (subst (λ b. ReceivedIf b (receive_into (none, n.arena) packet rcv n)) (sym no_room)
            receive_full)
    receive_into-ReceivedIf (some off, a) h (at, more, moved, inside) =
        let room : fits (free n.arena) packet ≡ true = ground arith in
        let moved' : a ≡ used_arena =
          moved ∙ ap (λ o. record (n.arena) { pos = o + length packet }) at in
        subst
          (λ x. ReceivedIf (fits (free n.arena) packet) (receive_into (some off, x) packet rcv n))
          (sym moved')
          (subst
            (λ o.
              ReceivedIf (fits (free n.arena) packet)
                (receive_into (some o, used_arena) packet rcv n))
            (sym at)
            (subst (λ b. ReceivedIf b (receive_into (some n.arena.pos, used_arena) packet rcv n))
              (sym room) (receive_room h (omega arith))))

    pub push_client_recv_data-ReceivedIf :
        length packet < 2 ^ 16
        → ReceivedIf (fits (free n.arena) packet) (push_client_recv_data packet rcv n)
    unfolding push_client_recv_data
    push_client_recv_data-ReceivedIf h =
        let small : to_int32 (length packet) ≡ ℤ.pos (length packet) = ground arith in
        subst (λ m. ReceivedIf (fits (free n.arena) packet) m) (sym (if-true _ _ s.attached))
          (receive_into-ReceivedIf (arena_alloc n.arena (to_int32 (length packet))) h (
            subst (λ z. Allocated n.arena z (arena_alloc n.arena (to_int32 (length packet)))) small
              (arena_alloc-Allocated (to_int32 (length packet)) s.arena).0))

  pub unchanged-Received :
      (n m : Node S L) (new : List Event)
      → IsStored n
      → m.arena ≡ n.arena
      → m.que ≡ n.que ++ new
      → Below n.arena.pos new
      → ((memory : Bytes) → read_que memory new ≡ [])
      → m.client.attached ≡ n.client.attached
      → Received n [] (free n.arena) m
  unchanged-Received n m new s a q below nothing at = record {
    stored = record {
      arena = subst IsValid (sym a) s.arena;
      data_below =
          subst₂ (λ x es. Below x.pos es) (sym a) (sym q)
            (Below-append _ n.que new s.data_below below);
      attached = at ∙ s.attached;
    };
    data_kept =
        ap₂ (λ x es. read_que x.memory es) a q
        ∙ read_que-append n.arena.memory n.que new
        ∙ ap (λ t. queued n ++ t) (nothing n.arena.memory);
    left = ap free a;
  }

  pub unchanged : (n : Node S L) → IsStored n → Received n [] (free n.arena) n
  unchanged n s = unchanged-Received n n [] s refl (sym (append-nil n.que)) tt (λ _. refl) refl
