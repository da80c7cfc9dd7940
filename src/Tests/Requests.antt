-- ===== src/Tests/Requests.antt =====
-- A connection that sends a request in one piece and closes, and one that falls silent. The parser
-- takes a head of two bytes, with one header, `Content-Length: 1`.
use ruru.Base.{
  length-take, length-replicate, blit, ℕ, zero, suc, ◌+◌, ◌-◌, ◌<◌, ◌≤◌, ◌≡◌, refl, Bool, true,
  false, List, [], ◌∷◌, ◌++◌, none, some, arith, Bytes, done, fault, length, take, ◌⊎◌, inl, inr,
  replicate, ℤ,
}
use mathlib.Core.Path.{subst}
use ruru.Event.{Address}
use ruru.Net.{WriteResult, count, failed, Stream}
use ruru.Loop.{Loop, find_client_by_address, find_from}
use ruru.Http.Body.{Json}
use ruru.Http.{
  ReadResult, got, again, broken, Parsed, request, partial, Http, Connection, Fresh, Serving,
  http_request_handle, add_client, after_read, look, inspect, wait_for_more, new_client, read_some,
}
use ruru.Http.Reply.{Frees, IsPeer}
use ruru.Http.Handle.{http_request_handle-silent}
use ruru.Http.Bounds.{Fits, round-Fits, find_client_by_address-add_client}
use ruru.Tests.World.{Session, ring_slot, arena, result_or}
use ruru.Sctp.Setup.{Pointer}
use ruru.Tests.Setups.{unbound, nothing_known}

-- What is still to be read, piece by piece, and what has been written.
pub record Link : Type 0 where
  pub pieces : List Bytes
  pub sent : Bytes

abbrev link_stream : Stream Link
link_stream = record {
  write = λ buf l. (count (length buf), record l { sent = l.sent ++ buf });
  received = λ l. l.sent;
}

abbrev TakesAll : Bytes → Link → WriteResult × Link → Type 0
TakesAll buf w (count n, w') = (n ≤ length buf) × (w'.sent ≡ w.sent ++ take n buf)
TakesAll buf w (failed, w') = w'.sent ≡ w.sent

abbrev head_of_two : Bytes → ℕ → Parsed
head_of_two [] last = partial
head_of_two (a ∷ []) last = partial
head_of_two (a ∷ b ∷ _) last = request 2 (
    (67 ∷ 111 ∷ 110 ∷ 116 ∷ 101 ∷ 110 ∷ 116 ∷ 45 ∷ 76 ∷ 101 ∷ 110 ∷ 103 ∷ 116 ∷ 104 ∷ [], 49 ∷ [])
    ∷ [])

-- The end of the stream when all has been read, or no data then.
abbrev read_piece : ReadResult → ℕ → Link → ReadResult × Link
read_piece end size l = elim l.pieces [
  | [] ↦ (end, l)
  | p ∷ ps ↦ (got (take size p), record l { pieces = ps })
]

abbrev closing : Http Link
closing = record {
  read = read_piece (got []);
  stream = link_stream;
  close = λ l. l;
  parse_request = head_of_two;
}

abbrev idling : Http Link
idling = record closing { read = read_piece again }

closing-ends :
    (size : ℕ) (ps : List Bytes) (out : Bytes)
    → let r = read_piece (got []) size (record { pieces = ps; sent = out }) in
      (r.0 ≡ got []) ⊎ (r.0 ≡ broken) ⊎ (length (r.1.pieces) < length ps)
closing-ends size [] out = inl refl
closing-ends size (p ∷ ps) out = inr (inr (omega arith))

abbrev closing_peer : IsPeer closing
closing_peer = record {
  left = λ l. length l.pieces;
  read_ends = λ size l. closing-ends size l.pieces l.sent;
}

-- Every text is a document with the address 127.0.0.1:5000; `Heap` counts the documents.
abbrev pub one_address : Json
one_address = record {
  Heap = ℕ;
  Root = Bool;
  Item = Bytes;
  parse = λ text heap. (some true, heap + 1);
  delete = λ root heap. heap - 1;
  get_item = λ root name. some name;
  is_string = λ item. true;
  is_number = λ item. true;
  value_string = λ item. item;
  value_int = λ item. ℤ.pos 5000;
}

pub one_address-Frees : Frees one_address
one_address-Frees = record { on_null = λ text h e. cc; on_root = λ text h root e. omega arith }

abbrev pub local_host : Bytes → ℕ
local_host text = 16777343

abbrev pub new_objects : Fresh Session
new_objects = record {
  ssl = some (record { incoming = []; outgoing = []; finished = false });
  memory = replicate 100 ring_slot;
  garbage = true;
}

abbrev empty_loop : Loop Session (Pointer → Bool)
empty_loop = record {
  client_mgr = [];
  que = [];
  arena = arena;
  count = 0;
  stack = nothing_known;
  wire = [];
  written = [];
  accepted = [];
}

abbrev connection : Connection
connection = record { bytes = replicate 4096 0; length = 0 }

abbrev served_closing : Serving closing one_address local_host unbound new_objects
served_closing = record {
  loop = empty_loop;
  fd = record { pieces = (71 ∷ 10 ∷ 49 ∷ []) ∷ []; sent = [] };
  heap = 0;
  closes = 0;
}

abbrev served_idling : Serving idling one_address local_host unbound new_objects
served_idling = record {
  loop = empty_loop;
  fd = record { pieces = []; sent = [] };
  heap = 0;
  closes = 0;
}

abbrev HasNone : Link → Type 0
HasNone l = l.pieces ≡ []

idling-silent :
    (n : ℕ) (l : Link) → HasNone l → ((idling.read n l).0 ≡ again) × HasNone (idling.read n l).1
idling-silent n l e = rw e (refl, refl)

-- One byte of a request, and then nothing.
abbrev begun : Connection
begun = record { bytes = 71 ∷ replicate 4095 0; length = 1 }

begun-partial : (k last : ℕ) → k ≤ 1 → head_of_two (take k begun.bytes) last ≡ partial
begun-partial zero last h = refl
begun-partial (suc zero) last h = refl
begun-partial (suc (suc k)) last h = absurd (omega arith)

http_request_handle-silent_example :
    http_request_handle idling one_address local_host unbound new_objects 2 begun served_idling
    ≡ fault
http_request_handle-silent_example =
    http_request_handle-silent idling one_address local_host unbound new_objects HasNone
      idling-silent 2 begun served_idling refl (omega arith) begun-partial (omega arith)

abbrev requested : Address
requested = record { host = 2130706433; port = 5000 }

abbrev grown_loop : Loop Session (Pointer → Bool)
grown_loop = result_or (add_client unbound new_objects requested empty_loop) empty_loop

request_adds : add_client unbound new_objects requested empty_loop ≡ done grown_loop
unfolding add_client new_client
request_adds = refl

find_client_by_address-add_client_example : find_client_by_address grown_loop requested ≡ some 0
unfolding find_client_by_address find_from
find_client_by_address-add_client_example =
    find_client_by_address-add_client unbound new_objects requested empty_loop grown_loop
      request_adds

abbrev Sized : ℕ → ReadResult → Type 0
Sized size (got bytes) = length bytes ≤ size
Sized size again = Unit {0}
Sized size broken = Unit {0}

read_piece-Sized :
    (size : ℕ) (ps : List Bytes) (out : Bytes)
    → Sized size (read_piece (got []) size (record { pieces = ps; sent = out })).0
read_piece-Sized size [] out = omega arith
read_piece-Sized size (p ∷ ps) out = omega (arith, length-take size p)

closing-offered :
    (size : ℕ) (l : Link) (bytes : Bytes)
    → (closing.read size l).0 ≡ got bytes
    → length bytes ≤ size
closing-offered size l bytes e = subst (Sized size) e (read_piece-Sized size l.pieces l.sent)

-- A request that comes in two pieces.
abbrev served_halves : Serving closing one_address local_host unbound new_objects
served_halves = record {
  loop = empty_loop;
  fd = record { pieces = (71 ∷ []) ∷ (10 ∷ 49 ∷ []) ∷ []; sent = [] };
  heap = 0;
  closes = 0;
}

connection-Fits : Fits connection
connection-Fits = record { storage = length-replicate {A = ℕ} 4096 0; used = omega arith }

first_half :
    after_read closing one_address local_host unbound new_objects
      (read_some closing one_address local_host unbound new_objects connection served_halves).0
      connection
      (read_some closing one_address local_host unbound new_objects connection served_halves).1
    ≡ done (none, record { bytes = blit connection.bytes 0 (71 ∷ []); length = 1 })
unfolding read_some after_read look inspect wait_for_more blit
first_half = refl

round-Fits_example : Fits (record { bytes = blit connection.bytes 0 (71 ∷ []); length = 1 })
round-Fits_example =
    round-Fits closing one_address local_host unbound new_objects connection
      (record { bytes = blit connection.bytes 0 (71 ∷ []); length = 1 }) served_halves none
      closing-offered connection-Fits first_half
