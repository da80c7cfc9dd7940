-- ===== src/Http.antt =====
-- RuruLoop.cpp: `HttpRequestHandle`, and the constructor of RuruClient.cpp that it calls.
pub mod Body
pub mod Reply
pub mod Handle
pub mod Bounds
use ruru.Base.{
  ℕ, zero, suc, ◌+◌, ◌-◌, Bool, true, false, not, ◌&&◌, List, [], ◌∷◌, ◌++◌, Option, none, some,
  ◌==◌, if◌then◌else◌, Bytes, length, take, drop, blit, ℤ, Run, done, fault, spin, ◌>>=◌,
}
use ruru.Event.{Address, HeartBeatData}
use ruru.Ring.{new_ring}
use ruru.Client.{Client}
use ruru.Net.{Stream, socket_write}
use ruru.Sctp.Setup.{SetupCalls, Transport, new_sctp}
use ruru.Loop.{Loop, attach_client_info}
use ruru.Http.Body.{Json, body_parse, content_length, is_sum}

-- What `read` returns: the bytes, none at the end of the stream; -1 with EAGAIN; another -1.
pub data ReadResult : Type 0 where
  got : Bytes → ReadResult
  again broken : ReadResult

-- What `phr_parse_request` returns: the length of the request's head, with the headers; -1; -2.
pub data Parsed : Type 0 where
  request : ℕ → List (Bytes × Bytes) → Parsed
  malformed partial : Parsed

-- A connection's descriptor, and the parser, which is given the bytes received so far and how many
-- of them it has seen before.
pub record Http (Fd : Type 0) : Type 0 where
  pub read : ℕ → Fd → ReadResult × Fd
  pub stream : Stream Fd
  pub close : Fd → Fd
  pub parse_request : Bytes → ℕ → Parsed

-- `RuruConnectionData`
pub record Connection : Type 0 where
  pub bytes : Bytes
  pub length : ℕ

abbrev pub http_max_size : ℕ
http_max_size = 4096

-- "HTTP/1.1 400 Bad request" and an empty line
abbrev pub http_bad_request : Bytes
http_bad_request =
    72 ∷ 84 ∷ 84 ∷ 80 ∷ 47 ∷ 49 ∷ 46 ∷ 49 ∷ 32 ∷ 52 ∷ 48 ∷ 48 ∷ 32 ∷ 66 ∷ 97 ∷ 100 ∷ 32 ∷ 114 ∷ 101
    ∷ 113 ∷ 117 ∷ 101 ∷ 115 ∷ 116 ∷ 13 ∷ 10 ∷ 13 ∷ 10 ∷ []

-- "HTTP/1.1 200 OK" with the headers "Content-Type: application/json" and "Connection: close"
abbrev pub http_ok : Bytes
http_ok =
    72 ∷ 84 ∷ 84 ∷ 80 ∷ 47 ∷ 49 ∷ 46 ∷ 49 ∷ 32 ∷ 50 ∷ 48 ∷ 48 ∷ 32 ∷ 79 ∷ 75 ∷ 13 ∷ 10 ∷ 67 ∷ 111
    ∷ 110 ∷ 116 ∷ 101 ∷ 110 ∷ 116 ∷ 45 ∷ 84 ∷ 121 ∷ 112 ∷ 101 ∷ 58 ∷ 32 ∷ 97 ∷ 112 ∷ 112 ∷ 108 ∷ 105
    ∷ 99 ∷ 97 ∷ 116 ∷ 105 ∷ 111 ∷ 110 ∷ 47 ∷ 106 ∷ 115 ∷ 111 ∷ 110 ∷ 13 ∷ 10 ∷ 67 ∷ 111 ∷ 110 ∷ 110
    ∷ 101 ∷ 99 ∷ 116 ∷ 105 ∷ 111 ∷ 110 ∷ 58 ∷ 32 ∷ 99 ∷ 108 ∷ 111 ∷ 115 ∷ 101 ∷ 13 ∷ 10 ∷ 13 ∷ 10
    ∷ []

-- What the constructor of a client is given by OpenSSL and by `new`: the SSL object with its BIOs, or
-- `none` where `SSL_new` gives null, the ring's memory, and what is in a flag that no one has initialised.
pub record Fresh (S : Type 0) : Type 0 where
  pub ssl : Option S
  pub memory : List HeartBeatData
  pub garbage : Bool

abbrev pub flag_or : Option Bool → Bool → Bool
flag_or none garbage = garbage
flag_or (some b) garbage = b

module _ {S : Type 0} {L : Type 0} (calls : SetupCalls L) (fresh : Fresh S) where
  -- The client number `self`, once the constructor of its `dtlsTransport` has been run, and usrsctp
  -- after it.
  abbrev pub client_over : S → Address → ℕ → L → Client S × L
  client_over ssl address self stack =
      let (t, u) = new_sctp calls self (record { usrsctp_init = true; stack = stack }) in
      (
        record {
          ssl = ssl;
          dtls_hand_shake_done = false;
          sock = t.sock;
          sock_closed = false;
          sctp_hand_shake_done = flag_or t.hand_shake_done fresh.garbage;
          heart_beat_ring = new_ring 100 fresh.memory;
          address = address;
          attached = false;
          cache = [];
        },
        u.stack,
      )

  -- `RuruClient(ctx, address, fd)`: where `SSL_new` gives null `SSL_set_bio` follows it (Dtls.Session).
  unfoldable pub new_client : Option S → Address → ℕ → L → Run (Client S × L)
  new_client none address self stack = fault
  new_client (some ssl) address self stack = done (client_over ssl address self stack)

  -- Attached, and put behind the others.
  abbrev pub put_client : Client S × L → Loop S L → Loop S L
  put_client (c, stack) l = record l {
    client_mgr = l.client_mgr ++ attach_client_info c ∷ [];
    stack = stack;
  }

  unfoldable pub add_client : Address → Loop S L → Run (Loop S L)
  add_client address l =
      new_client fresh.ssl address (length l.client_mgr) l.stack >>= λ r. done (put_client r l)

module _ {S : Type 0} {W : Type 0} (http : Http W) (json : Json) (inet_addr : Bytes → ℕ)
    {L : Type 0} (calls : SetupCalls L) (fresh : Fresh S) where
  -- What the handler works on; `closes` counts `close(con->fd); delete con;`.
  pub record Serving : Type 0 where
    pub loop : Loop S L
    pub fd : W
    pub heap : json.Heap
    pub closes : ℕ

  abbrev pub hang_up : Serving → Serving
  hang_up s = record s { fd = http.close s.fd; closes = suc s.closes }

  -- `SocketWrite`, whose result is not looked at, and the end.
  unfoldable pub reply : Bytes → Serving → Run Serving
  reply text s = socket_write http.stream text s.fd >>= λ r. done (hang_up (record s { fd = r.1 }))

  -- A whole request: the answer to what `BodyParse` says.
  unfoldable pub answer : Option Address × json.Heap → Serving → Run Serving
  answer (some address, heap) s = add_client calls fresh address s.loop >>= λ l.
      reply http_ok (record s { loop = l; heap = heap })
  answer (none, heap) s = reply http_bad_request (record s { heap = heap })

  -- A request that is not whole: `none` goes on with the loop.
  unfoldable pub wait_for_more : Connection → Serving → Run (Option Serving)
  wait_for_more con s =
      if con.length == http_max_size
      then (reply http_bad_request s >>= λ t. done (some t))
      else done none

  -- What is done with what the parser says.
  unfoldable pub inspect : Connection → Parsed → Serving → Run (Option Serving)
  inspect con malformed s = done (some (hang_up s))
  inspect con partial s = wait_for_more con s
  inspect con (request zero headers) s = wait_for_more con s
  inspect con (request (suc n) headers) s =
      let content = content_length headers in
      if is_sum con.length (suc n) content
      then (body_parse json inet_addr (drop (suc n) con.bytes) content s.heap >>= λ r.
          answer r s >>= λ t. done (some t))
      else done none

  -- The rest of a round behind `read`, which leaves `con`; `last` of its bytes were seen before.
  unfoldable pub look : Connection → ℕ → Serving → Run (Option Serving × Connection)
  look con last s =
      inspect con (http.parse_request (take con.length con.bytes) last) s >>= λ t. done (t, con)

  -- A round from the result of `read` on. With EAGAIN `con->length += length` takes one off; from 0
  -- the parser is then given a length of SIZE_MAX, which is a fault.
  unfoldable pub after_read : ReadResult → Connection → Serving → Run (Option Serving × Connection)
  after_read broken con s = done (some (hang_up s), con)
  after_read (got []) con s = done (some (hang_up s), con)
  after_read (got (b ∷ bs)) con s =
      look
        (record {
          bytes = blit con.bytes con.length (b ∷ bs);
          length = con.length + length (b ∷ bs);
        })
        con.length s
  after_read again con s =
      if con.length == 0 then fault else look (record con { length = con.length - 1 }) con.length s

  unfoldable pub next_read : (Connection → Run Serving) → Option Serving × Connection → Run Serving
  next_read go (some s, con) = done s
  next_read go (none, con) = go con

  -- `read(con->fd, con->data + con->length, HTTP_MAX_SIZE - con->length)`
  unfoldable pub read_some : Connection → Serving → ReadResult × Serving
  read_some con s =
      let (r, fd) = http.read (http_max_size - con.length) s.fd in (r, record s { fd = fd })

  -- `HttpRequestHandle`, with `fuel` rounds of its loop.
  unfoldable pub http_request_handle : ℕ → Connection → Serving → Run Serving
  http_request_handle zero con s = spin
  http_request_handle (suc fuel) con s =
      let (r, s') = read_some con s in
      after_read r con s' >>= next_read (λ con'. http_request_handle fuel con' s')
