-- ===== src/Poll.antt =====
-- RuruLoop.cpp: `EpollWait` and `Loop`. `Rig` is the loop with the system around it, cJSON's heap,
-- and the `RuruConnectionData` that `data.ptr` points to.
pub mod Cells
pub mod Rounds
pub mod Keeping
pub mod Calls
pub mod Accepting
use ruru.Base.{
  ℕ, zero, suc, Bool, true, false, not, ◌||◌, List, [], ◌∷◌, ◌++◌, Option, none, some, ◌==◌, ltb,
  if◌then◌else◌, Bytes, length, get_elem?, set, replicate, Run, done, fault, spin, ◌>>=◌,
}
use ruru.Event.{Event}
use ruru.Dtls.{Tls}
use ruru.Sctp.{Usrsctp}
use ruru.Sctp.Setup.{SetupCalls}
use ruru.Loop.{Loop, update_event, scan_client_cache_data}
use ruru.Net.Sockets.{Sys, set_non_blocking}
use ruru.Http.Body.{Json}
use ruru.Http.{Http, Connection, Fresh, Serving, http_max_size, http_request_handle}
use ruru.Server.{Received, receive_datagrams}

-- An `epoll_event`: `data.ptr`, and whether EPOLLERR, EPOLLHUP and EPOLLIN are set in `events`.
pub record Ready : Type 0 where
  pub ptr : ℕ
  pub err : Bool
  pub hup : Bool
  pub readable : Bool

-- The calls of `EpollWait` that are not in `Sys`. `waiting` is what `recvfrom` finds in the UDP
-- socket, call by call, and `leave` the system with the rest of it; `none` of `accept` is -1.
pub record Kernel (World : Type 0) : Type 0 where
  -- With the descriptor, and how many events it may give.
  pub epoll_wait : ℕ → ℕ → World → List Ready × World
  pub waiting : World → List Received
  pub leave : List Received → World → World
  pub accept : ℕ → World → Option ℕ × World
  -- A connection's descriptor.
  pub http : ℕ → Http World
  -- How many connections wait to be accepted, and how often a descriptor can be read before its
  -- peer has closed: the fuel of the two loops.
  pub backlog : World → ℕ
  pub readings : ℕ → World → ℕ

-- A `RuruConnectionData`, with its descriptor.
pub record Cell : Type 0 where
  pub fd : ℕ
  pub con : Connection

-- `udpfd_`, `tcpfd_` and `epfd_`, once the constructor has set them.
pub record Descriptors : Type 0 where
  pub udpfd : ℕ
  pub tcpfd : ℕ
  pub epfd : ℕ

-- `MAX_EVENT`
abbrev pub max_event : ℕ
max_event = 1000

-- `new RuruConnectionData`, with its `fd` set: the constructor leaves an empty buffer.
abbrev pub new_cell : ℕ → Cell
new_cell fd = record { fd = fd; con = record { bytes = replicate http_max_size 0; length = 0 } }

-- `(e->events & EPOLLERR) || (e->events & EPOLLHUP) || (!(e->events & EPOLLIN))`
abbrev pub is_lost : Ready → Bool
is_lost e = e.err || e.hup || not e.readable

-- Whether `recvfrom` gives something at all.
abbrev pub has_data : List Received → Bool
has_data [] = false
has_data (d ∷ ds) = ltb 0 (length d.payload)

-- What a pointer points to: nothing once it has been deleted.
abbrev pub pointee : Option (Option Cell) → Option Cell
pointee none = none
pointee (some cell) = cell

module _ (tls : Tls) (lib : Usrsctp) (json : Json) (W : Type 0) where
  pub record Rig : Type 0 where
    pub loop : Loop tls.State lib.Stack
    pub world : W
    pub heap : json.Heap
    -- A pointer is an index; a deleted object leaves `none` there.
    pub cells : List (Option Cell)

module _ (tls : Tls) (lib : Usrsctp) (json : Json) {W : Type 0} (sys : Sys W) (kernel : Kernel W)
    (fds : Descriptors) where
  abbrev pub Here : Type 0
  Here = Rig tls lib json W

  -- `close(con->fd); delete con;`
  unfoldable pub drop_connection : ℕ → Cell → Here → Here
  drop_connection ptr cell r = record r {
    world = sys.close cell.fd r.world;
    cells = set r.cells ptr none;
  }

  -- The branch of the UDP socket.
  unfoldable pub receive_all : Here → Run (Bool × Here)
  receive_all r = receive_datagrams tls lib (kernel.waiting r.world) r.loop >>= λ m.
      done (
        has_data (kernel.waiting r.world),
        record r { loop = m.1; world = kernel.leave m.0 r.world },
      )

  -- `EPOLL_CTL_ADD` of an accepted descriptor: where it fails the descriptor is closed, and the new
  -- object stays.
  unfoldable pub watch_connection : ℕ → Here → Here
  watch_connection cfd r =
      let (ok, w) = sys.epoll_add fds.epfd cfd (length r.cells) r.world in
      record r {
        world = if ok then w else sys.close cfd w;
        cells = r.cells ++ some (new_cell cfd) ∷ [];
      }

  -- A round of the accepting loop, behind `accept`.
  unfoldable pub add_connection : ℕ → Here → Here
  add_connection cfd r =
      let (ok, w) = set_non_blocking sys cfd r.world in
      if ok
      then watch_connection cfd (record r { world = w })
      else record r { world = sys.close cfd w }

  unfoldable pub after_accept : (Here → Run Here) → Here → Option ℕ × W → Run Here
  after_accept go r (none, w) = done (record r { world = w })
  after_accept go r (some cfd, w) = go (add_connection cfd (record r { world = w }))

  -- `for (;;) { ... accept(tcpfd_, ...) ... }`
  unfoldable pub accept_all : ℕ → Here → Run Here
  accept_all zero r = spin
  accept_all (suc fuel) r = after_accept (accept_all fuel) r (kernel.accept fds.tcpfd r.world)

  module _ (inet_addr : Bytes → ℕ) (calls : SetupCalls lib.Stack) (fresh : Fresh tls.State) where
    -- `HttpRequestHandle(con)`, which deletes `con` wherever it returns (Http.Reply.Served).
    unfoldable pub serve_connection : ℕ → Cell → Here → Run (Bool × Here)
    serve_connection ptr cell r =
        http_request_handle (kernel.http cell.fd) json inet_addr calls fresh
          (suc (kernel.readings cell.fd r.world)) cell.con
          (record { loop = r.loop; fd = r.world; heap = r.heap; closes = 0 })
        >>= λ s. done (
          true,
          record { loop = s.loop; world = s.fd; heap = s.heap; cells = set r.cells ptr none },
        )

    -- The three branches by descriptor.
    unfoldable pub on_readable : ℕ → Cell → Here → Run (Bool × Here)
    on_readable ptr cell r =
        if cell.fd == fds.udpfd
        then receive_all r
        else if cell.fd == fds.tcpfd
        then (accept_all (suc (kernel.backlog r.world)) r >>= λ r. done (true, r))
        else serve_connection ptr cell r

    -- One event; whether it sets `bHaveData`. `con->fd` is read in each case.
    unfoldable pub on_ready : Ready → Option Cell → Here → Run (Bool × Here)
    on_ready e none r = fault
    on_ready e (some cell) r =
        if is_lost e then done (false, drop_connection e.ptr cell r) else on_readable e.ptr cell r

    -- `for (int32_t i = 0; i < num; i++)`
    unfoldable pub on_events : List Ready → Bool → Here → Run (Bool × Here)
    on_events [] have r = done (have, r)
    on_events (e ∷ es) have r =
        on_ready e (pointee (get_elem? r.cells e.ptr)) r >>= λ s. on_events es (have || s.0) s.1

    -- `EpollWait`; for -1 of `epoll_wait` there are no events.
    unfoldable pub epoll_wait : Here → Run (Bool × Here)
    epoll_wait r =
        let (es, w) = kernel.epoll_wait fds.epfd max_event r.world in
        on_events es false (record r { world = w })

    -- `Loop` behind `UpdateEvent`: what it returns, what `evt` is then, and the loop.
    unfoldable pub after_update :
        Event → Here → Option Event × Loop tls.State lib.Stack → Run (Bool × Event × Here)
    after_update evt r (some next, l) = done (true, next, record r { loop = l })
    after_update evt r (none, l) =
        let (have, l) = scan_client_cache_data l in
        epoll_wait (record r { loop = l }) >>= λ s. done (have || s.0, evt, s.1)

    -- `Loop(evt)`
    unfoldable pub loop_once : Event → Here → Run (Bool × Event × Here)
    loop_once evt r = after_update evt r (update_event r.loop)
