-- ===== src/Loop/Start.antt =====
-- RuruLoop.cpp: the constructor, the destructor and `Destory`.
use ruru.Base.{ℕ, Bool, Option, none, some, ltb, if◌then◌else◌, Bytes, Run, done, fault, ◌>>=◌}
use ruru.Net.Sockets.{Sys, create_udp_socket, create_tcp_socket, set_non_blocking}
use ruru.Sctp.Setup.{SetupCalls, Usr, usrsctp_start_init}

-- A descriptor as a member: `unset` before anything is stored in it, `closed` for -1.
pub data Descriptor : Type 0 where
  unset closed : Descriptor
  fd : ℕ → Descriptor

-- `events_`: not initialised, null, or an array.
pub data Events : Type 0 where
  wild null array : Events

-- `udpfd_`, `tcpfd_`, `epfd_` and `events_`.
pub record Members : Type 0 where
  pub udpfd : Descriptor
  pub tcpfd : Descriptor
  pub epfd : Descriptor
  pub events : Events

abbrev pub uninitialised : Members
uninitialised = record { udpfd = unset; tcpfd = unset; epfd = unset; events = wild }

module _ {W : Type 0} (sys : Sys W) where
  -- `if (fd > 0){ close(fd); fd = -1; }`; the test of a member that is not initialised is a fault.
  unfoldable pub close_descriptor : Descriptor → W → Run (Descriptor × W)
  close_descriptor unset w = fault
  close_descriptor closed w = done (closed, w)
  close_descriptor (fd n) w = if ltb 0 n then done (closed, sys.close n w) else done (fd n, w)

  -- `if (events_){ delete []events_; events_ = nullptr; }`
  unfoldable pub delete_events : Events → Run Events
  delete_events wild = fault
  delete_events null = done null
  delete_events array = done null

  -- `Destory`, which the destructor calls.
  unfoldable pub destory : Members → W → Run (Members × W)
  destory m w = close_descriptor m.udpfd w >>= λ u. close_descriptor m.tcpfd u.1 >>= λ t.
      delete_events m.events >>= λ e. done (record m { udpfd = u.0; tcpfd = t.0; events = e }, t.1)

module _ {W : Type 0} (sys : Sys W) {L : Type 0} (calls : SetupCalls L) where
  -- The members, the system and usrsctp.
  pub record Starting : Type 0 where
    pub members : Members
    pub world : W
    pub usr : Usr calls

  -- `Destory(); return;`
  abbrev pub abandon : Starting → Run Starting
  abandon s = destory sys s.members s.world >>= λ r. done (record s { members = r.0; world = r.1 })

  -- A call that says whether it has worked, and the constructor behind it.
  unfoldable pub step : (W → Bool × W) → (Starting → Run Starting) → Starting → Run Starting
  step call rest s =
      let (ok, w) = call s.world in
      let s' : Starting = record s { world = w } in if ok then rest s' else abandon s'

  -- The end of the constructor.
  abbrev pub finish : Starting → Run Starting
  finish s = done (record s {
    members = record (s.members) { events = array };
    usr = usrsctp_start_init calls s.usr;
  })

  -- From what `epoll_create1` gave. The two `RuruConnectionData` are the first that are made.
  unfoldable pub with_epoll : ℕ → ℕ → Starting → Option ℕ × W → Run Starting
  with_epoll udp tcp s (none, w) =
      abandon (record s { members = record (s.members) { epfd = closed }; world = w })
  with_epoll udp tcp s (some ep, w) =
      step (sys.epoll_add ep udp 0) (step (sys.epoll_add ep tcp 1) finish)
        (record s { members = record (s.members) { epfd = fd ep }; world = w })

  -- From what `CreateTcpSocket` gave.
  unfoldable pub with_tcp : ℕ → Starting → Option ℕ × W → Run Starting
  with_tcp udp s (none, w) =
      abandon (record s { members = record (s.members) { tcpfd = closed }; world = w })
  with_tcp udp s (some tcp, w) =
      step (set_non_blocking sys tcp)
        (step (sys.listen tcp) λ s'. with_epoll udp tcp s' (sys.epoll_create s'.world))
        (record s { members = record (s.members) { tcpfd = fd tcp }; world = w })

  -- From what `CreateUdpSocket` gave.
  unfoldable pub with_udp : Bytes → Bytes → Starting → Option ℕ × W → Run Starting
  with_udp host port s (none, w) =
      done (record s { members = record (s.members) { udpfd = closed }; world = w })
  with_udp host port s (some udp, w) =
      step (set_non_blocking sys udp)
        (λ s'. with_tcp udp s' (create_tcp_socket sys host port s'.world))
        (record s { members = record (s.members) { udpfd = fd udp }; world = w })

  -- `RuruLoop(host, port)`
  unfoldable pub new_loop : Bytes → Bytes → W → Usr calls → Run Starting
  new_loop host port w usr =
      with_udp host port (record { members = uninitialised; world = w; usr = usr })
        (create_udp_socket sys host port w)
