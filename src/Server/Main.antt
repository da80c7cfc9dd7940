-- ===== src/Server/Main.antt =====
-- examples/EchoServer.cpp, `main`: the loop that it makes, and what it does with the events.
use ruru.Base.{
  ℕ, zero, suc, ◌≡◌, refl, ap, Bool, true, false, ◌||◌, List, [], ◌∷◌, Option, none, some, Bytes,
  Run, done, fault, spin, ◌>>=◌,
}
use ruru.Event.{Event, new_event}
use ruru.Arena.{new_arena}
use ruru.Dtls.{Tls}
use ruru.Sctp.{Usrsctp}
use ruru.Sctp.Setup.{SetupCalls, Usr}
use ruru.Net.Sockets.{Sys}
use ruru.Http.Body.{Json}
use ruru.Http.{Fresh}
use ruru.Loop.{Loop, scan_client_cache_data, update_event, take_event}
use ruru.Loop.Start.{Descriptor, fd, Starting, new_loop}
use ruru.Server.{dispatch}
use ruru.Poll.{Kernel, Descriptors, new_cell, Rig, epoll_wait, after_update, loop_once}

module _ (tls : Tls) (lib : Usrsctp) (json : Json) {W : Type 0} (sys : Sys W) (kernel : Kernel W)
    (inet_addr : Bytes → ℕ) (calls : SetupCalls lib.Stack) (fresh : Fresh tls.State) where
  abbrev pub Server : Type 0
  Server = Rig tls lib json W

  module _ (fds : Descriptors) where
    abbrev loop : Event → Server → Run (Bool × Event × Server)
    loop = loop_once tls lib json sys kernel fds inet_addr calls fresh

    -- The `switch`, where `Loop` returns true.
    unfoldable pub after_loop : Bool × Event × Server → Run (Bool × Event × Server)
    after_loop (false, evt, r) = done (false, evt, r)
    after_loop (true, evt, r) =
        dispatch tls lib evt.kind evt r.loop >>= λ l. done (true, evt, record r { loop = l })

    -- A round of `while (ruru.Loop(evt))`
    unfoldable pub serve_event : Event → Server → Run (Bool × Event × Server)
    serve_event evt r = loop evt r >>= after_loop

    unfoldable pub next_event : (Event → Server → Run Server) → Bool × Event × Server → Run Server
    next_event go (true, evt, r) = go evt r
    next_event go (false, evt, r) = done r

    -- `while (ruru.Loop(evt))`, with `fuel` rounds.
    unfoldable pub serve_events : ℕ → Event → Server → Run Server
    serve_events zero evt r = spin
    serve_events (suc fuel) evt r = serve_event evt r >>= next_event (serve_events fuel)

    -- `n` rounds of `for (;;)`, each with a new event.
    unfoldable pub serve_rounds : ℕ → ℕ → Server → Run Server
    serve_rounds fuel zero r = done r
    serve_rounds fuel (suc n) r = serve_events fuel new_event r >>= serve_rounds fuel n

  -- `RuruLoop` as its constructor leaves it: no clients, no events, an arena of 2^20 bytes, and the
  -- objects of the two sockets at the pointers that epoll knows them by. Where the constructor has
  -- given up, `epfd_` is not initialised, and the first `epoll_wait` reads it.
  unfoldable pub made :
      Descriptor
      → Descriptor
      → Descriptor
      → Bytes
      → json.Heap
      → Starting sys calls
      → Run (Descriptors × Server)
  made (fd u) (fd t) (fd e) memory heap s = done (
    record { udpfd = u; tcpfd = t; epfd = e },
    record {
      loop = record {
        client_mgr = [];
        que = [];
        arena = new_arena 20 memory;
        count = 0;
        stack = s.usr.stack;
        wire = [];
        written = [];
        accepted = [];
      };
      world = s.world;
      heap = heap;
      cells = some (new_cell u) ∷ some (new_cell t) ∷ [];
    },
  )
  made u t e memory heap s = fault

  -- `RuruLoop ruru(ip, port)`
  unfoldable pub make_loop :
      Bytes → Bytes → Bytes → json.Heap → W → Usr calls → Run (Descriptors × Server)
  make_loop ip port memory heap w usr = new_loop sys calls ip port w usr >>= λ s.
      made s.members.udpfd s.members.tcpfd s.members.epfd memory heap s

  -- `main`, with its arguments behind the program's name; `none` is the end after the usage line. The
  -- rest has no end: it is cut after `n` rounds.
  unfoldable pub run_server :
      ℕ → ℕ → List Bytes → Bytes → json.Heap → W → Usr calls → Run (Option Server)
  run_server fuel n [] memory heap w usr = done none
  run_server fuel n (ip ∷ []) memory heap w usr = done none
  run_server fuel n (ip ∷ port ∷ rest) memory heap w usr =
      make_loop ip port memory heap w usr >>= λ m.
      serve_rounds m.0 fuel n m.1 >>= λ r. done (some r)

  module _ (fds : Descriptors) where
    -- An event that waits in the queue is the one that the program handles next, and the queue is then
    -- without it.
    pub serve_event-first :
        (evt e : Event) (es : List Event) (r : Server)
        → r.loop.que ≡ e ∷ es
        → serve_event fds evt r
          ≡ after_loop fds (true, e, record r { loop = record (r.loop) { que = es } })
    unfolding serve_event loop_once update_event take_event after_update
    serve_event-first evt e es r h = rw h refl

    update_event-none : (l : Loop tls.State lib.Stack) → l.que ≡ [] → (update_event l).0 ≡ none
    unfolding update_event take_event
    update_event-none l h = rw h refl

    -- What `Loop` does where no event waits.
    pub loop-waits :
        (evt : Event) (r : Server)
        → r.loop.que ≡ []
        → let (cached, scanned) = scan_client_cache_data (update_event r.loop).1 in
          loop fds evt r ≡ (
            epoll_wait tls lib json sys kernel fds inet_addr calls fresh
              (record r { loop = scanned })
            >>= λ s. done (cached || s.0, evt, s.1))
    unfolding loop_once after_update
    loop-waits evt r h =
        ap
          (λ o.
            after_update tls lib json sys kernel fds inet_addr calls fresh evt r
              (o, (update_event r.loop).1))
          (update_event-none r.loop h)
