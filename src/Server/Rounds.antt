-- ===== src/Server/Rounds.antt =====
-- examples/EchoServer.cpp, `main`: a round of the program keeps the loop's invariant.
use ruru.Base.{
  ℕ, suc, ◌<◌, ◌≤◌, ◌≡◌, ◌⊎◌, Bool, false, List, [], ◌∷◌, Bytes, length, Run, done, fault,
}
use ruru.Event.{Event, evt_recv_client_data}
use ruru.Dtls.{Tls, MemBio}
use ruru.Sctp.{Usrsctp}
use ruru.Sctp.Setup.{SetupCalls}
use ruru.Sctp.Total.{IsBounded}
use ruru.Sctp.Reading.{Consumes}
use ruru.Loop.{Loop, scan_client_cache_data, update_event}
use ruru.Net.Sockets.{Sys}
use ruru.Net.Write.{IsStream}
use ruru.Http.Body.{Json}
use ruru.Http.{Fresh}
use ruru.Http.Reply.{Frees, IsPeer}
use ruru.Server.Serving.{IsServing, IsProper, IsOpen}
use ruru.Server.Main.{Server}
use ruru.Poll.{on_events, max_event, Kernel, Descriptors, epoll_wait}
use ruru.Poll.Accepting.{IsPatient}
use ruru.Poll.Rounds.{Trips}

module _ (tls : Tls) (lib : Usrsctp) (json : Json) {W : Type 0} (sys : Sys W) (kernel : Kernel W)
    (inet_addr : Bytes → ℕ) (calls : SetupCalls lib.Stack) (fresh : Fresh tls.State)
    (fds : Descriptors) where
  abbrev Now : Type 0
  Now = Server tls lib json sys kernel inet_addr calls fresh

  -- A round that has come to its end.
  abbrev pub Kept : Now → Run (Bool × Event × Now) → Type 0
  Kept r x =
      (go : Bool) × (evt : Event) × (s : Now) × (x ≡ done (go, evt, s))
      × IsServing s.loop
      × IsProper (length s.loop.client_mgr) evt
      × (length r.loop.client_mgr ≤ length s.loop.client_mgr)

  -- The print of an event with received data faults, since no zero ends the data.
  abbrev pub Unprintable : Event → Loop tls.State lib.Stack → Type 0
  Unprintable evt l = (evt.kind ≡ evt_recv_client_data) × IsOpen evt.bytes l.arena.memory

  module _ (bio : MemBio tls) (fit : IsBounded lib) where
    module _ (frees : Frees json) (streams : (n : ℕ) → IsStream ((kernel.http n).stream))
        (peers : (n : ℕ) → IsPeer (kernel.http n))
        (ends : (n : ℕ) (w : W) → (peers n).left w < suc (kernel.readings n w))
        (patient : IsPatient sys kernel) (takes : Consumes tls)
        (room : length fresh.memory ≡ 100) where
      -- The loop behind `UpdateEvent` and `ScanClientCacheData`, and the system behind `epoll_wait`.
      abbrev pub waited : Now → Now
      waited r = record r {
        loop = (scan_client_cache_data (update_event r.loop).1).1;
        world = (kernel.epoll_wait fds.epfd max_event r.world).1;
      }

      -- Why a round faults where no event waits: in `EpollWait`, or behind it in the print.
      abbrev pub Stops : Event → Now → Type 0
      Stops evt r =
          Trips tls lib json sys kernel fds inet_addr calls fresh frees streams peers ends patient
            bio fit takes (kernel.epoll_wait fds.epfd max_event r.world).0 false (waited r)
          ⊎ ((have : Bool) × (t : Now) × (on_events tls lib json sys kernel fds inet_addr calls
                  fresh (kernel.epoll_wait fds.epfd max_event r.world).0 false (waited r)
                ≡ done (have, t))
              × Unprintable evt t.loop)

      -- How a round ends: by the event that waits first, if one does.
      abbrev pub Rounded : List Event → Event → Now → Run (Bool × Event × Now) → Type 0
      Rounded [] evt r x = ((x ≡ fault) × Stops evt r) ⊎ Kept r x
      Rounded (e ∷ es) evt r x = ((x ≡ fault) × Unprintable e r.loop) ⊎ Kept r x
