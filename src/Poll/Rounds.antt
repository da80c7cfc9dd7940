-- ===== src/Poll/Rounds.antt =====
-- RuruLoop.cpp, `EpollWait`: what becomes of the objects that the events point to.
use ruru.Base.{
  ℕ, suc, ◌<◌, ◌≡◌, ◌⊎◌, Bool, List, [], ◌∷◌, ◌++◌, some, Bytes, Run, done, fault, get_elem?,
}
use ruru.Dtls.{Tls, MemBio}
use ruru.Sctp.{Usrsctp}
use ruru.Sctp.Total.{IsBounded}
use ruru.Sctp.Reading.{Consumes}
use ruru.Sctp.Setup.{SetupCalls}
use ruru.Net.Sockets.{Sys}
use ruru.Net.Write.{IsStream}
use ruru.Http.Body.{Json}
use ruru.Http.{Fresh}
use ruru.Http.Reply.{Frees, IsPeer}
use ruru.Http.Handle.{Fails}
use ruru.Loop.{Loop}
use ruru.Server.Datagrams.{AllReceive}
use ruru.Poll.{Ready, Kernel, Cell, Descriptors, Here, on_events}
use ruru.Poll.Cells.{outcome, Settled, Spared}
use ruru.Poll.Accepting.{IsPatient}

module _ (tls : Tls) (lib : Usrsctp) (json : Json) {W : Type 0} (sys : Sys W) (kernel : Kernel W)
    (fds : Descriptors) (inet_addr : Bytes → ℕ) (calls : SetupCalls lib.Stack)
    (fresh : Fresh tls.State) where
  abbrev Now : Type 0
  Now = Here tls lib json sys kernel fds

  -- One event: its pointer has had its outcome, and nothing else is touched.
  pub record Step (e : Ready) (cell : Cell) (r t : Now) : Type 0 where
    pub heap : t.heap ≡ r.heap
    pub own : get_elem? t.cells e.ptr ≡ some (outcome fds e cell)
    pub others : Spared (e ∷ []) r.cells t.cells
    pub receive : AllReceive t.loop.client_mgr

  module _ (frees : Frees json) (streams : (n : ℕ) → IsStream ((kernel.http n).stream))
      (peers : (n : ℕ) → IsPeer (kernel.http n))
      (ends : (n : ℕ) (w : W) → (peers n).left w < suc (kernel.readings n w)) where
    -- A round of `HttpRequestHandle` for the connection has a reason to fault.
    abbrev pub Cause : Cell → Now → Type 0
    Cause cell r =
        Fails (kernel.http cell.fd) json inet_addr calls fresh (streams cell.fd) frees cell.con
          (record { loop = r.loop; fd = r.world; heap = r.heap; closes = 0 })

    abbrev Stepped : Ready → Cell → Now → Run (Bool × Now) → Type 0
    Stepped e cell r x =
        ((x ≡ fault) × Cause cell r)
        ⊎ ((have : Bool) × (t : Now) × (x ≡ done (have, t)) × Step e cell r t)

    module _ (patient : IsPatient sys kernel) (bio : MemBio tls) (fit : IsBounded lib)
        (takes : Consumes tls) where
      -- The events before some event have been handled, and the connection that it points to then has a
      -- reason to fault.
      abbrev pub Trips : List Ready → Bool → Now → Type 0
      Trips es have r =
          (first rest : List Ready) × (e : Ready) × (es ≡ first ++ e ∷ rest)
          × (h : Bool) × (s : Now) × (on_events tls lib json sys kernel fds inet_addr calls fresh
                first have r
              ≡ done (h, s))
          × (cell : Cell) × (get_elem? s.cells e.ptr ≡ some (some cell))
          × Cause cell s

      -- How the events' loop ends.
      abbrev pub Polled : List Ready → Bool → Now → Run (Bool × Now) → Type 0
      Polled es had r x =
          ((x ≡ fault) × Trips es had r)
          ⊎ ((have : Bool) × (t : Now) × (x ≡ done (have, t))
              × (t.heap ≡ r.heap)
              × Settled fds es r.cells t.cells
              × Spared es r.cells t.cells
              × AllReceive t.loop.client_mgr)
