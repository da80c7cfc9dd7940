-- ===== src/Poll/Calls.antt =====
-- RuruLoop.cpp: the member functions that the loop is run by, in any order.
use ruru.Base.{
  ℕ, suc, ◌≡◌, refl, sym, Bool, List, [], ◌∷◌, Option, none, some, arith, Bytes, length, Run, done,
  ◌>>=◌, Post, Post-bind, ◌<◌,
}
use mathlib.Core.Path.{subst}
use ruru.Event.{Event, Address}
use ruru.Dtls.{Tls, MemBio}
use ruru.Client.{Client}
use ruru.Sctp.{Usrsctp}
use ruru.Sctp.Setup.{SetupCalls}
use ruru.Sctp.Total.{IsBounded}
use ruru.Sctp.Reading.{Consumes}
use ruru.Sctp.Sound.{Names, AreNamed}
use ruru.Loop.{
  attach_client_info, find_client_by_address, scan_client_cache_data, update_event, take_event,
}
use ruru.Net.Sockets.{Sys}
use ruru.Net.Write.{IsStream}
use ruru.Http.Body.{Json}
use ruru.Http.{Fresh}
use ruru.Http.Reply.{Frees, IsPeer}
use ruru.Poll.{Kernel, Descriptors, Here, epoll_wait, after_update, loop_once}
use ruru.Poll.Accepting.{IsPatient}
use ruru.Poll.Keeping.{IsReceiving, Grows, scan-IsServing, epoll_wait-Goes}

pub data LoopOp (S : Type 0) : Type 0 where
  update scan wait : LoopOp S
  loop : Event → LoopOp S
  find : Address → LoopOp S
  attach : Client S → LoopOp S

-- What the caller sees: an event, whether there is data, what `Loop` returns and `evt`, a client's
-- index, the client.
pub data LoopAnswer (S : Type 0) : Type 0 where
  event : Option Event → LoopAnswer S
  data_seen : Bool → LoopAnswer S
  looped : Bool → Event → LoopAnswer S
  index : Option ℕ → LoopAnswer S
  client : Client S → LoopAnswer S

module _ (tls : Tls) (lib : Usrsctp) (json : Json) {W : Type 0} (sys : Sys W) (kernel : Kernel W)
    (fds : Descriptors) (inet_addr : Bytes → ℕ) (calls : SetupCalls lib.Stack)
    (fresh : Fresh tls.State) where
  abbrev Now : Type 0
  Now = Here tls lib json sys kernel fds

  unfoldable pub run_loop_op : LoopOp tls.State → Now → Run (LoopAnswer tls.State × Now)
  run_loop_op update r = let (e, l) = update_event r.loop in done (event e, record r { loop = l })
  run_loop_op scan r =
      let (cached, l) = scan_client_cache_data r.loop in
      done (data_seen cached, record r { loop = l })
  run_loop_op wait r = epoll_wait tls lib json sys kernel fds inet_addr calls fresh r >>= λ s.
      done (data_seen s.0, s.1)
  run_loop_op (loop evt) r =
      loop_once tls lib json sys kernel fds inet_addr calls fresh evt r >>= λ s.
      let (more, next, r) = s in done (looped more next, r)
  run_loop_op (find a) r = done (index (find_client_by_address r.loop a), r)
  run_loop_op (attach c) r = done (client (attach_client_info c), r)

  -- The answers so far are behind those that come.
  unfoldable pub run_loop_ops :
      List (LoopOp tls.State) → Now → Run (List (LoopAnswer tls.State) × Now)
  run_loop_ops [] r = done ([], r)
  run_loop_ops (op ∷ ops) r =
      run_loop_op op r >>= λ a. run_loop_ops ops a.1 >>= λ b. done (a.0 ∷ b.0, b.1)

  -- An answer that names a client names one of the first `k`.
  abbrev pub IsNamed : ℕ → LoopAnswer tls.State → Type 0
  IsNamed k (event none) = Unit
  IsNamed k (event (some e)) = Names k e.client
  IsNamed k (data_seen b) = Unit
  IsNamed k (looped more next) = Unit
  IsNamed k (index o) = Unit
  IsNamed k (client c) = Unit

  -- What a call leaves.
  abbrev pub Called : Now → LoopAnswer tls.State × Now → Type 0
  Called r s =
      Grows tls lib json sys kernel fds inet_addr calls fresh r.loop s.1.loop
      × IsNamed (length s.1.loop.client_mgr) s.0

  update-Called :
      (es : List Event) (r : Now)
      → r.loop.que ≡ es
      → IsReceiving r.loop
      → Called r (event (take_event es r.loop).0, record r { loop = (take_event es r.loop).1 })
  unfolding take_event
  update-Called [] r same (h, u) = (
    (
      (
        record {
          rings = h.rings;
          named = subst (AreNamed (length r.loop.client_mgr)) (sym same) tt;
        },
        u,
      ),
      omega arith,
    ),
    tt,
  )
  update-Called (e ∷ es) r same (h, u) =
      let (n, a) = subst (AreNamed (length r.loop.client_mgr)) same h.named in
      (((record { rings = h.rings; named = a }, u), omega arith), n)

  module _ (frees : Frees json) (streams : (n : ℕ) → IsStream ((kernel.http n).stream))
      (peers : (n : ℕ) → IsPeer (kernel.http n))
      (ends : (n : ℕ) (w : W) → (peers n).left w < suc (kernel.readings n w))
      (patient : IsPatient sys kernel) (bio : MemBio tls) (fit : IsBounded lib)
      (takes : Consumes tls) (room : length fresh.memory ≡ 100) where
    after_update-Goes :
        (es : List Event) (evt : Event) (r : Now)
        → r.loop.que ≡ es
        → IsReceiving r.loop
        → Post
            (λ (s : Bool × Event × Now).
              Grows tls lib json sys kernel fds inet_addr calls fresh r.loop s.2.loop)
            (after_update tls lib json sys kernel fds inet_addr calls fresh evt r
              (take_event es r.loop))
    unfolding after_update take_event
    after_update-Goes [] evt r same h =
        let ((idle, le), _) = update-Called [] r same h in
        let (serving, size) = scan-IsServing (take_event [] r.loop).1 idle in
        Post-bind
          (λ s.
            Grows tls lib json sys kernel fds inet_addr calls fresh
              (scan_client_cache_data (take_event [] r.loop).1).1 s.1.loop)
          _ _ _
          (epoll_wait-Goes tls lib json sys kernel fds inet_addr calls fresh frees streams peers
            ends patient bio fit takes room
            (record r { loop = (scan_client_cache_data (take_event [] r.loop).1).1 }) serving)
          λ s g. (g.0, omega (arith, g.1))
    after_update-Goes (e ∷ es) evt r same h = (update-Called (e ∷ es) r same h).0

    -- A call that returns keeps the invariant and the clients, and an event that it gives names one of them.
    run_loop_op-Called :
        (op : LoopOp tls.State) (r : Now) → IsReceiving r.loop → Post (Called r) (run_loop_op op r)
    unfolding run_loop_op update_event loop_once
    run_loop_op-Called update r h = update-Called r.loop.que r refl h
    run_loop_op-Called scan r h =
        let (serving, same) = scan-IsServing r.loop h in ((serving, omega arith), tt)
    run_loop_op-Called wait r h =
        Post-bind (λ s. Grows tls lib json sys kernel fds inet_addr calls fresh r.loop s.1.loop)
          (Called r) _ _
          (epoll_wait-Goes tls lib json sys kernel fds inet_addr calls fresh frees streams peers
            ends patient bio fit takes room r h)
          λ s g. (g, tt)
    run_loop_op-Called (loop evt) r h =
        Post-bind
          (λ (s : Bool × Event × Now).
            Grows tls lib json sys kernel fds inet_addr calls fresh r.loop s.2.loop)
          (Called r) _ _ (after_update-Goes r.loop.que evt r refl h) λ s g. (g, tt)
    run_loop_op-Called (find a) r h = ((h, omega arith), tt)
    run_loop_op-Called (attach c) r h = ((h, omega arith), tt)

    -- So do any calls, one after the other.
    pub run_loop_ops-Grows :
        (ops : List (LoopOp tls.State)) (r : Now)
        → IsReceiving r.loop
        → Post (λ s. IsReceiving s.1.loop) (run_loop_ops ops r)
    unfolding run_loop_ops
    run_loop_ops-Grows [] r h = h
    run_loop_ops-Grows (op ∷ ops) r h =
        Post-bind (Called r) (λ s. IsReceiving s.1.loop) _ _ (run_loop_op-Called op r h)
          λ a called.
            Post-bind (λ s. IsReceiving s.1.loop) (λ s. IsReceiving s.1.loop) _ _
              (run_loop_ops-Grows ops a.1 called.0.0) λ b g. g
