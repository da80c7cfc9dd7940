-- ===== src/Poll/Keeping.antt =====
-- RuruLoop.cpp and examples/EchoServer.cpp: the loop's invariant over whole rounds, and that they end.
use ruru.Base.{
  ℕ, suc, ◌+◌, ◌<◌, ◌≤◌, ◌≡◌, refl, sym, ◌∙◌, inl, inr, Bool, false, List, [], ◌∷◌, Option, none,
  some, arith, Bytes, length, length-append, get_elem?, Run, done, fault, spin, bind_done,
  bind_fault, ◌||◌, Post, Post-bind, Bool-cases, if-true, if-false, ◌==◌,
}
use mathlib.Core.Path.{subst}
use ruru.Event.{Event, Address}
use ruru.Dtls.{Tls, MemBio}
use ruru.Ring.Inv.{new_ring-IsValid}
use ruru.Client.{Client}
use ruru.Sctp.{Usrsctp}
use ruru.Sctp.Setup.{SetupCalls}
use ruru.Sctp.Total.{IsBounded}
use ruru.Sctp.Reading.{Consumes}
use ruru.Sctp.Sound.{Names, AreNamed, AreNamed-append}
use ruru.Loop.{Loop, attach_client_info, has_cache, scan_client_cache_data}
use ruru.Loop.Clients.{cache_events, scan_client_cache_data_lem}
use ruru.Net.Sockets.{Sys}
use ruru.Net.Write.{IsStream}
use ruru.Http.Body.{Json}
use ruru.Http.{Fresh, client_over, add_client}
use ruru.Http.Bounds.{add_client-put}
use ruru.Server.Datagrams.{AllReceive, AllReceive-append}
use ruru.Http.Reply.{Frees, IsPeer}
use ruru.Http.Handle.{http_request_handle-Served}
use ruru.Server.Serving.{HaveRings-append, IsServing, receive_datagrams-Serves}
use ruru.Poll.{
  max_event, Ready, Kernel, Cell, Descriptors, is_lost, pointee, Here, drop_connection, receive_all,
  serve_connection, on_readable, on_ready, on_events, epoll_wait,
}
use ruru.Poll.Accepting.{IsPatient, accept_all-Accepts}

-- More clients, the same names.
pub Names-more : (j k : ℕ) (o : Option ℕ) → j ≤ k → Names j o → Names k o
Names-more j k none le n = absurd n
Names-more j k (some i) le n = omega arith

AreNamed-more : (j k : ℕ) (es : List Event) → j ≤ k → AreNamed j es → AreNamed k es
AreNamed-more j k [] le a = tt
AreNamed-more j k (e ∷ es) le (n, a) = (Names-more j k e.client le n, AreNamed-more j k es le a)

-- The loop's invariant, and that its clients can receive.
abbrev pub IsReceiving : {S L : Type 0} → Loop S L → Type 0
IsReceiving l = IsServing l × AllReceive l.client_mgr

module _ {S : Type 0} where
  cache_events-AreNamed :
      (i k : ℕ) (cs : List (Client S)) → i + length cs ≤ k → AreNamed k (cache_events i cs)
  cache_events-AreNamed i k [] le = tt
  cache_events-AreNamed i k (c ∷ cs) le =
      let rest = cache_events-AreNamed (suc i) k cs (omega arith) in
      elim (Bool-cases (has_cache c)) [
        | inl has ↦ subst (AreNamed k) (sym (if-true _ _ has)) (omega arith, rest)
        | inr no_cache ↦ subst (AreNamed k) (sym (if-false _ _ no_cache)) rest
      ]

module _ {S L : Type 0} where
  pub scan-IsServing :
      (l : Loop S L)
      → IsReceiving l
      → let m = (scan_client_cache_data l).1 in
        IsReceiving m × (length m.client_mgr ≡ length l.client_mgr)
  scan-IsServing l (h, u) =
      let P : Bool × Loop S L → Type 0 =
        λ r. IsReceiving r.1 × (length r.1.client_mgr ≡ length l.client_mgr) in
      elim (scan_client_cache_data_lem l) [
        | inl (_, e) ↦ subst P (sym e) ((record { rings = h.rings; named = h.named }, u), refl)
        | inr (_, e) ↦ subst P (sym e) (
          (
            record {
              rings = h.rings;
              named =
                  AreNamed-append (length l.client_mgr) l.que (cache_events 0 l.client_mgr) h.named
                    (cache_events-AreNamed 0 (length l.client_mgr) l.client_mgr (omega arith));
            },
            u,
          ),
          refl,
        )
      ]

  add_client-IsServing :
      (calls : SetupCalls L) (fresh : Fresh S) (a : Address) (l m : Loop S L)
      → length fresh.memory ≡ 100
      → IsReceiving l
      → add_client calls fresh a l ≡ done m
      → IsReceiving m × (length l.client_mgr ≤ length m.client_mgr)
  unfolding attach_client_info
  add_client-IsServing calls fresh a l m mem (h, u) added =
      let (ssl, put) = add_client-put calls fresh a l m added in
      let c = (client_over calls fresh ssl a (length l.client_mgr) l.stack).0 in
      let grown = length-append l.client_mgr (attach_client_info c ∷ []) in
      let (ring, _) = new_ring-IsValid 100 fresh.memory (omega arith) (omega arith) mem in
      subst (λ (x : Loop S L). IsReceiving x × (length l.client_mgr ≤ length x.client_mgr))
        (sym put)
        (
          (
            record {
              rings = HaveRings-append l.client_mgr (attach_client_info c ∷ []) h.rings (ring, tt);
              named = AreNamed-more (length l.client_mgr) _ l.que (omega arith) h.named;
            },
            AllReceive-append l.client_mgr (attach_client_info c ∷ []) u (inr refl, tt),
          ),
          omega arith,
        )

module _ (tls : Tls) (lib : Usrsctp) (json : Json) {W : Type 0} (sys : Sys W) (kernel : Kernel W)
    (fds : Descriptors) (inet_addr : Bytes → ℕ) (calls : SetupCalls lib.Stack)
    (fresh : Fresh tls.State) where
  abbrev Now : Type 0
  Now = Here tls lib json sys kernel fds

  -- What stays of the loop while `EpollWait` goes on: its invariant, and every client.
  abbrev pub Grows : Loop tls.State lib.Stack → Loop tls.State lib.Stack → Type 0
  Grows l m = IsReceiving m × (length l.client_mgr ≤ length m.client_mgr)

  abbrev Goes : Now → Run (Bool × Now) → Type 0
  Goes r = Post λ s. Grows r.loop s.1.loop

  module _ (frees : Frees json) (streams : (n : ℕ) → IsStream ((kernel.http n).stream))
      (peers : (n : ℕ) → IsPeer (kernel.http n))
      (ends : (n : ℕ) (w : W) → (peers n).left w < suc (kernel.readings n w))
      (patient : IsPatient sys kernel) (bio : MemBio tls) (fit : IsBounded lib)
      (takes : Consumes tls) (room : length fresh.memory ≡ 100) where
    serve_connection-Goes :
        (ptr : ℕ) (cell : Cell) (r : Now)
        → IsReceiving r.loop
        → Goes r (serve_connection tls lib json sys kernel fds inet_addr calls fresh ptr cell r)
    unfolding serve_connection
    serve_connection-Goes ptr cell r h =
        elim (http_request_handle-Served (kernel.http cell.fd) json inet_addr calls fresh
          (streams cell.fd) frees (peers cell.fd) (suc (kernel.readings cell.fd r.world)) cell.con
          (record { loop = r.loop; fd = r.world; heap = r.heap; closes = 0 })
          (ends cell.fd r.world)) [
            | inl (bad, _) ↦ subst (Goes r) (sym (bind_fault _ bad)) tt
            | inr (s, run, served) ↦ subst (Goes r) (sym (bind_done _ run)) (elim served.loop [
              | inl same ↦ subst (Grows r.loop) (sym same) (h, omega arith)
              | inr (a, more) ↦ add_client-IsServing calls fresh a r.loop s.loop room h more
            ])
          ]

    on_readable-Goes :
        (ptr : ℕ) (cell : Cell) (r : Now)
        → IsReceiving r.loop
        → Goes r (on_readable tls lib json sys kernel fds inet_addr calls fresh ptr cell r)
    unfolding on_readable receive_all
    on_readable-Goes ptr cell r h = elim (Bool-cases (cell.fd == fds.udpfd)) [
      | inl udp ↦
          let (left, m, run, g, same, v) =
            receive_datagrams-Serves tls lib bio fit takes (kernel.waiting r.world) r.loop h.0
              h.1 in
          subst (Goes r) (sym (if-true _ _ udp ∙ bind_done _ run)) ((g, v), omega arith)
      | inr no_udp ↦ elim (Bool-cases (cell.fd == fds.tcpfd)) [
        | inl tcp ↦
            let (t, run, grown) =
              accept_all-Accepts tls lib json sys kernel fds patient (suc (kernel.backlog r.world))
                r (omega arith) in
            subst (Goes r) (sym (if-false _ _ no_udp ∙ if-true _ _ tcp ∙ bind_done _ run))
              (subst (Grows r.loop) (sym grown.loop) (h, omega arith))
        | inr no_tcp ↦
            subst (Goes r) (sym (if-false _ _ no_udp ∙ if-false _ _ no_tcp))
              (serve_connection-Goes ptr cell r h)
      ]
    ]

    on_ready-Goes :
        (e : Ready) (o : Option Cell) (r : Now)
        → IsReceiving r.loop
        → Goes r (on_ready tls lib json sys kernel fds inet_addr calls fresh e o r)
    unfolding on_ready drop_connection
    on_ready-Goes e none r h = tt
    on_ready-Goes e (some cell) r h = elim (Bool-cases (is_lost e)) [
      | inl lost ↦ subst (Goes r) (sym (if-true _ _ lost)) (h, omega arith)
      | inr well ↦ subst (Goes r) (sym (if-false _ _ well)) (on_readable-Goes e.ptr cell r h)
    ]

    on_events-Goes :
        (es : List Ready) (have : Bool) (r : Now)
        → IsReceiving r.loop
        → Goes r (on_events tls lib json sys kernel fds inet_addr calls fresh es have r)
    unfolding on_events
    on_events-Goes [] have r h = (h, omega arith)
    on_events-Goes (e ∷ es) have r h =
        Post-bind (λ s. Grows r.loop s.1.loop) (λ s. Grows r.loop s.1.loop) _ _
          (on_ready-Goes e (pointee (get_elem? r.cells e.ptr)) r h)
          λ s g.
            after (on_events tls lib json sys kernel fds inet_addr calls fresh es (have || s.0) s.1)
              r s.1 g.1 (on_events-Goes es (have || s.0) s.1 g.0)
      where
        after :
            (x : Run (Bool × Now)) (r s : Now)
            → length r.loop.client_mgr ≤ length s.loop.client_mgr
            → Goes s x
            → Goes r x
        after (done y) r s le g = (g.0, omega (arith, g.1))
        after fault r s le g = tt
        after spin r s le g = tt

    pub epoll_wait-Goes :
        (r : Now)
        → IsReceiving r.loop
        → Goes r (epoll_wait tls lib json sys kernel fds inet_addr calls fresh r)
    unfolding epoll_wait
    epoll_wait-Goes r h =
        on_events-Goes (kernel.epoll_wait fds.epfd max_event r.world).0 false
          (record r { world = (kernel.epoll_wait fds.epfd max_event r.world).1 }) h
