-- ===== src/Loop/Life.antt =====
-- RuruLoop.cpp: how the constructor ends, and what `Destory` does to the loop that it has made.
use ruru.Base.{
  ℕ, ◌<◌, ◌≡◌, refl, sym, ap, ◌∙◌, ◌⊎◌, inl, inr, Bool, true, false, ◌&&◌, Option, none, some,
  arith, Bytes, Run, done, fault, ◌>>=◌, Bool-cases, if-true, if-false, lt→ltb,
}
use mathlib.Core.Path.{subst}
use ruru.Net.Sockets.{create_udp_socket, create_tcp_socket, Sys, set_non_blocking}
use ruru.Sctp.Setup.{SetupCalls, Usr, usrsctp_start_init}
use ruru.Loop.Start.{
  closed, fd, wild, null, array, Members, uninitialised, close_descriptor, delete_events, destory,
  Starting, abandon, step, finish, with_epoll, with_tcp, with_udp, new_loop,
}

-- All members are set.
pub record IsReady (m : Members) : Type 0 where
  pub udp : (n : ℕ) × (m.udpfd ≡ fd n)
  pub tcp : (n : ℕ) × (m.tcpfd ≡ fd n)
  pub ep : (n : ℕ) × (m.epfd ≡ fd n)
  pub events : m.events ≡ array

module _ {W : Type 0} (sys : Sys W) where
  -- `Destory` before there is an array of events.
  destory-wild : (m : Members) (w : W) → m.events ≡ wild → destory sys m w ≡ fault
  unfolding destory close_descriptor delete_events
  destory-wild m w e = ground (arith, e)

  -- `Destory` of a ready loop whose descriptors are not 0 closes both sockets, deletes the events, and
  -- leaves the epoll descriptor open; a second call, the destructor's, does nothing more.
  pub destory_twice :
      (m : Members) (w : W) (u t : ℕ)
      → 0 < u
      → 0 < t
      → m.udpfd ≡ fd u
      → m.tcpfd ≡ fd t
      → m.events ≡ array
      → let after = record m { udpfd = closed; tcpfd = closed; events = null } in
        let world = sys.close t (sys.close u w) in
        (destory sys m w ≡ done (after, world)) × (destory sys after world ≡ done (after, world))
  unfolding destory close_descriptor delete_events
  destory_twice m w u t hu ht eu et ee = (rw (eu, et, ee, lt→ltb 0 u hu, lt→ltb 0 t ht) refl, refl)

module _ {W : Type 0} (sys : Sys W) {L : Type 0} (calls : SetupCalls L) where
  abbrev Here : Type 0
  Here = Starting sys calls

  -- Whether the calls from `epoll_create1` on work: `r` is what it gave.
  abbrev pub epoll_works : ℕ → ℕ → Option ℕ × W → Bool
  epoll_works udp tcp (none, w) = false
  epoll_works udp tcp (some ep, w) =
      let (a, w) = sys.epoll_add ep udp 0 w in
      let (b, w) = sys.epoll_add ep tcp 1 w in a && (b && true)

  -- Those from `CreateTcpSocket` on.
  abbrev pub tcp_works : ℕ → Option ℕ × W → Bool
  tcp_works udp (none, w) = false
  tcp_works udp (some tcp, w) =
      let (a, w) = set_non_blocking sys tcp w in
      let (b, w) = sys.listen tcp w in a && (b && epoll_works udp tcp (sys.epoll_create w))

  -- All behind `CreateUdpSocket`.
  abbrev pub udp_works : Bytes → Bytes → ℕ → W → Bool
  udp_works host port udp w =
      let (a, w) = set_non_blocking sys udp w in
      a && tcp_works udp (create_tcp_socket sys host port w)

  -- How a part of the constructor ends, where `works` says whether its calls work.
  abbrev pub Ends : Bool → Run Here → Type 0
  Ends works r =
      ((works ≡ false) × (r ≡ fault))
      ⊎ ((works ≡ true)
          × ((s : Here) × (r ≡ done s) × IsReady s.members × (s.usr.usrsctp_init ≡ true)))

  abandon-fault : (s : Here) → s.members.events ≡ wild → abandon sys calls s ≡ fault
  abandon-fault s e =
      ap (λ r. r >>= λ r. done (record s { members = r.0; world = r.1 }))
        (destory-wild sys s.members s.world e)

  step-Ends :
      (works : Bool) (call : W → Bool × W) (rest : Here → Run Here) (s : Here)
      → s.members.events ≡ wild
      → Ends works (rest (record s { world = (call s.world).1 }))
      → Ends ((call s.world).0 && works) (step sys calls call rest s)
  unfolding step
  step-Ends works call rest s e on =
      let tested = λ (b : Bool). Ends (b && works) (step sys calls call rest s) in
      elim (Bool-cases (call s.world).0) [
        | inl ok ↦ subst tested (sym ok) (subst (Ends works) (sym (if-true _ _ ok)) on)
        | inr failed ↦ subst tested (sym failed) (
            inl
              (refl, if-false _ _ failed ∙ abandon-fault (record s { world = (call s.world).1 }) e))
      ]

  finish-Ends :
      (s : Here) (u t e : ℕ)
      → s.members.udpfd ≡ fd u
      → s.members.tcpfd ≡ fd t
      → s.members.epfd ≡ fd e
      → Ends true (finish sys calls s)
  unfolding usrsctp_start_init
  finish-Ends s u t e eu et ee = inr (
    refl,
    (
      _,
      refl,
      record { udp = (u, eu); tcp = (t, et); ep = (e, ee); events = refl },
      elim (Bool-cases s.usr.usrsctp_init) [ inl on ↦ rw on refl | inr off ↦ rw off refl ],
    ),
  )

  with_epoll-Ends :
      (udp tcp : ℕ) (s : Here) (r : Option ℕ × W)
      → s.members.udpfd ≡ fd udp
      → s.members.tcpfd ≡ fd tcp
      → s.members.events ≡ wild
      → Ends (epoll_works udp tcp r) (with_epoll sys calls udp tcp s r)
  unfolding with_epoll
  with_epoll-Ends udp tcp s (none, w) eu et e = inl (refl, abandon-fault _ e)
  with_epoll-Ends udp tcp s (some ep, w) eu et e = step-Ends _ (sys.epoll_add ep udp 0) _ _ e (
      step-Ends _ (sys.epoll_add ep tcp 1) _ _ e (
        finish-Ends
          (record s {
            members = record (s.members) { epfd = fd ep };
            world = (sys.epoll_add ep tcp 1 (sys.epoll_add ep udp 0 w).1).1;
          })
          udp tcp ep eu et refl))

  with_tcp-Ends :
      (udp : ℕ) (s : Here) (r : Option ℕ × W)
      → s.members.udpfd ≡ fd udp
      → s.members.events ≡ wild
      → Ends (tcp_works udp r) (with_tcp sys calls udp s r)
  unfolding with_tcp
  with_tcp-Ends udp s (none, w) eu e = inl (refl, abandon-fault _ e)
  with_tcp-Ends udp s (some tcp, w) eu e =
      step-Ends _ (set_non_blocking sys tcp) _ _ e
        (step-Ends _ (sys.listen tcp) _ _ e (with_epoll-Ends udp tcp _ _ eu refl e))

  -- How the constructor ends, by what `CreateUdpSocket` gave.
  abbrev pub Constructed : Bytes → Bytes → Option ℕ × W → Run Here → Type 0
  Constructed host port (none, w) r =
      (s : Here) × (r ≡ done s) × (s.members ≡ record uninitialised { udpfd = closed })
  Constructed host port (some udp, w) r = Ends (udp_works host port udp w) r

  with_udp-Constructed :
      (host port : Bytes) (s : Here) (r : Option ℕ × W)
      → s.members ≡ uninitialised
      → Constructed host port r (with_udp sys calls host port s r)
  unfolding with_udp
  with_udp-Constructed host port s (none, w) e =
      (_, refl, ap (λ (m : Members). record m { udpfd = closed }) e)
  with_udp-Constructed host port s (some udp, w) e =
      step-Ends _ (set_non_blocking sys udp) _ _ (ap (λ (m : Members). m.events) e)
        (with_tcp-Ends udp _ _ refl (ap (λ (m : Members). m.events) e))

  -- The constructor of the loop ends in one of three ways. Without a UDP socket no other member is set.
  -- With one, if every later call works (the two of `SetNonBlocking`, `CreateTcpSocket`, `listen`,
  -- `epoll_create1` and the two of `epoll_ctl`), all members are set and usrsctp is started; and if one
  -- of them does not, it faults.
  pub new_loop-Constructed :
      (host port : Bytes) (w : W) (usr : Usr calls)
      → Constructed host port
          (create_udp_socket sys host port w)
          (new_loop sys calls host port w usr)
  unfolding new_loop
  new_loop-Constructed host port w usr = with_udp-Constructed host port _ _ refl
