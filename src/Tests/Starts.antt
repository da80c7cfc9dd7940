-- ===== src/Tests/Starts.antt =====
-- A system that lets no socket listen.
use ruru.Base.{ℕ, ◌≡◌, refl, true, false, [], ◌∷◌, some, arith, done}
use ruru.Net.Sockets.{Sys, create_udp_socket}
use ruru.Loop.Start.{closed, fd, null, array, Members, destory, new_loop}
use ruru.Loop.Life.{destory_twice, Constructed, new_loop-Constructed}
use ruru.Tests.Setups.{unbound, fresh}

abbrev deaf : Sys ℕ
deaf = record {
  stream_socket = λ w. (some 4, w);
  datagram_socket = λ w. (some 3, w);
  reuse_addr = λ n w. w;
  bind = λ n a p w. (true, w);
  get_flags = λ n w. (some 0, w);
  set_flags = λ n f w. (true, w);
  listen = λ n w. (false, w);
  epoll_create = λ w. (some 5, w);
  epoll_add = λ e n p w. (true, w);
  close = λ n w. w;
  inet_addr = λ text. 0;
  add_non_block = λ flags. 2048;
}

new_loop-Constructed_example :
    Constructed deaf unbound []
      (53 ∷ [])
      (create_udp_socket deaf [] (53 ∷ []) 0)
      (new_loop deaf unbound [] (53 ∷ []) 0 fresh)
new_loop-Constructed_example = new_loop-Constructed deaf unbound [] (53 ∷ []) 0 fresh

abbrev running : Members
running = record { udpfd = fd 3; tcpfd = fd 4; epfd = fd 5; events = array }

abbrev stopped : Members
stopped = record { udpfd = closed; tcpfd = closed; epfd = fd 5; events = null }

destory_twice_example :
    (destory deaf running 0 ≡ done (stopped, 0)) × (destory deaf stopped 0 ≡ done (stopped, 0))
destory_twice_example = destory_twice deaf running 0 3 4 (omega arith) (omega arith) refl refl refl
