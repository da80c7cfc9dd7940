-- ===== src/Net/Api.antt =====
-- RuruNetwork.h: what the other files may call, and that RuruNetwork.cpp provides it.
use ruru.Base.{ℕ, ◌^◌, ◌<◌, ◌≡◌, Bool, Option, Bytes, Run, done}
use ruru.Net.{WriteResult, Stream, ip2host, host2ip, socket_write}
use ruru.Net.ByteOrder.{ip2host-host2ip}
use ruru.Net.Sockets.{Sys, create_tcp_socket, create_udp_socket, set_non_blocking}
use ruru.Net.Write.{IsStream, Wrote, socket_write-Wrote}

-- The functions of the header. The two `SocketWrite` differ in the type of the pointer only.
pub record Network (W : Type 0) : Type 0 where
  pub create_udp_socket : Bytes → Bytes → W → Option ℕ × W
  pub create_tcp_socket : Bytes → Bytes → W → Option ℕ × W
  pub set_non_blocking : ℕ → W → Bool × W
  pub ip2host : Bytes → ℕ
  pub host2ip : ℕ → Bytes
  pub socket_write : ℕ → Bytes → W → Run (WriteResult × W)

-- What a caller relies on, over streams that take from the front of what they are offered.
pub record IsNetwork {W : Type 0} (net : Network W) (io : ℕ → Stream W)
    (is : (fd : ℕ) → IsStream (io fd)) : Type 0 where
  pub reads_back : (host : ℕ) → host < 2 ^ 32 → net.ip2host (net.host2ip host) ≡ host
  pub writes :
      (fd : ℕ) (buf : Bytes) (w : W)
      → (r : WriteResult × W) × (net.socket_write fd buf w ≡ done r)
        × Wrote (io fd) (is fd) buf ((io fd).received w) r

module _ {W : Type 0} (sys : Sys W) (io : ℕ → Stream W) (inet_ntoa : ℕ → Bytes) where
  abbrev pub network : Network W
  network = record {
    create_udp_socket = create_udp_socket sys;
    create_tcp_socket = create_tcp_socket sys;
    set_non_blocking = set_non_blocking sys;
    ip2host = ip2host sys.inet_addr;
    host2ip = host2ip inet_ntoa;
    socket_write = λ fd. socket_write (io fd);
  }

  -- RuruNetwork.cpp provides what its header is relied on for: `Ip2Host` reads back what `Host2Ip`
  -- prints, where inet_addr parses what inet_ntoa prints, and `SocketWrite` ends, with a front of the
  -- buffer at the peer, on streams that take from the front of what they are offered.
  pub network-IsNetwork :
      (is : (fd : ℕ) → IsStream (io fd))
      → ((a : ℕ) → a < 2 ^ 32 → sys.inet_addr (inet_ntoa a) ≡ a)
      → IsNetwork network io is
  network-IsNetwork is parse = record {
    reads_back = ip2host-host2ip sys.inet_addr inet_ntoa parse;
    writes = λ fd. socket_write-Wrote (io fd) (is fd);
  }
