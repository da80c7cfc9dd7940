-- ===== src/Net/Sockets.antt =====
-- RuruNetwork.cpp: `CreateTcpSocket`, `CreateUdpSocket` and `SetNonBlocking`.
use ruru.Base.{ℕ, ◌^◌, Bool, false, Option, none, some, if◌then◌else◌, Bytes, to_unsigned}
use ruru.Net.{swap16}
use ruru.Net.Decimal.{atoi}

-- The system's functions on descriptors. `none` and `false` are -1.
pub record Sys (World : Type 0) : Type 0 where
  -- `socket(AF_INET, SOCK_STREAM, 0)`, `socket(AF_INET, SOCK_DGRAM, 0)`
  pub stream_socket : World → Option ℕ × World
  pub datagram_socket : World → Option ℕ × World
  -- `setsockopt(fd, SOL_SOCKET, SO_REUSEADDR, ...)`
  pub reuse_addr : ℕ → World → World
  -- `bind` to an `s_addr` and a `sin_port`
  pub bind : ℕ → ℕ → ℕ → World → Bool × World
  -- `fcntl` with F_GETFL; with F_SETFL and the flags, O_NONBLOCK added
  pub get_flags : ℕ → World → Option ℕ × World
  pub set_flags : ℕ → ℕ → World → Bool × World
  pub listen : ℕ → World → Bool × World
  pub epoll_create : World → Option ℕ × World
  -- `epoll_ctl` with EPOLL_CTL_ADD, for a descriptor with a pointer as `data.ptr`
  pub epoll_add : ℕ → ℕ → ℕ → World → Bool × World
  pub close : ℕ → World → World
  -- `inet_addr`
  pub inet_addr : Bytes → ℕ
  -- `flags | O_NONBLOCK`
  pub add_non_block : ℕ → ℕ

module _ {W : Type 0} (sys : Sys W) where
  -- Behind `socket` and, for TCP, `setsockopt`.
  unfoldable pub bind_socket : Bytes → Bytes → ℕ → W → Option ℕ × W
  bind_socket host port fd w =
      let (ok, w) =
        sys.bind fd (sys.inet_addr host) (swap16 (to_unsigned (2 ^ 16) (atoi port))) w in
      if ok then (some fd, w) else (none, w)

  unfoldable pub bind_tcp : Bytes → Bytes → Option ℕ × W → Option ℕ × W
  bind_tcp host port (none, w) = (none, w)
  bind_tcp host port (some fd, w) = bind_socket host port fd (sys.reuse_addr fd w)

  unfoldable pub bind_udp : Bytes → Bytes → Option ℕ × W → Option ℕ × W
  bind_udp host port (none, w) = (none, w)
  bind_udp host port (some fd, w) = bind_socket host port fd w

  -- `CreateTcpSocket`
  unfoldable pub create_tcp_socket : Bytes → Bytes → W → Option ℕ × W
  create_tcp_socket host port w = bind_tcp host port (sys.stream_socket w)

  -- `CreateUdpSocket`
  unfoldable pub create_udp_socket : Bytes → Bytes → W → Option ℕ × W
  create_udp_socket host port w = bind_udp host port (sys.datagram_socket w)

  -- `SetNonBlocking` from what F_GETFL gave.
  unfoldable pub with_flags : ℕ → Option ℕ × W → Bool × W
  with_flags fd (none, w) = (false, w)
  with_flags fd (some flags, w) = sys.set_flags fd (sys.add_non_block flags) w

  -- `SetNonBlocking`: whether it returns 0.
  unfoldable pub set_non_blocking : ℕ → W → Bool × W
  set_non_blocking fd w = with_flags fd (sys.get_flags fd w)
