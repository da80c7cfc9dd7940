-- ===== src/Net.antt =====
-- RuruNetwork.cpp: byte order, and the loop that writes a buffer to a stream socket.
pub mod Write
pub mod Decimal
pub mod Sockets
pub mod ByteOrder
pub mod Api
use ruru.Base.{
  ℕ, zero, suc, ◌+◌, ◌-◌, ◌*◌, ◌/◌, ◌%◌, ◌^◌, Bool, true, false, List, [], ◌++◌, ℤ, Bytes, length,
  take, drop, ◌==◌, if◌then◌else◌, Run, done, spin,
}

-- `htonl` and `ntohl` on a little-endian host: the four bytes in the other order.
unfoldable pub swap32 : ℕ → ℕ
swap32 x =
    (x % 2 ^ 8) * 2 ^ 24
    + (x / 2 ^ 8 % 2 ^ 8) * 2 ^ 16
    + (x / 2 ^ 16 % 2 ^ 8) * 2 ^ 8
    + x / 2 ^ 24 % 2 ^ 8

-- `htons` and `ntohs`.
unfoldable pub swap16 : ℕ → ℕ
swap16 x = (x % 2 ^ 8) * 2 ^ 8 + x / 2 ^ 8 % 2 ^ 8

-- `Ip2Host`; `inet_addr` gives the address in network byte order.
unfoldable pub ip2host : {Text : Type 0} → (Text → ℕ) → Text → ℕ
ip2host inet_addr ip = swap32 (inet_addr ip)

-- `Host2Ip`
unfoldable pub host2ip : {Text : Type 0} → (ℕ → Text) → ℕ → Text
host2ip inet_ntoa host = inet_ntoa (swap32 host)

-- What `write` returns: `count` bytes taken, or -1.
pub data WriteResult : Type 0 where
  count : ℕ → WriteResult
  failed : WriteResult

-- `write` on a socket that is in some state `W`, with what the peer has been sent so far.
pub record Stream (W : Type 0) : Type 0 where
  pub write : Bytes → W → WriteResult × W
  pub received : W → Bytes

module _ {W : Type 0} (io : Stream W) where
  -- The loop of `SocketWrite` from `written` bytes on; what it returns, `failed` for -1.
  unfoldable pub socket_write_from : ℕ → Bytes → ℕ → W → Run (WriteResult × W)
  socket_write_from zero buf written w = spin
  socket_write_from (suc fuel) buf written w = elim (written == length buf) [
    | true ↦ done (count written, w)
    | false ↦
        let (r, w') = io.write (drop written buf) w in
        elim r [
          | count n ↦ elim (n == 0) [
            | true ↦ done (count written, w')
            | false ↦ socket_write_from fuel buf (written + n) w'
          ]
          | failed ↦ done (failed, w')
        ]
  ]

  -- `SocketWrite`: each round but the last takes at least one byte.
  unfoldable pub socket_write : Bytes → W → Run (WriteResult × W)
  socket_write buf w = socket_write_from (suc (length buf)) buf 0 w
