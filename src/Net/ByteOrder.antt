-- ===== src/Net/ByteOrder.antt =====
-- RuruNetwork.cpp: `Ip2Host` and `Host2Ip` undo one another.
use ruru.Base.{ℕ, ◌^◌, ◌<◌, ◌≡◌, arith, ap, ◌∙◌}
use ruru.Net.{swap32, swap16, ip2host, host2ip}

-- The order of the bytes swapped twice is the order at the start, for a 32-bit number.

pub swap32-swap32 : (x : ℕ) → x < 2 ^ 32 → swap32 (swap32 x) ≡ x
unfolding swap32
swap32-swap32 x h = omega arith

swap32-lt : (x : ℕ) → swap32 x < 2 ^ 32
unfolding swap32
swap32-lt x = omega arith

pub swap16-swap16 : (x : ℕ) → x < 2 ^ 16 → swap16 (swap16 x) ≡ x
unfolding swap16
swap16-swap16 x h = omega arith

-- A host address printed by `Host2Ip` is the one that `Ip2Host` reads back, where `inet_addr` parses
-- what `inet_ntoa` prints.
pub ip2host-host2ip :
    {Text : Type 0} (inet_addr : Text → ℕ) (inet_ntoa : ℕ → Text)
    → ((a : ℕ) → a < 2 ^ 32 → inet_addr (inet_ntoa a) ≡ a)
    → (host : ℕ) → host < 2 ^ 32
    → ip2host inet_addr (host2ip inet_ntoa host) ≡ host
unfolding ip2host host2ip
ip2host-host2ip inet_addr inet_ntoa parse host h =
    ap swap32 (parse (swap32 host) (swap32-lt host)) ∙ swap32-swap32 host h
