-- ===== src/Tests/Networks.antt =====
-- The functions of RuruNetwork.h over a system where an address is printed as one byte.
use ruru.Base.{ℕ, refl, [], ◌∷◌, Bytes}
use ruru.Net.Api.{IsNetwork, network, network-IsNetwork}
use ruru.Net.Sockets.{Sys}
use ruru.Tests.Buffers.{two_by_two, two_by_two-IsStream}
use ruru.Tests.Polls.{host_of}

abbrev first_byte : Bytes → ℕ
first_byte [] = 0
first_byte (a ∷ text) = a

abbrev one_byte : Sys Bytes
one_byte = host_of first_byte

network-IsNetwork_example :
    IsNetwork
      (network one_byte (λ fd. two_by_two) (λ a. a ∷ []))
      (λ fd. two_by_two)
      (λ fd. two_by_two-IsStream)
network-IsNetwork_example =
    network-IsNetwork one_byte (λ fd. two_by_two) (λ a. a ∷ []) (λ fd. two_by_two-IsStream)
      (λ a h. refl)
