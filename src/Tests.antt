-- ===== src/Tests.antt =====
-- The theorems at concrete inputs, and runs of the code: a TLS layer that does not encrypt, and a
-- usrsctp whose send buffer has room for a number of messages.
mod World
mod Buffers
mod Sending
mod Loops
mod Receiving
mod Setups
mod Requests
mod Serving
mod Starts
mod Certs
mod Keys
mod Clients
mod Polls
mod Histories
mod Networks
