-- ===== src/EchoClient/CallBacks.antt =====
-- examples/EchoClient.cpp: usrsctp's callbacks, which end without a value, and what comes of it.
