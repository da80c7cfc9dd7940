-- ===== src/Lib.antt =====
-- ruru: a UDP/DTLS/SCTP data transport server.
--
-- A client announces itself over HTTP (RuruLoop.cpp), does a DTLS handshake over UDP
-- (RuruClient.cpp, over OpenSSL), and opens an SCTP association inside it (RuruSctp.cpp, over
-- usrsctp). usrsctp calls back: what it receives is copied into the loop's arena and queued as an
-- event, what it sends goes through TLS onto the wire, heart beats through a ring. The program that
-- runs the loop polls events, and sends; what usrsctp does not take waits in the client's cache.
--
-- Files, each with its children below it:
--   Base     Boolean tests, lists, the machine integers, `Run` (done, fault, spin), memory
--   Arena    RuruArena.cpp: ArenaAlloc is `arena_alloc`, ArenaReset `arena_reset`
--   Ring     RuruRingBuf.h: RingBufRead is `ring_read`, RingBufWrite `ring_write`
--   Event    RuruEvent.h and the structs of RuruSctp.h, RuruClient.h and RuruNetwork.h
--   Dtls     the OpenSSL functions that RuruClient.cpp calls, as the record `Tls`
--   Client   RuruClient.cpp, the sending half, and the record `Node`: one client with what its
--            pointers reach
--   Net      RuruNetwork.cpp: byte order and SocketWrite
--   Sctp     RuruSctp.cpp: the record `Usrsctp` of the functions called, the callbacks; Sctp.Send has
--            SendUsrSctpData and SendSctpCacheData, Sctp.Receive has RecvUsrSctpData and
--            HandleDtlsPacket of RuruClient.cpp
--   Loop     RuruLoop.cpp: UpdateEvent is `update_event`, ScanClientCacheData
--            `scan_client_cache_data`, FindClientByAddress `find_client_by_address`
--   Loop.Start, Loop.Life  the constructor of RuruLoop is `new_loop`, Destory is `destory`; Net.Sockets has
--            CreateUdpSocket, CreateTcpSocket and SetNonBlocking
--   Http     RuruLoop.cpp: HttpRequestHandle is `http_request_handle`, and the constructor of a client;
--            Http.Body has BodyParse
--   Server   examples/EchoServer.cpp: the handlers and the switch; Server.Main has `main`, Server.Serving
--            and Server.Rounds what its handlers and rounds keep; RuruLoop.cpp,
--            EpollWait, the branch for the UDP socket
--   Ring.Traces, Sctp.History  a ring's and a client's calls in any order; Sctp.Sound and Sctp.Keeping have
--            what a client's operations keep
--   Client.Life  the destructors, clients that are made and destroyed, and the context that they share
--   Poll.Calls  the member functions of RuruLoop in any order; Poll.Keeping has what they keep,
--            and Poll.Cells what becomes of the store
--   Net.Api  RuruNetwork.h as an interface
--   Poll     RuruLoop.cpp: EpollWait is `epoll_wait`, Loop is `loop_once`; the RuruConnectionData that
--            epoll points to are cells of a store
--   OpenSsl  the functions of OpenSSL that set keys and sessions up, and who frees what they make
--   Cert     RuruCert.cpp: the constructor is `new_cert`, the text of the fingerprint `finger_print`
--   Dtls.Context, Dtls.Session  RuruDtls.cpp: the constructors are `new_dtls_ctx` and `new_dtls`
--   EchoClient  examples/EchoClient.cpp: SendPendingDtls, conn_output, receive_cb and handle_packets; its
--            children have doHandeShake (HandShake), dtlsTransInit and socketCreateSet (Setup), `main`
--            (Main), and what follows from the callbacks' missing return statements (CallBacks)
--   Tests    concrete libraries and states, and the theorems applied to them
--
-- Conventions. A function of the source keeps its name in snake case. A C++ object is a record, a
-- member function a function from state to state. A pointer to a client is its index, one into the
-- arena its offset. Numbers are ℕ: `uint32_t` sums are taken modulo 2 ^ 32 where they are formed, the
-- narrowing of a length to 16 bits is written out. `Run` tells a result (`done`) from undefined
-- behaviour (`fault`: a memcpy or a print beyond an array, a null pointer read, a socket used after it
-- was closed, an int function without a return) and from a loop that has used up
-- its fuel (`spin`). The fuel of every loop is a number computed from the state: the bytes of the
-- outgoing BIO, the capacity of the ring, the length of the cache, the length of the buffer, each
-- with one more test; the theorems show that it is enough. The reading loop of HandleDtlsPacket and the
-- loop of HttpRequestHandle take their fuel as an argument, since OpenSSL and the peer decide how
-- long they run, and so does doHandeShake; Server gives the first what Sctp.Datagram shows to be enough,
-- and Poll the second what `Kernel` says of the peer. The loops of the two `main` have no end: that of the
-- server is cut after a number of rounds, that of the client is a list of turns.
--
-- OpenSSL and usrsctp are parameters: `Tls` and `Usrsctp` are records of functions on a state of
-- their own, and `MemBio` states the documented behaviour of a memory BIO. A call of usrsctp says
-- which callbacks it makes before it returns, and those are run, in order, on the same state.
-- Parameters too are the parser of HTTP (`Http`), cJSON (`Json`), the set-up calls of usrsctp
-- (`SetupCalls`), write (`Stream`) and the system's functions on descriptors (`Sys`).
--
-- A certificate, a context and a session are numbers, and `Owes` says, for each, whether the program
-- has yet to free it. The functions of the kernel that EpollWait calls are a `Kernel`, and those of
-- usrsctp that examples/EchoClient.cpp calls an `Association`. The arrays that objects own are `Arrays`, where
-- the destructors look them up.
--
-- Not modelled: cJSON.c and picohttpparser.c, copies of other projects' libraries; what is printed
-- on the standard error. A constructor that calls a function of OpenSSL which makes an object is taken to
-- be given one where the source does not test it, but for SSL_CTX_new and SSL_new.
-- In the server one thread runs all of it but usrsctp's timer thread, whose callbacks are taken to come between
-- calls, as if the queue, which has no lock, were safe.
pub mod Base
pub mod Arena
pub mod Ring
pub mod Event
pub mod Dtls
pub mod Client
pub mod Net
pub mod Sctp
pub mod Loop
pub mod Http
pub mod Server
pub mod Poll
pub mod OpenSsl
pub mod Cert
pub mod EchoClient
pub mod Tests
