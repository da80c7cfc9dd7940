-- ===== src/Client/Life.antt =====
-- RuruArena.cpp, RuruRingBuf.h, RuruSctp.cpp and RuruClient.cpp: the destructors, and what an object owns.
use ruru.Base.{
  Bytes, ℕ, ◌+◌, ◌≡◌, ◌⊎◌, List, [], ◌∷◌, ◌++◌, Option, none, some, length, Run, done, fault, ◌>>=◌,
  Arrays, new_array, delete_member,
}
use ruru.OpenSsl.{Kind, curve, OpenSsl, one, Owes}
use ruru.Dtls.Context.{DtlsCtx, new_dtls_ctx, delete_dtls_ctx}
use ruru.Dtls.Session.{Dtls, new_dtls, delete_dtls}
use ruru.Sctp.Setup.{SetupCalls, Transport, Usr, new_sctp}

-- `~RuruArena()`, given `memory`.
unfoldable pub delete_arena : Option ℕ → Arrays → Run (Option ℕ × Arrays)
delete_arena memory heap = delete_member memory heap

-- `~RuruRingBuf()`, given `memory`.
unfoldable pub delete_ring : Option ℕ → Arrays → Run (Option ℕ × Arrays)
delete_ring memory heap = delete_member memory heap

-- `~RuruSctp()`, which does nothing.
unfoldable pub delete_sctp : {L : Type 0} → Transport → L → L
delete_sctp t stack = stack

-- The members of a `RuruClient` that own something: `dtlsTransport`, `sctpTransport` and the memory of
-- `heartBeatRing`.
pub record Owner : Type 0 where
  pub dtls : Dtls
  pub sctp : Transport
  pub ring : Option ℕ

-- `RuruRingBuf(cap)`, of its memory, and then `~RuruRingBuf()`.
unfoldable pub ring_life : ℕ → Arrays → Run (Option ℕ × Arrays)
ring_life cap heap = let (p, heap) = new_array cap heap in delete_ring (some p) heap

module _ {W : Type 0} (ssl : OpenSsl W) {L : Type 0} (calls : SetupCalls L) where
  -- OpenSSL, usrsctp and the arrays, as a client finds them.
  pub record Stage : Type 0 where
    pub world : W
    pub usr : Usr calls
    pub heap : Arrays

  -- `RuruClient(ctx, address, fd)`: the members in the order of their declaration, for client `self`.
  unfoldable pub make_client : Option ℕ → ℕ → Stage → Run (Owner × Stage)
  make_client ctx self s = new_dtls ssl ctx s.world >>= λ d.
      let (t, usr) = new_sctp calls self s.usr in
      let (p, heap) = new_array 100 s.heap in
      done (
        record { dtls = d.0; sctp = t; ring = some p },
        record { world = d.1; usr = usr; heap = heap },
      )

  -- `~RuruClient()`: the members in the other order.
  unfoldable pub delete_client : Owner → Stage → Run Stage
  delete_client o s = delete_ring o.ring s.heap >>= λ r. done (record {
    world = (delete_dtls ssl o.dtls s.world).1;
    usr = record (s.usr) { stack = delete_sctp o.sctp s.usr.stack };
    heap = r.1;
  })

  unfoldable pub client_life : Option ℕ → ℕ → Stage → Run Stage
  client_life ctx self s = make_client ctx self s >>= λ m. delete_client m.0 m.1

  -- What a client that has been made and destroyed leaves: an EC_KEY, its SCTP socket, and of the ring
  -- nothing.
  pub record Remains (owes : Owes ssl) (self : ℕ) (s t : Stage) : Type 0 where
    pub key : ℕ
    pub owed :
        (k : Kind) (q : ℕ) → owes.owed t.world k q ≡ owes.owed s.world k q + one curve key k q
    pub usr : t.usr ≡ (new_sctp calls self s.usr).1
    pub heap : t.heap ≡ s.heap ++ none ∷ []

  -- `RuruLoop::dtsCtx_`, which each client is given.
  abbrev pub dts_ctx : Bytes → W → DtlsCtx × W
  dts_ctx memory w = new_dtls_ctx ssl memory w

  -- Clients that come and go one after the other.
  unfoldable pub client_lives : Option ℕ → List ℕ → Stage → Run Stage
  client_lives ctx [] s = done s
  client_lives ctx (self ∷ selves) s = client_life ctx self s >>= client_lives ctx selves

  -- ... while `dtsCtx_` is there.
  unfoldable pub program_life : Bytes → List ℕ → Stage → Run Stage
  program_life memory selves s =
      let (d, w) = dts_ctx memory s.world in
      client_lives d.ctx selves (record s { world = w }) >>= λ s.
      done (record s { world = (delete_dtls_ctx ssl d s.world).1 })

  module _ (owes : Owes ssl) where
    abbrev owed : Stage → Kind → ℕ → ℕ
    owed s k q = owes.owed s.world k q

    -- How often the keys are object `q` of kind `k`.
    abbrev pub keys_owed : List ℕ → Kind → ℕ → ℕ
    keys_owed [] k q = 0
    keys_owed (key ∷ keys) k q = one curve key k q + keys_owed keys k q

    -- Behind the first few of the clients `SSL_new` gives null.
    abbrev pub Null : Option ℕ → Stage → Type 0
    Null ctx s =
        (j : Stage) × (first : List ℕ) × (client_lives ctx first s ≡ done j)
        × ((ssl.ssl_new ctx j.world).0 ≡ none)

    -- One EC_KEY is left by each client, where there is a session for it.
    abbrev pub Leaks : Option ℕ → Stage → (Kind → ℕ → ℕ) → ℕ → Run Stage → Type 0
    Leaks ctx s n clients r =
        ((r ≡ fault) × Null ctx s)
        ⊎ ((t : Stage) × (keys : List ℕ) × (r ≡ done t)
            × (length keys ≡ clients)
            × ((k : Kind) (q : ℕ) → owed t k q ≡ n k q + keys_owed keys k q))
