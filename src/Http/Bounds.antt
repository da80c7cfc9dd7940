-- ===== src/Http/Bounds.antt =====
-- RuruLoop.cpp: the buffer of a connection in `HttpRequestHandle`, and the client that a request adds.
use ruru.Base.{
  ◌>>=◌, fault, ℕ, suc, ◌+◌, ◌-◌, ◌≤◌, ◌≡◌, refl, sym, ap, ◌∙◌, true, List, [], ◌∷◌, ◌++◌, Option,
  none, some, arith, Bytes, done, >>=-eq-done, done-injective, ◌==◌, Bool-cases, if-true, if-false,
  inl, inr, length, length-blit,
}
use mathlib.Core.Path.{subst}
use ruru.Event.{Address}
use ruru.Client.{Client}
use ruru.Loop.{Loop, has_address, find_from, find_client_by_address, attach_client_info}
use ruru.Sctp.Setup.{SetupCalls}
use ruru.Http.Body.{Json}
use ruru.Http.{
  ReadResult, got, again, broken, Http, Connection, http_max_size, Fresh, read_some, new_client,
  client_over, put_client, add_client, look, after_read,
}
use ruru.Http.Reply.{State}

-- The array has its 4096 bytes, and `length` stays within it.
pub record Fits (con : Connection) : Type 0 where
  pub storage : length con.bytes ≡ http_max_size
  pub used : con.length ≤ http_max_size

module _ {S : Type 0} {W : Type 0} (http : Http W) (json : Json) (inet_addr : Bytes → ℕ)
    {L : Type 0} (calls : SetupCalls L) (fresh : Fresh S) where
  look-same :
      (con : Connection) (last : ℕ) (s : State http json inet_addr calls fresh)
      {t : Option (State http json inet_addr calls fresh)} {c : Connection}
      → look http json inet_addr calls fresh con last s ≡ done (t, c)
      → con ≡ c
  unfolding look
  look-same con last s h =
      let (a, _, e) = >>=-eq-done _ (λ t. done (t, con)) h in ap (λ p. p.1) (done-injective e)

  after_read-Fits :
      (r : ReadResult) (con con' : Connection) (s : State http json inet_addr calls fresh)
      (t : Option (State http json inet_addr calls fresh))
      → Fits con
      → ((bytes : Bytes) → r ≡ got bytes → length bytes ≤ http_max_size - con.length)
      → after_read http json inet_addr calls fresh r con s ≡ done (t, con')
      → Fits con'
  unfolding after_read
  after_read-Fits broken con con' s t f size h = subst Fits (ap (λ p. p.1) (done-injective h)) f
  after_read-Fits (got []) con con' s t f size h = subst Fits (ap (λ p. p.1) (done-injective h)) f
  after_read-Fits (got (b ∷ bs)) con con' s t f size h =
      let room = size (b ∷ bs) refl in
      subst Fits (look-same _ con.length s h) (record {
        storage = length-blit con.bytes con.length (b ∷ bs) ∙ f.storage;
        used = omega (arith, f.used);
      })
  after_read-Fits again con con' s t f size h = elim (Bool-cases (con.length == 0)) [
    | inl start ↦ let bad : fault ≡ done (t, con') = sym (if-true _ _ start) ∙ h in cc
    | inr later ↦
        subst Fits
          (look-same (record con { length = con.length - 1 }) con.length s
            (sym (if-false _ _ later) ∙ h))
          (record { storage = f.storage; used = omega (arith, f.used) })
  ]

  -- `read` fills in no more than it is offered. Then no round of `HttpRequestHandle` writes beyond the
  -- connection's buffer: it is offered what is left of it, and what is used stays within 4096 bytes.
  pub round-Fits :
      (con con' : Connection) (s : State http json inet_addr calls fresh)
      (t : Option (State http json inet_addr calls fresh))
      → ((size : ℕ) (fd : W) (bytes : Bytes)
          → (http.read size fd).0 ≡ got bytes
          → length bytes ≤ size)
      → Fits con
      → after_read http json inet_addr calls fresh
          (read_some http json inet_addr calls fresh con s).0
          con
          (read_some http json inet_addr calls fresh con s).1
        ≡ done (t, con')
      → Fits con'
  unfolding read_some
  round-Fits con con' s t offered f h =
      after_read-Fits _ con con' _ t f (offered (http_max_size - con.length) s.fd) h

-- What is found, or else the last index.
abbrev pub or_last : Option ℕ → ℕ → Option ℕ
or_last none last = some last
or_last (some i) last = some i

module _ {S : Type 0} where
  find_from-last :
      (a : Address) (i : ℕ) (cs : List (Client S)) (c : Client S)
      → has_address a c ≡ true
      → find_from a i (cs ++ c ∷ []) ≡ or_last (find_from a i cs) (i + length cs)
  unfolding find_from
  find_from-last a i [] c h = rw h (ground arith)
  find_from-last a i (d ∷ ds) c h = elim (Bool-cases (has_address a d)) [
    | inl here ↦ rw here refl
    | inr other ↦
        rw other
          (find_from-last a (suc i) ds c h ∙ ap (or_last (find_from a (suc i) ds)) (omega arith))
  ]

  module _ {L : Type 0} (calls : SetupCalls L) (fresh : Fresh S) where
    over-has_address :
        (ssl : S) (a : Address) (self : ℕ) (stack : L)
        → has_address a (attach_client_info (client_over calls fresh ssl a self stack).0) ≡ true
    unfolding attach_client_info
    over-has_address ssl a self stack = ground arith

    find_by_session :
        (o : Option S) (a : Address) (l m : Loop S L)
        → (new_client calls fresh o a (length l.client_mgr) l.stack >>= λ r.
            done (put_client calls fresh r l))
          ≡ done m
        → find_from a 0 m.client_mgr ≡ or_last (find_from a 0 l.client_mgr) (length l.client_mgr)
    unfolding new_client
    find_by_session none a l m e = cc
    find_by_session (some ssl) a l m e =
        ap (λ (x : Loop S L). find_from a 0 x.client_mgr) (sym (done-injective e))
        ∙ find_from-last a 0 l.client_mgr
            (attach_client_info (client_over calls fresh ssl a (length l.client_mgr) l.stack).0)
            (over-has_address ssl a (length l.client_mgr) l.stack)
        ∙ ap (or_last (find_from a 0 l.client_mgr)) (omega arith)

    -- After a request for an address that has added a client `FindClientByAddress` gives a client for it:
    -- the one that had it before, if any, and otherwise the new one.
    pub find_client_by_address-add_client :
        (a : Address) (l m : Loop S L)
        → add_client calls fresh a l ≡ done m
        → find_client_by_address m a ≡ or_last (find_client_by_address l a) (length l.client_mgr)
    unfolding find_client_by_address add_client
    find_client_by_address-add_client a l m h = find_by_session fresh.ssl a l m h

    put_by_session :
        (o : Option S) (a : Address) (l m : Loop S L)
        → (new_client calls fresh o a (length l.client_mgr) l.stack >>= λ r.
            done (put_client calls fresh r l))
          ≡ done m
        → (ssl : S) × (m
            ≡ put_client calls fresh
                (client_over calls fresh ssl a (length l.client_mgr) l.stack)
                l)
    unfolding new_client
    put_by_session none a l m e = cc
    put_by_session (some ssl) a l m e = (ssl, sym (done-injective e))

    -- The loop that a client has been added to.
    pub add_client-put :
        (a : Address) (l m : Loop S L)
        → add_client calls fresh a l ≡ done m
        → (ssl : S) × (m
            ≡ put_client calls fresh
                (client_over calls fresh ssl a (length l.client_mgr) l.stack)
                l)
    unfolding add_client
    add_client-put a l m h = put_by_session fresh.ssl a l m h
