-- ===== src/Http/Reply.antt =====
-- RuruLoop.cpp, `HttpRequestHandle`: every way in which it returns.
use ruru.Base.{
  length, fault, sym, false, List, Option-cases, bind_done, bind_fault, ℕ, zero, suc, ◌<◌, ◌≡◌,
  refl, ap, ◌∙◌, ◌⊎◌, inl, inr, [], Option, none, some, Bytes, Run, done, ◌>>=◌, ◌==◌, ℤ, ltb_ℤ,
  Bool-cases, if-true, if-false, drop,
}
use ruru.Event.{Address, is_terminated}
use ruru.Loop.{Loop}
use ruru.Net.Write.{IsStream, socket_write-Wrote}
use ruru.Sctp.Setup.{SetupCalls}
use ruru.Http.Body.{Json, read_root, body_parse, content_length, is_sum}
use ruru.Http.{
  got, broken, Parsed, request, malformed, partial, Http, Connection, http_max_size,
  http_bad_request, http_ok, Fresh, new_client, client_over, put_client, add_client, Serving,
  hang_up, reply, answer, wait_for_more, inspect,
}

-- `cJSON_Delete` frees what `cJSON_Parse` has made, which makes nothing where it fails.
pub record Frees (json : Json) : Type 0 where
  pub on_null :
      (text : Bytes) (h : json.Heap) → (json.parse text h).0 ≡ none → (json.parse text h).1 ≡ h
  pub on_root :
      (text : Bytes) (h : json.Heap) (root : json.Root)
      → (json.parse text h).0 ≡ some root
      → json.delete root (json.parse text h).1 ≡ h

-- The peer sends finitely many times, and then closes. `left` bounds the reads that find the
-- connection open.
pub record IsPeer {W : Type 0} (http : Http W) : Type 0 where
  pub left : W → ℕ
  pub read_ends :
      (size : ℕ) (fd : W)
      → ((http.read size fd).0 ≡ got [])
        ⊎ ((http.read size fd).0 ≡ broken)
        ⊎ (left (http.read size fd).1 < left fd)

module _ (json : Json) (inet_addr : Bytes → ℕ) (frees : Frees json) where
  read_root-heap :
      (text : Bytes) (heap : json.Heap) (root : Option json.Root)
      → (json.parse text heap).0 ≡ root
      → (read_root json inet_addr (root, (json.parse text heap).1)).1 ≡ heap
  unfolding read_root
  read_root-heap text heap none e = frees.on_null text heap e
  read_root-heap text heap (some root) e = frees.on_root text heap root e

  -- `BodyParse` leaves no document behind: whatever the text is, `cJSON_Delete` is called once where
  -- `cJSON_Parse` has made one, and nothing is freed where it has not.
  pub body_parse-heap :
      (text : Bytes) (size : ℤ) (heap : json.Heap)
      → ((body_parse json inet_addr text size heap ≡ fault) × (is_terminated text ≡ false))
        ⊎ ((a : Option Address) × (body_parse json inet_addr text size heap ≡ done (a, heap)))
  unfolding body_parse
  body_parse-heap text size heap = elim (Bool-cases (ltb_ℤ size (ℤ.pos 0))) [
    | inl negative ↦ inr (none, if-true _ _ negative)
    | inr fine ↦ elim (Bool-cases (is_terminated text)) [
      | inr open_text ↦ inl (if-false _ _ fine ∙ if-false _ _ open_text, open_text)
      | inl ended ↦
          let p = json.parse text heap in
          inr (
            (read_root json inet_addr p).0,
            if-false _ _ fine
                ∙ if-true _ _ ended
                ∙ ap (λ h. done ((read_root json inet_addr p).0, h))
                    (read_root-heap text heap p.0 refl),
          )
    ]
  ]

module _ {S : Type 0} {W : Type 0} (http : Http W) (json : Json) (inet_addr : Bytes → ℕ)
    {L : Type 0} (calls : SetupCalls L) (fresh : Fresh S) where
  abbrev pub State : Type 0
  State = Serving http json inet_addr calls fresh

  -- What a served connection leaves: it is closed once, no document is left behind, and the loop is
  -- as it was, or has one more client.
  pub record Served (s t : State) : Type 0 where
    pub closes : t.closes ≡ suc s.closes
    pub heap : t.heap ≡ s.heap
    pub loop : (t.loop ≡ s.loop) ⊎ ((a : Address) × (add_client calls fresh a s.loop ≡ done t.loop))

  module _ (is : IsStream http.stream) (frees : Frees json) where
    reply_done :
        (text : Bytes) (s : State)
        → (t : State) × (reply http json inet_addr calls fresh text s ≡ done t)
          × (t.closes ≡ suc s.closes)
          × (t.heap ≡ s.heap)
          × (t.loop ≡ s.loop)
    unfolding reply
    reply_done text s =
        let (r, e, _) = socket_write-Wrote http.stream is text s.fd in
        (
          hang_up http json inet_addr calls fresh (record s { fd = r.1 }),
          ap
              (λ x.
                x >>= λ r. done (hang_up http json inet_addr calls fresh (record s { fd = r.1 })))
              e,
          refl,
          refl,
          refl,
        )

    add_client-cases :
        (a : Address) (l : Loop S L)
        → ((fresh.ssl ≡ none) × (add_client calls fresh a l ≡ fault))
          ⊎ ((m : Loop S L) × (add_client calls fresh a l ≡ done m))
    unfolding add_client new_client
    add_client-cases a l = elim (Option-cases fresh.ssl) [
      | inl null ↦ inl (null, rw null refl)
      | inr (ssl, e) ↦ inr (
        put_client calls fresh (client_over calls fresh ssl a (length l.client_mgr) l.stack) l,
        rw e refl,
      )
    ]

    answer-Served :
        (r : Option Address × json.Heap) (s : State)
        → r.1 ≡ s.heap
        → ((fresh.ssl ≡ none) × (answer http json inet_addr calls fresh r s ≡ fault))
          ⊎ ((t : State) × (answer http json inet_addr calls fresh r s ≡ done t) × Served s t)
    unfolding answer
    answer-Served (some address, heap) s e = elim (add_client-cases address s.loop) [
      | inl (null, bad) ↦ inl (null, bind_fault _ bad)
      | inr (m, added) ↦
          let (t, run, c, h, l) = reply_done http_ok (record s { loop = m; heap = heap }) in
          inr (
            t,
            bind_done _ added ∙ run,
            record { closes = c; heap = h ∙ e; loop = inr (address, added ∙ ap done (sym l)) },
          )
    ]
    answer-Served (none, heap) s e =
        let (t, run, c, h, l) = reply_done http_bad_request (record s { heap = heap }) in
        inr (t, run, record { closes = c; heap = h ∙ e; loop = inl l })

    -- What makes a whole request fault: `SSL_new` gives null, or no zero ends the request's body in the
    -- buffer.
    abbrev pub Hazard : Connection → Parsed → Type 0
    Hazard con p =
        (fresh.ssl ≡ none)
        ⊎ ((n : ℕ) × (headers : List (Bytes × Bytes)) × (p ≡ request (suc n) headers)
            × (is_terminated (drop (suc n) con.bytes) ≡ false))

    -- A round goes on with the loop, or has served the connection.
    abbrev Inspected : State → Run (Option State) → Type 0
    Inspected s r = (r ≡ done none) ⊎ ((t : State) × (r ≡ done (some t)) × Served s t)

    wait_for_more-Inspected :
        (con : Connection) (s : State)
        → Inspected s (wait_for_more http json inet_addr calls fresh con s)
    unfolding wait_for_more
    wait_for_more-Inspected con s = elim (Bool-cases (con.length == http_max_size)) [
      | inl full ↦
          let (t, run, c, h, l) = reply_done http_bad_request s in
          inr (
            t,
            if-true _ _ full ∙ ap (λ x. x >>= λ t. done (some t)) run,
            record { closes = c; heap = h; loop = inl l },
          )
      | inr room ↦ inl (if-false _ _ room)
    ]

    pub inspect-Inspected :
        (con : Connection) (p : Parsed) (s : State)
        → ((inspect http json inet_addr calls fresh con p s ≡ fault) × Hazard con p)
          ⊎ Inspected s (inspect http json inet_addr calls fresh con p s)
    unfolding inspect
    inspect-Inspected con malformed s =
        inr (inr (_, refl, record { closes = refl; heap = refl; loop = inl refl }))
    inspect-Inspected con partial s = inr (wait_for_more-Inspected con s)
    inspect-Inspected con (request zero headers) s = inr (wait_for_more-Inspected con s)
    inspect-Inspected con (request (suc n) headers) s =
        let text = drop (suc n) con.bytes in
        elim (Bool-cases (is_sum con.length (suc n) (content_length headers))) [
          | inr short ↦ inr (inl (if-false _ _ short))
          | inl whole ↦
              elim (body_parse-heap json inet_addr frees text (content_length headers) s.heap) [
                | inl (bad, open_text) ↦
                    inl (if-true _ _ whole ∙ bind_fault _ bad, inr (n, headers, refl, open_text))
                | inr (a, parsed) ↦ elim (answer-Served (a, s.heap) s refl) [
                  | inl (null, bad) ↦
                      inl (if-true _ _ whole ∙ bind_done _ parsed ∙ bind_fault _ bad, inl null)
                  | inr (t, run, served) ↦
                      inr
                        (inr (t, if-true _ _ whole ∙ bind_done _ parsed ∙ bind_done _ run, served))
                ]
              ]
        ]
