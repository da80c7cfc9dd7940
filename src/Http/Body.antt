-- ===== src/Http/Body.antt =====
-- RuruLoop.cpp: `BodyParse`, and what `HttpRequestHandle` reads of the request's headers.
use ruru.Base.{
  ℕ, zero, suc, ◌+◌, ◌^◌, Bool, true, false, not, ◌&&◌, ◌||◌, List, [], ◌∷◌, Option, none, some,
  leb, ◌==◌, if◌then◌else◌, Bytes, ℤ, ltb_ℤ, to_unsigned, map, Run, done, fault,
}
use ruru.Net.Decimal.{atoi}
use ruru.Event.{Address, is_terminated}
use ruru.Net.{swap32}

-- The functions of cJSON that the program calls; `Heap` is where the documents live.
pub record Json : Type 1 where
  pub Heap : Type 0
  pub Root : Type 0
  pub Item : Type 0
  -- `cJSON_Parse` of the text that the pointer points to, `cJSON_Delete`
  pub parse : Bytes → Heap → Option Root × Heap
  pub delete : Root → Heap → Heap
  -- `cJSON_GetObjectItem`
  pub get_item : Root → Bytes → Option Item
  pub is_string : Item → Bool
  pub is_number : Item → Bool
  -- the fields `valuestring` and `valueint`
  pub value_string : Item → Bytes
  pub value_int : Item → ℤ

-- "ip" and "port"
abbrev pub ip_name : Bytes
ip_name = 105 ∷ 112 ∷ []

abbrev pub port_name : Bytes
port_name = 112 ∷ 111 ∷ 114 ∷ 116 ∷ []

module _ (json : Json) (inet_addr : Bytes → ℕ) where
  -- `BodyParse` once both items have been looked up: what `address` becomes, `none` for false. The
  -- port is a `uint16_t`.
  unfoldable pub read_address : Option json.Item → Option json.Item → Option Address
  read_address none port = none
  read_address (some ip) none = none
  read_address (some ip) (some port) =
      if not (json.is_string ip) || not (json.is_number port)
      then none
      else some (record {
        host = swap32 (inet_addr (json.value_string ip));
        port = to_unsigned (2 ^ 16) (json.value_int port);
      })

  -- `BodyParse` from what `cJSON_Parse` gave; each path behind it calls `cJSON_Delete(root)`.
  unfoldable pub read_root : Option json.Root × json.Heap → Option Address × json.Heap
  read_root (none, heap) = (none, heap)
  read_root (some root, heap) = (
    read_address (json.get_item root ip_name) (json.get_item root port_name),
    json.delete root heap,
  )

  -- `BodyParse`; `data` points into the connection's buffer and is not null. `cJSON_Parse` reads up to
  -- a zero, also beyond the buffer where what is left of it has none.
  unfoldable pub body_parse : Bytes → ℤ → json.Heap → Run (Option Address × json.Heap)
  body_parse text length heap =
      if ltb_ℤ length (ℤ.pos 0)
      then done (none, heap)
      else if is_terminated text
      then done (read_root (json.parse text heap))
      else fault

-- "content-length"
abbrev pub content_length_name : Bytes
content_length_name =
    99 ∷ 111 ∷ 110 ∷ 116 ∷ 101 ∷ 110 ∷ 116 ∷ 45 ∷ 108 ∷ 101 ∷ 110 ∷ 103 ∷ 116 ∷ 104 ∷ []

-- `tolower`
abbrev pub lower : ℕ → ℕ
lower c = if leb 65 c && leb c 90 then c + 32 else c

abbrev pub equal_bytes : Bytes → Bytes → Bool
equal_bytes [] [] = true
equal_bytes (x ∷ xs) (y ∷ ys) = (x == y) && equal_bytes xs ys
equal_bytes [] (_ ∷ _) = false
equal_bytes (_ ∷ _) [] = false

-- The equal length and `strncasecmp`.
abbrev pub is_content_length : Bytes → Bool
is_content_length name = equal_bytes (map lower name) content_length_name

-- The loop over the headers: the value of the first `content-length`, 0 without one.
unfoldable pub content_length : List (Bytes × Bytes) → ℤ
content_length [] = ℤ.pos 0
content_length ((name, value) ∷ headers) =
    let rest = content_length headers in if is_content_length name then atoi value else rest

-- `contentLength > 0` of the `size_t`, and `con->length == status + (int32_t) contentLength`.
abbrev pub is_sum : ℕ → ℕ → ℤ → Bool
is_sum total status (ℤ.pos zero) = false
is_sum total status (ℤ.pos (suc n)) = total == (status + suc n)
is_sum total status (ℤ.negsuc n) = (total + suc n) == status
