-- ===== src/Http/Http1/Writer/Framing.antt =====
-- http1_fast_path.rs: what the header of a response announces of its body and of the connection.
use pd_edge.Common.{
  [], Bool, true, false, not, ◌&&◌, is_empty, ◌≡◌, refl, ap, ◌∙◌, arith, Bool-cases, ◌⊎◌, inl, inr,
}
use pd_edge.Common.Bytes.{Text, text, text_eq, lowercase, lowercase_byte}
use pd_edge.Common.Whitespace.{trim, trim_end, trim_start_from, space_length}
use pd_edge.Http.Http1.Writer.{Version, is_http_10, any_token, is_visible, split_commas}
use pd_edge.Http.Http1.Writer.Response.{
  HeaderMaps, any_value, header_contains_token, contains_key, Plan, Response, has_body, use_framing,
  connection_header, response_plan,
}

false_or : (b : Bool) → (b ≡ false) ⊎ (b ≡ true)
false_or true = inr refl
false_or false = inl refl

kept_or :
    {P : Type 0} (asked allowed : Bool) → P → ((asked && allowed) ≡ false) ⊎ ((asked ≡ true) × P)
kept_or true true p = inr (refl, p)
kept_or true false p = inl refl
kept_or false allowed p = inl refl

unframed :
    (has_body has_length chunked : Bool)
    → (has_body && not has_length && not chunked) ≡ false
    → (has_body ≡ false) ⊎ ((chunked ≡ true) ⊎ (has_length ≡ true))
unframed false has_length chunked e = inl refl
unframed true true chunked e = inr (inr refl)
unframed true false true e = inr (inl refl)
unframed true false false e = absurd (ground (arith, e))

module _ (H : HeaderMaps) where
  token-insert :
      (headers : H.HeaderMap) (name value token : Text)
      → (is_visible value && any_token token (split_commas [] value)) ≡ true
      → header_contains_token H (H.insert headers name value) name token ≡ true
  unfolding header_contains_token any_value
  token-insert headers name value token h =
      ap (any_value token) (H.get_all-insert headers name value) ∙ rw h refl

  token-insert_other :
      (headers : H.HeaderMap) (name value other token : Text)
      → text_eq name other ≡ false
      → header_contains_token H (H.insert headers name value) other token
        ≡ header_contains_token H headers other token
  unfolding header_contains_token
  token-insert_other headers name value other token h =
      ap (any_value token) (H.get_all-insert_other headers name value other h)

  key-insert_other :
      (headers : H.HeaderMap) (name value other : Text)
      → text_eq name other ≡ false
      → contains_key H (H.insert headers name value) other ≡ contains_key H headers other
  unfolding contains_key
  key-insert_other headers name value other h =
      ap (λ values. not (is_empty values)) (H.get_all-insert_other headers name value other h)

  -- A body in chunks is announced as one.
  abbrev pub IsChunkedAnnounced : Plan H → Type 0
  IsChunkedAnnounced plan =
      (plan.use_chunked ≡ false)
      ⊎ (header_contains_token H plan.headers (text "transfer-encoding") (text "chunked") ≡ true)

  -- The end of the body can be told without the end of the connection.
  abbrev pub IsDelimited : Text → Response H → Plan H → Type 0
  IsDelimited method response plan =
      (has_body H method response ≡ false)
      ⊎ ((plan.use_chunked ≡ true) ⊎ (contains_key H plan.headers (text "content-length") ≡ true))

  abbrev pub IsKeptDelimited : Text → Bool → Response H → Plan H → Type 0
  IsKeptDelimited method request_keep_alive response plan =
      (request_keep_alive ≡ true) × IsDelimited method response plan

  use_framing-IsDelimited :
      (method : Text) (request_keep_alive : Bool) (response : Response H)
      → IsChunkedAnnounced (use_framing H method request_keep_alive response)
        × (((use_framing H method request_keep_alive response).keep_alive ≡ false)
            ⊎ IsKeptDelimited method request_keep_alive response
                (use_framing H method request_keep_alive response))
  unfolding use_framing is_visible split_commas any_token text_eq trim trim_end trim_start_from
      space_length lowercase lowercase_byte
  use_framing-IsDelimited method request_keep_alive response =
      let cl = contains_key H response.headers (text "content-length") in
      let ch =
        header_contains_token H response.headers (text "transfer-encoding") (text "chunked") in
      elim (Bool-cases (has_body H method response && not cl && not ch)) [
        | inl e ↦ elim (Bool-cases (is_http_10 response.version)) [
          | inl f ↦ rw (e, f) (false_or ch, inl refl)
          | inr f ↦
              rw (e, f)
                (
                  inr (
                      token-insert response.headers (text "transfer-encoding") (text "chunked")
                        (text "chunked") refl),
                  kept_or request_keep_alive _ (inr (inl refl)),
                )
        ]
        | inr e ↦ rw e (
          false_or ch,
          kept_or request_keep_alive _ (unframed (has_body H method response) cl ch e),
        )
      ]

  abbrev pub Announces : Text → Bool → Response H → Plan H → Type 0
  Announces method request_keep_alive response plan =
      IsChunkedAnnounced plan
      × (((plan.keep_alive ≡ false)
            × (header_contains_token H plan.headers (text "connection") (text "close") ≡ true))
          ⊎ ((plan.keep_alive ≡ true) × IsKeptDelimited method request_keep_alive response plan))

  abbrev plan_of : H.HeaderMap → Bool → Bool → Plan H
  plan_of headers use_chunked keep_alive = record {
    headers = headers;
    use_chunked = use_chunked;
    keep_alive = keep_alive;
  }

  -- A header `connection` does not touch what tells of the body.
  announced-insert :
      (headers : H.HeaderMap) (value : Text) (use_chunked k l : Bool)
      → IsChunkedAnnounced (plan_of headers use_chunked k)
      → IsChunkedAnnounced (plan_of (H.insert headers (text "connection") value) use_chunked l)
  unfolding text_eq
  announced-insert headers value use_chunked k l (inl e) = inl e
  announced-insert headers value use_chunked k l (inr e) = inr (
      token-insert_other headers (text "connection") value (text "transfer-encoding")
        (text "chunked") refl
      ∙ e)

  IsDelimited-insert :
      (method : Text) (response : Response H) (headers : H.HeaderMap) (value : Text)
      (use_chunked k l : Bool)
      → IsDelimited method response (plan_of headers use_chunked k)
      → IsDelimited method response
          (plan_of (H.insert headers (text "connection") value) use_chunked l)
  unfolding text_eq
  IsDelimited-insert method response headers value use_chunked k l (inl e) = inl e
  IsDelimited-insert method response headers value use_chunked k l (inr (inl e)) = inr (inl e)
  IsDelimited-insert method response headers value use_chunked k l (inr (inr e)) =
      inr
        (inr (key-insert_other headers (text "connection") value (text "content-length") refl ∙ e))

  connection_header-Announces :
      (method : Text) (request_keep_alive : Bool) (response : Response H) (version : Version)
      (headers : H.HeaderMap) (use_chunked keep_alive : Bool)
      → IsChunkedAnnounced (plan_of headers use_chunked keep_alive)
      → (keep_alive ≡ false)
        ⊎ IsKeptDelimited method request_keep_alive response
            (plan_of headers use_chunked keep_alive)
      → Announces method request_keep_alive response
          (connection_header H version (plan_of headers use_chunked keep_alive))
  unfolding connection_header is_visible split_commas any_token text_eq trim trim_end
      trim_start_from space_length lowercase lowercase_byte
  connection_header-Announces method asked response version headers use_chunked false a d = (
    announced-insert headers (text "close") use_chunked false false a,
    inl (refl, token-insert headers (text "connection") (text "close") (text "close") refl),
  )
  connection_header-Announces method asked response version headers use_chunked true a (inl e) =
      absurd (ground (arith, e))
  connection_header-Announces method asked response version headers use_chunked true a
        (inr (r, d)) =
      elim (Bool-cases (is_http_10 version && not (contains_key H headers (text "connection")))) [
        | inl e ↦ rw e (
          announced-insert headers (text "keep-alive") use_chunked true true a,
          inr (
            refl,
            (
              r,
              IsDelimited-insert method response headers (text "keep-alive") use_chunked true true
                  d,
            ),
          ),
        )
        | inr e ↦ rw e (a, inr (refl, (r, d)))
      ]

  -- The header of a response that `write_http1_response` writes tells the truth: a body in chunks is
  -- announced as one; and either the header has the token `close`, or the request asked to keep the
  -- connection and the response has no body, one in chunks, or a content length.
  pub response_plan-Announces :
      (method : Text) (request_keep_alive : Bool) (response : Response H)
      → Announces method request_keep_alive response
          (response_plan H method request_keep_alive response)
  unfolding response_plan
  response_plan-Announces method request_keep_alive response =
      let plan = use_framing H method request_keep_alive response in
      let (announced, kept) = use_framing-IsDelimited method request_keep_alive response in
      connection_header-Announces method request_keep_alive response response.version plan.headers
        plan.use_chunked plan.keep_alive announced kept
