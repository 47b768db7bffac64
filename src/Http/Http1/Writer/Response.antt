-- ===== src/Http/Http1/Writer/Response.antt =====
-- http1_fast_path.rs: `write_http1_response`, which decides how a response and its connection go on, and
-- writes it. The header map is the http crate's: an argument with the laws that its documentation gives.
-- The reason phrases of the statuses are the http crate's, too.
use pd_edge.Common.{
  ℕ, List, [], ◌∷◌, ◌++◌, Option, none, some, Bool, true, false, not, ◌&&◌, ◌||◌, ◌≡◌,
  if◌then◌else◌, is_empty,
}
use pd_edge.Common.Bytes.{Text, text, text_eq}
use pd_edge.Http.Http1.Writer.{
  crlf, Fields, Version, http_10, http_11, is_http_10, split_commas, is_visible, any_token,
  response_has_no_body, Frame, write_fields, Written, written_first, write_body, status_text,
}

-- `http::HeaderMap`: the values of a name, in order; `insert`, which replaces them by one; and all
-- fields, in the order of iteration.
pub record HeaderMaps : Type 1 where
  pub HeaderMap : Type 0
  pub get_all : HeaderMap → Text → List Text
  pub insert : HeaderMap → Text → Text → HeaderMap
  pub fields : HeaderMap → Fields
  pub get_all-insert :
      (headers : HeaderMap) (name value : Text)
      → get_all (insert headers name value) name ≡ value ∷ []
  pub get_all-insert_other :
      (headers : HeaderMap) (name value other : Text)
      → text_eq name other ≡ false
      → get_all (insert headers name value) other ≡ get_all headers other

unfoldable pub any_value : Text → List Text → Bool
any_value token [] = false
any_value token (value ∷ values) =
    is_visible value && any_token token (split_commas [] value) || any_value token values

module _ (H : HeaderMaps) where
  unfoldable pub header_contains_token : H.HeaderMap → Text → Text → Bool
  header_contains_token headers name token = any_value token (H.get_all headers name)

  unfoldable pub contains_key : H.HeaderMap → Text → Bool
  contains_key headers name = not (is_empty (H.get_all headers name))

  unfoldable pub connection_keep_alive : Version → H.HeaderMap → Bool
  connection_keep_alive version headers =
      let closes = header_contains_token headers (text "connection") (text "close") in
      let keeps = header_contains_token headers (text "connection") (text "keep-alive") in
      if is_http_10 version then keeps && not closes else not closes

  -- How the body is written and what becomes of the connection.
  pub record Plan : Type 0 where
    pub headers : H.HeaderMap
    pub use_chunked : Bool
    pub keep_alive : Bool

  pub record Response : Type 0 where
    pub version : Version
    pub status : ℕ
    pub headers : H.HeaderMap
    pub body : List Frame

  unfoldable pub has_body : Text → Response → Bool
  has_body method response = not (response_has_no_body response.status method)

  unfoldable pub use_framing : Text → Bool → Response → Plan
  use_framing method request_keep_alive response =
      let has_content_length = contains_key response.headers (text "content-length") in
      let chunked =
        header_contains_token response.headers (text "transfer-encoding") (text "chunked") in
      let keeps =
        request_keep_alive
        && connection_keep_alive (if is_http_10 response.version then http_10 else http_11)
            response.headers in
      if has_body method response && not has_content_length && not chunked
      then (if is_http_10 response.version
          then record { headers = response.headers; use_chunked = chunked; keep_alive = false }
          else record {
            headers = H.insert response.headers (text "transfer-encoding") (text "chunked");
            use_chunked = true;
            keep_alive = keeps;
          })
      else record { headers = response.headers; use_chunked = chunked; keep_alive = keeps }

  unfoldable pub connection_header : Version → Plan → Plan
  connection_header version plan =
      if not plan.keep_alive
      then record plan { headers = H.insert plan.headers (text "connection") (text "close") }
      else if is_http_10 version && not (contains_key plan.headers (text "connection"))
      then record plan { headers = H.insert plan.headers (text "connection") (text "keep-alive") }
      else plan

  unfoldable pub response_plan : Text → Bool → Response → Plan
  response_plan method request_keep_alive response =
      connection_header response.version (use_framing method request_keep_alive response)

  module _ (canonical_reason : ℕ → Option Text) where
    unfoldable pub status_line : Version → ℕ → Text
    status_line version status =
        (if is_http_10 version then text "HTTP/1.0" else text "HTTP/1.1")
        ++ (text " "
            ++ (status_text status
                ++ (text " "
                    ++ (elim (canonical_reason status) [ none ↦ text "OK" | some reason ↦ reason ]
                        ++ crlf))))

    unfoldable pub write_response : Text → Bool → Response → Written
    write_response method request_keep_alive response =
        let plan = response_plan method request_keep_alive response in
        let head =
          status_line response.version response.status
          ++ (write_fields (H.fields plan.headers) ++ crlf) in
        if has_body method response
        then written_first head (write_body plan.use_chunked plan.keep_alive [] response.body)
        else record { bytes = head; keep_alive = some plan.keep_alive }
