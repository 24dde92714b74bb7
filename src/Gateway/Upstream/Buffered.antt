-- ===== src/Gateway/Upstream/Buffered.antt =====
-- The relay of a response that is no event stream: `proxyBuffered` of internal/platform/gateway.go.
pub mod Faithful
use newapi_risk_platform.Base.{
  ℕ, zero, suc, ◌-◌, ◌≡◌, ◌≤◌, ◌<◌, refl, sym, ap, subst, ◌∙◌, Bool, true, false, not, ◌&&◌, String,
  List, [], ◌∷◌, ◌++◌, Option, none, some, leb, if◌then◌else◌, length, take, drop, take-drop, ◌⊎◌,
  inl, inr, if_holds, Bool-cases, arith, append-nil, append_assoc, length-take, length-drop,
}
use newapi_risk_platform.Gateway.Types.{ProxyResult}
use newapi_risk_platform.Gateway.Upstream.{Header, copy_response_headers, set}

-- The provider's response: the bytes of its body and whether a read fails after them, alone.
pub record Response : Type 0 where
  pub status : ℕ
  pub headers : Header
  pub body : List ℕ
  pub fails : Bool

-- What the client receives: an error page of the gateway, or a header and bytes of the body.
pub data Sent : Type 0 where
  error_page : (status : ℕ) → (code : String) → Sent
  relayed : (status : ℕ) → Header → (bytes : List ℕ) → Sent

-- A client takes all bytes, or as many as are given before its connection fails.
abbrev pub accepted : Option ℕ → List ℕ → List ℕ
accepted none bytes = bytes
accepted (some n) bytes = take n bytes

abbrev pub fits : Option ℕ → List ℕ → Bool
fits none bytes = true
fits (some n) bytes = leb (length bytes) n

abbrev pub left_after : Option ℕ → List ℕ → Option ℕ
left_after none bytes = none
left_after (some n) bytes = some (n - length bytes)

abbrev pub page : (status : ℕ) → (code : String) → ProxyResult × Sent
page status code = (
  record { bytes_written = 0; risk_code = code; status = status; stream_committed = false },
  error_page status code,
)

abbrev pub finish : (status : ℕ) → Header → (bytes : List ℕ) → (whole : Bool) → ProxyResult × Sent
finish status h bytes whole = (
  record {
    bytes_written = length bytes;
    risk_code = if whole then "" else "CLIENT_DISCONNECT";
    status = status;
    stream_committed = false;
  },
  relayed status h bytes,
)

-- The prefix is written, and then the rest if there may be one. The error of the copy is the client's or the provider's.
abbrev pub relay :
    Response → Header → (complete : Bool) → (prefix rest : List ℕ) → Option ℕ → ProxyResult × Sent
relay r h complete prefix rest client =
    let client' = left_after client prefix in
    if fits client prefix && not complete
    then finish r.status h (accepted client prefix ++ accepted client' rest)
        (fits client' rest && not r.fails)
    else finish r.status h (accepted client prefix) (fits client prefix)

unfoldable pub proxy_buffered :
    (limit error_status : ℕ)
    → (is_error_envelope : List ℕ → Bool) → (request_id : String) → Response
    → (client : Option ℕ) → ProxyResult × Sent
proxy_buffered limit error_status is_error_envelope request_id r client =
    let prefix = take (suc limit) r.body in
    let complete = leb (length prefix) limit in
    let h =
      set "X-Oneapi-Request-Id" request_id
        (set "X-Risk-Request-Id" request_id (copy_response_headers [] r.headers)) in
    if r.fails && leb (length r.body) limit
    then page error_status "UPSTREAM_READ_ERROR"
    else if complete && is_error_envelope prefix
    then page error_status "UPSTREAM_MODEL_ERROR"
    else relay r h complete prefix (drop (suc limit) r.body) client
