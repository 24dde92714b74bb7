-- ===== src/Gateway/Upstream.antt =====
-- The request to a provider and its headers: `buildUpstreamRequest`, `copyRequestHeaders`, `copyResponseHeaders` and
-- `joinURLPath` of internal/platform/gateway.go. The keys of a header are in canonical form, as net/http keeps them.

pub mod Headers
pub mod Buffered
mod Tests
use newapi_risk_platform.Base.{
  ℕ, Bool, true, false, ◌&&◌, ◌||◌, String, List, [], ◌∷◌, ◌++◌, Option, none, some, ◌==◌, str_eq,
  if◌then◌else◌, ◌⊎◌, inl, inr,
}
use newapi_risk_platform.Base.Maps
use newapi_risk_platform.Base.Maps.{Dict}
use newapi_risk_platform.Gateway.Text.{text_eq}
use newapi_risk_platform.Audit.Texts.{codes, lowered, turned}
use Prim.Native.Char.{code}
use Prim.Native.String.{◌++◌ as append, [] as []ˢ, ◌∷◌ as ◌∷ˢ◌}

abbrev pub Header : Type 0
Header = Dict (List String)

abbrev pub is_among : String → List String → Bool
is_among k [] = false
is_among k (j ∷ js) = str_eq k j || is_among k js

-- The names of `isHopByHopHeader`.
abbrev pub hop_by_hop_headers : List String
hop_by_hop_headers =
    "Connection" ∷ "Proxy-Connection" ∷ "Keep-Alive" ∷ "Proxy-Authenticate" ∷ "Proxy-Authorization"
    ∷ "Te" ∷ "Trailer" ∷ "Transfer-Encoding" ∷ "Upgrade" ∷ []

unfoldable pub is_hop_by_hop_header : String → Bool
is_hop_by_hop_header k = is_among k hop_by_hop_headers

-- `Header.Get`: the first value, or the empty text.
abbrev pub first_value : Option (List String) → String
first_value none = ""
first_value (some []) = ""
first_value (some (v ∷ vs)) = v

abbrev pub get : String → Header → String
get k h = first_value (Maps.lookup k h)

abbrev pub values_of : Option (List String) → List String
values_of none = []
values_of (some vs) = vs

-- `Header.Add` of each value; a key with no value is not added.
abbrev pub add_values : String → List String → Header → Header
add_values k [] h = h
add_values k (v ∷ vs) h = Maps.put k (values_of (Maps.lookup k h) ++ (v ∷ vs)) h

unfoldable pub copy_headers : (skipped : String → Bool) → (destination source : Header) → Header
copy_headers skipped destination [] = destination
copy_headers skipped destination ((k, vs) ∷ source) =
    copy_headers skipped (if skipped k then destination else add_values k vs destination) source

abbrev pub skips_request_header : String → Bool
skips_request_header k = is_among k ("Content-Length" ∷ hop_by_hop_headers)

unfoldable pub copy_request_headers : (destination source : Header) → Header
copy_request_headers = copy_headers skips_request_header

abbrev pub skips_response_header : String → Bool
skips_response_header k =
    is_among k ("Content-Length" ∷ "Set-Cookie" ∷ "Server" ∷ "Alt-Svc" ∷ hop_by_hop_headers)

unfoldable pub copy_response_headers : (destination source : Header) → Header
copy_response_headers = copy_headers skips_response_header

-- The headers that are deleted from the copy.
abbrev pub deleted_headers : List String
deleted_headers =
    "Authorization" ∷ "X-Api-Key" ∷ "X-Goog-Api-Key" ∷ "Api-Key" ∷ "X-Risk-Gateway-Key"
    ∷ "X-Newapi-User-Id" ∷ "X-User-Id" ∷ "Cookie" ∷ "Forwarded" ∷ "X-Forwarded-For"
    ∷ "X-Forwarded-Host" ∷ "X-Forwarded-Proto" ∷ "Accept-Encoding" ∷ []

unfoldable pub delete_all : List String → Header → Header
delete_all [] h = h
delete_all (k ∷ ks) h = delete_all ks (Maps.delete k h)

abbrev pub set : String → String → Header → Header
set k v h = Maps.put k (v ∷ []) h

pub data AuthMode : Type 0 where
  no_auth passthrough bearer anthropic gemini header query unsupported : AuthMode

abbrev is_mode : String → String → Bool
is_mode mode name = text_eq (lowered mode) (codes name)

-- `strings.ToLower(route.AuthMode)`.
unfoldable pub auth_mode_of : String → AuthMode
unfolding lowered
auth_mode_of mode =
    if is_mode mode "" || is_mode mode "none"
    then no_auth
    else if is_mode mode "passthrough"
    then passthrough
    else if is_mode mode "bearer"
    then bearer
    else if is_mode mode "anthropic"
    then anthropic
    else if is_mode mode "gemini"
    then gemini
    else if is_mode mode "header"
    then header
    else if is_mode mode "query"
    then query
    else unsupported

-- A route as the request needs it; the secret header is in canonical form.
pub record UpstreamRoute : Type 0 where
  pub base_url : String
  pub auth_mode : String
  pub secret_header : String

pub record Inbound : Type 0 where
  pub method : String
  pub wildcard : String
  pub raw_query : String
  pub headers : Header

pub record Outbound : Type 0 where
  pub method : String
  pub path : String
  pub raw_query : String
  pub headers : Header
  pub body : List ℕ

pub data BuildError : Type 0 where
  invalid_url invalid_request undecryptable : BuildError
  passthrough_refused no_secret_header unsupported_mode : BuildError

-- What other libraries answer: the parse of the base URL gives its path, and a query is a text that `set_query` changes.
pub record Libraries : Type 0 where
  pub parse_path : String → Option String
  pub new_request : (method path : String) → Bool
  pub decrypt : Option String
  pub set_query : (raw_query parameter value : String) → String

abbrev pub set_if_empty : (held : String) → (k v : String) → Header → Header
set_if_empty held k v h = if str_eq held "" then set k v h else h

unfoldable trim_slashes : String → String
trim_slashes []ˢ = []ˢ
trim_slashes (c ∷ˢ s) = let rest = trim_slashes s in if code c == b'/' then rest else c ∷ˢ s

-- `strings.TrimRight` of the base, a slash, and `strings.TrimLeft` of the request's path.
unfoldable pub join_url_path : (base_path request_path : String) → String
unfolding turned trim_slashes
join_url_path base path =
    let base' = if str_eq base "" then "/" else base in
    append (turned (trim_slashes (turned base' "")) "") (append "/" (trim_slashes path))

-- The copy of the client's headers without its credentials, and with the identifier of the request.
unfoldable pub clean_headers : Inbound → (request_id : String) → Header
clean_headers i request_id = set_if_empty (get "X-Request-Id" i.headers) "X-Request-Id" request_id (
    set "X-Risk-Request-Id" request_id
      (delete_all deleted_headers (copy_request_headers [] i.headers)))

abbrev pub with_headers : Outbound → Header → BuildError ⊎ Outbound
with_headers o h = inr (record o { headers = h })

unfoldable pub authenticate :
    Libraries
    → AuthMode
    → UpstreamRoute
    → Inbound
    → (secret : String) → Outbound
    → BuildError ⊎ Outbound
authenticate lib no_auth r i secret o = with_headers o (Maps.delete "Authorization" o.headers)
authenticate lib passthrough r i secret o =
    let authorization = get "Authorization" i.headers in
    if str_eq (get "X-Risk-Gateway-Key" i.headers) "" || str_eq authorization ""
    then inl passthrough_refused
    else with_headers o (set "Authorization" authorization o.headers)
authenticate lib bearer r i secret o =
    with_headers o (set "Authorization" (append "Bearer " secret) o.headers)
authenticate lib anthropic r i secret o =
    let h = set "X-Api-Key" secret (Maps.delete "Authorization" o.headers) in
    with_headers o (set_if_empty (get "Anthropic-Version" h) "Anthropic-Version" "2023-06-01" h)
authenticate lib gemini r i secret o =
    with_headers o (set "X-Goog-Api-Key" secret (Maps.delete "Authorization" o.headers))
authenticate lib header r i secret o =
    if str_eq r.secret_header ""
    then inl no_secret_header
    else with_headers o (set r.secret_header secret o.headers)
authenticate lib query r i secret o =
    let parameter = if str_eq r.secret_header "" then "key" else r.secret_header in
    inr (record o { raw_query = lib.set_query o.raw_query parameter secret })
authenticate lib unsupported r i secret o = inl unsupported_mode

abbrev pub with_secret :
    Libraries → UpstreamRoute → Inbound → Option String → Outbound → BuildError ⊎ Outbound
with_secret lib r i none o = inl undecryptable
with_secret lib r i (some secret) o = authenticate lib (auth_mode_of r.auth_mode) r i secret o

-- The request before its credential is set.
abbrev pub draft : Inbound → (request_id : String) → (body : List ℕ) → (base : String) → Outbound
draft i request_id body base = record {
  method = i.method;
  path = join_url_path base (if str_eq i.wildcard "" then "/" else i.wildcard);
  raw_query = i.raw_query;
  headers = clean_headers i request_id;
  body = body;
}

abbrev pub with_path :
    Libraries
    → UpstreamRoute
    → Inbound
    → (request_id : String) → (body : List ℕ) → Option String
    → BuildError ⊎ Outbound
with_path lib r i request_id body none = inl invalid_url
with_path lib r i request_id body (some base) =
    let o = draft i request_id body base in
    if lib.new_request o.method o.path
    then with_secret lib r i lib.decrypt o
    else inl invalid_request

unfoldable pub build_upstream_request :
    Libraries
    → Inbound
    → UpstreamRoute
    → (body : List ℕ) → (request_id : String) → BuildError ⊎ Outbound
build_upstream_request lib i r body request_id =
    with_path lib r i request_id body (lib.parse_path r.base_url)
