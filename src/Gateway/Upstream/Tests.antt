-- ===== src/Gateway/Upstream/Tests.antt =====
-- The request to a provider and the relay of its response on concrete headers and bodies.
use newapi_risk_platform.Base.{◌≡◌, refl, true, false, [], ◌∷◌, none, some}
use newapi_risk_platform.Gateway.Upstream.{
  UpstreamRoute, Inbound, Libraries, auth_mode_of, join_url_path, build_upstream_request,
}
use newapi_risk_platform.Gateway.Upstream.Headers.{IsClean, build_upstream_request-IsClean}
use newapi_risk_platform.Gateway.Upstream.Buffered.{Response, proxy_buffered}
use newapi_risk_platform.Gateway.Upstream.Buffered.Faithful.{IsFaithful, proxy_buffered-IsFaithful}

abbrev libraries : Libraries
libraries = record {
  parse_path = λ url. some "/v1/";
  new_request = λ method path. true;
  decrypt = some "sk";
  set_query = λ query parameter value. query;
}

abbrev route : UpstreamRoute
route = record { base_url = "https://p/v1/"; auth_mode = "Bearer"; secret_header = "" }

abbrev inbound : Inbound
inbound = record {
  method = "POST";
  wildcard = "/chat";
  raw_query = "";
  headers =
      ("Authorization", "Bearer client" ∷ []) ∷ ("Cookie", "c" ∷ []) ∷ ("Accept", "a" ∷ []) ∷ [];
}

build_upstream_request-IsClean_example :
    IsClean
      (auth_mode_of "Bearer")
      route
      inbound
      (some "sk")
      "Authorization"
      (build_upstream_request libraries inbound route [] "r1")
build_upstream_request-IsClean_example =
    build_upstream_request-IsClean libraries route inbound "Authorization" [] "r1" refl

joined : join_url_path "/v1/" "/chat" ≡ "/v1/chat"
unfolding join_url_path
joined = refl

-- The second read of the provider fails after the client has taken everything.
abbrev cut_off : Response
cut_off = record { status = 200; headers = []; body = 1 ∷ 2 ∷ 3 ∷ 4 ∷ []; fails = true }

proxy_buffered-IsFaithful_example :
    IsFaithful 2 555
      (λ body. false)
      cut_off
      none
      (proxy_buffered 2 555 (λ body. false) "r1" cut_off none)
proxy_buffered-IsFaithful_example =
    proxy_buffered-IsFaithful 2 555 (λ body. false) "r1" cut_off none

blamed_on_client :
    (proxy_buffered 2 555 (λ body. false) "r1" cut_off none).0.risk_code ≡ "CLIENT_DISCONNECT"
unfolding proxy_buffered
blamed_on_client = refl
