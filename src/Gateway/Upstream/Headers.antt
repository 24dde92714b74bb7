-- ===== src/Gateway/Upstream/Headers.antt =====
-- What `buildUpstreamRequest` sends of the client's headers.
use newapi_risk_platform.Base.{
  ℕ, ◌≡◌, refl, sym, ◌∙◌, Bool, true, false, ◌||◌, String, List, [], ◌∷◌, ◌++◌, Option, none, some,
  str_eq, if◌then◌else◌, ◌⊎◌, inl, inr, if_holds, arith, eq_iff,
}
use newapi_risk_platform.Base.Maps
use newapi_risk_platform.Base.Maps.{Dict, lookup-put, lookup-delete}
use Prim.Native.String.{◌++◌ as append}
use newapi_risk_platform.Gateway.Upstream.{
  Header, is_among, hop_by_hop_headers, copy_headers, skips_request_header, copy_request_headers,
  add_values, deleted_headers, delete_all, set, get, set_if_empty, AuthMode, no_auth, passthrough,
  bearer, anthropic, gemini, header, query, unsupported, auth_mode_of, UpstreamRoute, Inbound,
  Outbound, BuildError, Libraries, clean_headers, draft, passthrough_refused, no_secret_header,
  with_headers, authenticate, with_secret, with_path, build_upstream_request,
}

add_values-lookup :
    (k j : String) (vs : List String) (h : Header)
    → str_eq j k ≡ false
    → Maps.lookup k (add_values j vs h) ≡ Maps.lookup k h
add_values-lookup k j [] h apart = refl
add_values-lookup k j (v ∷ vs) h apart = rw (lookup-put j k _ h, apart) refl

-- A key that the copy skips is not in it.
copy_headers-lookup :
    (skipped : String → Bool) (k : String) (source h : Header)
    → skipped k ≡ true
    → Maps.lookup k (copy_headers skipped h source) ≡ Maps.lookup k h
unfolding copy_headers
copy_headers-lookup skipped k [] h s = refl
copy_headers-lookup skipped k ((j, vs) ∷ source) h s =
    copy_headers-lookup skipped k source (if skipped j then h else add_values j vs h) s
    ∙ if_holds (λ (h' : Header). Maps.lookup k h' ≡ Maps.lookup k h) (skipped j) (λ _. refl)
        (λ kept. add_values-lookup k j vs h (ground (arith, eq_iff j k, kept, s)))

delete_all-lookup :
    (k : String) (ks : List String) (h : Header)
    → Maps.lookup k (delete_all ks h) ≡ (if is_among k ks then none else Maps.lookup k h)
unfolding delete_all
delete_all-lookup k [] h = refl
delete_all-lookup k (j ∷ ks) h =
    ground
      (arith, eq_iff j k, eq_iff k j, delete_all-lookup k ks (Maps.delete j h), lookup-delete j k h)

-- The client's credentials and addresses, the headers of the connection, and the length.
abbrev pub stripped_headers : List String
stripped_headers =
    "Authorization" ∷ "X-Api-Key" ∷ "X-Goog-Api-Key" ∷ "Api-Key" ∷ "X-Risk-Gateway-Key"
    ∷ "X-Newapi-User-Id" ∷ "X-User-Id" ∷ "Cookie" ∷ "Forwarded" ∷ "X-Forwarded-For"
    ∷ "X-Forwarded-Host" ∷ "X-Forwarded-Proto" ∷ "Accept-Encoding" ∷ "Content-Length" ∷ "Connection"
    ∷ "Proxy-Connection" ∷ "Keep-Alive" ∷ "Proxy-Authenticate" ∷ "Proxy-Authorization" ∷ "Te"
    ∷ "Trailer" ∷ "Transfer-Encoding" ∷ "Upgrade" ∷ []

is_among-apart :
    (j k : String) (ks : List String)
    → is_among j ks ≡ false
    → is_among k ks ≡ true
    → str_eq j k ≡ false
is_among-apart j k ks out inside = grind (arith, eq_iff j k, out, inside)

is_among-append :
    (k : String) (js ks : List String) → is_among k (js ++ ks) ≡ (is_among k js || is_among k ks)
is_among-append k [] ks = refl
is_among-append k (j ∷ js) ks = ground (arith, is_among-append k js ks)

rest_lem :
    (k : String)
    → is_among k deleted_headers ≡ false
    → is_among k stripped_headers ≡ true
    → skips_request_header k ≡ true
rest_lem k out inside =
    let e : is_among k stripped_headers
        ≡ (is_among k deleted_headers || is_among k ("Content-Length" ∷ hop_by_hop_headers)) =
      is_among-append k deleted_headers ("Content-Length" ∷ hop_by_hop_headers) in
    sym (rw out at e) ∙ inside

copied-lookup :
    (k : String) (source : Header)
    → is_among k stripped_headers ≡ true
    → Maps.lookup k (delete_all deleted_headers (copy_request_headers [] source)) ≡ none
unfolding copy_request_headers Maps.lookup
copied-lookup k source inside =
    delete_all-lookup k deleted_headers _
    ∙ if_holds (λ (o : Option (List String)). o ≡ none) (is_among k deleted_headers) (λ _. refl)
        (λ out. copy_headers-lookup skips_request_header k source [] (rest_lem k out inside))

set_if_empty-lookup :
    (held j v k : String) (h : Header)
    → str_eq j k ≡ false
    → Maps.lookup k (set_if_empty held j v h) ≡ Maps.lookup k h
set_if_empty-lookup held j v k h apart =
    if_holds (λ (h' : Header). Maps.lookup k h' ≡ Maps.lookup k h) (str_eq held "")
      (λ _. rw (lookup-put j k (v ∷ []) h, apart) refl) (λ _. refl)

clean_headers-lookup :
    (i : Inbound) (request_id k : String)
    → is_among k stripped_headers ≡ true
    → Maps.lookup k (clean_headers i request_id) ≡ none
unfolding clean_headers
clean_headers-lookup i request_id k inside =
    let stripped = delete_all deleted_headers (copy_request_headers [] i.headers) in
    set_if_empty-lookup (get "X-Request-Id" i.headers) "X-Request-Id" request_id k
      (set "X-Risk-Request-Id" request_id stripped)
      (is_among-apart "X-Request-Id" k stripped_headers refl inside)
    ∙ (lookup-put "X-Risk-Request-Id" k (request_id ∷ []) stripped
        ∙ (unequal stripped (is_among-apart "X-Risk-Request-Id" k stripped_headers refl inside)
            ∙ copied-lookup k i.headers inside))
  where
    unequal :
        (h : Header)
        → str_eq "X-Risk-Request-Id" k ≡ false
        → (if str_eq "X-Risk-Request-Id" k then some (request_id ∷ []) else Maps.lookup k h)
          ≡ Maps.lookup k h
    unequal h apart = rw apart refl

-- What a request carries as its credential: the route's secret, or in passthrough mode the client's own `Authorization`.
abbrev pub sent_credential : AuthMode → UpstreamRoute → Inbound → (secret : String) → Header
sent_credential passthrough r i secret = set "Authorization" (get "Authorization" i.headers) []
sent_credential bearer r i secret = set "Authorization" (append "Bearer " secret) []
sent_credential anthropic r i secret = set "X-Api-Key" secret []
sent_credential gemini r i secret = set "X-Goog-Api-Key" secret []
sent_credential header r i secret = set r.secret_header secret []
sent_credential _ r i secret = []

-- A request, if there is one, has in the place of a header the credential that its mode sends there, if any.
unfoldable pub IsClean :
    AuthMode → UpstreamRoute → Inbound → Option String → String → BuildError ⊎ Outbound → Type 0
IsClean mode r i decrypted k (inl e) = Unit
IsClean mode r i decrypted k (inr o) =
    (secret : String) × (decrypted ≡ some secret)
    × (Maps.lookup k o.headers ≡ Maps.lookup k (sent_credential mode r i secret))

module _ (lib : Libraries) (r : UpstreamRoute) (i : Inbound) (k : String) where
  put-own :
      (j v : String) (h : Header)
      → Maps.lookup k h ≡ none
      → Maps.lookup k (set j v h) ≡ Maps.lookup k (set j v [])
  unfolding Maps.lookup
  put-own j v h absent = rw (lookup-put j k (v ∷ []) h, lookup-put j k (v ∷ []) [], absent) refl

  delete-absent :
      (j : String) (h : Header) → Maps.lookup k h ≡ none → Maps.lookup k (Maps.delete j h) ≡ none
  delete-absent j h absent = ground (arith, lookup-delete j k h, absent)

  authenticate-IsClean :
      (mode : AuthMode) (secret : String) (o : Outbound)
      → is_among k stripped_headers ≡ true
      → Maps.lookup k o.headers ≡ none
      → IsClean mode r i (some secret) k (authenticate lib mode r i secret o)
  unfolding authenticate IsClean Maps.lookup
  authenticate-IsClean no_auth secret o inside absent =
      (secret, refl, delete-absent "Authorization" o.headers absent)
  authenticate-IsClean passthrough secret o inside absent =
      if_holds (IsClean passthrough r i (some secret) k)
        (str_eq (get "X-Risk-Gateway-Key" i.headers) ""
          || str_eq (get "Authorization" i.headers) "")
        {x = inl passthrough_refused}
        {y = with_headers o (set "Authorization" (get "Authorization" i.headers) o.headers)}
        (λ _. tt) (λ _. (secret, refl, put-own "Authorization" _ o.headers absent))
  authenticate-IsClean bearer secret o inside absent =
      (secret, refl, put-own "Authorization" _ o.headers absent)
  authenticate-IsClean anthropic secret o inside absent = (
    secret,
    refl,
    set_if_empty-lookup _ "Anthropic-Version" _ k _
          (is_among-apart "Anthropic-Version" k stripped_headers refl inside)
        ∙ put-own "X-Api-Key" secret _ (delete-absent "Authorization" o.headers absent),
  )
  authenticate-IsClean gemini secret o inside absent = (
    secret,
    refl,
    put-own "X-Goog-Api-Key" secret _ (delete-absent "Authorization" o.headers absent),
  )
  authenticate-IsClean header secret o inside absent =
      if_holds (IsClean header r i (some secret) k) (str_eq r.secret_header "")
        {x = inl no_secret_header} {y = with_headers o (set r.secret_header secret o.headers)}
        (λ _. tt) (λ _. (secret, refl, put-own r.secret_header secret o.headers absent))
  authenticate-IsClean query secret o inside absent = (secret, refl, absent)
  authenticate-IsClean unsupported secret o inside absent = tt

  with_secret-IsClean :
      (decrypted : Option String) (o : Outbound)
      → is_among k stripped_headers ≡ true
      → Maps.lookup k o.headers ≡ none
      → IsClean (auth_mode_of r.auth_mode) r i decrypted k (with_secret lib r i decrypted o)
  unfolding IsClean
  with_secret-IsClean none o inside absent = tt
  with_secret-IsClean (some secret) o inside absent =
      authenticate-IsClean (auth_mode_of r.auth_mode) secret o inside absent

  -- Under the name of a header that carries a credential, a cookie, a user or an address of the client, or that belongs to
  -- its connection, a request that is built has what the route's mode of authentication sends there, and otherwise nothing:
  -- the route's decrypted secret, or in passthrough mode, under `Authorization` alone, the client's own `Authorization`.
  pub build_upstream_request-IsClean :
      (body : List ℕ) (request_id : String)
      → is_among k stripped_headers ≡ true
      → IsClean
          (auth_mode_of r.auth_mode)
          r
          i
          lib.decrypt
          k
          (build_upstream_request lib i r body request_id)
  unfolding build_upstream_request IsClean
  build_upstream_request-IsClean body request_id inside = by_path (lib.parse_path r.base_url)
    where
      by_path :
          (base : Option String)
          → IsClean
              (auth_mode_of r.auth_mode)
              r
              i
              lib.decrypt
              k
              (with_path lib r i request_id body base)
      by_path none = tt
      by_path (some base) =
          let o = draft i request_id body base in
          if_holds (IsClean (auth_mode_of r.auth_mode) r i lib.decrypt k)
            (lib.new_request o.method o.path)
            (λ _.
              with_secret-IsClean lib.decrypt o inside (clean_headers-lookup i request_id k inside))
            (λ _. tt)
