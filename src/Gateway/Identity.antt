-- ===== src/Gateway/Identity.antt =====
-- Who a service behind service-gateway is told that a request comes from.
use rust_service.Base.{
  ℕ, String, ◌≡◌, refl, ap, ◌∙◌, ◌⊎◌, inl, inr, Bool, true, Option, none, some, arith,
  if◌then◌else◌, string_partial_eq, ◌==◌, nat_partial_eq, pair_partial_eq, ok, Bool-cases,
  Option-cases, Bytes, bytes_of, lookup, remove, lookup-insert, lookup-remove,
}
use rust_service.Gateway.Proxy.{
  Headers, Session, RequestCtx, Validated, passed, is_public_route, extract_token, authenticate,
  request_filter, insert_header, insert_some, upstream_request_filter,
}

insert_header-lookup :
    (is_header : Bytes → Bool) (name key : String) (value : Bytes) (headers next : Headers)
    → insert_header is_header name value headers ≡ ok next
    → lookup key next ≡ (if name == key then some value else lookup key headers)
unfolding insert_header
insert_header-lookup is_header name key value headers next h =
    ground
      (arith, lookup-insert name key value (remove name headers), lookup-remove name key headers)

-- An absent value leaves what was there.
abbrev unless : {A : Type 0} → Option A → Option A → Option A
unless none old = old
unless (some value) old = some value

insert_some-lookup :
    (is_header : Bytes → Bool) (name key : String) (value : Option Bytes) (headers next : Headers)
    → insert_some is_header name value headers ≡ ok next
    → lookup key next
      ≡ (if name == key then unless value (lookup key headers) else lookup key headers)
unfolding insert_some
insert_some-lookup is_header name key none headers next h = ground arith
insert_some-lookup is_header name key (some value) headers next h =
    ground (arith, insert_header-lookup is_header name key value headers next h)

unless_absent : {A : Type 0} (o : Option A) → unless o none ≡ o
unless_absent none = refl
unless_absent (some a) = refl

-- The request's headers without those of an identity.
abbrev bare : Headers → Headers
bare upstream =
    remove "x-request-id" (remove "x-email" (remove "x-username" (remove "x-user-id" upstream)))

bare-none :
    (upstream : Headers)
    → (lookup "x-user-id" (bare upstream) ≡ none)
      × (lookup "x-username" (bare upstream) ≡ none)
      × (lookup "x-email" (bare upstream) ≡ none)
bare-none upstream =
    let a = remove "x-user-id" upstream in
    let b = remove "x-username" a in
    let c = remove "x-email" b in
    (
      lookup-remove "x-request-id" "x-user-id" c
          ∙ lookup-remove "x-email" "x-user-id" b
          ∙ lookup-remove "x-username" "x-user-id" a
          ∙ lookup-remove "x-user-id" "x-user-id" upstream,
      lookup-remove "x-request-id" "x-username" c
          ∙ lookup-remove "x-email" "x-username" b
          ∙ lookup-remove "x-username" "x-username" a,
      lookup-remove "x-request-id" "x-email" c ∙ lookup-remove "x-email" "x-email" b,
    )

-- The headers between the steps of a filter that succeeds.
steps :
    (is_header : Bytes → Bool) (session : Session) (upstream next : Headers) (ctx : RequestCtx)
    → upstream_request_filter is_header session upstream ctx ≡ ok next
    → (proto : Bytes) × ((h₁ h₂ h₃ h₄ h₅ h₆ h₇ : Headers) × (insert_header is_header
            "x-forwarded-for" session.client_addr
            (bare upstream)
          ≡ ok h₁)
        × (insert_header is_header "x-real-ip" session.client_addr h₁ ≡ ok h₂)
        × (insert_header is_header "x-forwarded-proto" proto h₂ ≡ ok h₃)
        × (insert_header is_header "x-request-id" ctx.request_id h₃ ≡ ok h₄)
        × (insert_some is_header "x-user-id" ctx.user_id h₄ ≡ ok h₅)
        × (insert_some is_header "x-username" ctx.username h₅ ≡ ok h₆)
        × (insert_some is_header "x-email" ctx.email h₆ ≡ ok h₇)
        × (insert_some is_header "x-forwarded-host" (lookup "host" h₇) h₇ ≡ ok next))
unfolding upstream_request_filter
steps is_header session upstream next ctx h =
    let proto : Bytes = elim (lookup "x-forwarded-proto" session.headers) [
      | none ↦ bytes_of "http"
      | some value ↦ value
    ] in
    (proto, ground arith)

-- Whatever headers the client sends, a service is told the identity and the request id that the
-- gateway holds of the request, and no identity where the gateway holds none.
pub identity_is_own :
    (is_header : Bytes → Bool) (session : Session) (upstream next : Headers) (ctx : RequestCtx)
    → upstream_request_filter is_header session upstream ctx ≡ ok next
    → (lookup "x-user-id" next ≡ ctx.user_id)
      × (lookup "x-username" next ≡ ctx.username)
      × (lookup "x-email" next ≡ ctx.email)
      × (lookup "x-request-id" next ≡ some ctx.request_id)
identity_is_own is_header session upstream next ctx h =
    let (proto, (h₁, h₂, h₃, h₄, h₅, h₆, h₇, e₁, e₂, e₃, e₄, e₅, e₆, e₇, e₈)) =
      steps is_header session upstream next ctx h in
    let from_host = λ (k : String).
      insert_some-lookup is_header "x-forwarded-host" k (lookup "host" h₇) h₇ next e₈ in
    let from_email = λ (k : String). insert_some-lookup is_header "x-email" k ctx.email h₆ h₇ e₇ in
    let from_name =
      λ (k : String). insert_some-lookup is_header "x-username" k ctx.username h₅ h₆ e₆ in
    let from_user =
      λ (k : String). insert_some-lookup is_header "x-user-id" k ctx.user_id h₄ h₅ e₅ in
    let from_request =
      λ (k : String). insert_header-lookup is_header "x-request-id" k ctx.request_id h₃ h₄ e₄ in
    let from_proto =
      λ (k : String). insert_header-lookup is_header "x-forwarded-proto" k proto h₂ h₃ e₃ in
    let from_ip =
      λ (k : String). insert_header-lookup is_header "x-real-ip" k session.client_addr h₁ h₂ e₂ in
    let from_addr = λ (k : String).
      insert_header-lookup is_header "x-forwarded-for" k session.client_addr (bare upstream) h₁
        e₁ in
    let absent = bare-none upstream in
    (
      from_host "x-user-id"
          ∙ from_email "x-user-id"
          ∙ from_name "x-user-id"
          ∙ from_user "x-user-id"
          ∙ ap (unless ctx.user_id) (
              from_request "x-user-id"
              ∙ from_proto "x-user-id"
              ∙ from_ip "x-user-id"
              ∙ from_addr "x-user-id"
              ∙ absent.0)
          ∙ unless_absent ctx.user_id,
      from_host "x-username"
          ∙ from_email "x-username"
          ∙ from_name "x-username"
          ∙ ap (unless ctx.username) (
              from_user "x-username"
              ∙ from_request "x-username"
              ∙ from_proto "x-username"
              ∙ from_ip "x-username"
              ∙ from_addr "x-username"
              ∙ absent.1)
          ∙ unless_absent ctx.username,
      from_host "x-email"
          ∙ from_email "x-email"
          ∙ ap (unless ctx.email) (
              from_name "x-email"
              ∙ from_user "x-email"
              ∙ from_request "x-email"
              ∙ from_proto "x-email"
              ∙ from_ip "x-email"
              ∙ from_addr "x-email"
              ∙ absent.2)
          ∙ unless_absent ctx.email,
      from_host "x-request-id"
          ∙ from_email "x-request-id"
          ∙ from_name "x-request-id"
          ∙ from_user "x-request-id"
          ∙ from_request "x-request-id",
    )

-- A request that goes on to a service is for a public route, and then its identity is what it was;
-- or its token validates, and then the identity is that of the token.
pub passed_is_authenticated :
    (parse_usize : Bytes → Option ℕ) (validate : Bytes → Option Validated)
    (max_body_size max_req_per_sec observed : ℕ) (session : Session) (ctx next : RequestCtx)
    → request_filter parse_usize validate max_body_size max_req_per_sec observed session ctx
      ≡ passed next
    → ((is_public_route session.method session.path ≡ true) × (next ≡ ctx))
      ⊎ ((token : Bytes) × (resp : Validated) × (extract_token session ≡ some token)
          × (validate token ≡ some resp)
          × (next.user_id ≡ some resp.user_id)
          × (next.username ≡ some resp.username)
          × (next.email ≡ some resp.email))
unfolding request_filter authenticate
passed_is_authenticated parse_usize validate max_body_size max_req_per_sec observed session ctx next
      h =
    elim (Bool-cases (is_public_route session.method session.path)) [
      | inl e ↦ inl (e, ground arith)
      | inr e ↦ elim (Option-cases (extract_token session)) [
        | inl n ↦ ground arith
        | inr (token, f) ↦ elim (Option-cases (validate token)) [
          | inl n ↦ ground arith
          | inr (resp, g) ↦ inr (token, resp, f, g, ground arith, ground arith, ground arith)
        ]
      ]
    ]
