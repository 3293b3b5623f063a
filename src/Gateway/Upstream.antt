-- ===== src/Gateway/Upstream.antt =====
-- Which service a request reaches with which identity, which answers may be read across origins, and
-- how much of a body is read.
use rust_service.Base.{
  ℕ, ◌≤◌, String, ◌≡◌, refl, sym, ap, ◌∙◌, ◌⊎◌, inl, inr, Bool, true, false, ◌&&◌, Option, some,
  List, [], ◌∷◌, ◌++◌, map, arith, ltb, leb, nat_beq, if◌then◌else◌, nat_beq_iff, string_partial_eq,
  ◌==◌, nat_partial_eq, pair_partial_eq, ok, err, Bool-cases, Option-cases, is_some, Bytes, length,
  length-append, bytes_of, any_same, IsOneOf, any_same-IsOneOf, no_items, lookup, insert,
}
use rust_service.Gateway.Proxy.{
  strip_prefix, starts_with, Session, RequestCtx, Validated, passed, is_public_route, extract_token,
  request_filter,
}
use mathlib.Core.List.{append-nil, append_assoc}
use rust_service.Gateway.Identity.{passed_is_authenticated}
use rust_service.Gateway.Answers.{
  insert_cors_headers, Upstream, images, chats, channels, calls, auth, route_upstream,
  read_full_body, AuthContext, Content, respond_json,
}

-- The services that trust the identity headers.
abbrev pub needs_user : Upstream → Bool
needs_user images = false
needs_user chats = true
needs_user channels = true
needs_user calls = true
needs_user auth = false

-- Two prefixes that differ at some byte.
abbrev pub conflict : Bytes → Bytes → Bool
conflict [] q = false
conflict (a ∷ p) [] = false
conflict (a ∷ p) (b ∷ q) = let rest = conflict p q in if a == b then rest else true

pub one_prefix :
    (p q path : Bytes)
    → conflict p q ≡ true
    → is_some (strip_prefix p path) ≡ true
    → is_some (strip_prefix q path) ≡ false
unfolding strip_prefix
one_prefix [] q path apart here = absurd (ground (arith, apart))
one_prefix (a ∷ p) [] path apart here = absurd (ground (arith, apart))
one_prefix (a ∷ p) (b ∷ q) [] apart here = refl
one_prefix (a ∷ p) (b ∷ q) (c ∷ path) apart here =
    ground (arith, nat_beq_iff a b, nat_beq_iff a c, nat_beq_iff b c, one_prefix p q path)

-- A path under a prefix that differs from those of the public routes.
pub private_prefix :
    (method : String) (path : Bytes) (prefix : String)
    → (conflict (bytes_of prefix) (bytes_of "/auth.")
        && conflict (bytes_of prefix) (bytes_of "/access/")
        && conflict (bytes_of prefix) (bytes_of "/ping")
        && conflict (bytes_of prefix) (bytes_of "/metrics")
        && conflict (bytes_of prefix) (bytes_of "/images/"))
      ≡ true
    → starts_with path prefix ≡ true
    → is_public_route method path ≡ false
unfolding is_public_route
private_prefix method path prefix apart here = ground (
  arith,
  one_prefix (bytes_of prefix) (bytes_of "/auth.") path,
  one_prefix (bytes_of prefix) (bytes_of "/access/") path,
  one_prefix (bytes_of prefix) (bytes_of "/ping") path,
  one_prefix (bytes_of prefix) (bytes_of "/metrics") path,
  one_prefix (bytes_of prefix) (bytes_of "/images/") path,
)

pub public_needs_none :
    (method : String) (path : Bytes) (up : Upstream)
    → is_public_route method path ≡ true
    → route_upstream path ≡ ok up
    → needs_user up ≡ false
unfolding route_upstream
public_needs_none method path up open_route routed = ground (
  arith,
  private_prefix method path "/ws" refl,
  private_prefix method path "/channels" refl,
  private_prefix method path "/rooms" refl,
)

-- A request that passes the filters and is routed to the service of chats, channels or calls has a
-- token that validates, and carries the user of that token.
pub routed_has_user :
    (parse_usize : Bytes → Option ℕ) (validate : Bytes → Option Validated)
    (max_body_size max_req_per_sec observed : ℕ) (session : Session) (ctx next : RequestCtx)
    (up : Upstream)
    → request_filter parse_usize validate max_body_size max_req_per_sec observed session ctx
      ≡ passed next
    → route_upstream session.path ≡ ok up
    → needs_user up ≡ true
    → (token : Bytes) × (resp : Validated) × (extract_token session ≡ some token)
      × (validate token ≡ some resp)
      × (next.user_id ≡ some resp.user_id)
routed_has_user parse_usize validate max_body_size max_req_per_sec observed session ctx next up went
      routed private =
    elim (passed_is_authenticated parse_usize validate max_body_size max_req_per_sec observed
      session ctx next went) [
        | inl (open_route, same) ↦ absurd (
            ground
              (arith, private, public_needs_none session.method session.path up open_route routed))
        | inr (token, resp, taken, valid, user, name, mail) ↦ (token, resp, taken, valid, user)
      ]

-- An answer as JSON may be read across origins only by the origin that asked, and only when that is
-- one of the allowed origins or no list of them is configured.
pub cors_only_allowed :
    (ctx : AuthContext) (status : ℕ) (content : Content) (reader : Bytes)
    → lookup "access-control-allow-origin" (respond_json ctx status content).response_headers
      ≡ some reader
    → (ctx.origin ≡ some reader) × ((ctx.allowed_origins ≡ []) ⊎ IsOneOf reader ctx.allowed_origins)
unfolding respond_json insert_cors_headers insert lookup
cors_only_allowed ctx status content reader allowed = elim (Option-cases ctx.origin) [
  | inl no_origin ↦ absurd (ground (arith, allowed, no_origin))
  | inr (o, asked) ↦ elim (Bool-cases (nat_beq (length ctx.allowed_origins) 0)) [
    | inl no_list ↦
        (ground (arith, allowed, asked, no_list), inl (no_items ctx.allowed_origins no_list))
    | inr listed ↦ elim (Bool-cases (any_same o ctx.allowed_origins)) [
      | inr other ↦ absurd (ground (arith, allowed, asked, listed, other))
      | inl known ↦
          let same : o ≡ reader = ground (arith, allowed, asked, known) in
          (asked ∙ ap some same, inr (rw⁻¹ same (any_same-IsOneOf o ctx.allowed_origins known)))
    ]
  ]
]

abbrev pub joined : List Bytes → Bytes
joined [] = []
joined (chunk ∷ chunks) = chunk ++ joined chunks

read_on :
    (max_size : ℕ) (buf : Bytes) (chunks : List Bytes)
    → length buf ≤ max_size
    → read_full_body max_size buf (map ok chunks) ≡ (
        if leb (length (buf ++ joined chunks)) max_size
        then ok (buf ++ joined chunks)
        else err (bytes_of "Request body too large"))
unfolding read_full_body
read_on max_size buf [] fits = ground (arith, append-nil buf, fits)
read_on max_size buf (chunk ∷ chunks) fits =
    elim (Bool-cases (ltb max_size (length (buf ++ chunk)))) [
      | inl over ↦ ground (
        arith,
        over,
        length-append buf (chunk ++ joined chunks),
        length-append buf chunk,
        length-append chunk (joined chunks),
      )
      | inr within ↦
          rw (sym (append_assoc buf chunk (joined chunks))) (
            ground (arith, within, read_on max_size (buf ++ chunk) chunks (ground (arith, within))))
    ]

-- A body that arrives without an error, in whatever chunks, is read whole when it is within the
-- limit, and is refused when it is longer.
pub full_body_bounded :
    (ctx : AuthContext) (chunks : List Bytes)
    → (read_full_body ctx.max_body_size [] (map ok chunks) ≡ (
        if leb (length (joined chunks)) ctx.max_body_size
        then ok (joined chunks)
        else err (bytes_of "Request body too large")))
full_body_bounded ctx chunks = read_on ctx.max_body_size [] chunks (omega arith)
