-- ===== src/Routing/Tests.antt =====
-- A router that knows the paths of one segment, and a request for the channels.
use rust_service.Base.{
  String, Bool, false, Option, none, some, List, [], ◌∷◌, if◌then◌else◌, string_partial_eq, ◌==◌,
  nat_partial_eq, pair_partial_eq, Bytes, bytes_of, same_bytes, bytes_partial_eq,
}
use rust_service.Gateway.Proxy.{Headers, Session, RequestCtx, Validated}
use rust_service.Routing.Tables.{Handler, Segment, fixed, parameter, Dispatch}

abbrev of_method : List (String × Handler) → String → Option Handler
of_method [] method = none
of_method ((m, h) ∷ methods) method = if m == method then some h else of_method methods method

abbrev of_path : List Segment → Bytes → Bool
of_path (fixed text ∷ []) path = same_bytes path (47 ∷ text)
of_path (fixed text ∷ (s ∷ pattern)) path = false
of_path (parameter ∷ pattern) path = false
of_path [] path = false

abbrev simple : Dispatch
simple [] method path = none
simple (route ∷ routes) method path =
    let rest = simple routes method path in
    if of_path route.pattern path
    then elim (of_method route.methods method) [ none ↦ rest | some h ↦ some h ]
    else rest

abbrev for_channels : Session
for_channels = record {
  method = "GET";
  path = bytes_of "/channels";
  query = none;
  headers = ("authorization", bytes_of "Bearer t") ∷ ("x-user-id", bytes_of "forged") ∷ [];
  client_addr = bytes_of "10.0.0.7";
}

abbrev fresh : RequestCtx
fresh = record {
  bytes_read = 0;
  request_id = bytes_of "r1";
  user_id = none;
  username = none;
  email = none;
}

abbrev ann : Validated
ann = record { user_id = bytes_of "7"; username = bytes_of "ann"; email = bytes_of "ann@mail.org" }

abbrev known : RequestCtx
known = record fresh {
  user_id = some ann.user_id;
  username = some ann.username;
  email = some ann.email;
}

abbrev sent : Headers
sent =
    ("authorization", bytes_of "Bearer t")
    ∷ ("x-forwarded-for", bytes_of "10.0.0.7")
    ∷ ("x-real-ip", bytes_of "10.0.0.7")
    ∷ ("x-forwarded-proto", bytes_of "http")
    ∷ ("x-request-id", bytes_of "r1")
    ∷ ("x-user-id", bytes_of "7")
    ∷ ("x-username", bytes_of "ann")
    ∷ ("x-email", bytes_of "ann@mail.org")
    ∷ []
