-- ===== src/Gateway/Window.antt =====
-- How many requests of one key a window lets through.
use rust_service.Base.{
  ℕ, ◌+◌, ◌-◌, ◌≤◌, ◌≡◌, subst, inl, inr, true, false, ◌&&◌, Option, List, [], ◌∷◌, arith,
  string_partial_eq, nat_partial_eq, pair_partial_eq, Bool-cases, Bytes, same_bytes, same_bytes-eq,
  bytes_partial_eq,
}
use rust_service.Gateway.Proxy.{Session, RequestCtx, Validated, is_too_long, request_filter}
use rust_service.Gateway.Limit.{
  rate_limit_key, is_let_through, Rate, occurrences, IsRate, Arrival, let_through, window,
}

-- A request that is let through has been counted, and was within the limit.
let_through-within :
    (parse_usize : Bytes → Option ℕ) (validate : Bytes → Option Validated)
    (max_body_size max_req_per_sec observed : ℕ) (session : Session) (ctx : RequestCtx)
    → is_let_through
        (request_filter parse_usize validate max_body_size max_req_per_sec observed session ctx)
      ≡ true
    → (is_too_long parse_usize max_body_size session.headers ≡ false) × (observed ≤ max_req_per_sec)
unfolding request_filter
let_through-within parse_usize validate max_body_size max_req_per_sec observed session ctx went =
    ground arith

module _ (parse_usize : Bytes → Option ℕ) (validate : Bytes → Option Validated) (observed : Rate)
    (max_body_size max_req_per_sec : ℕ) (key : Bytes) (rate : IsRate observed) where
  -- Every observation of the key takes one place.
  window_left :
      (earlier : List Bytes) (arrivals : List Arrival)
      → let_through key arrivals
          (window parse_usize validate observed max_body_size max_req_per_sec earlier arrivals)
        ≤ max_req_per_sec - occurrences key earlier
  unfolding window
  window_left earlier [] = omega arith
  window_left earlier ((session, client_ip, ctx) ∷ arrivals) =
      let own = rate_limit_key client_ip session.headers in
      let count = observed earlier own in
      let outcome =
        request_filter parse_usize validate max_body_size max_req_per_sec count session ctx in
      elim (Bool-cases (same_bytes own key && is_let_through outcome)) [
        | inl through ↦
            let parts : (own ≡ key) × (is_let_through outcome ≡ true) =
              ground (arith, through, same_bytes-eq own key) in
            let (short, within) =
              let_through-within parse_usize validate max_body_size max_req_per_sec count session
                ctx parts.1 in
            let counted : 1 + occurrences key earlier ≤ max_req_per_sec = omega (
              arith,
              subst (λ k. 1 + occurrences k earlier ≤ max_req_per_sec) parts.0
                  (omega (arith, rate earlier own, within)),
            ) in
            rw (through, short)
              (ground (arith, counted, through, window_left (own ∷ earlier) arrivals))
        | inr stopped ↦ elim (Bool-cases (is_too_long parse_usize max_body_size session.headers)) [
          | inl long ↦ rw (stopped, long) (window_left earlier arrivals)
          | inr short ↦ rw (stopped, short) (ground (arith, window_left (own ∷ earlier) arrivals))
        ]
      ]

-- Of the requests of one window that have one key, no more than the limit are let through: the others
-- are answered 413 or 429. It needs a limiter that counts no observation too few.
pub window_limit :
    (parse_usize : Bytes → Option ℕ) (validate : Bytes → Option Validated) (observed : Rate)
    (max_body_size max_req_per_sec : ℕ) (key : Bytes) (arrivals : List Arrival)
    → IsRate observed
    → let_through key arrivals
        (window parse_usize validate observed max_body_size max_req_per_sec [] arrivals)
      ≤ max_req_per_sec
window_limit parse_usize validate observed max_body_size max_req_per_sec key arrivals rate = omega (
  arith,
  window_left parse_usize validate observed max_body_size max_req_per_sec key rate [] arrivals,
)
