-- ===== src/Gateway/Body.antt =====
-- The size of the body that service-gateway/src/lib.rs lets through.
use rust_service.Base.{
  ℕ, ◌+◌, ◌≤◌, ◌≡◌, inl, inr, Option, none, some, List, [], ◌∷◌, arith, ltb, leb, if◌then◌else◌,
  string_partial_eq, nat_partial_eq, pair_partial_eq, Result, ok, err, ◌>>=◌, Bool-cases,
}
use rust_service.Gateway.Proxy.{RequestCtx, request_body_filter}

-- The chunks of a body, one call of the filter after another.
unfoldable pub forward_body : ℕ → List (Option ℕ) → RequestCtx → Result RequestCtx ℕ
forward_body max_body_size [] ctx = ok ctx
forward_body max_body_size (chunk ∷ chunks) ctx = do
  next ← request_body_filter max_body_size chunk ctx
  forward_body max_body_size chunks next

abbrev pub total : List (Option ℕ) → ℕ
total [] = 0
total (none ∷ chunks) = total chunks
total (some size ∷ chunks) = size + total chunks

-- Of a request that has sent no more than the limit, a body goes through exactly when all that was
-- sent stays within the limit, and then every byte of it is counted.
pub body_bounded :
    (max_body_size : ℕ) (chunks : List (Option ℕ)) (ctx : RequestCtx)
    → ctx.bytes_read ≤ max_body_size
    → forward_body max_body_size chunks ctx ≡ (
        if leb (ctx.bytes_read + total chunks) max_body_size
        then ok (record ctx { bytes_read = ctx.bytes_read + total chunks })
        else err 413)
unfolding forward_body request_body_filter
body_bounded max_body_size [] ctx h = ground arith
body_bounded max_body_size (none ∷ chunks) ctx h = body_bounded max_body_size chunks ctx h
body_bounded max_body_size (some size ∷ chunks) ctx h =
    elim (Bool-cases (ltb max_body_size (ctx.bytes_read + size))) [
      | inl e ↦ ground arith
      | inr e ↦
          let same : ctx.bytes_read + size + total chunks ≡ ctx.bytes_read + (size + total chunks) =
            omega arith in
          let rest = rw same at (
            body_bounded max_body_size chunks (record ctx { bytes_read = ctx.bytes_read + size })
              (ground arith)) in
          ground (arith, rest)
    ]
