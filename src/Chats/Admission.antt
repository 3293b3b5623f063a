-- ===== src/Chats/Admission.antt =====
-- `websocket_handler` of service-chats with the `check_subscription` of service-channels behind its
-- request.
use rust_service.Base.{
  ℕ, String, ◌≡◌, refl, inl, inr, Bool, false, Option, some, arith, ltb, nat_beq, string_partial_eq,
  nat_partial_eq, pair_partial_eq, Result, ok, err, Bool-cases,
}
use rust_service.Channels.Schemas.{ApiError, into_response}
use rust_service.Channels.Store.{Faults}
use rust_service.Channels.Routes.{ServerData, Header}
use rust_service.Channels.Routes
use rust_service.Chats.Receive.{rejected, upgraded, username_of, websocket_handler}

-- The status of the answer: a JSON Boolean goes out with 200, whichever it is.
unfoldable pub check_status : Result (ServerData × Bool) ApiError → ℕ
check_status (ok answered) = 200
check_status (err e) = (into_response e).0

no_success : (e : ApiError) → ltb (check_status (err e)) 300 ≡ false
unfolding check_status into_response
no_success (ApiError.bad_request text) = refl
no_success (ApiError.not_found text) = refl
no_success (ApiError.forbidden text) = refl
no_success (ApiError.conflict text) = refl
no_success (ApiError.internal text) = refl

module _ (parse_uuid : String → Option ℕ) (uuid_text : ℕ → String) (not_found_text : ℕ → String)
    (faults : Faults) (cached : ℕ → Bool) (state : ServerData) (header : String)
    (x_username : Option String) (channel : ℕ) where
  -- The answer of service-channels to the request that the handler makes for a user.
  abbrev pub checked : ℕ → Result (ServerData × Bool) ApiError
  checked user =
      Routes.check_subscription parse_uuid not_found_text faults cached state
        (Header.readable (uuid_text user)) channel

  -- A user who is known is let into the socket of a channel exactly when service-channels answers
  -- the check at all: a `false` opens the socket as a `true` does, and only an error closes it.
  pub membership_ignored :
      (user : ℕ)
      → parse_uuid header ≡ some user
      → ((next : ServerData) (answer : Bool)
          → checked user ≡ ok (next, answer)
          → websocket_handler parse_uuid uuid_text
              (some header)
              x_username
              (some (check_status (checked user)))
            ≡ upgraded user (username_of uuid_text user x_username))
        × ((e : ApiError)
            → checked user ≡ err e
            → (status : ℕ) × (text : String) × (websocket_handler parse_uuid uuid_text
                  (some header)
                  x_username
                  (some (check_status (checked user)))
                ≡ rejected status text))
  unfolding check_status websocket_handler
  membership_ignored user parsed = (
    λ next answer answered. ground (arith, parsed, answered),
    λ e fails. elim (Bool-cases (nat_beq (check_status (checked user)) 403)) [
      | inl forbidden ↦
          (403, "Not subscribed to this channel", ground (arith, parsed, fails, no_success e))
      | inr other ↦
          (502, "Failed to verify subscription", ground (arith, parsed, fails, no_success e))
    ],
  )
