-- ===== src/Calls/Signal.antt =====
-- service-calls/src/signal.rs: the messages of the signalling protocol.
use rust_service.Base.{
  ℕ, String, len, List, ltb, if◌then◌else◌, nat_partial_eq, string_partial_eq, Result, ok, err,
}

-- `ClientMessage`; each constructor has the receiver `to` first.
pub data ClientMessage : Type 0 where
  offer answer ice_candidate : String → String → ClientMessage

-- `SignalMessage`; relayed messages have the sender `from` first.
pub data SignalMessage : Type 0 where
  joined : String → List String → SignalMessage
  user_joined user_left : String → SignalMessage
  offer answer ice_candidate : String → String → SignalMessage
  error : String → SignalMessage

-- `ClientMessage::validate_size`; `len` counts bytes, as `String::len` does.
unfoldable pub validate_size : ClientMessage → ℕ → Result (Unit {0}) String
validate_size (ClientMessage.offer to sdp) max_size =
    if ltb max_size (len sdp) then err "SDP payload too large" else ok tt
validate_size (ClientMessage.answer to sdp) max_size =
    if ltb max_size (len sdp) then err "SDP payload too large" else ok tt
validate_size (ClientMessage.ice_candidate to candidate) max_size =
    if ltb max_size (len candidate) then err "ICE candidate payload too large" else ok tt

-- The receiver that a client message names.
abbrev pub receiver : ClientMessage → String
receiver (ClientMessage.offer to sdp) = to
receiver (ClientMessage.answer to sdp) = to
receiver (ClientMessage.ice_candidate to candidate) = to

-- The text that a client message carries.
abbrev pub payload : ClientMessage → String
payload (ClientMessage.offer to sdp) = sdp
payload (ClientMessage.answer to sdp) = sdp
payload (ClientMessage.ice_candidate to candidate) = candidate

-- What the `match msg` of `handle_client_message` sends on: the receiver's name is replaced by the
-- sender's.
unfoldable pub relayed : String → ClientMessage → SignalMessage
relayed from (ClientMessage.offer to sdp) = SignalMessage.offer from sdp
relayed from (ClientMessage.answer to sdp) = SignalMessage.answer from sdp
relayed from (ClientMessage.ice_candidate to candidate) = SignalMessage.ice_candidate from candidate
