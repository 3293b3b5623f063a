-- ===== src/Gateway/Url.antt =====
-- service-gateway/src/auth_handler.rs: percent encoding. A text is the list of its bytes, and
-- `is_utf8` stands for the check of `String::from_utf8`.
use rust_service.Base.{
  ℕ, ◌+◌, ◌-◌, ◌*◌, ◌/◌, ◌%◌, Bool, true, false, ◌&&◌, ◌||◌, Option, none, some, [], ◌∷◌, ltb, leb,
  if◌then◌else◌, string_partial_eq, ◌==◌, nat_partial_eq, pair_partial_eq, Bytes,
}

abbrev within : ℕ → ℕ → ℕ → Bool
within low high b = leb low b && leb b high

-- `A-Z`, `a-z`, `0-9`, `-`, `_`, `.` and `~`.
unfoldable pub is_unreserved : ℕ → Bool
is_unreserved b =
    (within 65 90 b || (within 97 122 b || within 48 57 b))
    || ((b == 45 || b == 95) || (b == 46 || b == 126))

-- `HEX_CHARS[d]`.
unfoldable pub hex_char : ℕ → ℕ
hex_char d = if ltb d 10 then 48 + d else 55 + d

unfoldable pub hex_val : ℕ → Option ℕ
hex_val b =
    if within 48 57 b
    then some (b - 48)
    else if within 97 102 b
    then some (b - 97 + 10)
    else if within 65 70 b
    then some (b - 65 + 10)
    else none

-- The shift and the mask of a byte are its quotient and remainder by 16.
unfoldable pub urlencode : Bytes → Bytes
urlencode [] = []
urlencode (b ∷ rest) =
    let encoded = urlencode rest in
    if is_unreserved b then b ∷ encoded else 37 ∷ hex_char (b / 16) ∷ hex_char (b % 16) ∷ encoded

-- `hi << 4 | lo`, where both digits are there.
unfoldable pub joined_digits : Option ℕ → Option ℕ → Option ℕ
joined_digits none lo = none
joined_digits (some hi) none = none
joined_digits (some hi) (some lo) = some (hi * 16 % 256 + lo)

unfoldable pub push_byte : Option ℕ → Option Bytes → Option Bytes
push_byte none rest = none
push_byte (some b) none = none
push_byte (some b) (some rest) = some (b ∷ rest)

unfoldable pub plain_byte : ℕ → ℕ
plain_byte b = if b == 43 then 32 else b

-- The loop of `urldecode`: an escape takes two more bytes.
unfoldable pub decoded_bytes : Bytes → Option Bytes
decoded_bytes [] = some []
decoded_bytes (b ∷ []) = elim (b == 37) [ true ↦ none | false ↦ some (plain_byte b ∷ []) ]
decoded_bytes (b ∷ h ∷ []) = elim (b == 37) [
  | true ↦ none
  | false ↦ push_byte (some (plain_byte b)) (decoded_bytes (h ∷ []))
]
decoded_bytes (b ∷ h ∷ l ∷ rest) = elim (b == 37) [
  | true ↦ push_byte (joined_digits (hex_val h) (hex_val l)) (decoded_bytes rest)
  | false ↦ push_byte (some (plain_byte b)) (decoded_bytes (h ∷ l ∷ rest))
]

unfoldable pub urldecode : (Bytes → Bool) → Bytes → Option Bytes
urldecode is_utf8 s = elim (decoded_bytes s) [
  | none ↦ none
  | some result ↦ if is_utf8 result then some result else none
]
