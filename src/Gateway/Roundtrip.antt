-- ===== src/Gateway/Roundtrip.antt =====
-- Percent encoding of service-gateway and back.
use rust_service.Base.{
  ℕ, ◌/◌, ◌%◌, ◌<◌, ◌≡◌, refl, inl, inr, Bool, true, false, some, [], ◌∷◌, arith, string_partial_eq,
  ◌==◌, nat_partial_eq, pair_partial_eq, Bool-cases, Bytes, All,
}
use rust_service.Gateway.Url.{
  is_unreserved, hex_char, hex_val, urlencode, joined_digits, push_byte, plain_byte, decoded_bytes,
  urldecode,
}

hex_val-hex_char : (d : ℕ) → d < 16 → hex_val (hex_char d) ≡ some d
unfolding hex_val hex_char
hex_val-hex_char d h = ground arith

decoded-plain :
    (b : ℕ) (rest : Bytes)
    → (b == 37) ≡ false
    → decoded_bytes (b ∷ rest) ≡ push_byte (some (plain_byte b)) (decoded_bytes rest)
unfolding decoded_bytes push_byte
decoded-plain b [] h = ground (arith, h)
decoded-plain b (x ∷ []) h = ground (arith, h)
decoded-plain b (x ∷ y ∷ rest) h = ground (arith, h)

unreserved_plain : (b : ℕ) → is_unreserved b ≡ true → ((b == 37) ≡ false) × (plain_byte b ≡ b)
unfolding is_unreserved plain_byte
unreserved_plain b h = ground arith

joined-digits :
    (b : ℕ)
    → b < 256
    → joined_digits (hex_val (hex_char (b / 16))) (hex_val (hex_char (b % 16))) ≡ some b
unfolding joined_digits
joined-digits b h =
    rw (hex_val-hex_char (b / 16) (omega arith), hex_val-hex_char (b % 16) (omega arith))
      (ground arith)

decoded-escape :
    (h l : ℕ) (rest : Bytes)
    → decoded_bytes (37 ∷ h ∷ l ∷ rest)
      ≡ push_byte (joined_digits (hex_val h) (hex_val l)) (decoded_bytes rest)
unfolding decoded_bytes
decoded-escape h l rest = refl

decoded_nil : decoded_bytes [] ≡ some []
unfolding decoded_bytes
decoded_nil = refl

decoded-urlencode : (s : Bytes) → All (λ b. b < 256) s → decoded_bytes (urlencode s) ≡ some s
unfolding urlencode push_byte
decoded-urlencode [] h = decoded_nil
decoded-urlencode (b ∷ rest) h = elim (Bool-cases (is_unreserved b)) [
  | inl e ↦
      let plain = unreserved_plain b e in
      rw (e, decoded-plain b (urlencode rest) plain.0, decoded-urlencode rest h.1, plain.1) refl
  | inr e ↦
      rw
        (
          e,
          decoded-escape (hex_char (b / 16)) (hex_char (b % 16)) (urlencode rest),
          decoded-urlencode rest h.1,
          joined-digits b h.0,
        )
        refl
]

-- Decoding gives back every text of valid UTF-8 that was encoded.
pub urldecode-urlencode :
    (is_utf8 : Bytes → Bool) (s : Bytes)
    → All (λ b. b < 256) s
    → is_utf8 s ≡ true
    → urldecode is_utf8 (urlencode s) ≡ some s
unfolding urldecode
urldecode-urlencode is_utf8 s h valid = ground (arith, decoded-urlencode s h, valid)
