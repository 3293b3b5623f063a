-- ===== src/Valkey/Keys.antt =====
-- The keys of service-channels/src/routes.rs. `show` is the text of a Uuid: 36 bytes, from which it
-- is read again.
use rust_service.Base.{
  ℕ, ◌≡◌, refl, sym, ap, ◌∙◌, inl, inr, false, ◌&&◌, Option, some, ◌++◌, arith, nat_beq,
  nat_beq_iff, string_partial_eq, nat_partial_eq, pair_partial_eq, eq_of_==, Bool-cases, Bytes,
  length, bytes_of, same_bytes, same_bytes-eq, same_bytes_iff, bytes_partial_eq, append-inj,
}

module _ (show : ℕ → Bytes) where
  unfoldable pub channel_key : ℕ → Bytes
  channel_key id = bytes_of "channel:" ++ show id

  unfoldable pub sub_key : (user_id channel_id : ℕ) → Bytes
  sub_key user_id channel_id =
      bytes_of "sub:" ++ (show user_id ++ (bytes_of ":" ++ show channel_id))

-- A text of 36 bytes for every Uuid, and its reading.
pub record IsUuidText (show : ℕ → Bytes) (parse : Bytes → Option ℕ) : Type 0 where
  pub parses : (n : ℕ) → parse (show n) ≡ some n
  pub wide : (n : ℕ) → length (show n) ≡ 36

module _ (show : ℕ → Bytes) (parse : Bytes → Option ℕ) (text : IsUuidText show parse) where
  show-inj : (a b : ℕ) → show a ≡ show b → a ≡ b
  show-inj a b e = ground (arith, text.parses a, text.parses b, ap parse e)

  channel_key-inj : (a b : ℕ) → channel_key show a ≡ channel_key show b → a ≡ b
  unfolding channel_key
  channel_key-inj a b e =
      show-inj a b
        (append-inj (bytes_of "channel:") (bytes_of "channel:") (show a) (show b) refl e).1

  sub_key-inj : (u c v d : ℕ) → sub_key show u c ≡ sub_key show v d → (u ≡ v) × (c ≡ d)
  unfolding sub_key
  sub_key-inj u c v d e =
      let after =
        append-inj (bytes_of "sub:") (bytes_of "sub:") (show u ++ (bytes_of ":" ++ show c))
          (show v ++ (bytes_of ":" ++ show d)) refl e in
      let parts =
        append-inj (show u) (show v) (bytes_of ":" ++ show c) (bytes_of ":" ++ show d)
          (text.wide u ∙ sym (text.wide v)) after.1 in
      (
        show-inj u v parts.0,
        show-inj c d (append-inj (bytes_of ":") (bytes_of ":") (show c) (show d) refl parts.1).1,
      )

  -- Keys are compared as what they are the keys of.
  pub same-channel_key :
      (a b : ℕ) → same_bytes (channel_key show a) (channel_key show b) ≡ nat_beq a b
  same-channel_key a b = elim (Bool-cases (nat_beq a b)) [
    | inl same ↦
        rw (same, eq_of_== a b same)
          ((same_bytes_iff (channel_key show b) (channel_key show b)).1 refl)
    | inr other ↦ elim (Bool-cases (same_bytes (channel_key show a) (channel_key show b))) [
      | inr apart ↦ rw (apart, other) refl
      | inl same ↦ absurd (
          ground (
            arith,
            other,
            nat_beq_iff a b,
            channel_key-inj a b (same_bytes-eq (channel_key show a) (channel_key show b) same),
          ))
    ]
  ]

  pub same-sub_key :
      (u c v d : ℕ)
      → same_bytes (sub_key show u c) (sub_key show v d) ≡ (nat_beq u v && nat_beq c d)
  same-sub_key u c v d = elim (Bool-cases (nat_beq u v && nat_beq c d)) [
    | inl same ↦
        let parts : (u ≡ v) × (c ≡ d) = ground (arith, same, nat_beq_iff u v, nat_beq_iff c d) in
        rw (same, parts.0, parts.1) ((same_bytes_iff (sub_key show v d) (sub_key show v d)).1 refl)
    | inr other ↦ elim (Bool-cases (same_bytes (sub_key show u c) (sub_key show v d))) [
      | inr apart ↦ rw (apart, other) refl
      | inl same ↦ absurd (
          ground (
            arith,
            other,
            nat_beq_iff u v,
            nat_beq_iff c d,
            sub_key-inj u c v d (same_bytes-eq (sub_key show u c) (sub_key show v d) same),
          ))
    ]
  ]

-- The two kinds of keys differ in their first byte.
pub apart-channel_key :
    (show : ℕ → Bytes) (a u c : ℕ)
    → (same_bytes (channel_key show a) (sub_key show u c) ≡ false)
      × (same_bytes (sub_key show u c) (channel_key show a) ≡ false)
unfolding channel_key sub_key
apart-channel_key show a u c = (refl, refl)
