-- ===== src/Chats/Pages.antt =====
-- `get_chat_messages`: what a page of a chat holds, and in which order.
use rust_service.Base.{
  ℕ, zero, suc, ◌≤◌, ◌≡◌, refl, ap, ◌∙◌, ◌⊎◌, inl, inr, Bool, true, false, some, List, [], ◌∷◌,
  arith, nat_beq_iff, string_partial_eq, nat_partial_eq, pair_partial_eq, ok, Option-cases,
  Result-cases, length, take, length-take-le, All, Map,
}
use rust_service.Chats.Views.{message_of-ok}
use rust_service.Chats.Messages.{
  ChatMessage, Row, Key, key_partial_eq, Db, from_millis, message_of, partition, is_before,
  place_row, newest_first, read_rows, get_chat_messages,
}

-- Rows by falling time.
abbrev NotAfter : ℕ → List (Key × Row) → Type 0
NotAfter ms rows = All (λ e. e.0.1 ≤ ms) rows

abbrev Falling : List (Key × Row) → Type 0
Falling [] = Unit
Falling (entry ∷ rows) = NotAfter entry.0.1 rows × Falling rows

NotAfter-le : (m n : ℕ) (rows : List (Key × Row)) → m ≤ n → NotAfter m rows → NotAfter n rows
NotAfter-le m n [] h held = tt
NotAfter-le m n (entry ∷ rows) h held = (omega (arith, h, held.0), NotAfter-le m n rows h held.1)

module _ (P : Key × Row → Type 0) where
  All-place_row :
      (entry : Key × Row) (rows : List (Key × Row))
      → P entry
      → All P rows
      → All P (place_row entry rows)
  unfolding place_row
  All-place_row entry [] p held = (p, tt)
  All-place_row entry (other ∷ rows) p held =
      ground (arith, All-place_row entry rows p held.1, p, held.0, held.1)

  All-newest_first : (rows : List (Key × Row)) → All P rows → All P (newest_first rows)
  unfolding newest_first
  All-newest_first [] held = tt
  All-newest_first (entry ∷ rows) held =
      All-place_row entry (newest_first rows) held.0 (All-newest_first rows held.1)

  All-take : (n : ℕ) (rows : List (Key × Row)) → All P rows → All P (take n rows)
  All-take zero rows held = tt
  All-take (suc n) [] held = tt
  All-take (suc n) (row ∷ rows) held = (held.0, All-take n rows held.1)

is_before-cases :
    (x y : Key) → ((is_before x y ≡ true) × (y.1 ≤ x.1)) ⊎ ((is_before x y ≡ false) × (x.1 ≤ y.1))
unfolding is_before
is_before-cases (a, b, c) (d, e, f) = ground arith

place_row-Falling :
    (entry : Key × Row) (rows : List (Key × Row)) → Falling rows → Falling (place_row entry rows)
unfolding place_row
place_row-Falling entry [] falls = (tt, tt)
place_row-Falling entry (other ∷ rows) falls = elim (is_before-cases entry.0 other.0) [
  | inl (first, older) ↦
      rw first ((older, NotAfter-le other.0.1 entry.0.1 rows older falls.0), falls)
  | inr (later, newer) ↦ rw later (
    All-place_row (λ e. e.0.1 ≤ other.0.1) entry rows newer falls.0,
    place_row-Falling entry rows falls.1,
  )
]

newest_first-Falling : (rows : List (Key × Row)) → Falling (newest_first rows)
unfolding newest_first
newest_first-Falling [] = tt
newest_first-Falling (entry ∷ rows) =
    place_row-Falling entry (newest_first rows) (newest_first-Falling rows)

take-Falling : (n : ℕ) (rows : List (Key × Row)) → Falling rows → Falling (take n rows)
take-Falling zero rows falls = tt
take-Falling (suc n) [] falls = tt
take-Falling (suc n) (row ∷ rows) falls =
    (All-take (λ e. e.0.1 ≤ row.0.1) n rows falls.0, take-Falling n rows falls.1)

partition-All : (room : ℕ) (rows : Map Key Row) → All (λ e. e.0.0 ≡ room) (partition room rows)
unfolding partition
partition-All room [] = tt
partition-All room ((key, row) ∷ rows) =
    ground (arith, partition-All room rows, nat_beq_iff key.0 room)

-- Messages of one chat, by falling time of creation.
abbrev pub IsPage : ℕ → List ChatMessage → Type 0
IsPage room [] = Unit
IsPage room (m ∷ messages) =
    (m.chat_id ≡ room)
    × All (λ other. other.created_at ≤ m.created_at) messages
    × IsPage room messages

-- A row that is read before others that are.
read_rows-step :
    (entry : Key × Row) (rows : List (Key × Row)) (messages : List ChatMessage)
    → read_rows (entry ∷ rows) ≡ ok messages
    → (m : ChatMessage) × (rest : List ChatMessage) × (messages ≡ m ∷ rest)
      × (message_of entry.0 entry.1 ≡ some m)
      × (read_rows rows ≡ ok rest)
unfolding read_rows
read_rows-step (key, row) rows messages done = elim (Option-cases (message_of key row)) [
  | inl unread ↦ absurd (ground (arith, done))
  | inr (m, whole) ↦ elim (Result-cases (read_rows rows)) [
    | inr (e, fails) ↦ absurd (ground (arith, done))
    | inl (rest, others) ↦ (m, rest, ground (arith, done), whole, others)
  ]
]

no_rows : (messages : List ChatMessage) → read_rows [] ≡ ok messages → messages ≡ []
unfolding read_rows
no_rows [] done = refl
no_rows (m ∷ messages) done = absurd (ground (arith, done))

read_rows-NotAfter :
    (ms at : ℕ) (rows : List (Key × Row)) (messages : List ChatMessage)
    → from_millis ms ≤ at
    → NotAfter ms rows
    → read_rows rows ≡ ok messages
    → All (λ m. m.created_at ≤ at) messages
unfolding read_rows
read_rows-NotAfter ms at [] messages inside held done = rw (no_rows messages done) tt
read_rows-NotAfter ms at ((key, row) ∷ rows) messages inside held done =
    let (m, rest, both, whole, others) = read_rows-step (key, row) rows messages done in
    rw both (
      omega (arith, (message_of-ok key row m whole).1, held.0, inside),
      read_rows-NotAfter ms at rows rest inside held.1 others,
    )

read_rows-IsPage :
    (room : ℕ) (rows : List (Key × Row)) (messages : List ChatMessage)
    → All (λ e. e.0.0 ≡ room) rows
    → Falling rows
    → read_rows rows ≡ ok messages
    → IsPage room messages × (length messages ≡ length rows)
unfolding read_rows
read_rows-IsPage room [] messages mine falls done = rw (no_rows messages done) (tt, refl)
read_rows-IsPage room ((key, row) ∷ rows) messages mine falls done =
    let (m, rest, both, whole, others) = read_rows-step (key, row) rows messages done in
    let (its_chat, its_time, its_id) = message_of-ok key row m whole in
    let (page, count) = read_rows-IsPage room rows rest mine.1 falls.1 others in
    rw both (
      (
        its_chat ∙ mine.0,
        read_rows-NotAfter key.1 m.created_at rows rest (omega (arith, its_time)) falls.0 others,
        page,
      ),
      ap suc count,
    )

-- A page that loads holds at most as many messages as were asked for, all of the chat, the newest
-- first.
pub get_chat_messages-IsPage :
    (runs : Bool) (room limit : ℕ) (db : Db) (messages : List ChatMessage)
    → get_chat_messages runs room limit db ≡ ok messages
    → IsPage room messages × (length messages ≤ limit)
unfolding get_chat_messages
get_chat_messages-IsPage false room limit db messages done = absurd (ground (arith, done))
get_chat_messages-IsPage true room limit db messages done =
    let rows = newest_first (partition room db.messages) in
    let (page, count) =
      read_rows-IsPage room (take limit rows) messages
        (All-take (λ e. e.0.0 ≡ room) limit rows
          (All-newest_first (λ e. e.0.0 ≡ room) (partition room db.messages)
            (partition-All room db.messages)))
        (take-Falling limit rows (newest_first-Falling (partition room db.messages))) done in
    (page, omega (arith, count, length-take-le limit rows))
