-- ===== src/Chats/Sending.antt =====
-- `send_loop` against what it is for: which events reach a socket, and which end it.
use rust_service.Base.{
  ℕ, String, ◌≡◌, refl, ◌≢◌, Bool, true, false, Option, none, some, List, [], ◌∷◌, ◌++◌, arith,
  if◌then◌else◌, string_partial_eq, nat_partial_eq, pair_partial_eq, keep, lookup,
  lookup-insert_self, lookup-remove_self,
}
use rust_service.Chats.Rooms.{
  ServerEvent, channel_deleted, kicked, Room, Rooms, send_to, broadcast_to_room, on_channel_deleted,
  on_user_unsubscribed, on_event, Received, received, lagged, closed, open_still, skip, last_one,
  forward, turn, send_loop,
}

-- The events of the inputs, up to the end of the room's channel.
abbrev pub events : List Received → List ServerEvent
events [] = []
events (closed ∷ rest) = []
events (lagged n ∷ rest) = events rest
events (received e ∷ rest) = e ∷ events rest

abbrev is_last : ℕ → ServerEvent → Bool
is_last user e = elim (turn user e) [ skip ↦ false | last_one ↦ true | forward ↦ false ]

abbrev pub concerns : ℕ → ServerEvent → Bool
concerns user e = elim (turn user e) [ skip ↦ false | last_one ↦ true | forward ↦ true ]

-- A list up to its first last event, that event counted.
abbrev pub up_to_last : ℕ → List ServerEvent → List ServerEvent
up_to_last user [] = []
up_to_last user (e ∷ rest) =
    let others = up_to_last user rest in if is_last user e then e ∷ [] else e ∷ others

-- A socket that takes everything is sent the events in the order they are received, without the
-- kicks of other users, up to its own kick or the deletion of the channel.
pub sent-up_to_last :
    (user : ℕ) (inputs : List Received)
    → (send_loop (λ e. true) user inputs).0 ≡ up_to_last user (keep (concerns user) (events inputs))
unfolding send_loop
sent-up_to_last user [] = refl
sent-up_to_last user (closed ∷ rest) = refl
sent-up_to_last user (lagged n ∷ rest) = sent-up_to_last user rest
sent-up_to_last user (received e ∷ rest) = ground (arith, sent-up_to_last user rest)

-- Whatever comes after an event that ends the loop makes no difference, and the loop has ended.
cut_off :
    (send : ServerEvent → Bool) (user : ℕ) (front rest : List Received) (e : ServerEvent)
    → turn user e ≡ last_one
    → (send_loop send user (front ++ received e ∷ rest)
        ≡ send_loop send user (front ++ received e ∷ []))
      × ((send_loop send user (front ++ received e ∷ rest)).1 ≢ open_still)
unfolding send_loop
cut_off send user [] rest e final = (ground arith, λ h. ground (arith, h))
cut_off send user (closed ∷ front) rest e final = (refl, λ h. ground arith)
cut_off send user (lagged n ∷ front) rest e final = cut_off send user front rest e final
cut_off send user (received other ∷ front) rest e final =
    let (same, ends) = cut_off send user front rest e final in
    (ground (arith, same), λ h. ground (arith, h, ends))

passed_over :
    (send : ServerEvent → Bool) (user : ℕ) (front rest : List Received) (e : ServerEvent)
    → turn user e ≡ skip
    → send_loop send user (front ++ received e ∷ rest) ≡ send_loop send user (front ++ rest)
unfolding send_loop
passed_over send user [] rest e other_user = ground arith
passed_over send user (closed ∷ front) rest e other_user = refl
passed_over send user (lagged n ∷ front) rest e other_user =
    passed_over send user front rest e other_user
passed_over send user (received before ∷ front) rest e other_user =
    ground (arith, passed_over send user front rest e other_user)

lookup-broadcast :
    (rooms : Rooms) (room_id : String) (e : ServerEvent) (room : Room)
    → lookup room_id rooms ≡ some room
    → lookup room_id (broadcast_to_room rooms room_id e) ≡ some (send_to e room)
unfolding broadcast_to_room
lookup-broadcast rooms room_id e room here =
    rw (broadcast_to_room, here) (lookup-insert_self room_id (send_to e room) rooms)

-- When a user leaves a channel, the room's channel takes the kick as its newest event. The loop of
-- a socket of that user that receives it ends there, whatever comes after; the loop of any other
-- user goes on as if the kick had not been sent. The deletion of a channel removes the room, and
-- ends the loop of every socket that receives it.
pub leaving_ends :
    (parse_uuid : String → Option ℕ) (rooms : Rooms) (channel user_text : String) (user : ℕ)
    (room : Room) (send : ServerEvent → Bool) (front rest : List Received)
    → parse_uuid user_text ≡ some user
    → lookup channel rooms ≡ some room
    → (lookup channel (on_event parse_uuid (on_user_unsubscribed channel user_text) rooms)
        ≡ some (record room { sent = room.sent ++ kicked user ∷ [] }))
      × (send_loop send user (front ++ received (kicked user) ∷ rest)
          ≡ send_loop send user (front ++ received (kicked user) ∷ []))
      × ((send_loop send user (front ++ received (kicked user) ∷ rest)).1 ≢ open_still)
      × ((other : ℕ)
          → other ≢ user
          → send_loop send other (front ++ received (kicked user) ∷ rest)
            ≡ send_loop send other (front ++ rest))
      × (lookup channel (on_event parse_uuid (on_channel_deleted channel) rooms) ≡ none)
      × ((any : ℕ) → (send_loop send any (front ++ received channel_deleted ∷ rest)).1 ≢ open_still)
unfolding on_event send_to turn
leaving_ends parse_uuid rooms channel user_text user room send front rest parsed here =
    let (same, ends) = cut_off send user front rest (kicked user) (ground arith) in
    (
      rw (on_event, parsed) (lookup-broadcast rooms channel (kicked user) room here),
      same,
      ends,
      λ other apart. passed_over send other front rest (kicked user) (ground (arith, apart)),
      lookup-remove_self channel (broadcast_to_room rooms channel channel_deleted),
      λ any. (cut_off send any front rest channel_deleted refl).1,
    )
