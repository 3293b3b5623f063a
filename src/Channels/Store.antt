-- ===== src/Channels/Store.antt =====
-- service-channels/src/store.rs: the operations on the two tables. `faults` says which statement
-- of an operation the database answers with an error, its `begin` and `commit` counted; an error
-- leaves the tables as they were. Fresh ids and the time are arguments.
use rust_service.Base.{
  ℕ, String, Bool, true, false, not, Option, none, some, List, [], string_partial_eq, ◌==◌,
  nat_partial_eq, pair_partial_eq, Result, ok, err, ◌>>=◌, ◌>>◌, is_some, length, take, drop,
}
use rust_service.Channels.Schemas.{
  Channel, ChannelSubscriber, CreateChannel, UpdateChannel, ApiError, SqlxError, from_sqlx, limit,
  offset,
}
use rust_service.Channels.Tables.{
  Tables, find_channel, find_subscriber, find_owner, users_of, insert_channel, insert_subscriber,
  insert_or_keep, delete_id, delete_cascade, set_owner, updated, update_rows, updating,
}

abbrev pub Faults : Type 0
Faults = ℕ → Option SqlxError

-- A statement with its result, under `?`.
unfoldable pub statement : {A : Type 0} → Option SqlxError → Result A SqlxError → Result A ApiError
statement (some e) result = err (from_sqlx e)
statement none (ok a) = ok a
statement none (err e) = err (from_sqlx e)

-- `ok_or_else`.
unfoldable pub ok_or : {A : Type 0} → ApiError → Option A → Result A ApiError
ok_or e none = err e
ok_or e (some a) = ok a

-- An early `return Err(...)`.
unfoldable pub reject_if : Bool → ApiError → Result (Unit {0}) ApiError
reject_if true e = err e
reject_if false e = ok tt

-- `by_title` is `ORDER BY title`, in the database's collation.
unfoldable pub list_channels :
    (List Channel → List Channel) → Faults → Tables → ℕ → ℕ → Result (List Channel × ℕ) ApiError
list_channels by_title faults t limit offset =
    let rows = take limit (drop offset (by_title t.channels)) in
    statement (faults 0) (ok (rows, elim rows [ [] ↦ 0 | _ ↦ length t.channels ]))

module _ (not_found_text : ℕ → String) (faults : Faults) where
  unfoldable pub get_channel : Tables → ℕ → Result Channel ApiError
  get_channel t channel_id = do
    found ← statement (faults 0) (ok (find_channel channel_id t.channels))
    ok_or (ApiError.not_found (not_found_text channel_id)) found

  unfoldable pub update_channel :
      Tables → ℕ → UpdateChannel → ℕ → Result (Tables × Channel) ApiError
  update_channel t channel_id patch now = do
    found ← statement (faults 0) (updating t channel_id patch)
    c ← ok_or (ApiError.not_found (not_found_text channel_id)) found
    ok (record t { channels = update_rows channel_id patch now t.channels }, updated patch now c)

  unfoldable pub delete_channel : Tables → ℕ → Result Tables ApiError
  delete_channel t channel_id = do
    gone ← statement (faults 0) (ok (find_channel channel_id t.channels))
    c ← ok_or (ApiError.not_found (not_found_text channel_id)) gone
    ok (delete_cascade channel_id t)

module _ (faults : Faults) where
  unfoldable pub create_channel :
      Tables → ℕ → CreateChannel → ℕ → ℕ → ℕ → Result (Tables × Channel) ApiError
  create_channel t user_id request channel_id sub_id now =
      let c : Channel = record {
        id = channel_id;
        title = request.title;
        description = request.description;
        avatar_url = request.avatar_url;
        created_at = now;
        updated_at = now;
      } in
      let owner : ChannelSubscriber = record {
        id = sub_id;
        user_id = user_id;
        channel_id = channel_id;
        is_owner = true;
      } in
      do
        begun ← statement (faults 0) (ok t)
        with_channel ← statement (faults 1) (insert_channel c begun)
        with_owner ← statement (faults 2) (insert_subscriber owner with_channel)
        committed ← statement (faults 3) (ok with_owner)
        ok (committed, c)

  -- `by_created_at` is `ORDER BY created_at`.
  unfoldable pub get_channel_subscribers :
      (List ℕ → List ℕ) → Tables → ℕ → ℕ → ℕ → Result (List ℕ × ℕ) ApiError
  get_channel_subscribers by_created_at t channel_id limit offset = do
    total ← statement (faults 0) (ok (length (users_of channel_id t.subscribers)))
    rows ←
        statement (faults 1)
          (ok (take limit (drop offset (by_created_at (users_of channel_id t.subscribers)))))
    ok (rows, total)

  unfoldable pub get_all_subscriber_ids : Tables → ℕ → Result (List ℕ) ApiError
  get_all_subscriber_ids t channel_id =
      statement (faults 0) (ok (users_of channel_id t.subscribers))

  unfoldable pub is_owner : Tables → ℕ → ℕ → Result Bool ApiError
  is_owner t user_id channel_id =
      statement (faults 0) (ok (is_some (find_owner user_id channel_id t.subscribers)))

  unfoldable pub is_subscriber : Tables → ℕ → ℕ → Result Bool ApiError
  is_subscriber t user_id channel_id =
      statement (faults 0) (ok (is_some (find_subscriber user_id channel_id t.subscribers)))

  unfoldable pub subscribe : Tables → ℕ → ℕ → ℕ → Result Tables ApiError
  subscribe t user_id channel_id sub_id =
      let s : ChannelSubscriber = record {
        id = sub_id;
        user_id = user_id;
        channel_id = channel_id;
        is_owner = false;
      } in
      do
        channel_exists ← statement (faults 0) (ok (is_some (find_channel channel_id t.channels)))
        reject_if (not channel_exists) (ApiError.not_found "Channel not found")
        statement (faults 1) (insert_or_keep s t)

  -- The row that `unsubscribe` goes on to delete.
  unfoldable pub unsubscribe_row : Tables → ℕ → ℕ → Result ChannelSubscriber ApiError
  unsubscribe_row t user_id channel_id = do
    found ← statement (faults 0) (ok (find_subscriber user_id channel_id t.subscribers))
    sub ← ok_or (ApiError.not_found "Subscription not found") found
    reject_if sub.is_owner (ApiError.conflict "Owner cannot unsubscribe from their own channel")
    ok sub

  -- The last statement of `unsubscribe`.
  unfoldable pub unsubscribe_delete : Tables → ChannelSubscriber → Result Tables ApiError
  unsubscribe_delete t sub =
      statement (faults 1) (ok (record t { subscribers = delete_id sub.id t.subscribers }))

  unfoldable pub unsubscribe : Tables → ℕ → ℕ → Result Tables ApiError
  unsubscribe t user_id channel_id = do
    sub ← unsubscribe_row t user_id channel_id
    unsubscribe_delete t sub

  unfoldable pub transfer_ownership : Tables → ℕ → ℕ → ℕ → Result Tables ApiError
  transfer_ownership t channel_id from_user_id to_user_id = do
    reject_if (from_user_id == to_user_id)
        (ApiError.bad_request "Cannot transfer ownership to yourself")
    begun ← statement (faults 0) (ok t)
    from_row ← statement (faults 1) (ok (find_owner from_user_id channel_id begun.subscribers))
    owner ← ok_or (ApiError.not_found "You are not the owner of this channel") from_row
    to_row ← statement (faults 2) (ok (find_subscriber to_user_id channel_id begun.subscribers))
    target ← ok_or (ApiError.not_found "Target user is not a subscriber of this channel") to_row
    demoted ← statement (faults 3) (ok (set_owner owner.id false begun.subscribers))
    promoted ← statement (faults 4) (ok (set_owner target.id true demoted))
    statement (faults 5) (ok (record begun { subscribers = promoted }))
