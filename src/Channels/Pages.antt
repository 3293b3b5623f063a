-- ===== src/Channels/Pages.antt =====
-- Pages of channels, and what the handlers of service-channels check of a request.
use rust_service.Base.{
  ℕ, ◌+◌, ◌-◌, ◌*◌, ◌^◌, ◌≤◌, ◌<◌, max, String, len, ◌≡◌, refl, sym, Bool, true, Option, none, some,
  List, [], ◌++◌, arith, string_partial_eq, nat_partial_eq, pair_partial_eq, ok, is_ok, length,
  take, drop, take-add,
}
use native.Mathlib.Nat.{mul-le-mul}
use rust_service.Channels.Schemas.{
  Channel, CreateChannel, UpdateChannel, I64, wrapped, PaginationParams, limit, pages_before,
  offset,
}
use rust_service.Channels.Tables.{Tables}
use rust_service.Channels.Store.{Faults, statement, ok_or, reject_if}
use rust_service.Channels.Store
use rust_service.Channels.Routes.{
  Header, ServerData, extract_user_id, check_title, check_description,
}
use rust_service.Channels.Routes

limit-bounds : (params : PaginationParams) → (1 ≤ limit params) × (limit params ≤ 100)
unfolding limit
limit-bounds params = ground arith

wrapped-small : (n : ℕ) → n < 2 ^ 63 → wrapped n ≡ I64.pos n
unfolding wrapped
wrapped-small n h = ground arith

abbrev pub page : I64 → ℕ → PaginationParams
page size n = record { current_page = I64.pos (n + 1); page_size = size }

-- Whatever page size is asked for, a page has between 1 and 100 places. If no more than 2^56 pages
-- come before it, its offset is the number of places before it, and the listed channels are those
-- that follow on the earlier pages, in the order of the titles.
pub pages_tile :
    (by_title : List Channel → List Channel) (t : Tables) (size : I64) (n : ℕ)
    → n ≤ 2 ^ 56
    → (1 ≤ limit (page size n))
      × (limit (page size n) ≤ 100)
      × (offset (page size n) ≡ I64.pos (limit (page size n) * n))
      × ((rows : List Channel) × (total : ℕ) × (Store.list_channels by_title
              (λ i. none)
              t
              (limit (page size n))
              (limit (page size n) * n)
            ≡ ok (rows, total))
          × (take (limit (page size n) * n) (by_title t.channels) ++ rows
              ≡ take (limit (page size n) * n + limit (page size n)) (by_title t.channels)))
unfolding offset pages_before Store.list_channels statement
pages_tile by_title t size n h =
    let bounds = limit-bounds (page size n) in
    let l = limit (page size n) in
    (
      bounds.0,
      bounds.1,
      (let before : max (n + 1) 1 - 1 ≡ n = omega arith in
          let room : l * n ≤ 100 * 2 ^ 56 = mul-le-mul bounds.1 h in
          rw before (wrapped-small (l * n) (omega (arith, room)))),
      (
        take l (drop (l * n) (by_title t.channels)),
        elim (take l (drop (l * n) (by_title t.channels))) [ [] ↦ 0 | _ ↦ length t.channels ],
        refl,
        sym (take-add (l * n) l (by_title t.channels)),
      ),
    )

-- A text that is absent, or has between 1 byte and so many.
abbrev pub Fits : ℕ → Option String → Type 0
Fits most none = Unit
Fits most (some s) = (1 ≤ len s) × (len s ≤ most)

check_title-Fits : (title : Option String) → check_title title ≡ ok tt → Fits 255 title
unfolding check_title reject_if
check_title-Fits none e = tt
check_title-Fits (some title) e = ground arith

check_description-Fits :
    (description : Option String) → check_description description ≡ ok tt → Fits 300 description
unfolding check_description reject_if
check_description-Fits none e = tt
check_description-Fits (some description) e = ground arith

-- A channel is stored only for a user with a valid id, under a title of 1 to 255 bytes and, where
-- there is one, a description of 1 to 300 bytes.
pub creation_checked :
    (parse_uuid : String → Option ℕ) (text : ℕ → String) (faults : Faults) (cached : ℕ → Bool)
    (state : ServerData) (h : Header) (request : CreateChannel) (channel sub now : ℕ)
    → is_ok (Routes.create_channel parse_uuid text faults cached state h request channel sub now)
      ≡ true
    → (is_ok (extract_user_id parse_uuid h) ≡ true)
      × Fits 255 (some request.title)
      × Fits 300 request.description
unfolding Routes.create_channel
creation_checked parse_uuid text faults cached state h request channel sub now e =
    let checked : (is_ok (extract_user_id parse_uuid h) ≡ true)
        × (check_title (some request.title) ≡ ok tt)
        × (check_description request.description ≡ ok tt) =
      ground arith in
    (
      checked.0,
      check_title-Fits (some request.title) checked.1,
      check_description-Fits request.description checked.2,
    )

-- An update that succeeds is by a user with a valid id, and its title and description, where they
-- are given, keep to the same bounds.
pub update_checked :
    (parse_uuid : String → Option ℕ) (text : ℕ → String) (faults : Faults) (cached : ℕ → Bool)
    (state : ServerData) (h : Header) (channel : ℕ) (patch : UpdateChannel) (now : ℕ)
    → is_ok (Routes.update_channel parse_uuid text faults cached state h channel patch now) ≡ true
    → (is_ok (extract_user_id parse_uuid h) ≡ true)
      × Fits 255 patch.title
      × Fits 300 patch.description
unfolding Routes.update_channel
update_checked parse_uuid text faults cached state h channel patch now e =
    let checked : (is_ok (extract_user_id parse_uuid h) ≡ true)
        × (check_title patch.title ≡ ok tt)
        × (check_description patch.description ≡ ok tt) =
      ground arith in
    (
      checked.0,
      check_title-Fits patch.title checked.1,
      check_description-Fits patch.description checked.2,
    )
