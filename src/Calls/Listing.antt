-- ===== src/Calls/Listing.antt =====
-- The pages of GET /rooms.
use rust_service.Base.{
  ℕ, ◌+◌, ◌≤◌, min, ◌≡◌, refl, some, ◌++◌, arith, nat_partial_eq, string_partial_eq, length, take,
  drop, length-take-le, take-add, drop-add, length-map,
}
use mathlib.Core.List.{map-append}
use rust_service.Calls.State.{ServerData}
use rust_service.Calls.Routes.{summary, list_rooms}

module _ {Tx : Type 0} where
  -- A page holds at most as many rooms as asked for, and never more than 100; the total is that of
  -- the server; and two pages in a row are the page of both, as long as it has at most 100 rooms.
  pub list_rooms_pages :
      (s : ServerData Tx) (offset m n : ℕ)
      → (length (list_rooms s (some offset) (some m)).rooms ≤ m)
        × (length (list_rooms s (some offset) (some m)).rooms ≤ 100)
        × ((list_rooms s (some offset) (some m)).total ≡ length s.rooms)
        × (m + n ≤ 100
            → (list_rooms s (some offset) (some (m + n))).rooms
              ≡ (list_rooms s (some offset) (some m)).rooms
                ++ (list_rooms s (some (offset + m)) (some n)).rooms)
  unfolding list_rooms
  list_rooms_pages s offset m n =
      let page = take (min m 100) (drop offset s.rooms) in
      let short : length page ≤ min m 100 = length-take-le (min m 100) (drop offset s.rooms) in
      let same = length-map summary page in
      (
        omega arith,
        omega arith,
        refl,
        λ fits.
            let a : min (m + n) 100 ≡ m + n = omega arith in
            let b : min m 100 ≡ m = omega arith in
            let c : min n 100 ≡ n = omega arith in
            rw (a, b, c, take-add m n (drop offset s.rooms), drop-add offset m s.rooms)
              (map-append summary _ _),
      )
