-- ===== src/Trips.antt =====
-- src/trips/trips.service.ts: the search for trips by stops or by names. The
-- comparison of names without case (the database's) is a parameter.
pub mod Search
pub mod Edit
use waleed_bus.Base.{
  ℕ, zero, suc, ◌+◌, ◌-◌, Bool, true, false, not, ◌&&◌, ◌||◌, Option, none, some, List, [], ◌∷◌,
  ◌++◌, ◌==◌, ltb, leb, map, if◌then◌else◌, is_none, is_some, find?, select, update, delete_many,
  count, sum_of, length, Result, ok, err, ◌>>=◌, ◌>>◌, refuse_if, require, coded, not_found,
  server_error, route_not_assigned_to_bus, validation_failed, trip_not_found,
}
use waleed_bus.Base.Text.{Text, trim}
use waleed_bus.Schema.{
  Bus, Trip, TripStatus, Route, RouteStation, Booking, Db, bus_by_id, trip_by_id, booked_seats,
  is_scheduled, trip_cancelled,
}
use waleed_bus.Driver.Anchor.{FleetContext, fleet_path}
use waleed_bus.Assignments.{bus_in_fleet}
use waleed_bus.Paging.{
  PageQuery, CursorPage, build_cursor_args, to_cursor_page, take, drop, find_many,
}
use waleed_bus.Bookings.Stops.{boards_at, lands_at}

-- A stop of the search at which the passenger can leave, after the one given.
abbrev pub lands_after : ℕ → RouteStation → RouteStation → Bool
lands_after to o d = lands_at to d && ltb o.stop_order d.stop_order

-- The rows that the two joins give for a trip: one for each pair of its route's stops.
unfoldable pub stop_pairs : List RouteStation → ℕ → ℕ → ℕ
stop_pairs ss from to = sum_of (λ o. if boards_at from o then count (lands_after to o) ss else 0) ss

-- 24 hours less a millisecond.
abbrev pub day_length : ℕ
day_length = 86399999

abbrev pub on_day : ℕ → Trip → Bool
on_day start t = leb start t.depart_at && leb t.depart_at (start + day_length)

-- `(departAt, id)`, in the order of rows.
abbrev pub before : Trip → Trip → Bool
before a b = ltb a.depart_at b.depart_at || (a.depart_at == b.depart_at && leb a.id b.id)

unfoldable pub insert_trip : Trip → List Trip → List Trip
insert_trip t [] = t ∷ []
insert_trip t (x ∷ xs) = if before t x then t ∷ x ∷ xs else x ∷ insert_trip t xs

unfoldable pub order_trips : List Trip → List Trip
order_trips [] = []
order_trips (t ∷ ts) = insert_trip t (order_trips ts)

-- The keyset: after the trip of the cursor, if that is still there.
abbrev pub past : Option Trip → Trip → Bool
past none t = true
past (some c) t = ltb c.depart_at t.depart_at || (t.depart_at == c.depart_at && ltb c.id t.id)

abbrev pub cursor_trip : Db → Option ℕ → Option Trip
cursor_trip db none = none
cursor_trip db (some i) = trip_by_id db i

-- The stops of the route of a trip; a trip with no route joins none.
abbrev pub trip_stops : Db → Option ℕ → List RouteStation
trip_stops db none = []
trip_stops db (some r) = select (λ (s : RouteStation). s.route_id == r) db.stops

unfoldable pub replicate : ℕ → Trip → List Trip
replicate zero t = []
replicate (suc n) t = t ∷ replicate n t

-- A row for each pair of stops.
unfoldable pub joined_rows : Db → ℕ → ℕ → List Trip → List Trip
joined_rows db from to [] = []
joined_rows db from to (t ∷ ts) =
    replicate (stop_pairs (trip_stops db t.route_id) from to) t ++ joined_rows db from to ts

-- The query by stops, with its limit.
unfoldable pub stop_query : ℕ → ℕ → ℕ → Option ℕ → ℕ → Db → List Trip
stop_query from to day cursor limit db = take limit (
    joined_rows db from to (
      order_trips (
        select (λ t. is_scheduled t.status && on_day day t && past (cursor_trip db cursor) t)
          db.trips)))

-- An item of the results.
pub record SearchItem : Type 0 where
  pub id : ℕ
  pub route_id : Option ℕ
  pub origin : Text
  pub destination : Text
  pub depart_at : ℕ
  pub fare : ℕ
  pub status : TripStatus
  pub capacity : ℕ
  pub available_seats : ℕ

abbrev pub capacity_of : Option Bus → ℕ
capacity_of none = 0
capacity_of (some b) = b.capacity

unfoldable pub search_item : Db → Trip → SearchItem
search_item db t =
    let capacity = capacity_of (bus_by_id db t.bus_id) in
    record {
      id = t.id;
      route_id = t.route_id;
      origin = t.origin;
      destination = t.destination;
      depart_at = t.depart_at;
      fare = t.fare;
      status = t.status;
      capacity = capacity;
      available_seats = capacity - booked_seats t.id db.bookings;
    }

abbrev pub is_blank : Text → Bool
is_blank [] = true
is_blank (c ∷ t) = false

-- `TripSearchQueryDto`; `day` is the first instant of the date.
pub record TripSearch : Type 0 where
  pub origin_stop_id : Option ℕ
  pub destination_stop_id : Option ℕ
  pub origin : Text
  pub destination : Text
  pub day : ℕ
  pub page : PageQuery

module _ (encode : ℕ → Text) (decode : Text → ℕ) (same_name : Text → Text → Bool) where
  abbrev pub item_page : Db → List Trip → ℕ → CursorPage SearchItem
  item_page db ts size =
      to_cursor_page (λ (i : SearchItem). i.id) encode (map (search_item db) ts) size

  abbrev pub named : TripSearch → Trip → Bool
  named q t =
      same_name t.origin (trim q.origin)
      && same_name t.destination (trim q.destination)
      && is_scheduled t.status
      && on_day q.day t

  -- By stops if the query names any, else by names.
  abbrev pub search_by : TripSearch → Option ℕ → Option ℕ → Db → Result (CursorPage SearchItem)
  search_by q (some from) (some to) db =
      let args = build_cursor_args decode q.page 20 in
      ok (item_page db (stop_query from to q.day args.after args.take db) args.page_size)
  search_by q none none db =
      let args = build_cursor_args decode q.page 20 in
      if is_blank (trim q.origin) || is_blank (trim q.destination)
      then err (coded 422 validation_failed)
      else ok (
          item_page db
            (find_many (λ (t : Trip). t.id) args (order_trips (select (named q) db.trips)))
            args.page_size)
  search_by q _ _ db = err (coded 422 validation_failed)

  unfoldable pub search_trips : TripSearch → Db → Result (CursorPage SearchItem)
  search_trips q db = search_by q q.origin_stop_id q.destination_stop_id db
