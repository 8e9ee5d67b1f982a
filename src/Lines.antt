-- ===== src/Lines.antt =====
-- src/routes/trip-lines.service.ts: the stops of a direction of a line, and the removal of what is
-- in use.
pub mod Pairs
pub mod Bookable
pub mod Direction
use waleed_bus.Base.{
  ℕ, suc, ◌+◌, Bool, true, false, not, ◌&&◌, ◌||◌, Option, none, some, List, [], ◌∷◌, ◌++◌, ◌==◌,
  ltb, if◌then◌else◌, is_none, is_some, find?, select, map, update, delete_many, length, Result, ok,
  err, ◌>>=◌, ◌>>◌, refuse_if, require, coded, not_found, server_error, duplicate_stop,
  invalid_stop, direction_in_use, trip_line_in_use, stop_in_use,
}
use waleed_bus.Base.Text.{Text}
use waleed_bus.Schema.{Station, Line, Route, RouteStation, StopType, Bus, Trip, Action, Db, log}

-- `TripLineStopDto`.
pub record StopInput : Type 0 where
  pub stop_id : ℕ
  pub stop_type : StopType
  pub stop_minutes : Option ℕ

-- An input under its index.
pub record Occurrence : Type 0 where
  pub index : ℕ
  pub stop_id : ℕ
  pub stop_type : StopType

unfoldable pub occurrences_from : ℕ → List StopInput → List Occurrence
occurrences_from i [] = []
occurrences_from i (s ∷ ss) =
    record { index = i; stop_id = s.stop_id; stop_type = s.stop_type } ∷ occurrences_from (suc i) ss

abbrev pub at_stop : ℕ → Occurrence → Bool
at_stop stop o = o.stop_id == stop

abbrev pub is_boarding : StopType → Bool
is_boarding StopType.boarding = true
is_boarding _ = false

abbrev pub is_landing : StopType → Bool
is_landing StopType.landing = true
is_landing _ = false

-- Once, or a BOARDING and a LANDING that follows it at once.
abbrev pub is_legal : List Occurrence → Bool
is_legal [] = false
is_legal (a ∷ []) = true
is_legal (a ∷ b ∷ []) = b.index == a.index + 1 && is_boarding a.stop_type && is_landing b.stop_type
is_legal (a ∷ b ∷ c ∷ rest) = false

abbrev pub names : ℕ → StopInput → Bool
names stop s = s.stop_id == stop

-- The keys of the map of occurrences.
unfoldable pub distinct_ids : List StopInput → List ℕ
distinct_ids [] = []
distinct_ids (s ∷ ss) = s.stop_id ∷ delete_many (λ i. i == s.stop_id) (distinct_ids ss)

abbrev pub illegal_at : List Occurrence → ℕ → Bool
illegal_at os stop = not (is_legal (select (at_stop stop) os))

abbrev pub in_list : List ℕ → ℕ → Bool
in_list ids i = is_some (find? (λ j. j == i) ids)

-- `indexed.get(input.stopId)!`, for each input.
unfoldable pub stations_of : List Station → List StopInput → Result (List Station)
stations_of found [] = ok []
stations_of found (s ∷ ss) =
    let rest = stations_of found ss in
    require (find? (λ (x : Station). x.id == s.stop_id) found) 500 server_error >>= λ x.
    rest >>= λ xs. ok (x ∷ xs)

unfoldable pub resolve_stops : Db → List StopInput → Result (List Station)
resolve_stops db inputs = do
  let ids = distinct_ids inputs
  refuse_if (is_some (find? (illegal_at (occurrences_from 0 inputs)) ids)) 422 duplicate_stop
  let found = select (λ (x : Station). x.is_active && in_list ids x.id) db.stations
  refuse_if (not (length found == length ids)) 422 invalid_stop
  stations_of found inputs

-- The rows of a direction, in the order of the inputs, from 1 on.
unfoldable pub rows_from : ℕ → ℕ → List Station → List StopInput → List RouteStation
rows_from route n [] inputs = []
rows_from route n (x ∷ xs) [] = []
rows_from route n (x ∷ xs) (s ∷ ss) =
    record {
      route_id = route;
      station_id = x.id;
      stop_order = n;
      stop_type = s.stop_type;
      stop_minutes = s.stop_minutes;
    }
    ∷ rows_from route (suc n) xs ss

abbrev pub last_name : Text → List Station → Text
last_name name [] = name
last_name name (x ∷ xs) = last_name x.name xs

-- The names at the two ends: a list with no stop has none, and reading them throws.
abbrev pub ends_of : List Station → Result (Text × Text)
ends_of [] = err (coded 500 server_error)
ends_of (x ∷ xs) = ok (x.name, last_name x.name xs)

abbrev pub line_by_id : Db → ℕ → Option Line
line_by_id db i = find? (λ (l : Line). l.id == i) db.lines

abbrev pub is_some_id : Option ℕ → ℕ → Bool
is_some_id none i = false
is_some_id (some l) i = l == i

abbrev pub direction_of : ℕ → ℕ → Route → Bool
direction_of line direction r = r.id == direction && r.line_id == line

abbrev pub runs_on : ℕ → Trip → Bool
runs_on route t = is_some_id t.route_id route

abbrev pub stop_of : ℕ → RouteStation → Bool
stop_of route s = s.route_id == route

-- The rows of the direction are replaced, and it takes the names of its ends.
unfoldable pub replace_stops : ℕ → Text × Text → List RouteStation → Db → Db
replace_stops direction ends rows db = record db {
  stops = delete_many (stop_of direction) db.stops ++ rows;
  routes =
      update (λ (r : Route). r.id == direction)
        (λ r. record r { origin = ends.0; destination = ends.1 }) db.routes;
}

unfoldable pub update_direction_stops : ℕ → ℕ → List StopInput → ℕ → Db → Result Db
update_direction_stops line direction inputs actor db = do
  l ← require (line_by_id db line) 404 not_found
  r ← require (find? (direction_of line direction) db.routes) 404 not_found
  refuse_if (is_some (find? (runs_on direction) db.trips)) 409 direction_in_use
  stations ← resolve_stops db inputs
  ends ← ends_of stations
  ok (
      log (some actor) Action.direction_update (some direction)
        (replace_stops direction ends (rows_from direction 1 stations inputs) db))

-- A stop of any direction stays.
unfoldable pub remove_stop : ℕ → ℕ → Db → Result Db
remove_stop station actor db = do
  x ← require (find? (λ (x : Station). x.id == station) db.stations) 404 not_found
  refuse_if (is_some (find? (λ (s : RouteStation). s.station_id == station) db.stops)) 409
      stop_in_use
  ok (
      log (some actor) Action.stop_delete (some station)
        (record db { stations = delete_many (λ (x : Station). x.id == station) db.stations }))

abbrev pub route_of : ℕ → Route → Bool
route_of line r = r.line_id == line

-- The directions of the line.
abbrev pub directions : ℕ → Db → List Route
directions line db = select (route_of line) db.routes

abbrev pub is_direction : List Route → ℕ → Bool
is_direction rs i = is_some (find? (λ (r : Route). r.id == i) rs)

abbrev pub runs_on_any : List Route → Trip → Bool
runs_on_any rs t = elim t.route_id [ none ↦ false | some i ↦ is_direction rs i ]

abbrev pub leave_line : ℕ → Bus → Bus
leave_line line b = if is_some_id b.line_id line then record b { line_id = none } else b

-- The directions of the line and their stops go with it, and its buses have no line.
unfoldable pub delete_line : ℕ → Db → Db
delete_line line db = record db {
  lines = delete_many (λ (l : Line). l.id == line) db.lines;
  routes = delete_many (route_of line) db.routes;
  stops = delete_many (λ (s : RouteStation). is_direction (directions line db) s.route_id) db.stops;
  buses = map (leave_line line) db.buses;
}

unfoldable pub remove_trip_line : ℕ → ℕ → Db → Result Db
remove_trip_line line actor db = do
  l ← require (line_by_id db line) 404 not_found
  refuse_if (is_some (find? (runs_on_any (directions line db)) db.trips)) 409 trip_line_in_use
  ok (log (some actor) Action.line_delete (some line) (delete_line line db))
