-- ===== src/Tests/Listings.antt =====
-- Pages, retries, lines and the search.
use waleed_bus.Base.{
  ℕ, ◌+◌, ◌==◌, inl, inr, Bool-cases, ok_value, is_ok, ◌≡◌, ◌≤◌, ◌<◌, refl, Bool, true, false, List,
  [], ◌∷◌, ◌++◌, Option, some, none, Result, ok, arith, select, if◌then◌else◌,
}
use waleed_bus.Base.Text.{Text}
use mathlib.Core.List.{Memᴰ}
use waleed_bus.Schema.{Station, StopType, Trip, Db}
use waleed_bus.Paging.{walk}
use waleed_bus.Paging.Walk.{DistinctKeys, walk-rows}
use waleed_bus.Retry.{
  Outcome, Answer, failed_to_start, start_timeout, with_tx_start_retry, with_tx_start_retry-run,
}
use waleed_bus.Lines.{StopInput, stop_of, update_direction_stops}
use waleed_bus.Lines.Direction.{update_direction_stops-stop_pairs}
use waleed_bus.Lines.Bookable.{SingleCapability}
use waleed_bus.Bookings.Create.Checks.{check_bookable, check_stops}
use waleed_bus.Trips.{stop_pairs, stop_query, trip_stops}
use waleed_bus.Trips.Search.{stop_query-check_stops}
use waleed_bus.Tests.Sample.{booked, request, trip}

-- A key is encoded as a text of one unit.
abbrev encode : ℕ → Text
encode n = n ∷ []

abbrev decode : Text → ℕ
decode [] = 0
decode (c ∷ t) = c

abbrev key : ℕ → ℕ
key n = n

abbrev rows : List ℕ
rows = 8 ∷ 3 ∷ 5 ∷ 1 ∷ 9 ∷ []

rows-DistinctKeys : DistinctKeys key rows
unfolding waleed_bus.Base.count
rows-DistinctKeys k = ground arith

walk-rows_example : walk key encode decode (some 2) 20 6 none rows ≡ some rows
walk-rows_example =
    walk-rows key encode decode (some 2) 20 (λ i. refl) (λ i h. cc) (omega arith) rows
      rows-DistinctKeys 5 (omega arith)

-- The first attempt does not start; the others return what they find and add to it.
abbrev flaky : ℕ → ℕ → Outcome ℕ × ℕ
flaky k s = if k == 1 then (Outcome.threw (some start_timeout), s) else (Outcome.returned s, s + 1)

flaky-clean : (k s : ℕ) → failed_to_start (flaky k s).0 ≡ true → (flaky k s).1 ≡ s
flaky-clean k s h = elim (Bool-cases (k == 1)) [
  | inl e ↦ rw e refl
  | inr e ↦ let started : failed_to_start (flaky k s).0 ≡ false = rw e refl in absurd (ground arith)
]

with_tx_start_retry-run_example :
    (k : ℕ) × (1 ≤ k)
    × (k ≤ 3)
    × ((j : ℕ) → 1 ≤ j → j < k → failed_to_start (flaky j 40).0 ≡ true)
    × (k < 3 → failed_to_start (flaky k 40).0 ≡ false)
    × (with_tx_start_retry flaky 3 40 ≡ (Answer.answer (flaky k 40).0, (flaky k 40).1))
with_tx_start_retry-run_example = with_tx_start_retry-run flaky flaky-clean 3 40 (omega arith)

abbrev station : ℕ → Station
station i = record { id = i; name = i ∷ []; is_active = true }

-- A line with one direction, which no trip runs on.
abbrev line_db : Db
line_db = record booked {
  stations = station 10 ∷ station 20 ∷ [];
  lines = record { id = 1; name = []; line_code = []; is_active = true } ∷ [];
  routes = record { id = 8; line_id = 1; origin = []; destination = []; is_active = true } ∷ [];
}

abbrev input : ℕ → StopType → StopInput
input i kind = record { stop_id = i; stop_type = kind; stop_minutes = none }

-- Station 10 is a stop to board at and then one to land at.
abbrev inputs : List StopInput
inputs = input 10 StopType.boarding ∷ input 10 StopType.landing ∷ input 20 StopType.landing ∷ []

abbrev replacement : Result Db
replacement = update_direction_stops 1 8 inputs 1 line_db

written : (db' : Db) × (replacement ≡ ok db')
unfolding update_direction_stops waleed_bus.Lines.resolve_stops waleed_bus.Lines.distinct_ids
    waleed_bus.Lines.occurrences_from waleed_bus.Lines.stations_of waleed_bus.Base.find?
    waleed_bus.Base.select waleed_bus.Base.delete_many
written = ok_value replacement refl

-- The trip of the sample, on the direction.
abbrev direction_trip : Trip
direction_trip = record trip { route_id = some 8 }

update_direction_stops-stop_pairs_example :
    stop_pairs (select (stop_of 8) (written.0).stops) 10 20
    ≡ (if is_ok (check_stops written.0 direction_trip request) then 1 else 0)
update_direction_stops-stop_pairs_example =
    update_direction_stops-stop_pairs 1 8 inputs 1 line_db written.0 written.1 direction_trip
      request refl refl

single : (route : ℕ) → SingleCapability (trip_stops booked (some route))
unfolding waleed_bus.Base.select waleed_bus.Base.count
single route s = (ground arith, ground arith)

abbrev found : List Trip
found = stop_query 10 20 86400000 none 21 booked

trip_found : Memᴰ trip found
unfolding stop_query stop_pairs waleed_bus.Trips.joined_rows waleed_bus.Trips.replicate
    waleed_bus.Trips.order_trips waleed_bus.Trips.insert_trip waleed_bus.Paging.take
    waleed_bus.Base.select waleed_bus.Base.count waleed_bus.Base.sum_of
trip_found = Memᴰ.head refl

stop_query-check_stops_example :
    (check_bookable trip 1000 ≡ ok tt) × (check_stops booked trip request ≡ ok tt)
stop_query-check_stops_example =
    stop_query-check_stops booked single request 86400000 none 21 trip 1000 trip_found refl
      (omega arith)
