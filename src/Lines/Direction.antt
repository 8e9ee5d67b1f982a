-- ===== src/Lines/Direction.antt =====
-- A direction that the administration has written: the search and the bookings agree on it.
use waleed_bus.Base.{
  ℕ, suc, ◌≡◌, refl, ap, sym, subst, ◌∙◌, false, not, ◌&&◌, Option, some, none, inl, inr, List, [],
  ◌∷◌, ◌++◌, ◌==◌, if◌then◌else◌, is_some, find?, select, delete_many, length, arith, ok, ok_eq,
  refuse_if-eq-ok, require-eq-ok, >>=-eq-ok, is_ok, Bool-cases,
}
use waleed_bus.Base.Unique.{if-true, if-false}
use waleed_bus.Schema.{Trip, Station, RouteStation, Db, can_board, can_land}
use waleed_bus.Bookings.Stops.{order_stops, route_stops, stops_invalid}
use waleed_bus.Bookings.Create.Input.{CreatePassengerBooking}
use waleed_bus.Bookings.Create.Checks.{check_stops}
use waleed_bus.Trips.{stop_pairs}
use waleed_bus.Lines.{
  StopInput, occurrences_from, distinct_ids, illegal_at, in_list, resolve_stops, rows_from, stop_of,
  replace_stops, update_direction_stops, line_by_id, direction_of, runs_on, ends_of,
}
use waleed_bus.Lines.Pairs.{occurrences-count, rows-count}
use waleed_bus.Lines.Bookable.{SingleCapability, stop_pairs-stops_invalid}

absent : {A : Type 0} (o : Option A) → is_some o ≡ false → o ≡ none
absent none h = refl
absent (some a) h = cc

-- The rows of stops that the rule has let through.
resolved-SingleCapability :
    (db : Db) (route : ℕ) (inputs : List StopInput) (stations : List Station)
    → resolve_stops db inputs ≡ ok stations
    → SingleCapability (rows_from route 1 stations inputs)
unfolding resolve_stops
resolved-SingleCapability db route inputs stations h stop =
    let ids = distinct_ids inputs in
    let found = select (λ (x : Station). x.is_active && in_list ids x.id) db.stations in
    let (legal, h1) =
      refuse_if-eq-ok (is_some (find? (illegal_at (occurrences_from 0 inputs)) ids)) _ _ _ h in
    let (_, h2) = refuse_if-eq-ok (not (length found == length ids)) _ _ _ h1 in
    let fine = absent (find? (illegal_at (occurrences_from 0 inputs)) ids) legal in
    (
      omega (
        arith,
        rows-count can_board stop route 1 0 found inputs stations h2,
        occurrences-count can_board stop inputs (inr refl) fine,
      ),
      omega (
        arith,
        rows-count can_land stop route 1 0 found inputs stations h2,
        occurrences-count can_land stop inputs (inl refl) fine,
      ),
    )

select-rows_from :
    (route n : ℕ) (stations : List Station) (inputs : List StopInput)
    → select (stop_of route) (rows_from route n stations inputs) ≡ rows_from route n stations inputs
unfolding select rows_from
select-rows_from route n [] inputs = refl
select-rows_from route n (x ∷ xs) [] = refl
select-rows_from route n (x ∷ xs) (s ∷ ss) = ground (arith, select-rows_from route (suc n) xs ss)

select-replaced :
    (route : ℕ) (old new : List RouteStation)
    → select (stop_of route) (delete_many (stop_of route) old ++ new) ≡ select (stop_of route) new
unfolding select delete_many
select-replaced route [] new = refl
select-replaced route (s ∷ ss) new = ground (arith, select-replaced route ss new)

-- What an update that succeeds has written.
update_direction_stops-rows :
    (line direction : ℕ) (inputs : List StopInput) (actor : ℕ) (db db' : Db)
    → update_direction_stops line direction inputs actor db ≡ ok db'
    → (stations : List Station) × (resolve_stops db inputs ≡ ok stations)
      × (select (stop_of direction) db'.stops ≡ rows_from direction 1 stations inputs)
unfolding update_direction_stops replace_stops
update_direction_stops-rows line direction inputs actor db db' h =
    let (l, _, h1) = require-eq-ok (line_by_id db line) _ _ _ h in
    let (r, _, h2) = require-eq-ok (find? (direction_of line direction) db.routes) _ _ _ h1 in
    let (_, h3) = refuse_if-eq-ok (is_some (find? (runs_on direction) db.trips)) _ _ _ h2 in
    let (stations, resolved, h4) = >>=-eq-ok (resolve_stops db inputs) _ h3 in
    let (ends, _, last) = >>=-eq-ok (ends_of stations) _ h4 in
    (
      stations,
      resolved,
      ap (λ (d : Db). select (stop_of direction) d.stops) (sym (ok_eq last))
          ∙ select-replaced direction db.stops (rows_from direction 1 stations inputs)
          ∙ select-rows_from direction 1 stations inputs,
    )

-- The search and the bookings agree: on a direction whose stops the administration has written,
-- the search by stops matches a trip of the direction once for a pair of different stations if the
-- check of stops that a booking for that pair makes lets it pass, and not at all if the check refuses
-- it. Every station may repeat as a stop to board at and then one to land at, as the rule on repeated
-- stops allows. A pair of a station with itself is left out.
pub update_direction_stops-stop_pairs :
    (line direction : ℕ) (inputs : List StopInput) (actor : ℕ) (db db' : Db)
    → update_direction_stops line direction inputs actor db ≡ ok db'
    → (trip : Trip) (input : CreatePassengerBooking) → trip.route_id ≡ some direction
    → (input.boarding_station_id == input.landing_station_id) ≡ false
    → stop_pairs
        (select (stop_of direction) db'.stops)
        input.boarding_station_id
        input.landing_station_id
      ≡ (if is_ok (check_stops db' trip input) then 1 else 0)
unfolding route_stops check_stops
update_direction_stops-stop_pairs line direction inputs actor db db' h trip input on differ =
    let (stations, resolved, rows) =
      update_direction_stops-rows line direction inputs actor db db' h in
    let single = resolved-SingleCapability db direction inputs stations resolved in
    let ss = select (stop_of direction) db'.stops in
    let from = input.boarding_station_id in
    let to = input.landing_station_id in
    let pairs = stop_pairs-stops_invalid ss from to (subst SingleCapability (sym rows) single) in
    elim (Bool-cases (stops_invalid (order_stops ss) from to)) [
      | inl bad ↦ rw (on, differ, bad) (pairs ∙ if-true _ 0 1 bad)
      | inr fine ↦ rw (on, differ, fine) (pairs ∙ if-false _ 0 1 fine)
    ]
