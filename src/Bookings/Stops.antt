-- ===== src/Bookings/Stops.antt =====
-- src/bookings/passenger-booking.service.ts: the boarding and the landing stop of a booking on
-- the route of its trip.
pub mod Order
use waleed_bus.Base.{
  ℕ, Bool, true, false, ◌&&◌, ◌||◌, List, [], ◌∷◌, Option, none, some, ◌==◌, leb, if◌then◌else◌,
  find?, select,
}
use waleed_bus.Schema.{RouteStation, Db, can_board, can_land}

-- `orderBy: { stopOrder: 'asc' }`.
unfoldable pub insert_stop : RouteStation → List RouteStation → List RouteStation
insert_stop s [] = s ∷ []
insert_stop s (x ∷ xs) = if leb s.stop_order x.stop_order then s ∷ x ∷ xs else x ∷ insert_stop s xs

unfoldable pub order_stops : List RouteStation → List RouteStation
order_stops [] = []
order_stops (s ∷ ss) = insert_stop s (order_stops ss)

unfoldable pub route_stops : Db → ℕ → List RouteStation
unfolding order_stops insert_stop
route_stops db route = order_stops (select (λ s. s.route_id == route) db.stops)

abbrev pub boards_at : ℕ → RouteStation → Bool
boards_at station s = s.station_id == station && can_board s.stop_type

abbrev pub lands_at : ℕ → RouteStation → Bool
lands_at station s = s.station_id == station && can_land s.stop_type

-- `!boarding || !landing || boarding.stopOrder >= landing.stopOrder`.
abbrev pub out_of_order : Option RouteStation → Option RouteStation → Bool
out_of_order none l = true
out_of_order (some b) none = true
out_of_order (some b) (some l) = leb l.stop_order b.stop_order

unfoldable pub stops_invalid : List RouteStation → ℕ → ℕ → Bool
stops_invalid ss from to = out_of_order (find? (boards_at from) ss) (find? (lands_at to) ss)
