-- ===== src/Trips/Search.antt =====
-- A trip that the search by stops shows is one that a booking takes.
use waleed_bus.Base.{
  ℕ, zero, suc, ◌+◌, ◌≤◌, ◌<◌, ◌≡◌, refl, ap, sym, subst, ◌∙◌, Bool, true, false, not, ◌&&◌, ◌||◌,
  ◌⊎◌, Option, some, none, inl, inr, List, [], ◌∷◌, ◌++◌, ◌==◌, leb, ltb, if◌then◌else◌, select,
  arith, Result, ok, err, ◌>>=◌, ◌>>◌, require, refuse_if, Bool-cases,
}
use waleed_bus.Base.Members.{select-Mem}
use mathlib.Core.List.{Memᴰ}
use mathlib.Core.List.Memᴰ
use waleed_bus.Schema.{Trip, RouteStation, Db, is_scheduled}
use waleed_bus.Bookings.Stops.{route_stops, order_stops, stops_invalid}
use waleed_bus.Bookings.Create.Input.{CreatePassengerBooking}
use waleed_bus.Bookings.Create.Checks.{check_bookable, check_stops}
use waleed_bus.Lines.Bookable.{SingleCapability, stop_pairs-stops_invalid}
use waleed_bus.Paging.{take}
use waleed_bus.Trips.{
  stop_pairs, on_day, past, cursor_trip, trip_stops, insert_trip, order_trips, replicate,
  joined_rows, stop_query, before,
}

take-Mem : (n : ℕ) (xs : List Trip) (t : Trip) → Memᴰ t (take n xs) → Memᴰ t xs
unfolding take
take-Mem zero xs t m = absurd (Memᴰ.not-nil m)
take-Mem (suc n) [] t m = absurd (Memᴰ.not-nil m)
take-Mem (suc n) (x ∷ xs) t (Memᴰ.head e) = Memᴰ.head e
take-Mem (suc n) (x ∷ xs) t (Memᴰ.tail m) = Memᴰ.tail (take-Mem n xs t m)

-- A row of a list whose tail comes from another.
under :
    (x : Trip) (xs ys : List Trip) (t : Trip)
    → (Memᴰ t xs → Memᴰ t ys)
    → Memᴰ t (x ∷ xs)
    → Memᴰ t (x ∷ ys)
under x xs ys t k (Memᴰ.head e) = Memᴰ.head e
under x xs ys t k (Memᴰ.tail m) = Memᴰ.tail (k m)

swapped : (s x : Trip) (xs : List Trip) (t : Trip) → Memᴰ t (x ∷ s ∷ xs) → Memᴰ t (s ∷ x ∷ xs)
swapped s x xs t (Memᴰ.head e) = Memᴰ.tail (Memᴰ.head e)
swapped s x xs t (Memᴰ.tail (Memᴰ.head e)) = Memᴰ.head e
swapped s x xs t (Memᴰ.tail (Memᴰ.tail m)) = Memᴰ.tail (Memᴰ.tail m)

placed :
    (s x : Trip) (xs rest : List Trip) (t : Trip) (b : Bool)
    → (Memᴰ t rest → Memᴰ t (s ∷ xs))
    → Memᴰ t (if b then s ∷ x ∷ xs else x ∷ rest)
    → Memᴰ t (s ∷ x ∷ xs)
placed s x xs rest t true k m = m
placed s x xs rest t false k m = swapped s x xs t (under x rest (s ∷ xs) t k m)

insert_trip-Mem :
    (s : Trip) (xs : List Trip) (t : Trip) → Memᴰ t (insert_trip s xs) → Memᴰ t (s ∷ xs)
unfolding insert_trip
insert_trip-Mem s [] t m = m
insert_trip-Mem s (x ∷ xs) t m =
    placed s x xs (insert_trip s xs) t (before s x) (λ k. insert_trip-Mem s xs t k) m

order_trips-Mem : (xs : List Trip) (t : Trip) → Memᴰ t (order_trips xs) → Memᴰ t xs
unfolding order_trips
order_trips-Mem [] t m = m
order_trips-Mem (x ∷ xs) t m =
    under x (order_trips xs) xs t (λ k. order_trips-Mem xs t k)
      (insert_trip-Mem x (order_trips xs) t m)

append-Mem : (xs ys : List Trip) (t : Trip) → Memᴰ t (xs ++ ys) → Memᴰ t xs ⊎ Memᴰ t ys
append-Mem [] ys t m = inr m
append-Mem (x ∷ xs) ys t (Memᴰ.head e) = inl (Memᴰ.head e)
append-Mem (x ∷ xs) ys t (Memᴰ.tail m) = elim (append-Mem xs ys t m) [
  | inl k ↦ inl (Memᴰ.tail k)
  | inr k ↦ inr k
]

replicate-Mem : (n : ℕ) (x t : Trip) → Memᴰ t (replicate n x) → (t ≡ x) × (1 ≤ n)
unfolding replicate
replicate-Mem zero x t m = absurd (Memᴰ.not-nil m)
replicate-Mem (suc n) x t (Memᴰ.head e) = (e, omega arith)
replicate-Mem (suc n) x t (Memᴰ.tail m) = ((replicate-Mem n x t m).0, omega arith)

joined_rows-Mem :
    (db : Db) (from to : ℕ) (xs : List Trip) (t : Trip)
    → Memᴰ t (joined_rows db from to xs)
    → (1 ≤ stop_pairs (trip_stops db t.route_id) from to) × Memᴰ t xs
unfolding joined_rows
joined_rows-Mem db from to [] t m = absurd (Memᴰ.not-nil m)
joined_rows-Mem db from to (x ∷ xs) t m =
    elim (append-Mem (replicate (stop_pairs (trip_stops db x.route_id) from to) x)
      (joined_rows db from to xs) t m) [
        | inl k ↦
            let (same, some_pair) =
              replicate-Mem (stop_pairs (trip_stops db x.route_id) from to) x t k in
            (rw same some_pair, Memᴰ.head same)
        | inr k ↦ let (pair, rest) = joined_rows-Mem db from to xs t k in (pair, Memᴰ.tail rest)
      ]

-- What a row of the query meets.
stop_query-Mem :
    (from to day : ℕ) (cursor : Option ℕ) (limit : ℕ) (db : Db) (t : Trip)
    → Memᴰ t (stop_query from to day cursor limit db)
    → (is_scheduled t.status ≡ true) × (1 ≤ stop_pairs (trip_stops db t.route_id) from to)
unfolding stop_query
stop_query-Mem from to day cursor limit db t m =
    let p = λ (x : Trip). is_scheduled x.status && on_day day x && past (cursor_trip db cursor) x in
    let (pair, ordered) =
      joined_rows-Mem db from to (order_trips (select p db.trips)) t (take-Mem limit _ t m) in
    let (met, _) = select-Mem p db.trips t (order_trips-Mem (select p db.trips) t ordered) in
    (ground arith, pair)

no_pairs : (from to : ℕ) → stop_pairs [] from to ≡ 0
unfolding stop_pairs waleed_bus.Base.sum_of
no_pairs from to = refl

module _ (db : Db) (single : (route : ℕ) → SingleCapability (trip_stops db (some route))) where
  served :
      (t : Trip) (route : Option ℕ) (input : CreatePassengerBooking)
      → t.route_id ≡ route
      → (input.boarding_station_id == input.landing_station_id) ≡ false
      → 1 ≤ stop_pairs (trip_stops db route) input.boarding_station_id input.landing_station_id
      → check_stops db t input ≡ ok tt
  unfolding check_stops route_stops
  served t none input e differ pair =
      absurd (omega (arith, no_pairs input.boarding_station_id input.landing_station_id))
  served t (some r) input e differ pair =
      let ss = select (λ (s : RouteStation). s.route_id == r) db.stops in
      let counted =
        stop_pairs-stops_invalid ss input.boarding_station_id input.landing_station_id (single r) in
      let valid : stops_invalid (order_stops ss) input.boarding_station_id input.landing_station_id
          ≡ false =
        ground arith in
      rw (e, differ, valid) refl

  -- The search by stops promises what a booking asks: a trip that it shows for a pair of stations
  -- passes, at each instant before its departure, both the check that the trip takes bookings and
  -- the check of the stops of a booking for this pair, if the two stations differ and no station
  -- has two stops to board at, or two to land at, on one route.
  pub stop_query-check_stops :
      (input : CreatePassengerBooking) (day : ℕ) (cursor : Option ℕ) (limit : ℕ) (t : Trip)
      (now : ℕ)
      → Memᴰ t (stop_query input.boarding_station_id input.landing_station_id day cursor limit db)
      → (input.boarding_station_id == input.landing_station_id) ≡ false
      → now < t.depart_at
      → (check_bookable t now ≡ ok tt) × (check_stops db t input ≡ ok tt)
  unfolding check_bookable
  stop_query-check_stops input day cursor limit t now m differ early =
      let (scheduled, pair) =
        stop_query-Mem input.boarding_station_id input.landing_station_id day cursor limit db t m in
      let on_time : leb t.depart_at now ≡ false = ground arith in
      (rw (scheduled, on_time) refl, served t t.route_id input refl differ pair)
