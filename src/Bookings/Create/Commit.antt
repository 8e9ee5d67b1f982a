-- ===== src/Bookings/Create/Commit.antt =====
-- src/bookings/passenger-booking.service.ts: the price of a reservation, the rows that it writes,
-- and the whole of `createPassengerBooking`.
use waleed_bus.Base.{
  ℕ, ◌*◌, ◌-◌, Bool, false, [], ◌∷◌, ◌++◌, Option, none, some, get_or, Result, ok, ◌>>=◌, ◌>>◌,
  require, trip_not_found,
}
use waleed_bus.Base.Text.{Text, trimmed}
use waleed_bus.Schema.{
  Trip, Booking, Db, BookingFor, BookingStatus, PaymentStatus, Action, log, trip_with_bus,
}
use waleed_bus.Promotions.Discount.{to_piastre}
use waleed_bus.Promotions.Resolve.{
  PromoResolution, PromoApplyStatus, applied, resolve_in_tx, record_usage,
}
use waleed_bus.Bookings.Create.Input.{CreatePassengerBooking}
use waleed_bus.Bookings.Create.Checks.{
  Traveller, verified_caller, check_bookable, check_stops, check_time_conflict, check_seat_limit,
  traveller_of, check_capacity,
}

-- What the booking costs and which promotion it used.
pub record Price : Type 0 where
  pub total : ℕ
  pub promotion_id : Option ℕ
  pub promo_code : Option Text
  pub discount_amount : ℕ
  pub promo_status : Option PromoApplyStatus

abbrev pub full_price : ℕ → Price
full_price total = record {
  total = total;
  promotion_id = none;
  promo_code = none;
  discount_amount = 0;
  promo_status = none;
}

abbrev pub price_with : ℕ → PromoResolution → Price
price_with total r = record {
  total = total;
  promotion_id = r.promotion_id;
  promo_code = r.promo_code;
  discount_amount = r.discount_amount;
  promo_status = some r.status;
}

-- `if (input.promoCode?.trim())`: a blank code counts as none.
abbrev pub code_given : Option Text → Option Text
code_given raw = elim (trimmed raw) [ none ↦ none | some _ ↦ raw ]

abbrev pub price_by : Bool → Db → ℕ → ℕ → ℕ → Option Text → Result Price
price_by once db actor total now none = ok (full_price total)
price_by once db actor total now (some promo_code) =
    resolve_in_tx once db promo_code actor total now >>= λ r. ok (price_with total r)

-- The price without a code, or after the resolution of the code that was given.
unfoldable pub price_of : Bool → Db → Option Text → ℕ → ℕ → ℕ → Result Price
price_of once db raw actor total now = price_by once db actor total now (code_given raw)

unfoldable pub payable_amount : Price → ℕ
unfolding to_piastre
payable_amount p = to_piastre (p.total - p.discount_amount)

-- The row that the checkout inserts.
unfoldable pub booking_row : ℕ → ℕ → ℕ → Trip → Traveller → Price → CreatePassengerBooking → Booking
booking_row fresh now actor trip who price input = record {
  id = fresh;
  fleet_id = trip.fleet_id;
  trip_id = trip.id;
  passenger_name = who.name;
  passenger_phone = who.phone;
  booking_for = get_or input.booking_for BookingFor.self;
  note = trimmed input.note;
  boarding_station_id = some input.boarding_station_id;
  landing_station_id = some input.landing_station_id;
  pickup_address = trimmed input.pickup_address;
  pickup_location_confirmed = get_or input.pickup_location_confirmed false;
  passenger_user_id = who.user_id;
  booked_by_user_id = some actor;
  seats = input.seat_count;
  status = BookingStatus.confirmed;
  total_amount = some (payable_amount price);
  confirmed_at = now;
  cancelled_at = none;
  cancelled_by = none;
  cancellation_reason = none;
  boarded_at = none;
  boarded_by = none;
  drop_status = none;
  drop_station_id = none;
  drop_reason = none;
  dropped_at = none;
  payment_method = some input.payment_method;
  payment_status = some PaymentStatus.pending;
  paid_at = none;
  payment_marked_by = none;
  payment_reference = none;
  refunded_amount = 0;
  refund_reference = none;
  payment_notes = none;
  promotion_id = price.promotion_id;
  promo_code = price.promo_code;
  discount_amount = price.discount_amount;
  bus_rating = none;
  driver_rating = none;
  bus_rated_at = none;
  driver_rated_at = none;
}

abbrev pub insert_booking : Booking → Db → Db
insert_booking b db = record db { bookings = db.bookings ++ b ∷ [] }

-- `if (promotionId && promoStatus === 'OK')`: the redemption is recorded.
unfoldable pub redeem : Price → ℕ → ℕ → Db → Db
redeem price actor fresh db = elim price.promotion_id [
  | none ↦ db
  | some p ↦ elim price.promo_status [
    | some applied ↦
        record_usage
          (record {
            promotion_id = p;
            user_id = actor;
            booking_id = fresh;
            discount_amount = price.discount_amount;
          })
          db
    | _ ↦ db
  ]
]

-- What the caller gets back: the row, and how the code was resolved.
pub record CreatedBooking : Type 0 where
  pub booking : Booking
  pub promo_status : Option PromoApplyStatus

unfoldable pub create_passenger_booking :
    Bool → ℕ → ℕ → ℕ → CreatePassengerBooking → Db → Result (CreatedBooking × Db)
create_passenger_booking once fresh now actor input db = do
  caller ← verified_caller db actor
  found ← require (trip_with_bus db input.trip_id) 404 trip_not_found
  check_bookable found.0 now
  check_stops db found.0 input
  check_time_conflict db found.0 actor input
  check_seat_limit caller input.seat_count
  who ← traveller_of db caller input
  check_capacity db found.0 found.1 input.seat_count
  price ← price_of once db input.promo_code actor ((found.0).fare * input.seat_count) now
  let row = booking_row fresh now actor found.0 who price input
  ok (
    record { booking = row; promo_status = price.promo_status },
    log (some actor) Action.booking_create (some fresh)
        (redeem price actor fresh (insert_booking row db)),
  )
