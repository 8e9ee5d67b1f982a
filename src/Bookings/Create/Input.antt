-- ===== src/Bookings/Create/Input.antt =====
-- src/bookings/dto/passenger-booking.dto.ts: the body of a reservation, after its validation.
use waleed_bus.Base.{ℕ, Bool, Option}
use waleed_bus.Base.Text.{Text}
use waleed_bus.Schema.{PaymentMethod, BookingFor}

pub record CreatePassengerBooking : Type 0 where
  pub trip_id : ℕ
  pub seat_count : ℕ
  pub payment_method : PaymentMethod
  pub boarding_station_id : ℕ
  pub landing_station_id : ℕ
  pub pickup_address : Option Text
  pub pickup_location_confirmed : Option Bool
  pub confirm_time_conflict : Option Bool
  pub booking_for : Option BookingFor
  pub passenger_name : Option Text
  pub passenger_phone : Option Text
  pub note : Option Text
  pub promo_code : Option Text
