-- ===== src/Tests/Sample.antt =====
-- A fleet with one bus, one trip on a route of two stations, one passenger, one promotion and one
-- booking.
use waleed_bus.Base.{ℕ, true, false, List, [], ◌∷◌, some, none}
use waleed_bus.Base.Text.{Text}
use waleed_bus.Schema.{
  User, Bus, Trip, RouteStation, Booking, Promotion, BusAssignment, Challenge, Db, TripStatus,
  BookingStatus, PaymentStatus, PaymentMethod, BookingFor, PromotionType, AssignmentStatus,
  StopType, OtpPurpose,
}
use waleed_bus.Bookings.Create.Input.{CreatePassengerBooking}
use waleed_bus.Driver.Anchor.{FleetContext}

abbrev pub phone : Text
phone = b'0' ∷ b'1' ∷ b'0' ∷ b'1' ∷ b'2' ∷ b'3' ∷ b'4' ∷ b'5' ∷ b'6' ∷ b'7' ∷ b'8' ∷ []

abbrev pub passenger : User
passenger = record {
  id = 7;
  name = none;
  nickname = none;
  phone_number = some phone;
  phone_verified_at = some 1;
  national_id = none;
  picture = none;
  password_hash = none;
  max_booking_seats = none;
  is_active = true;
  auth_version = 1;
}

abbrev pub bus : Bus
bus = record { id = 2; fleet_id = 1; capacity = 14; is_active = true; line_id = none }

abbrev pub trip : Trip
trip = record {
  id = 3;
  fleet_id = 1;
  bus_id = 2;
  depart_at = 90000000;
  origin = [];
  destination = [];
  route_id = some 4;
  fare = 50000;
  status = TripStatus.scheduled;
}

abbrev pub stop : ℕ → ℕ → RouteStation
stop station order = record {
  route_id = 4;
  station_id = station;
  stop_order = order;
  stop_type = StopType.both;
  stop_minutes = none;
}

abbrev pub save5 : Text
save5 = b'S' ∷ b'A' ∷ b'V' ∷ b'E' ∷ b'5' ∷ []

abbrev pub promotion : Promotion
promotion = record {
  id = 5;
  promo_code = save5;
  kind = PromotionType.fixed;
  value = 5000;
  is_global = true;
  max_uses_per_user = 1;
  max_total_uses = some 1;
  starts_at = none;
  expires_at = none;
  is_active = true;
}

-- A request for two seats with the code " save5", made in spite of another booking at that time.
abbrev pub request : CreatePassengerBooking
request = record {
  trip_id = 3;
  seat_count = 2;
  payment_method = PaymentMethod.cash;
  boarding_station_id = 10;
  landing_station_id = 20;
  pickup_address = none;
  pickup_location_confirmed = none;
  confirm_time_conflict = some true;
  booking_for = none;
  passenger_name = none;
  passenger_phone = none;
  note = none;
  promo_code = some (b' ' ∷ b's' ∷ b'a' ∷ b'v' ∷ b'e' ∷ b'5' ∷ []);
}

-- A booking of three seats by the passenger, at 150.00.
abbrev pub booking : Booking
booking = record {
  id = 100;
  fleet_id = 1;
  trip_id = 3;
  passenger_name = [];
  passenger_phone = some phone;
  booking_for = BookingFor.self;
  note = none;
  boarding_station_id = some 10;
  landing_station_id = some 20;
  pickup_address = none;
  pickup_location_confirmed = false;
  passenger_user_id = some 7;
  booked_by_user_id = some 7;
  seats = 3;
  status = BookingStatus.confirmed;
  total_amount = some 150000;
  confirmed_at = 1;
  cancelled_at = none;
  cancelled_by = none;
  cancellation_reason = none;
  boarded_at = none;
  boarded_by = none;
  drop_status = none;
  drop_station_id = none;
  drop_reason = none;
  dropped_at = none;
  payment_method = some PaymentMethod.cash;
  payment_status = some PaymentStatus.pending;
  paid_at = none;
  payment_marked_by = none;
  payment_reference = none;
  refunded_amount = 0;
  refund_reference = none;
  payment_notes = none;
  promotion_id = none;
  promo_code = none;
  discount_amount = 0;
  bus_rating = none;
  driver_rating = none;
  bus_rated_at = none;
  driver_rated_at = none;
}

abbrev pub challenge : Challenge
challenge = record {
  phone_number = phone;
  purpose = OtpPurpose.registration;
  user_id = none;
  expires_at = 300000;
  attempts = 0;
  consumed_at = none;
  last_sent_at = 0;
}

abbrev pub assignment : BusAssignment
assignment = record {
  id = 6;
  fleet_id = 1;
  bus_id = 2;
  driver_user_id = 9;
  status = AssignmentStatus.active;
  assigned_by = none;
  ended_at = none;
}

-- The database with these bookings.
abbrev pub with_bookings : List Booking → Db
with_bookings rows = record {
  users = passenger ∷ [];
  buses = bus ∷ [];
  trips = trip ∷ [];
  stops = stop 20 2 ∷ stop 10 1 ∷ [];
  bookings = rows;
  promotions = promotion ∷ [];
  targets = [];
  usages = [];
  assignments = assignment ∷ [];
  challenges = challenge ∷ [];
  counters = [];
  shares = [];
  audits = [];
  sessions = [];
  roles = [];
  user_roles = [];
  fleets = [];
  members = [];
  stations = [];
  lines = [];
  routes = [];
  notifications = [];
  favorites = [];
  config_entries = [];
}

abbrev pub empty : Db
empty = with_bookings []

abbrev pub booked : Db
booked = with_bookings (booking ∷ [])

abbrev pub driver_context : FleetContext
driver_context = record { fleet_id = 1; membership_id = some 8; is_super_admin = false }
