-- ===== src/Tests/Reservations.antt =====
-- Reservations and cancellations.
use waleed_bus.Base.{
  ℕ, get_or, ◌+◌, ◌≤◌, ◌≡◌, refl, sym, ◌∙◌, Bool, true, List, [], ◌∷◌, Option, some, none, Result,
  ok, err, coded, arith, is_ok-ok, count, booking_already_cancelled,
}
use mathlib.Core.List.Memᴰ
use waleed_bus.Schema.{
  Booking, PromotionUsage, Db, WithinCapacity, trip_with_bus, booking_by_id, trip_with_bus-id,
}
use waleed_bus.Promotions.Resolve.{uses, uses_by}
use waleed_bus.Bookings.Create.Commit.{CreatedBooking, create_passenger_booking}
use waleed_bus.Bookings.Create.Reserved.{Reserved, create-Reserved, create-charge}
use waleed_bus.Bookings.Create.Redemptions.{
  KeyedById, WithinTotalCaps, WithinUserCaps, create-WithinTotalCaps, create-WithinUserCaps,
}
use waleed_bus.Bookings.Cancel.{cancel_passenger_booking}
use waleed_bus.Admin.Lifecycle.{force_cancel, reinstate}
use waleed_bus.Bookings.Fleet.{UpdateBooking}
use waleed_bus.Inventory.History.{
  Request, creates, cancels, force_cancels, reinstates, boards, fleet_updates, fleet_removes, run,
  run-WithinCapacity,
}
use waleed_bus.Inventory.Returned.{Returned, cancel-Returned, cancel-cancel}
use waleed_bus.Inventory.Restored.{SameSeats, force_cancel-reinstate}
use waleed_bus.Consistency.Writes.{AllConsistent}
use waleed_bus.Consistency.History.{run-AllConsistent}
use waleed_bus.Tests.Sample.{empty, booked, booking, request, trip, bus, driver_context}

abbrev create_call : Result (CreatedBooking × Db)
create_call = create_passenger_booking true 101 1000 7 request booked

created : (r : CreatedBooking) × (db' : Db) × (create_call ≡ ok (r, db'))
unfolding create_passenger_booking waleed_bus.Bookings.Create.Checks.verified_caller
    waleed_bus.Bookings.Create.Checks.check_bookable waleed_bus.Bookings.Create.Checks.check_stops
    waleed_bus.Bookings.Create.Checks.check_time_conflict
    waleed_bus.Bookings.Create.Checks.check_seat_limit
    waleed_bus.Bookings.Create.Checks.effective_max_booking_seats
    waleed_bus.Bookings.Create.Checks.traveller_of waleed_bus.Bookings.Create.Checks.check_capacity
    waleed_bus.Base.find? waleed_bus.Base.select waleed_bus.Base.sum_of waleed_bus.Base.count
    waleed_bus.Schema.user_by_id waleed_bus.Schema.trip_with_bus waleed_bus.Schema.trip_by_id
    waleed_bus.Schema.bus_by_id waleed_bus.Bookings.Stops.stops_invalid
    waleed_bus.Bookings.Stops.route_stops waleed_bus.Bookings.Stops.order_stops
    waleed_bus.Bookings.Stops.insert_stop waleed_bus.Base.Text.trimmed waleed_bus.Base.Text.trim
    waleed_bus.Base.Text.drop_spaces waleed_bus.Base.Text.is_space waleed_bus.Base.Text.text_eq
    waleed_bus.Base.Text.every waleed_bus.Bookings.Create.Commit.price_of
    waleed_bus.Bookings.Create.Commit.booking_row waleed_bus.Bookings.Create.Commit.payable_amount
    waleed_bus.Bookings.Create.Commit.redeem waleed_bus.Promotions.Resolve.resolve_in_tx
    waleed_bus.Promotions.Resolve.resolve_found waleed_bus.Promotions.Resolve.apply_promo
    waleed_bus.Promotions.Resolve.is_targeted waleed_bus.Promotions.Resolve.record_usage
    waleed_bus.Promotions.Code.normalize_promo_code waleed_bus.Promotions.Code.code_pattern
    waleed_bus.Promotions.Code.to_upper_case waleed_bus.Promotions.Code.upper_unit
    waleed_bus.Promotions.Code.is_code_unit waleed_bus.Promotions.Discount.promo_window_status
    waleed_bus.Promotions.Discount.compute_promo_discount waleed_bus.Promotions.Discount.to_piastre
created = is_ok-ok create_call refl

on_trip : trip_with_bus booked 3 ≡ some (trip, bus)
unfolding waleed_bus.Schema.trip_with_bus waleed_bus.Schema.trip_by_id waleed_bus.Schema.bus_by_id
    waleed_bus.Base.find?
on_trip = refl

create-Reserved_example : Reserved true 101 1000 7 request booked (created.0).booking created.1
create-Reserved_example =
    create-Reserved true 101 1000 7 request booked created.0 created.1 created.2

create-charge_example :
    (amount : ℕ) × ((created.0).booking.total_amount ≡ some amount)
    × (amount + (created.0).booking.discount_amount ≡ 100000)
create-charge_example =
    create-charge true 101 1000 7 request booked created.0 created.1 trip bus created.2 on_trip refl

keyed : KeyedById booked
keyed p q m n e = Memᴰ.eq_of_singleton m ∙ sym (Memᴰ.eq_of_singleton n)

no_uses : (f : PromotionUsage → Bool) → count f booked.usages ≡ 0
unfolding waleed_bus.Base.count
no_uses f = refl

capped : WithinTotalCaps booked
capped p cap m e = omega (arith, no_uses (uses p.id))

capped_by_user : WithinUserCaps booked
capped_by_user p user m = omega (arith, no_uses (uses_by p.id user))

create-WithinTotalCaps_example : WithinTotalCaps created.1
create-WithinTotalCaps_example =
    create-WithinTotalCaps true 101 1000 7 request booked created.0 created.1 created.2 keyed capped

create-WithinUserCaps_example : WithinUserCaps created.1
create-WithinUserCaps_example =
    create-WithinUserCaps 101 1000 7 request booked created.0 created.1 created.2 keyed
      capped_by_user

no_seats : WithinCapacity empty
unfolding waleed_bus.Base.sum_of
no_seats t trip bus h = omega arith

-- The fleet corrects a name.
abbrev renaming : UpdateBooking
renaming = record { passenger_name = some []; passenger_phone = none; status = none }

-- Two reservations, a cancellation and its reinstatement, a boarding, an edit and a removal.
abbrev requests : List Request
requests =
    creates true 101 1000 7 request
    ∷ creates true 102 1001 7 request
    ∷ cancels 1002 7 101 (some 1) none
    ∷ force_cancels 1003 1 102 []
    ∷ reinstates 1 102
    ∷ boards 1004 driver_context 9 3 101
    ∷ fleet_updates driver_context 101 renaming
    ∷ fleet_removes driver_context 102
    ∷ []

run-WithinCapacity_example : WithinCapacity (run requests empty)
run-WithinCapacity_example =
    run-WithinCapacity requests empty (tt, (tt, (tt, (tt, (tt, (tt, (refl, (tt, tt)))))))) no_seats

run-AllConsistent_example : AllConsistent (run requests empty)
run-AllConsistent_example =
    run-AllConsistent requests empty (tt, (tt, (tt, (tt, (tt, (tt, (refl, (tt, tt)))))))) tt

abbrev cancel_call : Option ℕ → Result (Booking × Db)
cancel_call asked = cancel_passenger_booking 1000 7 100 asked none booked

cancelled_some : (r : Booking) × (db' : Db) × (cancel_call (some 2) ≡ ok (r, db'))
unfolding waleed_bus.Bookings.Cancel.cancel_passenger_booking
    waleed_bus.Bookings.Cancel.owned_booking waleed_bus.Bookings.Cancel.check_cancellable
    waleed_bus.Schema.trip_by_id waleed_bus.Base.find?
cancelled_some = is_ok-ok (cancel_call (some 2)) refl

cancelled_all : (r : Booking) × (db' : Db) × (cancel_call (some 3) ≡ ok (r, db'))
unfolding waleed_bus.Bookings.Cancel.cancel_passenger_booking
    waleed_bus.Bookings.Cancel.owned_booking waleed_bus.Bookings.Cancel.check_cancellable
    waleed_bus.Schema.trip_by_id waleed_bus.Base.find?
cancelled_all = is_ok-ok (cancel_call (some 3)) refl

stored : booking_by_id booked 100 ≡ some booking
unfolding waleed_bus.Base.find?
stored = refl

cancel-Returned_example :
    (b : Booking) × (booking_by_id booked 100 ≡ some b)
    × (1 ≤ get_or (some 2) b.seats)
    × Returned 100 (get_or (some 2) b.seats) booked cancelled_some.0 cancelled_some.1
cancel-Returned_example =
    cancel-Returned 1000 7 100 (some 2) none booked cancelled_some.0 cancelled_some.1
      cancelled_some.2

cancel-cancel_example :
    cancel_passenger_booking 2000 7 100 (some 1) none cancelled_all.1
    ≡ err (coded 409 booking_already_cancelled)
cancel-cancel_example =
    cancel-cancel 1000 2000 7 100 (some 3) (some 1) none none booked booking cancelled_all.0
      cancelled_all.1 stored refl cancelled_all.2

within : WithinCapacity booked
unfolding waleed_bus.Base.sum_of waleed_bus.Schema.trip_with_bus waleed_bus.Schema.trip_by_id
    waleed_bus.Schema.bus_by_id waleed_bus.Base.find?
within t found on h = ground (arith, h)

abbrev force_call : Result ((Booking × Bool) × Db)
force_call = force_cancel 1000 1 100 [] booked

forced : (r : Booking × Bool) × (db' : Db) × (force_call ≡ ok (r, db'))
unfolding waleed_bus.Admin.Lifecycle.force_cancel waleed_bus.Schema.trip_by_id waleed_bus.Base.find?
forced = is_ok-ok force_call refl

force_cancel-reinstate_example :
    (back : Booking) × (db'' : Db) × (reinstate 1 100 forced.1 ≡ ok (back, db''))
    × SameSeats booked db''
force_cancel-reinstate_example =
    force_cancel-reinstate 1000 1 1 100 [] booked booking forced.0 forced.1 trip bus stored on_trip
      within forced.2
