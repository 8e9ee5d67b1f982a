-- ===== src/Tests/Fleets.antt =====
-- Drivers and buses.
use waleed_bus.Base.{
  ℕ, ◌≡◌, refl, true, false, List, [], ◌∷◌, Option, some, none, Result, Error, ok, err, coded,
  arith, is_ok-ok, count, trip_access_denied, phone_already_registered, resource_not_owned, ◌++◌,
}
use waleed_bus.Base.Text.{Text}
use waleed_bus.Schema.{
  Bus, TripStatus, User, Role, Permission, Fleet, FleetMember, MemberStatus, BusAssignment, Db,
}
use waleed_bus.Driver.Anchor.{FleetContext, assert_trip}
use waleed_bus.Assignments.{driver_slug, assign}
use waleed_bus.Assignments.Roster.{
  DriverInput, context_permission, add, enrol, open_account, new_driver, remove_driver, with_users,
}
use waleed_bus.Assignments.Single.{SingleActive}
use waleed_bus.Assignments.View.{operator}
use waleed_bus.Assignments.Step.{Call, Reaches, WellFormed, perform_all, labels}
use waleed_bus.Assignments.History.{perform_all-SingleActive, perform_all-Reaches}
use waleed_bus.Assignments.Progress.{assign-placed_platform}
use waleed_bus.Assignments.Departure.{remove_driver-assert_trip}
use waleed_bus.Assignments.Orphan.{add-add}
use waleed_bus.Buses.{disable, reactivate}
use waleed_bus.Buses.Lifecycle.{disable-reactivate, disable-other_fleet}
use waleed_bus.Tests.Sample.{trip, phone, booked, bus, passenger, driver_context}

abbrev driver_role : Role
driver_role = record {
  id = 1;
  slug = driver_slug;
  is_system = false;
  is_active = true;
  permissions = record { key = context_permission; is_active = true } ∷ [];
}

abbrev member : ℕ → ℕ → FleetMember
member i user = record {
  id = i;
  user_id = user;
  fleet_id = 1;
  role_id = 1;
  status = MemberStatus.active;
  assigned_by = none;
}

abbrev account : ℕ → User
account i = record passenger { id = i; phone_number = none }

-- Drivers 9, who operates bus 2, and 11.
abbrev fleet_db : Db
fleet_db = record booked {
  users = account 9 ∷ account 11 ∷ [];
  roles = driver_role ∷ [];
  fleets = record { id = 1; owner_id = 9; is_active = true } ∷ [];
  members = member 21 9 ∷ member 22 11 ∷ [];
}

abbrev platform : FleetContext
platform = record { fleet_id = 1; membership_id = none; is_super_admin = true }

well_formed : WellFormed 7 fleet_db.assignments
unfolding count
well_formed = ((λ b. ground arith, λ d. ground arith), (λ i. ground arith, λ i free. ground arith))

-- Driver 11 takes the bus, and driver 9 takes it back and leaves.
abbrev calls : List Call
calls =
    Call.assigned platform 1000 1 2 11
    ∷ Call.claimed driver_context 2000 9 2
    ∷ Call.unassigned driver_context 3000 9 2
    ∷ Call.removed platform 4000 1 21
    ∷ []

perform_all-SingleActive_example : SingleActive (perform_all 7 calls fleet_db).assignments
perform_all-SingleActive_example = perform_all-SingleActive 7 calls fleet_db well_formed

perform_all-Reaches_example :
    Reaches
      (labels 7 calls fleet_db)
      (operator fleet_db.assignments)
      (operator (perform_all 7 calls fleet_db).assignments)
perform_all-Reaches_example = perform_all-Reaches 7 calls fleet_db well_formed

assign-placed_platform_example :
    (a : BusAssignment) × (db' : Db) × (assign 7 1000 platform 1 2 11 fleet_db ≡ ok (a, db'))
    × (a.bus_id ≡ 2)
    × (a.driver_user_id ≡ 11)
unfolding waleed_bus.Schema.user_by_id waleed_bus.Schema.bus_by_id waleed_bus.Base.find?
    waleed_bus.Assignments.is_driver_slug waleed_bus.Base.Text.text_eq
assign-placed_platform_example =
    assign-placed_platform platform 1000 2 11 refl 7 1 fleet_db (account 11) bus (member 22 11) refl
      refl refl refl refl refl

abbrev departure : Result (FleetMember × Db)
departure = remove_driver 1000 platform 1 21 fleet_db

departed : (m : FleetMember) × (db' : Db) × (departure ≡ ok (m, db'))
unfolding remove_driver waleed_bus.Driver.Anchor.fleet_path waleed_bus.Base.find?
    waleed_bus.Base.Text.text_eq
departed = is_ok-ok departure refl

remove_driver-assert_trip_example :
    assert_trip driver_context (departed.0).user_id 3 departed.1
    ≡ err (coded 404 trip_access_denied)
remove_driver-assert_trip_example =
    remove_driver-assert_trip 1000 platform 1 21 fleet_db departed.0 departed.1 departed.2
      driver_context 3 refl

-- The hash of the tests is the password itself, and the role of the request does not exist.
abbrev plain : Text → Text
plain t = t

abbrev password : Text
password = b'1' ∷ b'2' ∷ b'3' ∷ b'4' ∷ b'5' ∷ b'6' ∷ b'7' ∷ b'8' ∷ []

abbrev misspelt : DriverInput
misspelt = record {
  user_id = none;
  name = none;
  nickname = none;
  phone = some phone;
  national_id = none;
  picture = none;
  password = some password;
  role_slug = some (b'd' ∷ []);
}

abbrev opened_db : Db
opened_db =
    with_users fleet_db (fleet_db.users ++ new_driver plain 50 1000 misspelt phone password ∷ [])

opening : open_account plain 50 1000 misspelt phone password fleet_db ≡ ok (50, opened_db)
unfolding open_account waleed_bus.Phone.normalize_phone waleed_bus.Base.find?
opening = refl

unknown_role :
    enrol 60 platform 1 misspelt.role_slug (50, opened_db) ≡ err (coded 404 resource_not_owned)
unfolding enrol waleed_bus.Assignments.Roster.resolve_driver_role
    waleed_bus.Driver.Anchor.fleet_path waleed_bus.Base.find? waleed_bus.Base.Text.text_eq
unknown_role = refl

add-add_example :
    ((add plain 50 60 1000 platform 1 misspelt fleet_db).0 ≡ err (coded 404 resource_not_owned))
    × ((add plain 51 61 2000 platform 1 misspelt
          (add plain 50 60 1000 platform 1 misspelt fleet_db).1).0
        ≡ err (coded 409 phone_already_registered))
add-add_example =
    add-add plain 50 1000 misspelt phone password fleet_db 60 platform 1 (50, opened_db)
      (coded 404 resource_not_owned) refl refl refl opening unknown_role 51 61 2000 platform 1

abbrev stopping : Result (Bus × Db)
stopping = disable driver_context 9 2 booked

stopped : (b : Bus) × (db' : Db) × (stopping ≡ ok (b, db'))
unfolding disable waleed_bus.Driver.Anchor.fleet_path waleed_bus.Schema.bus_by_id
    waleed_bus.Base.find?
stopped = is_ok-ok stopping refl

disable-reactivate_example :
    (b : Bus) × (db' : Db) × (reactivate driver_context 10 2 stopped.1 ≡ ok (b, db'))
    × (db'.buses ≡ booked.buses)
disable-reactivate_example =
    disable-reactivate driver_context 9 10 2 booked stopped.0 stopped.1 stopped.2

-- The trip of fleet 1 is on the road, and the context is that of fleet 5.
abbrev on_road : Db
on_road = record booked { trips = record trip { status = TripStatus.departed } ∷ [] }

abbrev elsewhere : FleetContext
elsewhere = record { fleet_id = 5; membership_id = none; is_super_admin = true }

disable-other_fleet_example :
    (b : Bus) × (db' : Db) × (disable elsewhere 1 2 on_road ≡ ok (b, db')) × (b.is_active ≡ false)
unfolding waleed_bus.Schema.bus_by_id waleed_bus.Base.find?
disable-other_fleet_example =
    disable-other_fleet elsewhere 1 on_road bus refl refl refl refl refl ((λ on. refl), tt)
