-- ===== src/Schema/Tables.antt =====
-- prisma/schema.prisma: the rows of the tables, with the columns that the modelled services read
-- or write, and the database that they share.
use waleed_bus.Base.{ℕ, Bool, Option, List}
use waleed_bus.Base.Text.{Text}
use waleed_bus.Schema.Enums.{
  TripStatus, BookingStatus, PaymentStatus, PaymentMethod, DropStatus, BookingFor, PromotionType,
  AssignmentStatus, OtpPurpose, Action,
}
use waleed_bus.Schema.Accounts.{User, Session, Role, UserRole, Fleet, FleetMember}
use waleed_bus.Schema.Catalog.{
  Station, Line, Route, RouteStation, Notification, Favorite, ConfigEntry,
}

pub record Bus : Type 0 where
  pub id : ℕ
  pub fleet_id : ℕ
  pub capacity : ℕ
  pub is_active : Bool
  pub line_id : Option ℕ

-- Times are milliseconds since the epoch; a fare is in thousandths of a pound.
pub record Trip : Type 0 where
  pub id : ℕ
  pub fleet_id : ℕ
  pub bus_id : ℕ
  pub depart_at : ℕ
  pub origin : Text
  pub destination : Text
  pub route_id : Option ℕ
  pub fare : ℕ
  pub status : TripStatus

pub record Booking : Type 0 where
  pub id : ℕ
  pub fleet_id : ℕ
  pub trip_id : ℕ
  pub passenger_name : Text
  pub passenger_phone : Option Text
  pub booking_for : BookingFor
  pub note : Option Text
  pub boarding_station_id : Option ℕ
  pub landing_station_id : Option ℕ
  pub pickup_address : Option Text
  pub pickup_location_confirmed : Bool
  pub passenger_user_id : Option ℕ
  pub booked_by_user_id : Option ℕ
  pub seats : ℕ
  pub status : BookingStatus
  pub total_amount : Option ℕ
  pub confirmed_at : ℕ
  pub cancelled_at : Option ℕ
  pub cancelled_by : Option ℕ
  pub cancellation_reason : Option Text
  pub boarded_at : Option ℕ
  pub boarded_by : Option ℕ
  pub drop_status : Option DropStatus
  pub drop_station_id : Option Text
  pub drop_reason : Option Text
  pub dropped_at : Option ℕ
  pub payment_method : Option PaymentMethod
  pub payment_status : Option PaymentStatus
  pub paid_at : Option ℕ
  pub payment_marked_by : Option ℕ
  pub payment_reference : Option Text
  pub refunded_amount : ℕ
  pub refund_reference : Option Text
  pub payment_notes : Option Text
  pub promotion_id : Option ℕ
  pub promo_code : Option Text
  pub discount_amount : ℕ
  pub bus_rating : Option ℕ
  pub driver_rating : Option ℕ
  pub bus_rated_at : Option ℕ
  pub driver_rated_at : Option ℕ

pub record Promotion : Type 0 where
  pub id : ℕ
  pub promo_code : Text
  pub kind : PromotionType
  pub value : ℕ
  pub is_global : Bool
  pub max_uses_per_user : ℕ
  pub max_total_uses : Option ℕ
  pub starts_at : Option ℕ
  pub expires_at : Option ℕ
  pub is_active : Bool

pub record PromotionTarget : Type 0 where
  pub promotion_id : ℕ
  pub user_id : ℕ

pub record PromotionUsage : Type 0 where
  pub promotion_id : ℕ
  pub user_id : ℕ
  pub booking_id : ℕ
  pub discount_amount : ℕ

pub record BusAssignment : Type 0 where
  pub id : ℕ
  pub fleet_id : ℕ
  pub bus_id : ℕ
  pub driver_user_id : ℕ
  pub status : AssignmentStatus
  pub assigned_by : Option ℕ
  pub ended_at : Option ℕ

pub record Challenge : Type 0 where
  pub phone_number : Text
  pub purpose : OtpPurpose
  pub user_id : Option ℕ
  pub expires_at : ℕ
  pub attempts : ℕ
  pub consumed_at : Option ℕ
  pub last_sent_at : ℕ

-- The keys of the throttle: those of the shared trips, and those that other services spell.
pub data ThrottleKey : Type 0 where
  share_verify : ℕ → ThrottleKey
  named : Text → ThrottleKey

pub record ThrottleCounter : Type 0 where
  pub key : ThrottleKey
  pub count : ℕ
  pub window_start : ℕ

pub record TripShare : Type 0 where
  pub id : ℕ
  pub booking_id : ℕ
  pub verification_code : Text
  pub expires_at : ℕ
  pub revoked_at : Option ℕ
  pub view_count : ℕ

pub record AuditEntry : Type 0 where
  pub actor_user_id : Option ℕ
  pub action : Action
  pub resource_id : Option ℕ

pub record Db : Type 0 where
  pub users : List User
  pub buses : List Bus
  pub trips : List Trip
  pub stops : List RouteStation
  pub bookings : List Booking
  pub promotions : List Promotion
  pub targets : List PromotionTarget
  pub usages : List PromotionUsage
  pub assignments : List BusAssignment
  pub challenges : List Challenge
  pub counters : List ThrottleCounter
  pub shares : List TripShare
  pub audits : List AuditEntry
  pub sessions : List Session
  pub roles : List Role
  pub user_roles : List UserRole
  pub fleets : List Fleet
  pub members : List FleetMember
  pub stations : List Station
  pub lines : List Line
  pub routes : List Route
  pub notifications : List Notification
  pub favorites : List Favorite
  pub config_entries : List ConfigEntry
