-- ===== src/Schema/Enums.antt =====
-- prisma/schema.prisma: the closed sets of words that the string columns hold, and the tests
-- that the services make on them.
use waleed_bus.Base.{Bool, true, false, Option, some}
use waleed_bus.Base.Text.{Text, text_eq}

pub data TripStatus : Type 0 where
  scheduled departed completed cancelled : TripStatus

pub data BookingStatus : Type 0 where
  confirmed cancelled : BookingStatus

pub data PaymentStatus : Type 0 where
  pending paid failed unpaid refund_pending partially_refunded refunded cancelled : PaymentStatus

-- The methods that a passenger may choose; an administrator may record any other word.
pub data PaymentMethod : Type 0 where
  cash vodafone_cash orange_money etisalat_cash we_pay card : PaymentMethod
  other : Text → PaymentMethod

pub data DropStatus : Type 0 where
  dropped_off not_dropped_off : DropStatus

pub data StopType : Type 0 where
  boarding landing both : StopType

pub data BookingFor : Type 0 where
  self other : BookingFor

pub data PromotionType : Type 0 where
  fixed other : PromotionType

pub data AssignmentStatus : Type 0 where
  active ended : AssignmentStatus

pub data OtpPurpose : Type 0 where
  registration profile phone_change : OtpPurpose

-- The actions that the audit trail names.
pub data Action : Type 0 where
  booking_create booking_cancel booking_force_cancel booking_reinstate : Action
  booking_override_operational booking_verify_payment booking_fail_payment booking_refund : Action
  driver_board driver_dropoff driver_payment driver_assign : Action
  driver_unassign driver_add driver_update driver_remove bus_disable bus_reactivate : Action
  bus_line_assign bus_line_unassign : Action
  otp_send otp_verify_failure otp_verify_success : Action
  auth_register phone_change_request profile_update : Action
  promotion_create promotion_update : Action
  notification_single notification_broadcast : Action
  config_update stop_create stop_update stop_delete line_update direction_update line_delete :
      Action

pub data MemberStatus : Type 0 where
  active suspended revoked : MemberStatus

-- The categories of a notification; a request may hold any other word.
pub data Category : Type 0 where
  text trip discount_code : Category
  other : Text → Category

pub data ConfigEntryType : Type 0 where
  phone whatsapp website : ConfigEntryType

pub data FavoriteType : Type 0 where
  fleet bus : FavoriteType

abbrev pub is_member : MemberStatus → Bool
is_member MemberStatus.active = true
is_member _ = false

abbrev pub is_scheduled : TripStatus → Bool
is_scheduled TripStatus.scheduled = true
is_scheduled _ = false

abbrev pub is_completed : TripStatus → Bool
is_completed TripStatus.completed = true
is_completed _ = false

abbrev pub trip_cancelled : TripStatus → Bool
trip_cancelled TripStatus.cancelled = true
trip_cancelled _ = false

-- `status IN ('SCHEDULED', 'DEPARTED')`.
abbrev pub is_running : TripStatus → Bool
is_running TripStatus.scheduled = true
is_running TripStatus.departed = true
is_running _ = false

abbrev pub is_confirmed : BookingStatus → Bool
is_confirmed BookingStatus.confirmed = true
is_confirmed BookingStatus.cancelled = false

abbrev pub is_paid : Option PaymentStatus → Bool
is_paid (some PaymentStatus.paid) = true
is_paid _ = false

abbrev pub is_refunded : Option PaymentStatus → Bool
is_refunded (some PaymentStatus.refunded) = true
is_refunded _ = false

abbrev pub is_pending : Option PaymentStatus → Bool
is_pending (some PaymentStatus.pending) = true
is_pending _ = false

abbrev pub is_cash : Option PaymentMethod → Bool
is_cash (some PaymentMethod.cash) = true
is_cash _ = false

unfoldable pub method_eq : PaymentMethod → PaymentMethod → Bool
unfolding text_eq
method_eq PaymentMethod.cash PaymentMethod.cash = true
method_eq PaymentMethod.vodafone_cash PaymentMethod.vodafone_cash = true
method_eq PaymentMethod.orange_money PaymentMethod.orange_money = true
method_eq PaymentMethod.etisalat_cash PaymentMethod.etisalat_cash = true
method_eq PaymentMethod.we_pay PaymentMethod.we_pay = true
method_eq PaymentMethod.card PaymentMethod.card = true
method_eq (PaymentMethod.other a) (PaymentMethod.other b) = text_eq a b
method_eq _ _ = false

abbrev pub drop_eq : DropStatus → DropStatus → Bool
drop_eq DropStatus.dropped_off DropStatus.dropped_off = true
drop_eq DropStatus.not_dropped_off DropStatus.not_dropped_off = true
drop_eq _ _ = false

abbrev pub can_board : StopType → Bool
can_board StopType.boarding = true
can_board StopType.both = true
can_board StopType.landing = false

abbrev pub can_land : StopType → Bool
can_land StopType.landing = true
can_land StopType.both = true
can_land StopType.boarding = false

abbrev pub is_other : BookingFor → Bool
is_other BookingFor.other = true
is_other BookingFor.self = false

abbrev pub is_active : AssignmentStatus → Bool
is_active AssignmentStatus.active = true
is_active AssignmentStatus.ended = false

abbrev pub is_phone_change : OtpPurpose → Bool
is_phone_change OtpPurpose.phone_change = true
is_phone_change _ = false
