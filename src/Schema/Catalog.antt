-- ===== src/Schema/Catalog.antt =====
-- prisma/schema.prisma: stations, lines and their directions, notifications, favourites and the
-- entries of the service configuration.
use waleed_bus.Base.{ℕ, Bool, Option}
use waleed_bus.Base.Text.{Text}
use waleed_bus.Schema.Enums.{StopType, Category, ConfigEntryType, FavoriteType}

pub record Station : Type 0 where
  pub id : ℕ
  pub name : Text
  pub is_active : Bool

pub record Line : Type 0 where
  pub id : ℕ
  pub name : Text
  pub line_code : Text
  pub is_active : Bool

pub record Route : Type 0 where
  pub id : ℕ
  pub line_id : ℕ
  pub origin : Text
  pub destination : Text
  pub is_active : Bool

pub record RouteStation : Type 0 where
  pub route_id : ℕ
  pub station_id : ℕ
  pub stop_order : ℕ
  pub stop_type : StopType
  pub stop_minutes : Option ℕ

-- The keys of idempotence: those of assigned promotions, and those that other callers spell.
pub data DedupeKey : Type 0 where
  promo_assigned : (promotion user : ℕ) → DedupeKey
  named : Text → DedupeKey

pub record Notification : Type 0 where
  pub id : ℕ
  pub user_id : ℕ
  pub category : Category
  pub title : Text
  pub body : Text
  pub trip_id : Option ℕ
  pub promotion_id : Option ℕ
  pub dedupe_key : Option DedupeKey
  pub is_read : Bool
  pub read_at : Option ℕ

pub record ConfigEntry : Type 0 where
  pub id : ℕ
  pub text : Text
  pub kind : ConfigEntryType
  pub value : Text
  pub is_active : Bool
  pub sort_order : ℕ

pub record Favorite : Type 0 where
  pub id : ℕ
  pub user_id : ℕ
  pub kind : FavoriteType
  pub fleet_id : Option ℕ
  pub bus_id : Option ℕ
  pub boarding_station_id : Option ℕ
  pub landing_station_id : Option ℕ
