-- ===== src/Schema/Accounts.antt =====
-- prisma/schema.prisma: accounts, their roles and sessions, and the fleets with their members.
use waleed_bus.Base.{ℕ, Bool, Option, List}
use waleed_bus.Base.Text.{Text}
use waleed_bus.Schema.Enums.{MemberStatus}

pub record User : Type 0 where
  pub id : ℕ
  pub name : Option Text
  pub nickname : Option Text
  pub phone_number : Option Text
  pub phone_verified_at : Option ℕ
  pub national_id : Option Text
  pub picture : Option Text
  pub password_hash : Option Text
  pub max_booking_seats : Option ℕ
  pub is_active : Bool
  pub auth_version : ℕ

pub record Session : Type 0 where
  pub id : ℕ
  pub user_id : ℕ
  pub revoked_at : Option ℕ

pub record Permission : Type 0 where
  pub key : Text
  pub is_active : Bool

-- A role with the permissions that its rows in `role_permissions` name.
pub record Role : Type 0 where
  pub id : ℕ
  pub slug : Text
  pub is_system : Bool
  pub is_active : Bool
  pub permissions : List Permission

pub record UserRole : Type 0 where
  pub user_id : ℕ
  pub role_id : ℕ

pub record Fleet : Type 0 where
  pub id : ℕ
  pub owner_id : ℕ
  pub is_active : Bool

pub record FleetMember : Type 0 where
  pub id : ℕ
  pub user_id : ℕ
  pub fleet_id : ℕ
  pub role_id : ℕ
  pub status : MemberStatus
  pub assigned_by : Option ℕ
