-- ===== src/Auth/Tables.antt =====
-- The data of src/modules/auth: prisma/schema.prisma (`User`, with the roles that
-- `userAuthInclude` reads), types/auth-user.type.ts and the DTOs. Ids are numbers, dates are
-- milliseconds.
use rental_be_nest.Prelude.{ℕ, String, Option, List}
use rental_be_nest.World.{UserActivityStatus}

-- A role with the codes of its permissions.
pub record Role : Type 0 where
  pub code : String
  pub permissions : List String

-- A row of `User`, with its roles: `UserWithAuth`.
pub record Account : Type 0 where
  pub id : ℕ
  pub email : String
  pub password_hash : String
  pub full_name : String
  pub phone : Option String
  pub search_text : String
  pub activity_status : UserActivityStatus
  pub last_login_at : Option ℕ
  pub deleted_at : Option ℕ
  pub roles : List Role

pub record AuthUser : Type 0 where
  pub id : ℕ
  pub session_id : ℕ
  pub email : String
  pub full_name : String
  pub phone : Option String
  pub roles : List String
  pub permissions : List String

pub record JwtAccessPayload : Type 0 where
  pub sub : ℕ
  pub email : String
  pub sid : ℕ

pub record JwtRefreshPayload : Type 0 where
  pub sub : ℕ
  pub sid : ℕ

pub record RefreshRequestUser : Type 0 where
  pub sub : ℕ
  pub sid : ℕ
  pub refresh_token : String

-- Where a login comes from, as far as the request says.
pub record Device : Type 0 where
  pub ip_address : Option String
  pub user_agent : Option String
  pub device_id : Option String
  pub fcm_token : Option String

pub record AuthSession : Type 0 where
  pub session_id : ℕ
  pub user_id : ℕ
  pub refresh_token_hash : String
  pub created_at : ℕ
  pub last_used_at : ℕ
  pub expires_at : ℕ
  pub device : Device

pub record AuthCookiePayload : Type 0 where
  pub session_id : ℕ
  pub access_token : String
  pub refresh_token : String
  pub access_max_age : ℕ
  pub refresh_max_age : ℕ

-- `LoginResult` and `RefreshResult`
pub record LoginResult : Type 0 where
  pub user : AuthUser
  pub cookies : AuthCookiePayload

pub record LoginDto : Type 0 where
  pub email : String
  pub password : String
  pub device : Device

pub record UpdateMeDto : Type 0 where
  pub full_name : Option String
  pub phone : Option String

pub record ChangePasswordDto : Type 0 where
  pub old_password : String
  pub new_password : String

pub record ResetPasswordDto : Type 0 where
  pub token : String
  pub new_password : String
  pub confirm_password : String

-- `VerifiedPasswordResetToken`
pub record VerifiedToken : Type 0 where
  pub user_id : ℕ
  pub token_hash : String

-- The mail of a reset, as it is handed to the mail service.
pub record ResetMail : Type 0 where
  pub to_email : String
  pub user_name : String
  pub token : String
