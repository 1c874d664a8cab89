-- ===== src/Services/Accounts.antt =====
-- `AuthenticationService` of application/services.py over the in-memory store. The password hasher
-- and the token service are arguments.
use portfolio_analytics_api.Errors.{
  invalid_access_token, invalid_credentials, email_already_registered, Result, err,
}
use portfolio_analytics_api.Domain.Models.{Uuid, User}
use portfolio_analytics_api.Common.Text.{strip, lower, Text}
use portfolio_analytics_api.Common.{if◌then◌else◌, Bool, Option, ℕ, some, none}
pub mod Login
use portfolio_analytics_api.Memory.{
  users_add, users_get, users_get_by_email, Action, ◌>>=◌, ◌>>◌, pure, lift,
}

-- `PasswordHasher` of application/ports.py, which pwdlib implements.
pub record PasswordHasher : Type 0 where
  pub hash : Text → Text
  pub verify : Text → Text → Bool

-- `AccessTokenService` of application/ports.py, which PyJWT implements.
pub record AccessTokenService : Type 0 where
  pub expires_in_seconds : ℕ
  pub issue : Uuid → Text
  pub verify_token : Text → Result Uuid

pub record AccessToken : Type 0 where
  pub value : Text
  pub expires_in_seconds : ℕ

abbrev pub normalize_email : Text → Text
normalize_email email = lower (strip email)

-- `register` once the normalised email has been looked up.
abbrev pub register_new : PasswordHasher → Text → Text → Uuid → Option User → Action User
register_new hasher email password id (some user) = lift (err (email_already_registered email))
register_new hasher email password id none = do
  let user : User = record { id = id; email = email; password_hash = hasher.hash password }
  users_add user
  pure user

unfoldable pub register : PasswordHasher → Text → Text → Uuid → Action User
register hasher email password id = do
  existing ← users_get_by_email (normalize_email email)
  register_new hasher (normalize_email email) password id existing

abbrev pub issue_token : AccessTokenService → User → AccessToken
issue_token tokens user = record {
  value = tokens.issue user.id;
  expires_in_seconds = tokens.expires_in_seconds;
}

abbrev pub check_password :
    PasswordHasher → AccessTokenService → Text → Option User → Action AccessToken
check_password hasher tokens password none = lift (err invalid_credentials)
check_password hasher tokens password (some user) =
    if hasher.verify password user.password_hash
    then pure (issue_token tokens user)
    else lift (err invalid_credentials)

unfoldable pub login : PasswordHasher → AccessTokenService → Text → Text → Action AccessToken
login hasher tokens email password = do
  user ← users_get_by_email (normalize_email email)
  check_password hasher tokens password user

abbrev pub require_user : Option User → Action User
require_user none = lift (err invalid_access_token)
require_user (some user) = pure user

unfoldable pub authenticate : AccessTokenService → Text → Action User
authenticate tokens token = do
  user_id ← lift (tokens.verify_token token)
  user ← users_get user_id
  require_user user
