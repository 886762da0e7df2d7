-- ===== src/Auth/Sessions/Issuing.antt =====
-- The tokens that a user is given (issueAndPersistTokens in auth_usecase.go), and what the use case
-- needs of others: the interfaces PasswordHasher, IDGenerator and TokenIssuer, and shared/pkg/jwt.
use moneymate_backend.Shared.{ℕ, String, Bool, Option, List}
use moneymate_backend.Shared.Int.{ℤ}
use moneymate_backend.Shared.Action.{Result, ◌>>=◌, ◌>>◌, pure, external}
use moneymate_backend.Errors.{Error}
use moneymate_backend.Auth.Pins.{Uuid, Time}
use moneymate_backend.Auth.Sessions.Store.{
  User, SessionCall, get_user_roles, get_token_version, create_refresh_token,
}

pub record RefreshIssue : Type 0 where
  pub token : String
  pub token_hash : String
  pub expires_at : Time

-- What draws random numbers or reads a clock is asked with the number of the call.
pub record Ports : Type 0 where
  -- `strings.ToLower`
  pub to_lower : String → String
  -- `uuid.Parse` and `UUID.String`
  pub parse_uuid : String → Option Uuid
  pub uuid_text : Uuid → String
  -- `ParseRefreshToken`: the user of the claims; `HashToken`
  pub parse_refresh : String → ℕ → Result Error String
  pub hash_token : String → String
  pub issue_access : Uuid → String → List String → ℤ → ℕ → Result Error (String × Time)
  pub issue_refresh : Uuid → ℕ → Result Error RefreshIssue
  pub new_v7 : ℕ → Result Error Uuid
  pub verify : String → String → Result Error Bool
  pub hash : String → ℕ → Result Error String

pub record TokenPair : Type 0 where
  pub access_token : String
  pub refresh_token : String
  pub access_expires_at : Time
  pub refresh_expires_at : Time

-- The last steps of `RefreshToken` and of the log-in, of which the first also revokes.
unfoldable pub issue_pair :
    Ports → User → List String → ℤ → SessionCall Unit → SessionCall TokenPair
issue_pair ports user roles version revoke = do
  access ← external (ports.issue_access user.id user.handle roles version)
  refresh ← external (ports.issue_refresh user.id)
  revoke
  id ← external ports.new_v7
  create_refresh_token id user.id refresh.token_hash refresh.expires_at
  pure (record {
    access_token = access.0;
    refresh_token = refresh.token;
    access_expires_at = access.1;
    refresh_expires_at = refresh.expires_at;
  })

-- `issueAndPersistTokens`. The two reads run at once in the code, here one after the other.
unfoldable pub issue_and_persist_tokens : Ports → User → SessionCall TokenPair
issue_and_persist_tokens ports user = do
  roles ← get_user_roles user.id
  version ← get_token_version user.id
  issue_pair ports user roles version (pure tt)
