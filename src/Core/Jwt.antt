-- ===== src/Core/Jwt.antt =====
-- libs/core/src/lib/utils/jwt.utils.ts over any `sign` and `verify` of the token library. A time is
-- in milliseconds, `exp` in seconds.
use oksai_cc_api_server.Base.{ℕ, ◌+◌, ◌*◌, ◌/◌, ◌<◌, ◌≤◌, String, Option, none, some, ◌≡◌, ◌≢◌}

pub record JwtPayload (Role : Type 0) : Type 0 where
  pub sub : String
  pub email : String
  pub tenant_id : String
  pub role : Role

-- what `verify` returns: the payload and the claim `exp` that `sign` adds
pub record Claims (Role : Type 0) : Type 0 where
  pub payload : JwtPayload Role
  pub exp : ℕ

pub record TokenPair : Type 0 where
  pub access_token : String
  pub refresh_token : String

-- the token library: `verify` throws on a token that is not the secret's or has expired
pub record Jwt (Role : Type 0) : Type 0 where
  -- how many seconds the option `expiresIn` stands for
  pub seconds : String → ℕ
  pub sign : JwtPayload Role → String → String → ℕ → String
  pub verify : String → String → ℕ → Option (Claims Role)

pub record JwtLaws {Role : Type 0} (jwt : Jwt Role) : Type 0 where
  pub verify-sign :
      (p : JwtPayload Role) (secret expires_in : String) (now later : ℕ)
      → now ≤ later
      → later < (now / 1000 + jwt.seconds expires_in) * 1000
      → jwt.verify (jwt.sign p secret expires_in now) secret later
        ≡ some (record { payload = p; exp = now / 1000 + jwt.seconds expires_in })
  pub verify_expired :
      (p : JwtPayload Role) (secret expires_in : String) (now later : ℕ)
      → (now / 1000 + jwt.seconds expires_in) * 1000 ≤ later
      → jwt.verify (jwt.sign p secret expires_in now) secret later ≡ none
  pub verify_foreign :
      (p : JwtPayload Role) (secret other expires_in : String) (now later : ℕ)
      → secret ≢ other
      → jwt.verify (jwt.sign p secret expires_in now) other later ≡ none

pub record JwtUtils : Type 0 where
  pub access_token_secret : String
  pub refresh_token_secret : String
  pub access_token_expires_in : String
  pub refresh_token_expires_in : String

module _ {Role : Type 0} (jwt : Jwt Role) (utils : JwtUtils) where
  unfoldable pub generate_access_token : JwtPayload Role → ℕ → String
  generate_access_token payload now =
      jwt.sign payload utils.access_token_secret utils.access_token_expires_in now

  unfoldable pub generate_refresh_token : JwtPayload Role → ℕ → String
  generate_refresh_token payload now =
      jwt.sign payload utils.refresh_token_secret utils.refresh_token_expires_in now

  unfoldable pub generate_token_pair : JwtPayload Role → ℕ → TokenPair
  unfolding generate_access_token generate_refresh_token
  generate_token_pair payload now = record {
    access_token = generate_access_token payload now;
    refresh_token = generate_refresh_token payload now;
  }

  unfoldable pub verify_access_token : String → ℕ → Option (Claims Role)
  verify_access_token token now = jwt.verify token utils.access_token_secret now

  unfoldable pub verify_refresh_token : String → ℕ → Option (Claims Role)
  verify_refresh_token token now = jwt.verify token utils.refresh_token_secret now
