-- ===== src/Core/PlainJwt.antt =====
-- A token library that writes a token's secret, payload and expiry in plain text, one after the
-- other. It signs nothing, but tells its own tokens apart as the documentation says.
use oksai_cc_api_server.Base.{
  ℕ, zero, suc, ◌+◌, ◌*◌, ◌/◌, String, Option, none, some, if◌then◌else◌, ◌==◌, string_eq, nat_eq,
  ltb, ◌≡◌, ◌≢◌, refl, ap, arith, eq_iff,
}
use text.Mathlib.TextLemmas.{cons-ne-nil}
use Prim.Native.Char.{Char, code}
use oksai_cc_api_server.Core.Jwt.{Jwt, JwtLaws, JwtPayload, Claims}

-- a text, each of its characters after a plus sign, and a full stop
unfoldable pub write : String → String → String
write String.[] rest = String.◌∷◌ "." rest
write (String.◌∷◌ c s) rest = String.◌∷◌ "+" (String.◌∷◌ c (write s rest))

abbrev pub with_head : Char → Option (String × String) → Option (String × String)
with_head c none = none
with_head c (some (s, rest)) = some (String.◌∷◌ c s, rest)

unfoldable pub read : String → Option (String × String)
read String.[] = none
read (String.◌∷◌ m String.[]) = if code m == 46 then some ("", "") else none
read (String.◌∷◌ m (String.◌∷◌ c s)) =
    let r = read s in if code m == 46 then some ("", String.◌∷◌ c s) else with_head c r

pub read-write : (s rest : String) → read (write s rest) ≡ some (s, rest)
unfolding read write
read-write String.[] String.[] = refl
read-write String.[] (String.◌∷◌ c rest) = refl
read-write (String.◌∷◌ c s) rest = rw (read-write s rest) refl

pub write-ne-nil : (s rest : String) → write s rest ≢ ""
unfolding write
write-ne-nil String.[] rest = cons-ne-nil "." rest
write-ne-nil (String.◌∷◌ c s) rest = cons-ne-nil "+" (String.◌∷◌ c (write s rest))

-- a number, in strokes
unfoldable pub strokes : ℕ → String
strokes zero = ""
strokes (suc n) = String.◌∷◌ "1" (strokes n)

unfoldable pub count : String → ℕ
count String.[] = 0
count (String.◌∷◌ c s) = suc (count s)

pub count-strokes : (n : ℕ) → count (strokes n) ≡ n
unfolding count strokes
count-strokes zero = refl
count-strokes (suc n) = ap suc (count-strokes n)

abbrev pub then_read :
    {A : Type 0} → Option (String × String) → (String → String → Option A) → Option A
then_read none f = none
then_read (some (s, rest)) f = f s rest

module _ {Role : Type 0} (role_name : Role → String) (named : String → Role) where
  unfoldable pub sign_plain : JwtPayload Role → String → ℕ → String
  unfolding write strokes
  sign_plain p secret exp =
      write secret
        (write p.sub (write p.email (write p.tenant_id (write (role_name p.role) (strokes exp)))))

  pub sign_plain-ne-nil :
      (p : JwtPayload Role) (secret : String) (exp : ℕ) → sign_plain p secret exp ≢ ""
  unfolding sign_plain
  sign_plain-ne-nil p secret exp = write-ne-nil secret _

  unfoldable pub read_token : String → Option (String × Claims Role)
  unfolding read count
  read_token token = then_read (read token) λ secret r1. then_read (read r1) λ sub r2.
      then_read (read r2) λ email r3. then_read (read r3) λ tenant_id r4.
        then_read (read r4) λ role r5. some (
          secret,
          record {
            payload = record { sub = sub; email = email; tenant_id = tenant_id; role = named role };
            exp = count r5;
          },
        )

  -- the secret is the right one and the token has not expired
  abbrev pub accepted : Option (String × Claims Role) → String → ℕ → Option (Claims Role)
  accepted none secret now = none
  accepted (some (own, claims)) secret now =
      if own == secret then (if ltb now (claims.exp * 1000) then some claims else none) else none

  pub read_token-sign_plain :
      ((r : Role) → named (role_name r) ≡ r)
      → (p : JwtPayload Role) (secret : String) (exp : ℕ)
      → read_token (sign_plain p secret exp) ≡ some (secret, record { payload = p; exp = exp })
  unfolding read_token sign_plain
  read_token-sign_plain same p secret exp =
      let strokes_of = strokes exp in
      let r5 = write (role_name p.role) strokes_of in
      let r4 = write p.tenant_id r5 in
      let r3 = write p.email r4 in
      rw
        (
          read-write secret (write p.sub r3),
          read-write p.sub r3,
          read-write p.email r4,
          read-write p.tenant_id r5,
          read-write (role_name p.role) strokes_of,
          count-strokes exp,
          same p.role,
        )
        refl

  unfoldable pub plain_jwt : (String → ℕ) → Jwt Role
  unfolding sign_plain read_token
  plain_jwt seconds = record {
    seconds = seconds;
    sign = λ p secret expires_in now. sign_plain p secret (now / 1000 + seconds expires_in);
    verify = λ token secret now. accepted (read_token token) secret now;
  }

  pub plain_jwt-JwtLaws :
      (seconds : String → ℕ) → ((r : Role) → named (role_name r) ≡ r) → JwtLaws (plain_jwt seconds)
  unfolding plain_jwt
  plain_jwt-JwtLaws seconds same = record {
    verify-sign = λ p secret expires_in now later before early.
        rw (read_token-sign_plain same p secret (now / 1000 + seconds expires_in))
          (ground (arith, eq_iff secret secret));
    verify_expired = λ p secret expires_in now later late.
        rw (read_token-sign_plain same p secret (now / 1000 + seconds expires_in))
          (ground (arith, eq_iff secret secret));
    verify_foreign = λ p secret other expires_in now later apart.
        rw (read_token-sign_plain same p secret (now / 1000 + seconds expires_in))
          (ground (arith, eq_iff secret other));
  }
