-- ===== src/Core/Hashing.antt =====
-- `hashPassword` and `verifyPassword` of libs/core/src/lib/utils/password.utils.ts over the
-- platform's scrypt, which takes the password, the salt and the length of the key, with its own
-- default parameters. Texts are lists of code units, buffers lists of bytes; the random salt is an
-- argument. A failure of scrypt is left out.
pub mod Roundtrip
use oksai_cc_api_server.Base.{
  ℕ, zero, suc, ◌+◌, ◌-◌, ◌*◌, ◌/◌, ◌%◌, ◌≤◌, ◌<◌, Bool, true, false, not, ◌&&◌, ◌||◌, Option, none,
  some, List, [], ◌∷◌, ◌++◌, codes, length, if◌then◌else◌, ◌==◌, nat_eq, ltb, leb,
}

abbrev pub dollar : ℕ
dollar = 36

unfoldable pub same_codes : List ℕ → List ℕ → Bool
same_codes [] [] = true
same_codes [] (d ∷ ds) = false
same_codes (c ∷ cs) [] = false
same_codes (c ∷ cs) (d ∷ ds) = c == d && same_codes cs ds

-- `buffer.toString('hex')`
abbrev pub hex_digit : ℕ → ℕ
hex_digit n = if ltb n 10 then 48 + n else 87 + n

unfoldable pub hex : List ℕ → List ℕ
hex [] = []
hex (b ∷ bs) = hex_digit (b / 16) ∷ hex_digit (b % 16) ∷ hex bs

-- `Buffer.from(text, 'hex')`, which stops at the first pair that is none of hexadecimal digits
abbrev pub digit_value : ℕ → Option ℕ
digit_value c =
    if leb 48 c && leb c 57
    then some (c - 48)
    else if leb 97 c && leb c 102
    then some (c - 87)
    else if leb 65 c && leb c 70
    then some (c - 55)
    else none

abbrev pub with_byte : Option ℕ → Option ℕ → List ℕ → List ℕ
with_byte none low bs = []
with_byte (some high) none bs = []
with_byte (some high) (some low) bs = (16 * high + low) ∷ bs

unfoldable pub unhex : List ℕ → List ℕ
unhex [] = []
unhex (c ∷ []) = []
unhex (c ∷ d ∷ cs) = with_byte (digit_value c) (digit_value d) (unhex cs)

-- `parts.join('$')`
unfoldable pub join : List (List ℕ) → List ℕ
join [] = []
join (p ∷ []) = p
join (p ∷ q ∷ ps) = p ++ (dollar ∷ join (q ∷ ps))

-- `text.split('$')`
abbrev pub onto_first : ℕ → List (List ℕ) → List (List ℕ)
onto_first c [] = (c ∷ []) ∷ []
onto_first c (p ∷ ps) = (c ∷ p) ∷ ps

unfoldable pub split : List ℕ → List (List ℕ)
split [] = [] ∷ []
split (c ∷ cs) = let rest = split cs in if c == dollar then [] ∷ rest else onto_first c rest

-- what `parseInt` skips
abbrev pub is_space : ℕ → Bool
is_space c =
    (leb 9 c && leb c 13)
    || c == 32
    || c == 160
    || c == 5760
    || (leb 8192 c && leb c 8202)
    || c == 8232
    || c == 8233
    || c == 8239
    || c == 8287
    || c == 12288
    || c == 65279

-- the digits at the start, after the number that was read so far, if there is one
unfoldable pub digits_after : Option ℕ → List ℕ → Option ℕ
digits_after read [] = read
digits_after none (c ∷ cs) =
    let rest = digits_after (some (c - 48)) cs in if leb 48 c && leb c 57 then rest else none
digits_after (some n) (c ∷ cs) =
    let rest = digits_after (some (10 * n + (c - 48))) cs in
    if leb 48 c && leb c 57 then rest else some n

-- `parseInt(text, 10)`: none where it is not a number or has a minus sign
unfoldable pub parse_int : List ℕ → Option ℕ
unfolding digits_after
parse_int [] = none
parse_int (c ∷ cs) =
    let rest = parse_int cs in
    if is_space c
    then rest
    else if c == 43
    then digits_after none cs
    else digits_after none (c ∷ cs)

-- `a & b` of the lowest bits
unfoldable pub bit_and : ℕ → ℕ → ℕ → ℕ
bit_and zero a b = 0
bit_and (suc bits) a b = a % 2 * (b % 2) + 2 * bit_and bits (a / 2) (b / 2)

-- the tests of N, r and p; 21 bits are enough for an N that is not above the bound
unfoldable pub good_numbers : Option ℕ → Option ℕ → Option ℕ → Bool
unfolding bit_and
good_numbers none r p = false
good_numbers (some n) none p = false
good_numbers (some n) (some r) none = false
good_numbers (some n) (some r) (some p) =
    leb 1 n
    && leb 1 r
    && leb 1 p
    && leb n 1048576
    && leb r 64
    && leb p 64
    && bit_and 21 n (n - 1) == 0

module _ (scrypt : List ℕ → List ℕ → ℕ → List ℕ) where
  unfoldable pub hash_password : List ℕ → List ℕ → List ℕ
  unfolding join hex
  hash_password salt password = join (
      codes "$scrypt"
      ∷ codes "16384"
      ∷ codes "8"
      ∷ codes "1"
      ∷ hex salt
      ∷ hex (scrypt password salt 64)
      ∷ [])

  unfoldable pub verify_key : List ℕ → List ℕ → List ℕ → Bool
  unfolding same_codes
  verify_key password salt stored = same_codes (scrypt password salt (length stored)) stored

  -- the tests of the parts, of which there are seven
  unfoldable pub verify_parts : List ℕ → List (List ℕ) → Bool
  unfolding good_numbers parse_int verify_key unhex
  verify_parts password (e ∷ name ∷ n ∷ r ∷ p ∷ salt ∷ key ∷ []) =
      same_codes name (codes "scrypt")
      && good_numbers (parse_int n) (parse_int r) (parse_int p)
      && verify_key password (unhex salt) (unhex key)
  verify_parts password ps = false

  unfoldable pub verify_password : List ℕ → List ℕ → Bool
  unfolding split verify_parts
  verify_password password hashed = verify_parts password (split hashed)
