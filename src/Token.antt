-- ===== src/Token.antt =====
-- The bearer tokens of backend/app/services/auth_service.py: `issue_token`, `_decode_token_payload`,
-- `validate_token` and `refresh_token`. Texts are lists of code points and moments whole microseconds.
-- Base64, the keyed hash, UUIDs and the texts of integers are parameters. A signature that is not ASCII,
-- on which the comparison raises, is left out.
pub mod Strings
pub mod Issued
pub mod Signed
mod Tests
use jolly_jesters_mvp.Prelude.{
  ℕ, suc, ◌+◌, ◌-◌, ◌*◌, ◌/◌, ◌%◌, Bool, true, false, not, ◌&&◌, Option, none, some, List, [], ◌∷◌,
  ◌++◌, length, findb, ◌==◌, ltb, if◌then◌else◌,
}
use jolly_jesters_mvp.Prelude.Int.{ℤ, pos, negsuc, sub_ℕ, ltb_ℤ}
use jolly_jesters_mvp.Token.Strings.{
  Text, text_eq, colon, dot, equals, split, rsplit, rstrip, repeated,
}

-- What the module calls: `base64`, `hmac` with the secret, `uuid.UUID` and `int`.
pub record Codec : Type 0 where
  pub encode : Text → Text
  pub decode : Text → Option Text
  pub sign : Text → Text
  pub show_uuid : ℕ → Text
  pub read_uuid : Text → Option ℕ
  pub show_int : ℕ → Text
  pub read_int : Text → Option ℤ

-- `TOKEN_TTL_HOURS`, `TOKEN_ISSUER` and `TOKEN_AUDIENCE`
pub record Config : Type 0 where
  pub ttl_hours : ℕ
  pub issuer : Text
  pub audience : Text

pub record User : Type 0 where
  pub id : ℕ
  pub tenant_id : ℕ
  pub is_active : Bool

abbrev pub second : ℕ
second = 1000000

abbrev pub join : List Text → Text
join [] = []
join (t ∷ []) = t
join (t ∷ s ∷ ts) = t ++ colon ∷ join (s ∷ ts)

-- What a decoded token gives.
pub record Claims : Type 0 where
  pub user_id_str : Text
  pub payload : Text
  pub ts : ℤ

-- `encoded += "=" * padding`
abbrev pub add_padding : Text → Text
add_padding encoded =
    let padding = 4 - length encoded % 4 in
    if padding == 4 then encoded else encoded ++ repeated padding equals

-- `time.time() - ts`, in microseconds.
abbrev pub elapsed : (now : ℕ) → (ts : ℤ) → ℤ
elapsed now (pos s) = sub_ℕ now (s * second)
elapsed now (negsuc s) = pos (now + suc s * second)

module _ (codec : Codec) (config : Config) where
  abbrev pub payload_of : User → (now : ℕ) → (jti : Text) → Text
  payload_of user now jti = join (
      codec.show_uuid user.id
      ∷ codec.show_uuid user.tenant_id
      ∷ codec.show_int (now / second)
      ∷ jti
      ∷ config.issuer
      ∷ config.audience
      ∷ [])

  -- `issue_token`
  unfoldable pub issue_token : User → (now : ℕ) → (jti : Text) → Text
  issue_token user now jti =
      let payload = payload_of user now jti in
      rstrip equals (codec.encode payload) ++ dot ∷ codec.sign payload

  -- The user's number and the moment among the parts of a payload.
  abbrev pub claimed : List Text → Option (Text × Text)
  claimed (uid ∷ tid ∷ ts ∷ []) = some (uid, ts)
  claimed (uid ∷ tid ∷ ts ∷ jti ∷ []) = some (uid, ts)
  claimed (uid ∷ tid ∷ ts ∷ jti ∷ iss ∷ aud ∷ []) =
      if text_eq.beq iss config.issuer && text_eq.beq aud config.audience
      then some (uid, ts)
      else none
  claimed _ = none

  -- The checks of a payload that could be decoded.
  abbrev pub check_payload : (sig payload : Text) → Option Claims
  check_payload sig payload = elim (claimed (split colon payload)) [
    | none ↦ none
    | some (uid, ts_str) ↦ elim (codec.read_int ts_str) [
      | none ↦ none
      | some ts ↦
          if text_eq.beq sig (codec.sign payload)
          then some (record { user_id_str = uid; payload = payload; ts = ts })
          else none
    ]
  ]

  -- `_decode_token_payload`
  unfoldable pub decode_token_payload : (token : Text) → Option Claims
  decode_token_payload token = elim (rsplit dot token) [
    | none ↦ none
    | some (encoded, sig) ↦ elim (codec.decode (add_padding encoded)) [
      | none ↦ none
      | some payload ↦ check_payload sig payload
    ]
  ]

  abbrev pub ttl : ℕ
  ttl = config.ttl_hours * 3600 * second

  abbrev pub is_current : (id : ℕ) → User → Bool
  is_current id user = user.id == id && user.is_active

  -- The active user that a decoded token names.
  abbrev pub user_of : List User → Claims → Option User
  user_of users claims = elim (codec.read_uuid claims.user_id_str) [
    | none ↦ none
    | some id ↦ findb (is_current id) users
  ]

  -- `validate_token`
  unfoldable pub validate_token : List User → (now : ℕ) → (token : Text) → Option User
  validate_token users now token = elim (decode_token_payload token) [
    | none ↦ none
    | some claims ↦ if ltb_ℤ (pos ttl) (elapsed now claims.ts) then none else user_of users claims
  ]

  -- `ttl_seconds * (1 - TOKEN_REFRESH_WINDOW_RATIO)`, three quarters.
  abbrev pub refresh_threshold : ℕ
  refresh_threshold = config.ttl_hours * 2700 * second

  -- `refresh_token`
  unfoldable pub refresh_token : List User → (now : ℕ) → (jti token : Text) → Option Text
  refresh_token users now jti token = elim (decode_token_payload token) [
    | none ↦ none
    | some claims ↦
        if ltb_ℤ (pos ttl) (elapsed now claims.ts)
        then none
        else if ltb_ℤ (elapsed now claims.ts) (pos refresh_threshold)
        then none
        else elim (user_of users claims) [
          | none ↦ none
          | some user ↦ some (issue_token user now jti)
        ]
  ]
