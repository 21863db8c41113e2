-- ===== src/ApiKeys.antt =====
-- API keys: backend/app/services/api_key_service.py and backend/app/models/api_key.py. Moments are whole
-- microseconds. The hash of a key and the JSON text of its scopes are parameters.
pub mod Limit
pub mod Sound
pub mod Revoked
mod Tests
use jolly_jesters_mvp.Prelude.{
  ℕ, ◌+◌, ◌<◌, Bool, true, false, not, ◌&&◌, ◌||◌, Option, none, some, String, List, [], ◌∷◌, ◌++◌,
  ltb, leb, ◌==◌, if◌then◌else◌, length, filterb, findb, anyb, Dict, lookup, insert, string_eq,
  or_else,
}
use jolly_jesters_mvp.ProxyPool.{update_first}

pub record ApiKey : Type 0 where
  pub id : ℕ
  pub tenant_id : String
  pub user_id : Option String
  pub name : String
  pub key_hash : String
  pub key_prefix : String
  pub scopes : String
  pub is_active : Bool
  pub last_used_at : Option ℕ
  pub expires_at : Option ℕ

-- `_hash_key`, `json.dumps` of a list of scopes, and `json.loads` with `none` for an error.
pub record Codec : Type 0 where
  pub hash_key : String → String
  pub dumps : List String → String
  pub loads : String → Option (List String)

-- `_api_key_usage`
abbrev pub Usage : Type 0
Usage = Dict String (List ℕ)

abbrev pub window : ℕ
window = 60000000

abbrev pub stale_after : ℕ
stale_after = 300000000

abbrev pub last_of : List ℕ → Option ℕ
last_of [] = none
last_of (t ∷ []) = some t
last_of (t ∷ u ∷ ts) = last_of (u ∷ ts)

-- `not ts or now - ts[-1] > 300`
abbrev pub is_stale : (now : ℕ) → List ℕ → Bool
is_stale now ts = elim (last_of ts) [ none ↦ true | some t ↦ ltb (t + stale_after) now ]

abbrev pub clean_stale : (now : ℕ) → Usage → Usage
clean_stale now usage =
    if ltb 10000 (length usage) then filterb (λ e. not (is_stale now e.1)) usage else usage

-- `now - t < window`
abbrev pub is_recent : (now t : ℕ) → Bool
is_recent now t = ltb now (t + window)

-- The requests of a key that still count.
abbrev pub recent : (now : ℕ) → String → Usage → List ℕ
recent now key_hash usage = filterb (is_recent now) (or_else (lookup key_hash usage) [])

-- `check_api_key_rate`
unfoldable pub check_api_key_rate : (now : ℕ) → String → (max_per_minute : ℕ) → Usage → Usage × Bool
check_api_key_rate now key_hash max_per_minute usage =
    let cleaned = clean_stale now usage in
    let ts = recent now key_hash cleaned in
    if leb max_per_minute (length ts)
    then (insert key_hash ts cleaned, false)
    else (insert key_hash (ts ++ now ∷ []) cleaned, true)

abbrev pub valid_scopes : List String
valid_scopes = "read" ∷ "write" ∷ "admin" ∷ []

abbrev pub scope_read_only : List String
scope_read_only = "read" ∷ []

abbrev pub all_valid : List String → Bool
all_valid [] = true
all_valid (s ∷ ss) = anyb (string_eq.beq s) valid_scopes && all_valid ss

-- `validate_scopes`, with `none` for the ValueError, on the scopes given or else the default.
unfoldable pub scopes_for : Option (List String) → Option (List String)
scopes_for none = some scope_read_only
scopes_for (some scopes) = if all_valid scopes then some scopes else none

module _ (codec : Codec) where
  -- `APIKey.get_scopes`
  unfoldable pub get_scopes : ApiKey → List String
  get_scopes key =
      if string_eq.beq key.scopes ""
      then scope_read_only
      else or_else (codec.loads key.scopes) scope_read_only

  abbrev pub has_scope : String → ApiKey → Bool
  has_scope scope key = anyb (string_eq.beq scope) (get_scopes key)

  -- `not required_scope or key.has_scope(required_scope)`
  abbrev pub scope_allows : Option String → ApiKey → Bool
  scope_allows none key = true
  scope_allows (some scope) key = string_eq.beq scope "" || has_scope scope key

  -- The filter of the query: the hash, and active.
  abbrev pub is_usable : String → ApiKey → Bool
  is_usable key_hash key = string_eq.beq key.key_hash key_hash && key.is_active

  -- `key.expires_at and key.expires_at < now`
  abbrev pub is_expired : (now : ℕ) → ApiKey → Bool
  is_expired now key = elim key.expires_at [ none ↦ false | some t ↦ ltb t now ]

  abbrev pub deactivate : ApiKey → ApiKey
  deactivate key = record key { is_active = false }

  abbrev pub use_at : (now : ℕ) → ApiKey → ApiKey
  use_at now key = record key { last_used_at = some now }

  abbrev pub validate_found :
      (now : ℕ)
      → (key_hash : String) → Option String
      → List ApiKey
      → Option ApiKey
      → List ApiKey × Option ApiKey
  validate_found now key_hash scope keys none = (keys, none)
  validate_found now key_hash scope keys (some key) =
      if is_expired now key
      then (update_first (is_usable key_hash) deactivate keys, none)
      else if scope_allows scope key
      then (update_first (is_usable key_hash) (use_at now) keys, some (use_at now key))
      else (keys, none)

  abbrev pub validate_allowed :
      (now : ℕ)
      → (key_hash : String) → Option String
      → List ApiKey
      → Bool
      → List ApiKey × Option ApiKey
  validate_allowed now key_hash scope keys false = (keys, none)
  validate_allowed now key_hash scope keys true =
      validate_found now key_hash scope keys (findb (is_usable key_hash) keys)

  -- `validate_api_key`, with the limit of 60 requests a minute.
  unfoldable pub validate_api_key :
      (now : ℕ)
      → (raw_key : String) → (required_scope : Option String) → Usage × List ApiKey
      → (Usage × List ApiKey) × Option ApiKey
  validate_api_key now raw_key required_scope (usage, keys) =
      let key_hash = codec.hash_key raw_key in
      let (usage', allowed) = check_api_key_rate now key_hash 60 usage in
      let (keys', found) = validate_allowed now key_hash required_scope keys allowed in
      ((usage', keys'), found)

-- `revoke_key`
abbrev pub is_key : (tenant_id : String) → (key_id : ℕ) → ApiKey → Bool
is_key tenant_id key_id key = key.id == key_id && string_eq.beq key.tenant_id tenant_id

unfoldable pub revoke_key : (tenant_id : String) → (key_id : ℕ) → List ApiKey → List ApiKey × Bool
revoke_key tenant_id key_id keys = (
  update_first (is_key tenant_id key_id) (λ key. record key { is_active = false }) keys,
  anyb (is_key tenant_id key_id) keys,
)
