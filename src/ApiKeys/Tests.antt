-- ===== src/ApiKeys/Tests.antt =====
-- A key, and a codec under which every text is its own hash and no scopes can be read.
use jolly_jesters_mvp.Prelude.{
  arith, ◌+◌, ◌<◌, true, false, none, some, [], ◌∷◌, ◌++◌, ℕ, ◌*◌, ltb, countb, filterb, ◌≡◌, ◌↔◌,
  refl, if◌then◌else◌,
}
use jolly_jesters_mvp.ApiKeys.{
  ApiKey, Codec, Usage, check_api_key_rate, get_scopes, validate_api_key,
}
use jolly_jesters_mvp.ApiKeys.Limit.{held, check_api_key_rate_limits}
use jolly_jesters_mvp.ApiKeys.Sound.{Admits, validate_api_key_sound}

abbrev codec : Codec
codec = record { hash_key = λ s. s; dumps = λ scopes. "[]"; loads = λ s. none }

abbrev key : ApiKey
key = record {
  id = 1;
  tenant_id = "t";
  user_id = none;
  name = "n";
  key_hash = "k";
  key_prefix = "k";
  scopes = "[]";
  is_active = true;
  last_used_at = none;
  expires_at = some 200;
}

abbrev usage : Usage
usage = ("k", 10 ∷ 20 ∷ []) ∷ []

check_api_key_rate_limits_example :
    let after = check_api_key_rate 100 "k" 2 usage in
    let is_young = λ (t : ℕ). ltb 100 (t + 60 * 1000000) in
    ((after.1 ≡ true) ↔ (countb is_young (held "k" usage) < 2))
    × (held "k" after.0 ≡ filterb is_young (held "k" usage) ++ (if after.1 then 100 ∷ [] else []))
check_api_key_rate_limits_example =
    check_api_key_rate_limits 100 2 "k" usage (refl, tt) ((omega arith, tt), (tt, tt))

validate_api_key_sound_example :
    let after = validate_api_key codec 100 "k" (some "read") (usage, key ∷ []) in
    ((found : ApiKey) → after.1 ≡ some found → Admits codec 100 "k" (some "read") found)
    × ((check_api_key_rate 100 "k" 60 usage).1 ≡ false → (after.0.1 ≡ key ∷ []) × (after.1 ≡ none))
validate_api_key_sound_example = validate_api_key_sound codec 100 "k" (some "read") usage (key ∷ [])

accepted :
    (validate_api_key codec 100 "k" (some "read") (usage, key ∷ [])).1
    ≡ some (record key { last_used_at = some 100 })
unfolding validate_api_key check_api_key_rate get_scopes
accepted = refl

expired :
    (validate_api_key codec 201 "k" none (usage, key ∷ [])).0.1
    ≡ record key { is_active = false } ∷ []
unfolding validate_api_key check_api_key_rate get_scopes
expired = refl
