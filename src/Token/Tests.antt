-- ===== src/Token/Tests.antt =====
-- A codec that writes numbers as strokes, and a token of one user among two.
use jolly_jesters_mvp.Prelude.{
  ℕ, zero, suc, ◌+◌, ◌-◌, ◌*◌, ◌/◌, ◌%◌, true, false, Option, none, some, List, [], ◌∷◌, append-nil,
  length, findb, ltb, if◌then◌else◌, ◌≡◌, refl, sym, ap, arith,
}
use jolly_jesters_mvp.Prelude.Int.{pos, ltb_ℤ}
use jolly_jesters_mvp.Token.Strings.{Text, equals, dot, colon, repeated, Lacks}
use jolly_jesters_mvp.Token.{
  Codec, Config, User, Claims, second, ttl, elapsed, is_current, issue_token, validate_token,
  refresh_threshold, refresh_token,
}
use jolly_jesters_mvp.Token.Issued.{IsFaithful, issued_token_life}
use jolly_jesters_mvp.Token.Signed.{IsSealed, validate_token-IsSealed}

abbrev blocks : Text → Text
blocks [] = []
blocks (c ∷ s) = (c + 100) ∷ 100 ∷ 100 ∷ 100 ∷ blocks s

abbrev unblocks : Text → Option Text
unblocks (a ∷ b ∷ c ∷ d ∷ s) = elim (unblocks s) [ none ↦ none | some t ↦ some ((a - 100) ∷ t) ]
unblocks _ = some []

abbrev strokes : ℕ → Text
strokes n = repeated n 49

abbrev codec : Codec
codec = record {
  encode = blocks;
  decode = unblocks;
  sign = λ p. strokes (length p);
  show_uuid = strokes;
  read_uuid = λ t. some (length t);
  show_int = strokes;
  read_int = λ t. some (pos (length t));
}

strokes-Lacks : (c : ℕ) (n : ℕ) → (49 ≡ c → ⊥) → Lacks c (strokes n)
strokes-Lacks c zero h = tt
strokes-Lacks c (suc n) h = (ground arith, strokes-Lacks c n h)

length-strokes : (n : ℕ) → length (strokes n) ≡ n
length-strokes zero = refl
length-strokes (suc n) = ap suc (length-strokes n)

blocks-Lacks : (p : Text) → Lacks equals (blocks p)
blocks-Lacks [] = tt
blocks-Lacks (c ∷ p) = (ground arith, (refl, (refl, (refl, blocks-Lacks p))))

blocks-whole : (p : Text) → (length (blocks p) + 0) % 4 ≡ 0
blocks-whole [] = refl
blocks-whole (c ∷ p) = omega (arith, blocks-whole p)

unblocks-blocks : (p : Text) → unblocks (blocks p) ≡ some p
unblocks-blocks [] = refl
unblocks-blocks (c ∷ p) =
    let back : c + 100 - 100 ≡ c = omega arith in rw (unblocks-blocks p, back) refl

codec-IsFaithful : IsFaithful codec
codec-IsFaithful = record {
  encoded =
      λ p. (blocks p, 0, sym (append-nil (blocks p)), omega arith, blocks-whole p, blocks-Lacks p);
  decoded = unblocks-blocks;
  signed = λ p. strokes-Lacks dot (length p) (λ e. omega (arith, e));
  uuid_lacks = λ id. strokes-Lacks colon id (λ e. omega (arith, e));
  uuid_read = λ id. ap (λ n. some n) (length-strokes id);
  int_lacks = λ n. strokes-Lacks colon n (λ e. omega (arith, e));
  int_read = λ n. ap (λ n. some (pos n)) (length-strokes n);
}

abbrev config : Config
config = record { ttl_hours = 24; issuer = 106 ∷ []; audience = 97 ∷ [] }

abbrev user : User
user = record { id = 2; tenant_id = 1; is_active = true }

abbrev users : List User
users = record { id = 3; tenant_id = 1; is_active = true } ∷ user ∷ []

abbrev now : ℕ
now = 2500000

abbrev jti : Text
jti = 102 ∷ []

abbrev token : Text
token = issue_token codec config user now jti

issued_token_life_example :
    let start = now / second * second in
    let found = findb (is_current codec config user.id) users in
    (validate_token codec config users 9000000 token
      ≡ (if ltb (start + ttl codec config) 9000000 then none else found))
    × (refresh_token codec config users 9000000 jti token ≡ (
        if ltb (start + ttl codec config) 9000000
        then none
        else if ltb 9000000 (start + refresh_threshold codec config)
        then none
        else elim found [ none ↦ none | some u ↦ some (issue_token codec config u 9000000 jti) ]))
issued_token_life_example =
    issued_token_life codec config codec-IsFaithful (refl, tt) (refl, tt) user now jti (refl, tt)
      users 9000000 jti

accepted : validate_token codec config users 9000000 token ≡ some user
accepted = issued_token_life_example.0

validate_token-IsSealed_example :
    (claims : Claims) × IsSealed codec config token claims
    × (ltb_ℤ (pos (ttl codec config)) (elapsed 9000000 claims.ts) ≡ false)
    × (codec.read_uuid claims.user_id_str ≡ some user.id)
    × (user.is_active ≡ true)
    × (findb (is_current codec config user.id) users ≡ some user)
validate_token-IsSealed_example =
    validate_token-IsSealed codec config users 9000000 token user accepted
