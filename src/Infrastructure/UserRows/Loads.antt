-- ===== src/Infrastructure/UserRows/Loads.antt =====
-- Which entities a user's columns load as.
use fast_stream_template.Common.{
  Bytes, List, Option, String, [], ◌∷◌, map, none, some, str_eq, false, All, ◌≡◌, refl, ap,
}
use fast_stream_template.Errors.{ok}
use fast_stream_template.Domain.Tokens.{PasswordResetToken}
use fast_stream_template.Domain.TwoFactor.{TwoFactorSecret}
use fast_stream_template.Domain.Names.{
  codes, validate_email, validate_hashed_password, validate_user_id, validate_username,
}
use fast_stream_template.Domain.User.{User}
use fast_stream_template.Infrastructure.UserRepo.{as_row}
use fast_stream_template.Infrastructure.UserRows.{
  Cipher, built, email_codes, hash_of, load_secret, reset_token, row_to_user, secret_of,
  token_hashes, truthy_bytes, user_to_values,
}

-- A hash that TokenHash takes, if there is one
abbrev pub NotEmpty : Option Bytes → Type 0
NotEmpty none = Unit
NotEmpty (some b) = str_eq b "" ≡ false

-- What the construction of the enrolment has checked
abbrev pub ValidSecret : Option TwoFactorSecret → Type 0
ValidSecret none = Unit
ValidSecret (some s) = All (λ (h : Bytes). str_eq h "" ≡ false) s.backup_code_hashes

-- What the constructions of the entity's value objects have checked
abbrev pub ValidUser : Cipher → User → Type 0
ValidUser cipher u =
    (validate_user_id u.id ≡ ok tt)
    × (validate_username (codes u.username) ≡ ok tt)
    × (validate_email (email_codes cipher u.email) ≡ ok tt)
    × (validate_hashed_password u.hashed_password ≡ ok tt)
    × NotEmpty u.email_verification.token_hash
    × NotEmpty (hash_of u.password_reset_token)
    × ValidSecret u.two_factor_secret

-- Decryption undoes encryption, which leaves no empty text, and fromhex undoes hex.
abbrev pub Lawful : Cipher → Type 0
Lawful cipher =
    ((s : String) → cipher.decrypt (cipher.encrypt s) ≡ s)
    × ((s : String) → str_eq (cipher.encrypt s) "" ≡ false)
    × ((b : Bytes) → cipher.fromhex (cipher.hex b) ≡ b)

truthy_lem : (o : Option Bytes) → NotEmpty o → truthy_bytes o ≡ o
truthy_lem none h = refl
truthy_lem (some b) h = rw h refl

module _ (cipher : Cipher) (law : Lawful cipher) where
  token_hashes_lem :
      (hs : List Bytes)
      → All (λ (h : Bytes). str_eq h "" ≡ false) hs
      → token_hashes cipher (map cipher.hex hs) ≡ ok hs
  unfolding token_hashes
  token_hashes_lem [] h = refl
  token_hashes_lem (b ∷ bs) (e, h) =
      rw (law.2 b) (rw e (rw (token_hashes_lem bs h) (ap (λ (x : Bytes). ok (x ∷ bs)) (law.2 b))))

  secret_lem :
      (u : User) (held : Option TwoFactorSecret)
      → u.two_factor_secret ≡ held
      → ValidSecret held
      → load_secret cipher (user_to_values cipher u) (truthy_bytes (secret_of cipher held))
        ≡ ok held
  unfolding user_to_values
  secret_lem u none h v = refl
  secret_lem u (some s) h v =
      rw (law.1 s.secret)
        (rw h (rw (token_hashes_lem s.backup_code_hashes v) (rw (law.0 s.secret) refl)))

  reset_lem :
      (u : User) (held : Option PasswordResetToken)
      → u.password_reset_token ≡ held
      → NotEmpty (hash_of held)
      → reset_token cipher (user_to_values cipher u) (truthy_bytes (hash_of held)) ≡ held
  unfolding user_to_values
  reset_lem u none h v = refl
  reset_lem u (some t) h v = rw v (rw h refl)

  built_lem :
      (u : User)
      → NotEmpty u.email_verification.token_hash
      → NotEmpty (hash_of u.password_reset_token)
      → built cipher (user_to_values cipher u) u.two_factor_secret ≡ as_row u
  unfolding user_to_values built
  built_lem u v r =
      rw (truthy_lem u.email_verification.token_hash v)
        (rw (reset_lem u u.password_reset_token refl r) refl)

  -- The columns of an entity load as the entity, without its events: of one that its value objects
  -- have accepted, and with a cipher and a hexadecimal notation that undo themselves and leave no
  -- secret empty.
  pub row_to_user-user_to_values :
      (u : User) → ValidUser cipher u → row_to_user cipher (user_to_values cipher u) ≡ ok (as_row u)
  unfolding row_to_user user_to_values
  row_to_user-user_to_values u (id, name, email, password, verification, reset, secret) =
      rw (secret_lem u u.two_factor_secret refl secret) (
        rw id (
          rw name
            (rw email (rw password (ap (λ (x : User). ok x) (built_lem u verification reset))))))
