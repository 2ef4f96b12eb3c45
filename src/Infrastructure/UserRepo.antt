-- ===== src/Infrastructure/UserRepo.antt =====
-- src/infrastructure/db/sqlalchemy/repositories/user.py over the rows of the users' table. A row is
-- the entity that it loads as, without events; the columns themselves are those of UserRows.antt.
pub mod Unique
pub mod Stored
pub mod Rewritten
use fast_stream_template.Common.{
  Bool, List, Option, String, Uuid, [], any, if◌then◌else◌, is_some, map, none, false, ◌++◌, not,
  opt_str_eq, some, str_eq, ◌&&◌, ◌+◌, ◌==◌, ◌∷◌,
}
use fast_stream_template.Errors.{
  Error, concurrent_modification, email_already_exists, username_already_exists, Result, err, ok,
}
use fast_stream_template.Domain.Tokens.{TokenHash, PasswordResetToken, hash_matches}
use fast_stream_template.Domain.User.{User}

-- The first row that passes the test
unfoldable pub first_user : (User → Bool) → List User → Option User
first_user p [] = none
first_user p (u ∷ us) = if p u then some u else first_user p us

-- acquire_by_id
unfoldable pub acquire_by_id : Uuid → List User → Option User
unfolding first_user
acquire_by_id user_id users = first_user (λ (u : User). u.id == user_id) users

abbrev pub not_deleted : User → Bool
not_deleted u = not (is_some u.deleted_at)

-- acquire_by_username
unfoldable pub acquire_by_username : String → List User → Option User
unfolding first_user
acquire_by_username username users =
    first_user (λ (u : User). str_eq u.username username && not_deleted u) users

-- acquire_by_email, of an address that is not None
unfoldable pub acquire_by_email : String → List User → Option User
unfolding first_user
acquire_by_email email users =
    first_user (λ (u : User). opt_str_eq u.email (some email) && not_deleted u) users

-- acquire_by_verification_token; the column is NULL where the verification has no hash
unfoldable pub acquire_by_verification_token : TokenHash → List User → Option User
unfolding first_user
acquire_by_verification_token token_hash users =
    first_user (λ (u : User). hash_matches u.email_verification.token_hash token_hash) users

-- The column of the reset token's hash, where there is a token
abbrev pub reset_hash : Option PasswordResetToken → Option TokenHash
reset_hash none = none
reset_hash (some t) = some t.token_hash

-- acquire_by_reset_token
unfoldable pub acquire_by_reset_token : TokenHash → List User → Option User
unfolding first_user
acquire_by_reset_token token_hash users =
    first_user (λ (u : User). hash_matches (reset_hash u.password_reset_token) token_hash) users

-- check_username_exists
unfoldable pub check_username_exists : String → List User → Bool
check_username_exists username users =
    any (λ (u : User). str_eq u.username username && not_deleted u) users

-- check_email_exists
unfoldable pub check_email_exists : Option String → List User → Bool
check_email_exists none users = false
check_email_exists (some email) users =
    any (λ (u : User). opt_str_eq u.email (some email) && not_deleted u) users

-- get_all_user_ids, before they are made into texts
unfoldable pub get_all_user_ids : List User → List Uuid
get_all_user_ids users = map (λ (u : User). u.id) users

-- The unique index on `email`: a NULL conflicts with nothing
abbrev pub same_email : Option String → Option String → Bool
same_email none held = false
same_email (some email) held = opt_str_eq held (some email)

-- The rows, other than the entity's own, that a unique index sets against it
abbrev pub clashes_name : User → User → Bool
clashes_name u r = not (r.id == u.id) && str_eq r.username u.username

abbrev pub clashes_email : User → User → Bool
clashes_email u r = not (r.id == u.id) && same_email u.email r.email

-- _uniqueness_error of the violated index; the one on `username` is looked at before that on
-- `email`
unfoldable pub uniqueness_error : User → List User → Option Error
uniqueness_error u users =
    if any (clashes_name u) users
    then some username_already_exists
    else if any (clashes_email u) users
    then some email_already_exists
    else none

abbrev pub unless_violated {ℓ} : {A : Type ℓ} → Option Error → A → Result A
unless_violated none a = ok a
unless_violated (some e) a = err e

-- The columns of an entity, as the entity that they load as
abbrev pub as_row : User → User
as_row u = record u { events = [] }

-- add; a violation of the primary key is reported as one of the username
unfoldable pub add : User → List User → Result (List User)
unfolding uniqueness_error
add u users =
    if any (λ (r : User). r.id == u.id) users
    then err username_already_exists
    else unless_violated (uniqueness_error u users) (users ++ as_row u ∷ [])

-- The row of this id and version, which the UPDATE writes
abbrev pub same_version : User → User → Bool
same_version u r = r.id == u.id && r.version == u.version

-- The UPDATE of a row
abbrev pub rewrite_row : User → User → User → User
rewrite_row u next r = if same_version u r then as_row next else r

-- update: the entity, whose version is then the row's, and the rows
unfoldable pub update : User → List User → Result (User × List User)
unfolding uniqueness_error
update u users =
    let next : User = record u { version = u.version + 1 } in
    if any (same_version u) users
    then unless_violated (uniqueness_error u users) (next, map (rewrite_row u next) users)
    else err concurrent_modification
