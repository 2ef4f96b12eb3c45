-- ===== src/Application/Accounts/Outcome.antt =====
-- What a request about a password, an address or the account itself leaves when it returns.
use fast_stream_template.Common.{
  Option, List, String, Bytes, Uuid, Time, ℕ, none, some, ◌≡◌, refl, sym, ap, ◌∙◌, false, map,
  arith, true, str_eq_iff,
}
use fast_stream_template.Errors.{Result, err, ok, Error, invalid_token}
use mathlib.Core.Path.{subst}
use fast_stream_template.Domain.Ports.{Crypto}
use fast_stream_template.Domain.Tokens
use fast_stream_template.Domain.Tokens.{PasswordResetToken, from_raw, hash_matches}
use fast_stream_template.Domain.User
use fast_stream_template.Domain.User.{User}
use fast_stream_template.Domain.User.Passwords.{reset_password-one_shot}
use fast_stream_template.Domain.Session
use fast_stream_template.Domain.Session.{SessionAggregate}
use fast_stream_template.Infrastructure.UserRepo
use fast_stream_template.Infrastructure.UserRepo.{as_row, first_user, reset_hash}
use fast_stream_template.Infrastructure.UserRepo.Unique.{next_of}
use fast_stream_template.Infrastructure.UserRepo.Stored.{update_lem}
use fast_stream_template.Infrastructure.SessionRepo.{acquire_by_user_id}
use fast_stream_template.Application.UnitOfWork.{Database, Work, begin, commit, register}
use fast_stream_template.Application.Login.{save_user, saved}
use fast_stream_template.Application.Transaction.{Tx, transact, settle-err}
use fast_stream_template.Application.Transaction.Ensures.{
  Ensures, Ensures-give, Ensures-bind, Ensures-query, Ensures-checked, Ensures-required,
  Ensures-change, transact-Ensures,
}
use fast_stream_template.Application.UserService
use fast_stream_template.Application.UserService.{Request, hashed, save_sessions}
use fast_stream_template.Application.Accounts.PasswordReset
use fast_stream_template.Application.Accounts.Steps.{Reach, Reach-Unique}
use fast_stream_template.Application.Accounts.Unique.{Unique, users-save_sessions}

-- The row of this id loads as this entity.
abbrev pub Stored : User → Database → Type 0
Stored v db = UserRepo.acquire_by_id v.id db.users ≡ some (as_row v)

saved-Stored :
    (u v : User) (w w' : Work) (r : Result (User × List User))
    → ((x : User) (users : List User)
        → r ≡ ok (x, users)
        → (x ≡ next_of u) × (UserRepo.acquire_by_id u.id users ≡ some (as_row x)))
    → saved w r ≡ (ok v, w')
    → (v ≡ next_of u) × Stored v w'.db
unfolding register
saved-Stored u v w w' (err e) f h = absurd (cc h)
saved-Stored u v w w' (ok (x, users)) f h =
    let (made, found) = f x users refl in
    let same : x ≡ v = ground arith in
    let rows : users ≡ w'.db.users = ap (λ (r : Result User × Work). r.1.db.users) h in
    (sym same ∙ made, rw (sym rows) (rw (sym same) (rw made (rw made at found))))

pub save_user-Stored :
    (u : User) (w : Work)
    → Unique w.db
    → Ensures w (λ v w'. (v ≡ next_of u) × Stored v w'.db) (save_user u)
unfolding save_user
save_user-Stored u w h = record {
  at = λ v w' e.
      saved-Stored u v w w' (UserRepo.update u w.db.users)
        (λ x users ran. update_lem u x w.db.users users h ran) e;
}

pub revoke_all_users :
    (user_id : Uuid) (w : Work)
    → Ensures w (λ ss w'. w'.db.users ≡ w.db.users) (UserService.revoke_all_sessions user_id)
unfolding UserService.revoke_all_sessions
revoke_all_users user_id w = Ensures-query _ _ (
    Ensures-change _ _ (
      Ensures-give _
        (users-save_sessions (map Session.revoke (acquire_by_user_id w.db.sessions user_id)) w)))

pub transact-err :
    {A : Type 0} (m : Tx A) (id_of : ℕ → Uuid) (now : Time) (db db' : Database) (e : Error)
    → transact id_of now m db ≡ (err e, db')
    → db' ≡ db
unfolding transact
transact-err m id_of now db db' e h = settle-err id_of now db db' (m (begin db)) e h

-- What a new password makes of the entity: no token whatsoever resets the password again.
abbrev pub Renewed : Crypto → Bytes → User → Type 0
Renewed crypto digest v =
    (v.hashed_password ≡ digest)
    × ((later : Time) → User.is_locked v later ≡ false)
    × ((token : String) (other : Bytes) (later : Time)
        → User.reset_password crypto v token other later ≡ err invalid_token)

-- The entity is of the row that the token was sent for: the first whose reset token has the digest of
-- the given one, and that token is neither used nor expired.
abbrev pub SentFor : Crypto → String → Time → List User → User → User → Type 0
SentFor crypto token now users u v =
    (first_user
        (λ (x : User). hash_matches (reset_hash x.password_reset_token) (from_raw crypto token))
        users
      ≡ some u)
    × (t : PasswordResetToken) × (u.password_reset_token ≡ some t)
    × (t.token_hash ≡ from_raw crypto token)
    × (Tokens.reset_is_valid t now ≡ true)
    × (v.id ≡ u.id)

-- What a granted reset of the entity has checked
reset_with-checked :
    (crypto : Crypto) (u v : User) (held : Option PasswordResetToken) (token : String)
    (digest : Bytes) (now : Time)
    → User.reset_with crypto u held token digest now ≡ ok v
    → (t : PasswordResetToken) × (held ≡ some t)
      × (t.token_hash ≡ from_raw crypto token)
      × (Tokens.reset_is_valid t now ≡ true)
      × (v.id ≡ u.id)
unfolding Tokens.matches
reset_with-checked crypto u v none token digest now h = absurd (cc h)
reset_with-checked crypto u v (some t) token digest now h = (
  t,
  refl,
  (str_eq_iff t.token_hash (from_raw crypto token)).0 (ground arith),
  ground arith,
  ground arith,
)

-- The version of the row plays no part in a reset.
reset_with_next :
    (crypto : Crypto) (u : User) (held : Option PasswordResetToken) (token : String)
    (digest : Bytes) (now : Time)
    → User.reset_with crypto u held token digest now ≡ err invalid_token
    → User.reset_with crypto (next_of u) held token digest now ≡ err invalid_token
reset_with_next crypto u none token digest now h = refl
reset_with_next crypto u (some t) token digest now h = ground arith

pub Renewed-next_of :
    (crypto : Crypto) (digest : Bytes) (v : User)
    → Renewed crypto digest v
    → Renewed crypto digest (next_of v)
unfolding User.reset_password User.is_locked
Renewed-next_of crypto digest v (hash, unlocked, dead) = (
  hash,
  unlocked,
  λ token other later.
      reset_with_next crypto v v.password_reset_token token other later (dead token other later),
)

module _ (q : Request) where
  pub hashed_lem :
      (password : String) (w : Work)
      → Ensures w
          (λ digest w'. (digest ≡ q.crypto.hash_password q.salt password) × (w' ≡ w))
          (hashed q password)
  hashed_lem password w = Ensures-checked _ _ λ o e. Ensures-give _ (refl, refl)

  reset_lem :
      (u v : User) (token : String) (digest : Bytes)
      → User.reset_password q.crypto u token digest q.now ≡ ok v
      → Renewed q.crypto digest (next_of v)
  reset_lem u v token digest h =
      let (hash, same, unlocked, dead) =
        reset_password-one_shot q.crypto u v token digest q.now h in
      Renewed-next_of q.crypto digest v (hash, unlocked, dead)

  abbrev pub Replaced : String → String → Database → User → Database → Type 0
  Replaced token new_password db v db' =
      (u : User) × SentFor q.crypto token q.now db.users u v
      × Renewed q.crypto (q.crypto.hash_password q.salt new_password) v
      × Stored v db'

  service_reset-Stored :
      (token new_password : String) (w : Work)
      → Unique w.db
      → Ensures w
          (λ v w'. Replaced token new_password w.db v w'.db)
          (UserService.reset_password q token new_password)
  unfolding UserService.reset_password UserRepo.acquire_by_reset_token User.reset_password
  service_reset-Stored token new_password w h = Ensures-query _ _ (
      Ensures-required _ _ _ λ user found.
        Ensures-bind _ _ (hashed_lem new_password w) λ digest w1 (same, kept).
          Ensures-checked _ _ λ updated done.
            Ensures-bind _ _ (save_user-Stored updated w1 (rw kept h)) λ v w2 (made, stored).
              Ensures-bind _ _ (revoke_all_users user.id w2) λ ss w3 users.
                let (t, held, right, live, id) =
                  reset_with-checked q.crypto user updated user.password_reset_token token digest
                    q.now done in
                Ensures-give _ (
                  user,
                  (found, t, held, right, live, rw made id),
                  rw made (rw (sym same) (reset_lem user updated token digest done)),
                  rw users stored,
                ))

  -- After any requests on rows of users of which no two were in conflict: a password reset that is
  -- answered with success has found the first user whose reset token has the digest of the given one,
  -- the token being neither used nor expired, and has stored, under the same id, one with the hash of
  -- the new password, that is not locked at any time, and whose password no reset token whatsoever
  -- resets again. One that is refused writes nothing.
  pub reset_password_outcome :
      (token new_password : String) (start db db' : Database)
      → Unique start
      → Reach start db
      → ((e : Error)
          → transact q.id_of q.now (PasswordReset.confirm_reset q token new_password) db
            ≡ (err e, db')
          → db' ≡ db)
        × ((v : User)
            → transact q.id_of q.now (PasswordReset.confirm_reset q token new_password) db
              ≡ (ok v, db')
            → Replaced token new_password db v db')
  unfolding PasswordReset.confirm_reset commit begin
  reset_password_outcome token new_password start db db' apart requests = (
    λ e refused.
        transact-err (PasswordReset.confirm_reset q token new_password) q.id_of q.now db db' e
          refused,
    λ v granted.
        let (w, done, last) =
          transact-Ensures (PasswordReset.confirm_reset q token new_password) q.id_of q.now db db' v
            (Ensures-checked _ _ λ o ok_password.
              service_reset-Stored token new_password (begin db) (Reach-Unique apart requests))
            granted in
        subst (λ (d : Database). Replaced token new_password db v d) last done,
  )
