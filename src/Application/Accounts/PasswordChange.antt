-- ===== src/Application/Accounts/PasswordChange.antt =====
-- What a change of the password leaves when it returns.
use fast_stream_template.Common.{
  Bool-cases, String, Bytes, Uuid, some, ◌≡◌, refl, sym, true, false, inl, inr, arith,
}
use fast_stream_template.Errors.{err, ok, Error}
use mathlib.Core.Path.{subst}
use fast_stream_template.Domain.User
use fast_stream_template.Domain.User.{User}
use fast_stream_template.Domain.User.Passwords.{change_password_lem}
use fast_stream_template.Infrastructure.UserRepo
use fast_stream_template.Infrastructure.UserRepo.{as_row}
use fast_stream_template.Infrastructure.UserRepo.Unique.{next_of}
use fast_stream_template.Application.UnitOfWork.{Database, Work, begin, commit}
use fast_stream_template.Application.Transaction.Ensures.{
  Ensures, Ensures-give, Ensures-bind, Ensures-query, Ensures-checked, Ensures-required,
  Ensures-refuse_if, transact-Ensures, Ensures-weaken,
}
use fast_stream_template.Application.UserService
use fast_stream_template.Application.UserService.{Request, hashed, save_sessions}
use fast_stream_template.Application.Accounts.Profile
use fast_stream_template.Application.Accounts.Unique.{Unique}
use fast_stream_template.Application.Accounts.Outcome.{
  Renewed, Renewed-next_of, Stored, hashed_lem, revoke_all_users, save_user-Stored, transact-err,
}

module _ (q : Request) where
  change_lem :
      (u v : User) (old_password : String) (digest : Bytes)
      → User.change_password q.crypto u old_password digest ≡ ok v
      → Renewed q.crypto digest (next_of v)
  change_lem u v old_password digest h =
      Renewed-next_of q.crypto digest v ((change_password_lem q.crypto u old_password digest).1 v h)

  -- The right password was given: what `change_password` returned
  verified_lem :
      (u v : User) (old_password : String) (digest : Bytes)
      → User.change_password q.crypto u old_password digest ≡ ok v
      → (User.verify_password q.crypto u old_password ≡ true) × (v.id ≡ u.id)
  unfolding User.change_password
  verified_lem u v old_password digest h =
      elim (Bool-cases (User.verify_password q.crypto u old_password)) [
        | inl e ↦ (e, ground arith)
        | inr e ↦ absurd (ground arith)
      ]

  abbrev pub Changed : String → String → User → User → Database → Type 0
  Changed old_password new_password u v db =
      (User.verify_password q.crypto u old_password ≡ true)
      × (v.id ≡ u.id)
      × Renewed q.crypto (q.crypto.hash_password q.salt new_password) v
      × Stored v db

  service_change-Stored :
      (user : User) (old_password new_password : String) (w : Work)
      → Unique w.db
      → Ensures w
          (λ v w'. Changed old_password new_password user v w'.db)
          (UserService.change_password q user old_password new_password)
  unfolding UserService.change_password
  service_change-Stored user old_password new_password w h =
      Ensures-bind _ _ (hashed_lem q new_password w) λ digest w1 (same, kept).
        Ensures-checked _ _ λ updated done.
          Ensures-bind _ _ (save_user-Stored updated w1 (rw kept h)) λ v w2 (made, stored).
            Ensures-bind _ _ (revoke_all_users user.id w2) λ ss w3 users.
              let (right, id) = verified_lem user updated old_password digest done in
              Ensures-give _ (
                right,
                rw made id,
                rw made (rw (sym same) (change_lem user updated old_password digest done)),
                rw users stored,
              )

  get_user_by_id_lem :
      (user_id : Uuid) (w : Work)
      → Ensures w
          (λ u w'.
            (UserRepo.acquire_by_id user_id w.db.users ≡ some u)
            × (User.is_deleted u ≡ false)
            × (w' ≡ w))
          (UserService.get_user_by_id user_id)
  unfolding UserService.get_user_by_id
  get_user_by_id_lem user_id w = Ensures-query _ _ (
      Ensures-required _ _ _
        λ user found. Ensures-refuse_if _ _ _ λ live. Ensures-give _ (found, live, refl))

  abbrev pub ChangedOf : Uuid → String → String → Database → User → Database → Type 0
  ChangedOf user_id old_password new_password db v db' =
      (u : User) × (UserRepo.acquire_by_id user_id db.users ≡ some u)
      × (User.is_deleted u ≡ false)
      × Changed old_password new_password u v db'

  replace-Changed :
      (user_id : Uuid) (old_password new_password : String) (w : Work)
      → Unique w.db
      → Ensures w
          (λ v w'. ChangedOf user_id old_password new_password w.db v w'.db)
          (Profile.replace_password q user_id old_password new_password)
  unfolding Profile.replace_password
  replace-Changed user_id old_password new_password w h = Ensures-checked _ _ λ o1 e1.
      Ensures-bind _ _ (get_user_by_id_lem user_id w) λ user w2 (found, live, kept).
        Ensures-checked _ _ λ o3 e3. Ensures-checked _ _ λ o4 e4.
          Ensures-weaken (λ v w' done. (user, found, live, done))
            (service_change-Stored user old_password new_password w2 (rw kept h))

  -- A change of the password that is answered with success has found the user of the id, who is not
  -- deleted and whose password is the given old one, and has stored the user with the hash of the
  -- new one, not locked at any time, and with no reset token that is still accepted; the rows of no
  -- two users being in conflict. One that is refused writes nothing.
  pub change_password_outcome :
      (user_id : Uuid) (old_password new_password : String) (db db' : Database)
      → Unique db
      → ((e : Error)
          → Profile.change_password q user_id old_password new_password db ≡ (err e, db')
          → db' ≡ db)
        × ((v : User)
            → Profile.change_password q user_id old_password new_password db ≡ (ok v, db')
            → ChangedOf user_id old_password new_password db v db')
  unfolding Profile.change_password commit begin
  change_password_outcome user_id old_password new_password db db' h =
      let body = Profile.replace_password q user_id old_password new_password in
      (
        λ e refused. transact-err body q.id_of q.now db db' e refused,
        λ v granted.
            let (w, done, last) =
              transact-Ensures body q.id_of q.now db db' v
                (replace-Changed user_id old_password new_password (begin db) h) granted in
            subst (ChangedOf user_id old_password new_password db v) last done,
      )
