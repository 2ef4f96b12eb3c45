-- ===== src/Application/Accounts/SignedOut.antt =====
-- The use cases that end the sessions of a user, and what refresh tokens are worth after them.
use fast_stream_template.Common.{
  Option, String, Uuid, List, [], ◌∷◌, all, ap, arith, refl, sym, some, none, true, false, map,
  ◌==◌, ◌≡◌, ◌∙◌, Bool-cases, inl, inr,
}
use fast_stream_template.Errors.{Result, err, ok}
use fast_stream_template.Domain.User
use fast_stream_template.Domain.User.{User}
use fast_stream_template.Domain.Tokens.{PasswordResetToken}
use mathlib.Core.Path.{subst}
use mathlib.Core.Logic.{◌⊎◌}
use fast_stream_template.Domain.Session
use fast_stream_template.Domain.Session.{SessionAggregate}
use fast_stream_template.Infrastructure.UserRepo
use fast_stream_template.Infrastructure.SessionRepo.{acquire_by_user_id}
use fast_stream_template.Infrastructure.SessionRepo.Revoked.{covered, closed-revoke, update_each}
use fast_stream_template.Application.UnitOfWork.{Database, Work, register}
use fast_stream_template.Application.RefreshToken.{save_session}
use fast_stream_template.Application.Login.{save_user, saved}
use fast_stream_template.Application.Transaction.Ensures.{
  Ensures, Ensures-give, Ensures-bind, Ensures-after, Ensures-query, Ensures-checked,
  Ensures-required, Ensures-refuse_if, Ensures-change, Ensures-weaken,
}
use fast_stream_template.Application.UserService
use fast_stream_template.Application.UserService.{Request, save_sessions, revoke_all_sessions}
use fast_stream_template.Application.Accounts.PasswordReset
use fast_stream_template.Application.Accounts.Profile
use fast_stream_template.Application.Accounts.Sessions
use fast_stream_template.Application.Accounts.Sessions.{HydraSessions}

-- No session row of the user is live.
abbrev pub SignedOut : Uuid → Database → Type 0
SignedOut user_id db = all (covered user_id []) db.sessions.sessions ≡ true

sessions-save_sessions :
    (ss : List SessionAggregate) (w : Work)
    → (save_sessions ss w).db.sessions ≡ update_each ss w.db.sessions
unfolding save_session register
sessions-save_sessions [] w = refl
sessions-save_sessions (s ∷ ss) w = sessions-save_sessions ss (save_session s w)

-- After revoke_all_sessions
revoke_all-SignedOut :
    (user_id : Uuid) (w : Work)
    → Ensures w (λ ss w'. SignedOut user_id w'.db) (revoke_all_sessions user_id)
unfolding revoke_all_sessions
revoke_all-SignedOut user_id w = Ensures-query _ _ (
    Ensures-change _ _ (
      Ensures-give _ (
        rw
          (sessions-save_sessions (map Session.revoke (acquire_by_user_id w.db.sessions user_id)) w)
          (closed-revoke user_id w.db.sessions))))

saved_sessions :
    (w w' : Work) (r : Result (User × List User)) (u : User)
    → saved w r ≡ (ok u, w')
    → w'.db.sessions ≡ w.db.sessions
unfolding register
saved_sessions w w' (ok (v, users)) u h = ap (λ (r : Result User × Work). r.1.db.sessions) (sym h)
saved_sessions w w' (err e) u h = absurd (cc h)

pub save_user_sessions :
    (u v : User) (w w' : Work) → save_user u w ≡ (ok v, w') → w'.db.sessions ≡ w.db.sessions
unfolding save_user
save_user_sessions u v w w' h = saved_sessions w w' (UserRepo.update u w.db.users) v h

saved_user_id :
    (w w' : Work) (u v : User) (users : List User)
    → saved w (UserRepo.update u users) ≡ (ok v, w')
    → v.id ≡ u.id
unfolding UserRepo.update UserRepo.uniqueness_error
saved_user_id w w' u v users h = ground arith

saved_id : (u v : User) (w w' : Work) → save_user u w ≡ (ok v, w') → v.id ≡ u.id
unfolding save_user
saved_id u v w w' h = saved_user_id w w' u v w.db.users h

pub acquire_by_id_lem :
    (user_id : Uuid) (users : List User) (u : User)
    → UserRepo.acquire_by_id user_id users ≡ some u
    → u.id ≡ user_id
unfolding UserRepo.acquire_by_id UserRepo.first_user
acquire_by_id_lem user_id [] u h = absurd (cc h)
acquire_by_id_lem user_id (v ∷ vs) u h = elim (Bool-cases (v.id == user_id)) [
  | inl e ↦ ground arith
  | inr e ↦ acquire_by_id_lem user_id vs u (ground arith)
]

-- The user is signed out, or is a deleted one.
abbrev pub Gone : Uuid → Database → Type 0
Gone user_id db =
    SignedOut user_id db
    ⊎ ((u : User) × (UserRepo.acquire_by_id user_id db.users ≡ some u) × (User.is_deleted u ≡ true))

module _ (q : Request) where
  change-SignedOut :
      (user : User) (old_password new_password : String) (w : Work)
      → Ensures w
          (λ u w'. SignedOut user.id w'.db)
          (UserService.change_password q user old_password new_password)
  unfolding UserService.change_password
  change-SignedOut user old_password new_password w = Ensures-after _ _ λ digest w1 e1.
      Ensures-checked _ _ λ updated e2. Ensures-after _ _ λ v w2 e3.
        Ensures-bind _ _ (revoke_all-SignedOut user.id w2) λ ss w3 out. Ensures-give _ out

  reset_with_id :
      (u v : User) (held : Option PasswordResetToken) (token : String) (digest : String)
      → User.reset_with q.crypto u held token digest q.now ≡ ok v
      → v.id ≡ u.id
  reset_with_id u v none token digest h = absurd (cc h)
  reset_with_id u v (some t) token digest h = ground arith

  reset_id :
      (u v : User) (token : String) (digest : String)
      → User.reset_password q.crypto u token digest q.now ≡ ok v
      → v.id ≡ u.id
  unfolding User.reset_password
  reset_id u v token digest h = reset_with_id u v u.password_reset_token token digest h

  reset-SignedOut :
      (token new_password : String) (w : Work)
      → Ensures w
          (λ (u : User) w'. SignedOut u.id w'.db)
          (UserService.reset_password q token new_password)
  unfolding UserService.reset_password
  reset-SignedOut token new_password w = Ensures-query _ _ (
      Ensures-required _ _ _ λ user e1. Ensures-after _ _ λ digest w1 e2.
        Ensures-checked _ _ λ updated e3. Ensures-after _ _ λ v w2 e4.
          Ensures-bind _ _ (revoke_all-SignedOut user.id w2) λ ss w3 out.
            Ensures-give _
              (rw (saved_id updated v w1 w2 e4 ∙ reset_id user updated token digest e3) out))

  get_user_by_id-Named :
      (user_id : Uuid) (w : Work)
      → Ensures w
          (λ (u : User) w'. (u.id ≡ user_id) × (User.is_deleted u ≡ false))
          (UserService.get_user_by_id user_id)
  unfolding UserService.get_user_by_id
  get_user_by_id-Named user_id w = Ensures-query _ _ (
      Ensures-required _ _ _ λ user found.
        Ensures-refuse_if _ _ _
          λ live. Ensures-give _ (acquire_by_id_lem user_id w.db.users user found, live))

  pub replace-SignedOut :
      (user_id : Uuid) (old_password new_password : String) (w : Work)
      → Ensures w
          (λ (u : User) w'. SignedOut user_id w'.db)
          (Profile.replace_password q user_id old_password new_password)
  unfolding Profile.replace_password
  replace-SignedOut user_id old_password new_password w = Ensures-after _ _ λ o1 w1 e1.
      Ensures-bind _ _ (get_user_by_id-Named user_id w1) λ user w2 (same, live).
        Ensures-after _ _ λ o3 w3 e3. Ensures-after _ _ λ o4 w4 e4.
          Ensures-weaken (λ u w' out. subst (λ (i : Uuid). SignedOut i w'.db) same out)
            (change-SignedOut user old_password new_password w4)

  pub confirm-SignedOut :
      (token new_password : String) (w : Work)
      → Ensures w
          (λ (u : User) w'. SignedOut u.id w'.db)
          (PasswordReset.confirm_reset q token new_password)
  unfolding PasswordReset.confirm_reset
  confirm-SignedOut token new_password w =
      Ensures-after _ _ λ o1 w1 e1. reset-SignedOut token new_password w1

  delete_found-Gone :
      (user_id : Uuid) (user : User) (w : Work)
      → UserRepo.acquire_by_id user_id w.db.users ≡ some user
      → Ensures w (λ (u : User) w'. Gone user_id w'.db) (UserService.delete_found q user)
  delete_found-Gone user_id user w found = elim (Bool-cases (User.is_deleted user)) [
    | inl e ↦ rw e (Ensures-give _ (inr (user, found, e)))
    | inr e ↦ rw e (
        Ensures-bind _ _ (revoke_all-SignedOut user.id w) λ ss w1 out. record {
          at = λ u w' ran. inl (
              rw (save_user_sessions (User.delete user q.now) u w1 w' ran) (
                subst (λ (i : Uuid). SignedOut i w1.db)
                  (acquire_by_id_lem user_id w.db.users user found) out));
        })
  ]

  pub remove-Gone :
      (user_id : Uuid) (w : Work)
      → Ensures w (λ (u : User) w'. Gone user_id w'.db) (Profile.remove_account q user_id)
  unfolding Profile.remove_account UserService.delete_user
  remove-Gone user_id w = Ensures-checked _ _ λ o1 e1.
      Ensures-query _ _
        (Ensures-required _ _ _ λ user found. delete_found-Gone user_id user w found)

pub revoke_each-SignedOut :
    (user_id : Uuid) (w : Work)
    → Ensures w (λ ss w'. SignedOut user_id w'.db) (Sessions.revoke_each user_id)
unfolding Sessions.revoke_each
revoke_each-SignedOut user_id w = Ensures-after _ _ λ o1 w1 e1. revoke_all-SignedOut user_id w1
