-- ===== src/Application/Accounts/Profile.antt =====
-- src/application/user/commands/change_password.py, update_profile.py and delete_me.py.
use fast_stream_template.Common.{Bool, Option, String, Uuid}
use fast_stream_template.Errors.{Result}
use fast_stream_template.Domain.User
use fast_stream_template.Domain.User.{User}
use fast_stream_template.Domain.Names.{
  codes, validate_password, validate_user_id, validate_username,
}
use fast_stream_template.Application.UnitOfWork.{Database}
use fast_stream_template.Application.Login.{truthy}
use fast_stream_template.Application.Transaction.{Tx, Nothing, give, checked, transact, ◌>>=◌, ◌>>◌}
use fast_stream_template.Application.UserService
use fast_stream_template.Application.UserService.{Request}
use fast_stream_template.Application.Accounts.Registration.{valid_email}
use fast_stream_template.Common.{none, some}

pub record UpdateProfileInput : Type 0 where
  pub user_id : Uuid
  pub username : Option String
  pub email : Option String

pub record UpdateProfileOutput : Type 0 where
  pub username : String
  pub is_email_verified : Bool
  pub is_locked : Bool
  pub has_two_factor : Bool
  pub email : Option String

-- `Username(data.username) if data.username else None`
abbrev pub valid_username : Option String → Tx Nothing
valid_username none = give tt
valid_username (some username) = checked (validate_username (codes username))

module _ (q : Request) where
  unfoldable pub profile_of : User → UpdateProfileOutput
  profile_of updated = record {
    username = updated.username;
    is_email_verified = updated.email_verification.is_verified;
    is_locked = User.is_locked updated q.now;
    has_two_factor = User.has_two_factor updated;
    email = updated.email;
  }

  -- ChangePasswordUseCase before its commit
  unfoldable pub replace_password : Uuid → String → String → Tx User
  replace_password user_id old_password new_password = do
    checked (validate_user_id user_id)
    user ← UserService.get_user_by_id user_id
    checked (validate_password q.classes (codes old_password))
    checked (validate_password q.classes (codes new_password))
    UserService.change_password q user old_password new_password

  -- ChangePasswordUseCase; it returns nothing but `success=True`
  unfoldable pub change_password : Uuid → String → String → Database → Result User × Database
  change_password user_id old_password new_password db =
      transact q.id_of q.now (replace_password user_id old_password new_password) db

  -- UpdateProfileUseCase before its commit
  unfoldable pub edit_profile : UpdateProfileInput → Tx UpdateProfileOutput
  edit_profile input = do
    checked (validate_user_id input.user_id)
    user ← UserService.get_user_by_id input.user_id
    valid_username (truthy input.username)
    valid_email (truthy input.email)
    updated ← UserService.update_user q user (truthy input.username) (truthy input.email)
    give (profile_of updated)

  -- UpdateProfileUseCase
  unfoldable pub update_profile :
      UpdateProfileInput → Database → Result UpdateProfileOutput × Database
  update_profile input db = transact q.id_of q.now (edit_profile input) db

  -- DeleteMeUseCase before its commit
  unfoldable pub remove_account : Uuid → Tx User
  remove_account user_id = do checked (validate_user_id user_id); UserService.delete_user q user_id

  -- DeleteMeUseCase; it returns nothing
  unfoldable pub delete_me : Uuid → Database → Result User × Database
  delete_me user_id db = transact q.id_of q.now (remove_account user_id) db
