-- ===== src/Domain/TwoFactor.antt =====
-- src/domain/user/value_objects/two_factor_secret.py: the TOTP seed and the hashes of the backup
-- codes that are left.
pub mod Codes
use fast_stream_template.Common.{
  ℕ, String, not, Option, none, some, List, [], ◌∷◌, map, str_eq, if◌then◌else◌, Time, length, keep,
}
use fast_stream_template.Domain.Ports.{Crypto}
use fast_stream_template.Domain.Tokens.{TokenHash, from_raw}

pub record TwoFactorSecret : Type 0 where
  pub secret : String
  pub backup_code_hashes : List TokenHash
  pub enabled_at : Option Time

abbrev pub backup_code_count : ℕ
backup_code_count = 10

-- TwoFactorSecret.create: `codes` are the texts that `secrets.token_hex` returns.
unfoldable pub create : Crypto → String → List String → TwoFactorSecret × List String
unfolding from_raw
create crypto secret codes = (
  record { secret = secret; backup_code_hashes = map (from_raw crypto) codes; enabled_at = none },
  codes,
)

-- TwoFactorSecret.enable
unfoldable pub enable : TwoFactorSecret → Time → TwoFactorSecret
enable s now = record s { enabled_at = some now }

-- The loop of `consume_backup_code` over the stored hashes; `all_hashes` is the whole tuple.
unfoldable pub consume_from : TwoFactorSecret → TokenHash → List TokenHash → Option TwoFactorSecret
consume_from s candidate [] = none
consume_from s candidate (stored ∷ rest) =
    if str_eq stored candidate
    then some (record s {
      backup_code_hashes = keep (λ held. not (str_eq held stored)) s.backup_code_hashes;
    })
    else consume_from s candidate rest

-- TwoFactorSecret.consume_backup_code
unfoldable pub consume_backup_code : Crypto → TwoFactorSecret → String → Option TwoFactorSecret
unfolding from_raw consume_from
consume_backup_code crypto s code = consume_from s (from_raw crypto code) s.backup_code_hashes

-- TwoFactorSecret.remaining_backup_codes
unfoldable pub remaining_backup_codes : TwoFactorSecret → ℕ
remaining_backup_codes s = length s.backup_code_hashes
