-- ===== src/Domain/Tokens/Laws.antt =====
-- When emailed tokens are accepted.
use fast_stream_template.Common.{ℕ, ◌+◌, String, ◌≡◌, ◌&&◌, arith, str_eq, ltb, Time, hours}
use fast_stream_template.Domain.Ports.{Crypto}
use fast_stream_template.Domain.Tokens.{from_raw, create_unverified, verify}

-- A new verification accepts a token exactly while it has not expired and if the token's digest is
-- that of the token that was emailed.
pub verify-create_unverified :
    (crypto : Crypto) (token given : String) (lifetime : ℕ) (issued now : Time)
    → verify crypto (create_unverified crypto token lifetime issued) given now ≡ (
        str_eq (from_raw crypto token) (from_raw crypto given) && ltb now (issued + hours lifetime))
unfolding verify create_unverified
verify-create_unverified crypto token given lifetime issued now = ground arith
