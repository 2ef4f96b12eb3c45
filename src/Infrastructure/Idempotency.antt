-- ===== src/Infrastructure/Idempotency.antt =====
-- src/infrastructure/idempotency.py over the cache of Infrastructure/Cache.antt. The codec is
-- pydantic's, of the JSON text of a response.
pub mod Replays
use Prim.Native.String.{◌++◌ as append_text}
use fast_stream_template.Common.{ℕ, Option, String, Time, none, some}
use fast_stream_template.Infrastructure.Cache
use fast_stream_template.Infrastructure.Cache.{Cache}

pub record Codec {ℓ} (R : Type ℓ) : Type ℓ where
  pub dump_json : R → String
  pub validate_json : String → R

abbrev pub idempotency_ttl_seconds : ℕ
idempotency_ttl_seconds = 86400

-- _cache_key
abbrev pub cache_key : String → String → String → String
cache_key endpoint scope idempotency_key =
    append_text "idempotency:"
      (append_text endpoint (append_text ":" (append_text scope (append_text ":" idempotency_key))))

module _ {ℓ} {R : Type ℓ} (codec : Codec R) where
  abbrev pub decoded : Option String × Cache String → Option R × Cache String
  decoded (none, c) = (none, c)
  decoded (some text, c) = (some (codec.validate_json text), c)

  -- get_cached_response
  unfoldable pub get_cached_response :
      Cache String → String → String → String → Time → Option R × Cache String
  get_cached_response c endpoint scope idempotency_key now =
      decoded (Cache.get c (cache_key endpoint scope idempotency_key) now)

  -- cache_response
  unfoldable pub cache_response : Cache String → String → String → String → R → Time → Cache String
  cache_response c endpoint scope idempotency_key response now =
      Cache.set c (cache_key endpoint scope idempotency_key) (codec.dump_json response)
        (some idempotency_ttl_seconds) now
