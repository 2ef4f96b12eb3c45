-- ===== src/Infrastructure/Idempotency/Replays.antt =====
-- Which responses are replayed to whom.
use Prim.Native.String.{◌++◌ as append_text}
use text.Mathlib.TextLemmas.{append_assoc}
use fast_stream_template.Common.{
  Bool, Option, String, Time, none, some, seconds, ltb, ◌+◌, ◌≡◌, refl, true, false, if◌then◌else◌,
  ap, ◌∙◌,
}
use fast_stream_template.Infrastructure.Cache
use fast_stream_template.Infrastructure.Cache.{Cache, get-set}
use fast_stream_template.Infrastructure.Idempotency.{
  Codec, cache_key, cache_response, decoded, get_cached_response,
}

module _ {ℓ} {R : Type ℓ} (codec : Codec R) where
  abbrev pub decoded_text : Option String → Option R
  decoded_text none = none
  decoded_text (some text) = some (codec.validate_json text)

  decoded_lem : (read : Option String × Cache String) → (decoded codec read).0 ≡ decoded_text read.0
  decoded_lem (none, c) = refl
  decoded_lem (some text, c) = refl

  kept_lem :
      (b : Bool) (r : R)
      → codec.validate_json (codec.dump_json r) ≡ r
      → decoded_text (if b then some (codec.dump_json r) else none) ≡ (if b then some r else none)
  kept_lem true r law = ap (λ (x : R). some x) law
  kept_lem false r law = refl

  replay_lem :
      (c : Cache String) (e s k : String) (r : R) (set_at now : Time)
      → codec.validate_json (codec.dump_json r) ≡ r
      → (get_cached_response codec (cache_response codec c e s k r set_at) e s k now).0
        ≡ (if ltb now (set_at + seconds 86400) then some r else none)
  unfolding get_cached_response cache_response
  replay_lem c e s k r set_at now law =
      decoded_lem (
        Cache.get (Cache.set c (cache_key e s k) (codec.dump_json r) (some 86400) set_at)
          (cache_key e s k) now)
      ∙ ap decoded_text
          ((get-set c (cache_key e s k) (cache_key e s k) (codec.dump_json r) 86400 set_at now).0)
      ∙ kept_lem (ltb now (set_at + seconds 86400)) r law

  same_key :
      (e scope part key : String)
      → cache_key e (append_text scope (append_text ":" part)) key
        ≡ cache_key e scope (append_text part (append_text ":" key))
  same_key e scope part key =
      ap (λ (x : String). append_text "idempotency:" (append_text e (append_text ":" x)))
        (append_assoc scope (append_text ":" part) (append_text ":" key)
          ∙ ap (append_text scope) (append_assoc ":" part (append_text ":" key)))

  -- Given that the codec reads back what it wrote, a response that was cached for an endpoint, a
  -- scope and a key is replayed to a request with the three for 86400 seconds, and not after. It is
  -- replayed as well to another scope: what was cached for the scope `scope` and the key
  -- `part:key` is what the scope `scope:part` gets for the key `key`.
  pub cache_response-replayed :
      (c : Cache String) (e scope part key : String) (r : R) (set_at now : Time)
      → codec.validate_json (codec.dump_json r) ≡ r
      → ((k : String)
          → (get_cached_response codec (cache_response codec c e scope k r set_at) e scope k now).0
            ≡ (if ltb now (set_at + seconds 86400) then some r else none))
        × (get_cached_response codec
            (cache_response codec c e scope (append_text part (append_text ":" key)) r set_at)
            e
            (append_text scope (append_text ":" part))
            key
            now).0
          ≡ (if ltb now (set_at + seconds 86400) then some r else none)
  unfolding get_cached_response cache_response
  cache_response-replayed c e scope part key r set_at now law = (
    λ k. replay_lem c e scope k r set_at now law,
    rw (same_key e scope part key)
        (replay_lem c e scope (append_text part (append_text ":" key)) r set_at now law),
  )
