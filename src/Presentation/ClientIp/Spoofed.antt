-- ===== src/Presentation/ClientIp/Spoofed.antt =====
-- Who chooses the address that the limits are keyed on.
use fast_stream_template.Common.{
  ℕ, Bool, Bool-cases, List, Option, [], ◌∷◌, ◌++◌, ◌==◌, ◌≡◌, any, arith, false, true, some, refl,
  sym, ◌∙◌, ap, inl, inr,
}
use mathlib.Core.List.{append-nil, append_assoc}
use fast_stream_template.Presentation.ClientIp.{
  client_ip, first_entry, first_forwarded, for_header, or_else, strip,
}

strip_nil : strip [] ≡ []
unfolding strip
strip_nil = refl

-- An entry is read to its comma.
read_entry :
    (entry spoof rest : List ℕ)
    → any (λ (c : ℕ). c == b',') spoof ≡ false
    → first_entry entry (spoof ++ b',' ∷ rest)
      ≡ or_else (strip (entry ++ spoof)) (first_entry [] rest)
unfolding first_entry
read_entry entry [] rest h = rw (append-nil entry) refl
read_entry entry (c ∷ cs) rest h = elim (Bool-cases (c == b',')) [
  | inl e ↦ absurd (ground arith)
  | inr e ↦ rw e (
      read_entry (entry ++ c ∷ []) cs rest (ground arith)
      ∙ rw (append_assoc entry (c ∷ []) cs) refl)
]

spoofed_lem :
    (peer spoof rest : List ℕ) (d : ℕ) (ds : List ℕ)
    → any (λ (c : ℕ). c == b',') spoof ≡ false
    → strip spoof ≡ d ∷ ds
    → for_header peer (some (spoof ++ b',' ∷ rest)) ≡ d ∷ ds
unfolding first_forwarded
spoofed_lem peer [] rest d ds h e = absurd (cc (sym (strip_nil) ∙ e))
spoofed_lem peer (c ∷ cs) rest d ds h e = rw (read_entry [] (c ∷ cs) rest h) (rw e refl)

-- The header is ignored unless the peer is trusted. Behind a trusted peer the address is the first
-- entry of the header, whatever the proxies have appended behind its comma: the one that the
-- caller wrote, if the proxies keep what they were sent.
pub client_ip_lem :
    (is_trusted : List ℕ → Bool) (peer : List ℕ)
    → (is_trusted peer ≡ false
        → (header : Option (List ℕ)) → client_ip is_trusted (some peer) header ≡ some peer)
      × (is_trusted peer ≡ true
          → (written appended : List ℕ) (d : ℕ) (ds : List ℕ)
          → any (λ (c : ℕ). c == b',') written ≡ false
          → strip written ≡ d ∷ ds
          → client_ip is_trusted (some peer) (some (written ++ b',' ∷ appended)) ≡ some (d ∷ ds))
unfolding client_ip
client_ip_lem is_trusted peer = (
  λ untrusted header. rw untrusted refl,
  λ trusted written appended d ds h e.
      rw trusted (ap (λ (x : List ℕ). some x) (spoofed_lem peer written appended d ds h e)),
)
