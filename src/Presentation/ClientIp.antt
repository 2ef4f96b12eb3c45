-- ===== src/Presentation/ClientIp.antt =====
-- src/presentation/http/client_ip.py. `is_trusted` is the test of the peer against TRUSTED_PROXIES
-- (ipaddress). Texts are lists of code points.
pub mod Spoofed
use fast_stream_template.Common.{
  ℕ, Bool, List, Option, [], ◌∷◌, ◌++◌, ◌==◌, ◌||◌, any, leb, none, some, if◌then◌else◌, ◌&&◌,
}

-- The code points that str.strip takes off
unfoldable pub is_space : ℕ → Bool
is_space c =
    leb 9 c && leb c 13
    || leb 28 c && leb c 32
    || leb 8192 c && leb c 8202
    || any (λ (d : ℕ). c == d) (133 ∷ 160 ∷ 5760 ∷ 8232 ∷ 8233 ∷ 8239 ∷ 8287 ∷ 12288 ∷ [])

-- str.lstrip
abbrev pub lstrip : List ℕ → List ℕ
lstrip [] = []
lstrip (c ∷ cs) = let rest = lstrip cs in if is_space c then rest else c ∷ cs

-- The text behind its last character, unless that is a space or nothing
abbrev pub cons_stripped : ℕ → List ℕ → List ℕ
cons_stripped c [] = if is_space c then [] else c ∷ []
cons_stripped c (d ∷ ds) = c ∷ d ∷ ds

-- str.rstrip
abbrev pub rstrip : List ℕ → List ℕ
rstrip [] = []
rstrip (c ∷ cs) = cons_stripped c (rstrip cs)

-- str.strip
unfoldable pub strip : List ℕ → List ℕ
strip s = rstrip (lstrip s)

-- The first entry that is not empty, or what the rest gives
abbrev pub or_else : List ℕ → Option (List ℕ) → Option (List ℕ)
or_else [] rest = rest
or_else (c ∷ cs) rest = some (c ∷ cs)

-- The loop of _first_forwarded over `header.split(',')`; `entry` is what was read of an entry
unfoldable pub first_entry : List ℕ → List ℕ → Option (List ℕ)
unfolding strip
first_entry entry [] = or_else (strip entry) none
first_entry entry (c ∷ cs) =
    let here = first_entry [] cs in
    let further = first_entry (entry ++ c ∷ []) cs in
    if c == b',' then or_else (strip entry) here else further

-- _first_forwarded
unfoldable pub first_forwarded : List ℕ → Option (List ℕ)
unfolding first_entry
first_forwarded header = first_entry [] header

abbrev pub or_peer : List ℕ → Option (List ℕ) → List ℕ
or_peer peer none = peer
or_peer peer (some ip) = ip

-- `if forwarded`: a header that is there and not empty
abbrev pub for_header : List ℕ → Option (List ℕ) → List ℕ
for_header peer none = peer
for_header peer (some []) = peer
for_header peer (some (c ∷ cs)) = or_peer peer (first_forwarded (c ∷ cs))

-- client_ip
unfoldable pub client_ip : (List ℕ → Bool) → Option (List ℕ) → Option (List ℕ) → Option (List ℕ)
unfolding first_forwarded
client_ip is_trusted none forwarded = none
client_ip is_trusted (some peer) forwarded =
    some (if is_trusted peer then for_header peer forwarded else peer)
