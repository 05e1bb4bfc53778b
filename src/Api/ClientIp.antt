-- ===== src/Api/ClientIp.antt =====
-- internal/api/api.go: `clientIP`, the address that the rate limits go by, with
-- `net.SplitHostPort` written out.
pub mod Spoofing
use lukscrypt.Prelude.{
  ℕ, ◌≡◌, refl, Bool, true, false, not, ◌&&◌, ◌||◌, Option, none, some, List, [], ◌∷◌, reverse,
  arith, if◌then◌else◌, Eq, ◌==◌, nat_eq, is_empty, any, Text, text, text_eq, trim_space, split,
}

has_byte : ℕ → Text → Bool
has_byte c s = any (λ d. d == c) s

-- The text before and behind the last colon.
cut_last_colon : Text → Option (Text × Text)
cut_last_colon [] = none
cut_last_colon (c ∷ s) = elim (cut_last_colon s) [
  | some (a, b) ↦ some (c ∷ a, b)
  | none ↦ if c == b':' then some ([], s) else none
]

-- What stands in brackets, with no bracket inside.
bracketed : Text → Option Text
unfolding has_byte
bracketed [] = none
bracketed (c ∷ s) =
    if c == b']' && not (has_byte b'[' s || has_byte b']' s) then some (reverse s) else none

host_of : Text → Option Text
unfolding has_byte bracketed
host_of [] = some []
host_of (c ∷ s) =
    if c == b'['
    then bracketed (reverse s)
    else if has_byte b':' (c ∷ s) || has_byte b'[' (c ∷ s) || has_byte b']' (c ∷ s)
    then none
    else some (c ∷ s)

-- `net.SplitHostPort`: the host.
unfoldable pub split_host_port : Text → Option Text
unfolding cut_last_colon host_of has_byte
split_host_port s = elim (cut_last_colon s) [
  | none ↦ none
  | some (before, port) ↦ if has_byte b'[' port || has_byte b']' port then none else host_of before
]

abbrev pub last_part : List Text → Text
last_part [] = []
last_part (p ∷ []) = p
last_part (p ∷ q ∷ r) = last_part (q ∷ r)

direct_ip : Text → Text
unfolding split_host_port
direct_ip remote_addr = elim (split_host_port remote_addr) [ none ↦ remote_addr | some ip ↦ ip ]

-- `xff` is the X-Forwarded-For header, empty if there is none.
unfoldable pub client_ip : (trust_proxy : Bool) (xff remote_addr : Text) → Text
unfolding direct_ip trim_space split
client_ip trust_proxy xff remote_addr =
    let last = trim_space (last_part (split b',' xff)) in
    if trust_proxy && not (is_empty xff) && not (is_empty last) then last else direct_ip remote_addr

client_ip_tests :
    (client_ip false (text "1.2.3.4") (text "10.0.0.1:5000") ≡ text "10.0.0.1")
    × (client_ip true (text "6.6.6.6, 1.2.3.4") (text "10.0.0.1:5000") ≡ text "1.2.3.4")
    × (client_ip true (text "6.6.6.6, ") (text "[::1]:5000") ≡ text "::1")
    × (client_ip true [] (text "bad") ≡ text "bad")
unfolding client_ip text
client_ip_tests = (refl, refl, refl, refl)
