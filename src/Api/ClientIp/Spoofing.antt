-- ===== src/Api/ClientIp/Spoofing.antt =====
-- What a client can do to its own address.
use lukscrypt.Prelude.{
  is_empty_iff, ℕ, ◌≡◌, refl, ◌≢◌, true, false, [], ◌∷◌, ◌++◌, append_assoc, append-nil, reverse,
  reverse-cons, arith, nat_eq, is_empty, All, Text, text_eq, trim_space, split,
}
use lukscrypt.Prelude.{split_from}
use lukscrypt.Api.ClientIp.{last_part, client_ip}

last_part-cons :
    (p : Text) (sep : ℕ) (cur s : Text)
    → last_part (p ∷ split_from sep cur s) ≡ last_part (split_from sep cur s)
last_part-cons p sep cur [] = refl
last_part-cons p sep cur (c ∷ s) = ground (arith, last_part-cons p sep (c ∷ cur) s)

last_part-split_from :
    (sep : ℕ) (cur a b : Text)
    → last_part (split_from sep cur (a ++ (sep ∷ b))) ≡ last_part (split_from sep [] b)
last_part-split_from sep cur [] b = ground (arith, last_part-cons (reverse cur) sep [] b)
last_part-split_from sep cur (c ∷ a) b = ground (
  arith,
  last_part-cons (reverse cur) sep [] (a ++ (sep ∷ b)),
  last_part-split_from sep [] a b,
  last_part-split_from sep (c ∷ cur) a b,
)

split_from-one :
    (sep : ℕ) (cur s : Text) → All (λ c. c ≢ sep) s → split_from sep cur s ≡ (reverse cur ++ s) ∷ []
split_from-one sep cur [] h = simp append-nil
split_from-one sep cur (c ∷ s) (p, h) = ground (
  arith,
  split_from-one sep (c ∷ cur) s h,
  reverse-cons c cur,
  append_assoc (reverse cur) (c ∷ []) s,
)

is_empty-append_cons : (a : Text) (c : ℕ) (b : Text) → is_empty (a ++ (c ∷ b)) ≡ false
is_empty-append_cons [] c b = refl
is_empty-append_cons (d ∷ a) c b = refl

-- Behind a trusted proxy the address is the one that the proxy appended, whatever the client wrote
-- before it; with no trusted proxy the header has no influence at all.
pub client_ip_unspoofed :
    (sent added remote_addr xff : Text)
    → All (λ c. c ≢ b',') added
    → trim_space added ≢ []
    → (client_ip true (sent ++ (b',' ∷ added)) remote_addr ≡ trim_space added)
      × (client_ip false xff remote_addr ≡ client_ip false [] remote_addr)
unfolding client_ip split
client_ip_unspoofed sent added remote_addr xff one nonempty = (
  rw
      (
        last_part-split_from b',' [] sent added,
        split_from-one b',' [] added one,
        is_empty-append_cons sent b',' added,
        (is_empty_iff (trim_space added)).1 nonempty,
      )
      refl,
  refl,
)
