-- ===== src/Config/Laws.antt =====
-- What a configuration that is accepted looks like.
use lukscrypt.Prelude.{
  ℕ, ◌<◌, ◌^◌, Text, not, some, List, [], ◌∷◌, ◌≡◌, ◌≢◌, keep, is_empty, All, arith, map,
  trim_space, split,
}
use lukscrypt.Prelude.Int.{ℤ, pos}
use lukscrypt.Prelude.Decimal.{itoa, parse_int-itoa}
use lukscrypt.Config.{check_size, parse_max_size, or_default, parse_list}

keep_nonempty : (ss : List Text) → All (λ s. s ≢ []) (keep (λ s. not (is_empty s)) ss)
keep_nonempty [] = tt
keep_nonempty ([] ∷ ss) = keep_nonempty ss
keep_nonempty ((c ∷ s) ∷ ss) = (λ e. cc, keep_nonempty ss)

or_default_lem :
    (default : Text) (ss : List Text)
    → default ≢ []
    → All (λ s. s ≢ []) ss
    → (or_default default ss ≢ []) × All (λ s. s ≢ []) (or_default default ss)
unfolding or_default
or_default_lem default [] d h = (λ e. cc, (d, tt))
or_default_lem default (s ∷ ss) d h = (λ e. cc, h)

-- With a default that is not empty, a list variable has an entry, and none of its entries is empty.
pub parse_list-IsFilled :
    (env default : Text)
    → default ≢ []
    → (parse_list env default ≢ []) × All (λ s. s ≢ []) (parse_list env default)
unfolding parse_list
parse_list-IsFilled env default d =
    let parts = map trim_space (split b',' env) in
    or_default_lem default (keep (λ s. not (is_empty s)) parts) d (keep_nonempty parts)

-- A size that is printed in decimal is read back, for every positive 63-bit number.
pub parse_max_size-itoa :
    (n : ℕ) (default : ℤ) → 0 < n → n < 2 ^ 63 → parse_max_size (itoa n) default ≡ some (pos n)
unfolding parse_max_size check_size
parse_max_size-itoa n default h k =
    let (full, read) = parse_int-itoa n k in rw (full, read) (ground arith)
