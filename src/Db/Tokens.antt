-- ===== src/Db/Tokens.antt =====
-- The life of an API token in its table.
use lukscrypt.Prelude.{
  ℕ, ◌≡◌, refl, Bool, true, false, not, none, some, List, [], ◌∷◌, arith, ◌==◌, nat_eq, keep, Text,
  text_beq_refl, text_eq,
}
use lukscrypt.Sys.{ok}
use lukscrypt.Db.{
  Db, ApiToken, token_row, has_token, create_api_token, find_token, get_api_token_by_hash,
  delete_api_token, touch_api_token, touch_row,
}

eq_self : (n : ℕ) → (n == n) ≡ true
eq_self n = ground arith

find_token-absent :
    (name hash : Text) (p : ApiToken → Bool) (ts : List ApiToken)
    → has_token name hash ts ≡ false
    → find_token hash (keep p ts) ≡ none
unfolding find_token has_token
find_token-absent name hash p [] h = refl
find_token-absent name hash p (t ∷ ts) h = ground (arith, find_token-absent name hash p ts)

-- A token whose name and hash are both new is created, and then its hash finds it; after a recorded
-- use the hash finds it with the time of that use; and its deletion reports that a row was deleted,
-- after which the hash finds nothing.
pub create_api_token_life :
    (now later name hash : Text) (d : Db)
    → has_token name hash d.tokens ≡ false
    → let (created, d') = create_api_token now name hash d in
      (created ≡ ok (token_row d.next_token name hash [] []))
      × (get_api_token_by_hash hash d' ≡ some (token_row d.next_token name hash now []))
      × (get_api_token_by_hash hash (touch_api_token later d.next_token d')
          ≡ some (token_row d.next_token name hash now later))
      × ((delete_api_token d.next_token d').0 ≡ true)
      × (get_api_token_by_hash hash (delete_api_token d.next_token d').1 ≡ none)
unfolding create_api_token get_api_token_by_hash delete_api_token touch_api_token find_token
    touch_row
create_api_token_life now later name hash d free =
    let gone = find_token-absent name hash (λ t. not (t.id == d.next_token)) d.tokens free in
    rw (free, text_beq_refl hash, eq_self d.next_token)
      (refl, refl, rw (text_beq_refl hash) refl, refl, gone)
