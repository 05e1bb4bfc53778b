-- ===== src/Vault/Header.antt =====
-- internal/vault/luksdump.go: reading a LUKS header. `encoding/json` is a parameter, which turns
-- the metadata's bytes into the maps that the code asks for; a Go map is an association list. The
-- regular expressions are written out as scanners.
pub mod Order
pub mod Fields
pub mod Attempts
mod Tests
use lukscrypt.Prelude.{
  ℕ, ◌+◌, ◌*◌, Text, Bool, true, false, Option, none, some, List, [], ◌∷◌, ◌++◌, text, has_prefix,
  trim_space, strip_prefix, leb, not, ◌&&◌, ◌||◌, nat_eq, text_eq, ◌==◌, if◌then◌else◌, take_while,
  drop_while,
}
use lukscrypt.Prelude.Int.{ℤ, pos, negsuc, leb_ℤ}
use lukscrypt.Prelude.Dict.{Dict, lookup}
use lukscrypt.Prelude.Decimal.{itoa_ℤ, parse_int, good, out_of_range, bad_syntax}
use lukscrypt.Sys.{Vault, Prog, give, ask, ◌>>=◌, Res, ok, err, always, exec}
use lukscrypt.Sys.Argv.{luks_dump, luks_dump_json}

pub record KeySlot : Type 0 where
  pub index : ℤ
  pub type : Text
  pub status : Text

pub record LuksDetails : Type 0 where
  pub version : Text
  pub cipher : Text
  pub hash : Text
  pub key_size_bits : ℤ
  pub uuid : Text
  pub key_slots : List KeySlot

-- `[\t\n\f\r ]`, the regular expressions' `\s`.
abbrev re_space : ℕ → Bool
re_space c = c == b' ' || c == 0x09 || c == 0x0a || c == 0x0c || c == 0x0d

abbrev non_empty : Text → Option Text
non_empty [] = none
non_empty (c ∷ s) = some (c ∷ s)

-- `\s+(\S+)`
spaced_word : Text → Option Text
spaced_word [] = none
spaced_word (c ∷ s) =
    if re_space c
    then non_empty (take_while (λ d. not (re_space d)) (drop_while re_space s))
    else none

-- `Label:\s+(\S+)` at one position
field_at : Text → Text → Option Text
unfolding strip_prefix spaced_word
field_at label s = elim (strip_prefix (label ++ text ":") s) [
  | none ↦ none
  | some rest ↦ spaced_word rest
]

-- The first match at a line's start; the flag says whether one is here.
find_field : Text → Bool → Text → Option Text
find_field label start [] = none
find_field label start (c ∷ s) = elim (if start then field_at label (c ∷ s) else none) [
  | some v ↦ some v
  | none ↦ find_field label (c == 0x0a) s
]

unfoldable pub dump_field : Text → Text → Text
unfolding find_field field_at
dump_field dump label = elim (find_field label true dump) [ some v ↦ v | none ↦ [] ]

-- `Atoi` with its error ignored.
unfoldable pub atoi_safe : Text → ℤ
unfolding parse_int trim_space
atoi_safe s = elim (parse_int (trim_space s)) [
  | good n ↦ n
  | out_of_range n ↦ n
  | bad_syntax ↦ pos 0
]

-- A JSON value, as far as `asInt` tells them apart; a number is given as an integer.
pub data JsonValue : Type 0 where
  number : ℤ → JsonValue
  string : Text → JsonValue
  other : JsonValue

unfoldable pub as_int : JsonValue → ℤ
unfolding atoi_safe
as_int (number n) = n
as_int (string s) = atoi_safe s
as_int other = pos 0

insert_sorted : ℤ → List ℤ → List ℤ
insert_sorted n [] = n ∷ []
insert_sorted n (m ∷ ms) = if leb_ℤ n m then n ∷ m ∷ ms else m ∷ insert_sorted n ms

index_keys : {V : Type 0} → Dict Text V → List ℤ
unfolding insert_sorted
index_keys [] = []
index_keys ((k, _) ∷ d) = elim (parse_int k) [
  | good n ↦ insert_sorted n (index_keys d)
  | _ ↦ index_keys d
]

unfoldable pub sorted_indexes : {V : Type 0} → Dict Text V → List ℤ
unfolding index_keys
sorted_indexes d = index_keys d

pub record Luks2KeySlot : Type 0 where
  pub key_size : JsonValue
  pub kdf_type : Text

pub record Luks2Header : Type 0 where
  pub keyslots : Dict Text Luks2KeySlot
  pub digests : Dict Text Text
  pub segments : Dict Text Text

-- The zero value of a missing key.
abbrev slot_or_zero : Option Luks2KeySlot → Luks2KeySlot
slot_or_zero none = record { key_size = other; kdf_type = [] }
slot_or_zero (some k) = k

abbrev text_or_zero : Option Text → Text
text_or_zero none = []
text_or_zero (some t) = t

abbrev is_zero : ℤ → Bool
is_zero (pos n) = n == 0
is_zero (negsuc n) = false

-- `n * 8`, of a size that fits 60 bits
abbrev times_eight : ℤ → ℤ
times_eight (pos n) = pos (n * 8)
times_eight (negsuc n) = negsuc (n * 8 + 7)

add_slot : Luks2Header → ℤ → LuksDetails → LuksDetails
unfolding as_int
add_slot hdr idx d =
    let ks = slot_or_zero (lookup (itoa_ℤ idx) hdr.keyslots) in
    record d {
      key_slots =
          d.key_slots ++ record { index = idx; type = ks.kdf_type; status = text "valid" } ∷ [];
      key_size_bits =
          if is_zero d.key_size_bits then times_eight (as_int ks.key_size) else d.key_size_bits;
    }

add_slots : Luks2Header → List ℤ → LuksDetails → LuksDetails
unfolding add_slot
add_slots hdr [] d = d
add_slots hdr (idx ∷ more) d = add_slots hdr more (add_slot hdr idx d)

-- The value at the lowest index, or what was there before.
first_value : Dict Text Text → Text → Text
unfolding sorted_indexes
first_value d old = elim (sorted_indexes d) [
  | [] ↦ old
  | idx ∷ _ ↦ text_or_zero (lookup (itoa_ℤ idx) d)
]

unfoldable pub parse_luks2 : LuksDetails → Luks2Header → LuksDetails
unfolding add_slots first_value
parse_luks2 d hdr =
    let filled = add_slots hdr (sorted_indexes hdr.keyslots) d in
    record filled {
      hash = first_value hdr.digests filled.hash;
      cipher = first_value hdr.segments filled.cipher;
    }

abbrev is_digit : ℕ → Bool
is_digit c = leb b'0' c && leb c b'9'

-- `(ENABLED|DISABLED)`, in lower case
slot_state : Text → Option Text
slot_state s =
    if has_prefix s (text "ENABLED")
    then some (text "enabled")
    else if has_prefix s (text "DISABLED")
    then some (text "disabled")
    else none

slot_line : Text → Text → Option KeySlot
unfolding slot_state atoi_safe
slot_line [] rest = none
slot_line (c ∷ digits) rest = elim (strip_prefix (text ": ") rest) [
  | none ↦ none
  | some rest ↦ elim (slot_state rest) [
    | none ↦ none
    | some status ↦
        some (record { index = atoi_safe (c ∷ digits); type = text "pbkdf2"; status = status })
  ]
]

-- `Key Slot (\d+): (ENABLED|DISABLED)` at one position
slot_at : Text → Option KeySlot
unfolding slot_line
slot_at s = elim (strip_prefix (text "Key Slot ") s) [
  | none ↦ none
  | some rest ↦ slot_line (take_while is_digit rest) (drop_while is_digit rest)
]

find_slots : Bool → Text → List KeySlot
unfolding slot_at
find_slots start [] = []
find_slots start (c ∷ s) =
    let rest = find_slots (c == 0x0a) s in
    elim (if start then slot_at (c ∷ s) else none) [ none ↦ rest | some k ↦ k ∷ rest ]

-- `strings.TrimSuffix(s, "-")`
trim_dash : Text → Text
trim_dash [] = []
trim_dash (c ∷ []) = if c == b'-' then [] else c ∷ []
trim_dash (c ∷ d ∷ s) = c ∷ trim_dash (d ∷ s)

unfoldable pub parse_luks1 : LuksDetails → Text → LuksDetails
unfolding find_slots trim_dash dump_field atoi_safe
parse_luks1 d dump = record d {
  hash = dump_field dump (text "Hash spec");
  key_size_bits = atoi_safe (dump_field dump (text "MK bits"));
  cipher =
      trim_dash
        (dump_field dump (text "Cipher name") ++ (b'-' ∷ dump_field dump (text "Cipher mode")));
  key_slots = d.key_slots ++ find_slots true dump;
}

module _ (unmarshal : Text → Res Luks2Header) where
  unfoldable pub parse_luks2_metadata : LuksDetails → Text → Res LuksDetails
  unfolding parse_luks2
  parse_luks2_metadata d raw = elim (unmarshal raw) [
    | err e ↦ err (text "parse LUKS2 metadata: " ++ e)
    | ok hdr ↦ ok (parse_luks2 d hdr)
  ]

  fill_luks2 : LuksDetails → Text → Prog (Res LuksDetails)
  unfolding parse_luks2_metadata
  fill_luks2 d path = do
    r ← ask (exec always (luks_dump_json path) [])
    elim r.failed [
      | some _ ↦ give (err (text "luksDump --dump-json-metadata: " ++ trim_space r.out))
      | none ↦ give (parse_luks2_metadata d r.out)
    ]

  unfoldable pub dump_details : Vault → Prog (Res LuksDetails)
  unfolding fill_luks2 dump_field parse_luks1
  dump_details v = do
    r ← ask (exec always (luks_dump v.path) [])
    let d : LuksDetails = record {
      version = dump_field r.out (text "Version");
      cipher = [];
      hash = [];
      key_size_bits = pos 0;
      uuid = dump_field r.out (text "UUID");
      key_slots = [];
    }
    elim r.failed [
      | some _ ↦ give (err (text "luksDump: " ++ trim_space r.out))
      | none ↦
          if d.version == text "2"
          then fill_luks2 d v.path
          else if d.version == text "1"
          then give (ok (parse_luks1 d r.out))
          else give
              (err (text "unrecognized LUKS header version " ++ (b'"' ∷ (d.version ++ b'"' ∷ []))))
    ]
