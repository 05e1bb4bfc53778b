-- ===== src/Db/Vaults.antt =====
-- The vaults table: what its statements keep, and what they read back.
use lukscrypt.Prelude.{
  ℕ, ◌≤◌, ◌<◌, ◌≡◌, refl, ◌∙◌, inl, inr, Bool, false, not, Option, none, some, List, [], ◌∷◌, map,
  arith, if◌then◌else◌, Bool-cases, ◌==◌, nat_eq, keep, Text, text_eq,
}
use lukscrypt.Sys.{Vault}
use lukscrypt.Db.{
  Db, row, has_name, create_vault, find_vault, get_vault, delete_vault, update_vault_size,
  resize_row,
}

-- Names are unique, and ids fall along the list from below the next one.
abbrev pub AreVaults : ℕ → List Vault → Type 0
AreVaults n [] = Unit
AreVaults n (v ∷ vs) = (v.id < n) × (has_name v.name vs ≡ false) × AreVaults v.id vs

AreVaults-mono : (m n : ℕ) (vs : List Vault) → m ≤ n → AreVaults m vs → AreVaults n vs
AreVaults-mono m n [] h k = tt
AreVaults-mono m n (v ∷ vs) h (a, b, c) = (omega arith, b, c)

create_vault-AreVaults :
    (now name path : Text) (size_gb : ℕ) (mount_point mapper_name : Text) (d : Db)
    → AreVaults d.next_vault d.vaults
    → let e = (create_vault now name path size_gb mount_point mapper_name d).1 in
      AreVaults e.next_vault e.vaults
unfolding create_vault
create_vault-AreVaults now name path size_gb mount_point mapper_name d h =
    elim (Bool-cases (has_name name d.vaults)) [
      | inl taken ↦ rw taken h
      | inr free ↦ rw free (omega arith, free, h)
    ]

has_name-keep :
    (name : Text) (p : Vault → Bool) (vs : List Vault)
    → has_name name vs ≡ false
    → has_name name (keep p vs) ≡ false
unfolding has_name
has_name-keep name p [] h = refl
has_name-keep name p (v ∷ vs) h = ground (arith, has_name-keep name p vs)

keep-AreVaults :
    (p : Vault → Bool) (n : ℕ) (vs : List Vault) → AreVaults n vs → AreVaults n (keep p vs)
keep-AreVaults p n [] h = tt
keep-AreVaults p n (v ∷ vs) (a, b, c) = elim (Bool-cases (p v)) [
  | inl kept ↦ rw kept (a, has_name-keep v.name p vs b, keep-AreVaults p v.id vs c)
  | inr gone ↦
      rw gone (AreVaults-mono v.id n (keep p vs) (omega arith) (keep-AreVaults p v.id vs c))
]

has_name-resize :
    (name : Text) (id size_gb : ℕ) (vs : List Vault)
    → has_name name (map (resize_row id size_gb) vs) ≡ has_name name vs
unfolding has_name resize_row
has_name-resize name id size_gb [] = refl
has_name-resize name id size_gb (v ∷ vs) = ground (arith, has_name-resize name id size_gb vs)

resize_row_keeps :
    (id size_gb : ℕ) (v : Vault)
    → ((resize_row id size_gb v).id ≡ v.id) × ((resize_row id size_gb v).name ≡ v.name)
unfolding resize_row
resize_row_keeps id size_gb v = ground arith

resize-AreVaults :
    (id size_gb n : ℕ) (vs : List Vault)
    → AreVaults n vs
    → AreVaults n (map (resize_row id size_gb) vs)
resize-AreVaults id size_gb n [] h = tt
resize-AreVaults id size_gb n (v ∷ vs) (a, b, c) =
    let rest = resize-AreVaults id size_gb v.id vs c in
    let (same_id, same_name) = resize_row_keeps id size_gb v in
    rw (same_id, same_name) (a, has_name-resize v.name id size_gb vs ∙ b, rest)

-- What is done to the vaults table.
pub data Change : Type 0 where
  created : (now name path : Text) → ℕ → (mount_point mapper_name : Text) → Change
  deleted : ℕ → Change
  resized : (id size_gb : ℕ) → Change

abbrev pub change : Change → Db → Db
change (created now name path g m n) d = (create_vault now name path g m n d).1
change (deleted id) d = delete_vault id d
change (resized id g) d = update_vault_size id g d

-- No statement makes two vaults share a name or an id, or gives an id again that is in use.
pub change-AreVaults :
    (c : Change) (d : Db)
    → AreVaults d.next_vault d.vaults
    → AreVaults (change c d).next_vault (change c d).vaults
unfolding delete_vault update_vault_size
change-AreVaults (created now name path g m n) d h = create_vault-AreVaults now name path g m n d h
change-AreVaults (deleted id) d h = keep-AreVaults _ d.next_vault d.vaults h
change-AreVaults (resized id g) d h = resize-AreVaults id g d.next_vault d.vaults h

find_vault-keep :
    (id j : ℕ) (vs : List Vault)
    → find_vault (λ v. v.id == j) (keep (λ v. not (v.id == id)) vs)
      ≡ (if id == j then none else find_vault (λ v. v.id == j) vs)
unfolding find_vault
find_vault-keep id j [] = ground arith
find_vault-keep id j (v ∷ vs) = ground (arith, find_vault-keep id j vs)

abbrev pub with_size : ℕ → Option Vault → Option Vault
with_size size_gb none = none
with_size size_gb (some v) = some (record v { size_gb = size_gb })

find_vault-resize :
    (id size_gb j : ℕ) (vs : List Vault)
    → find_vault (λ v. v.id == j) (map (resize_row id size_gb) vs) ≡ (
        let found = find_vault (λ v. v.id == j) vs in
        if id == j then with_size size_gb found else found)
unfolding find_vault resize_row
find_vault-resize id size_gb j [] = ground arith
find_vault-resize id size_gb j (v ∷ vs) = ground (arith, find_vault-resize id size_gb j vs)

-- What a query by id reads after each statement.
abbrev pub reads_after : Change → Db → ℕ → Option Vault
reads_after (created now name path g m n) d j =
    if has_name name d.vaults
    then get_vault j d
    else if d.next_vault == j
    then some (row d.next_vault name path g m n now)
    else get_vault j d
reads_after (deleted id) d j = if id == j then none else get_vault j d
reads_after (resized id g) d j = if id == j then with_size g (get_vault j d) else get_vault j d

reads_created :
    (now name path : Text) (g : ℕ) (m n : Text) (d : Db) (j : ℕ)
    → get_vault j (create_vault now name path g m n d).1
      ≡ reads_after (created now name path g m n) d j
unfolding get_vault find_vault create_vault
reads_created now name path g m n d j = elim (Bool-cases (has_name name d.vaults)) [
  | inl taken ↦ rw taken refl
  | inr free ↦ rw free refl
]

-- An insertion adds its row under the next id unless the name is taken, a deletion removes the row
-- of its id, an update changes the size in the row of its id, and none of them changes another row.
pub get_vault-change : (c : Change) (d : Db) (j : ℕ) → get_vault j (change c d) ≡ reads_after c d j
unfolding get_vault delete_vault update_vault_size
get_vault-change (created now name path g m n) d j = reads_created now name path g m n d j
get_vault-change (deleted id) d j = find_vault-keep id j d.vaults
get_vault-change (resized id g) d j = find_vault-resize id g j d.vaults
