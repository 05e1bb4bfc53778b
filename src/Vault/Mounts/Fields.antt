-- ===== src/Vault/Mounts/Fields.antt =====
-- What `mounted_in` finds: a whole field of /proc/mounts, and of one mount point only.
use lukscrypt.Prelude.{
  ℕ, Text, Bool, true, false, List, [], ◌∷◌, ◌++◌, ◌≡◌, ◌≢◌, refl, arith, All, All-append, any,
  contains, has_prefix, text_beq, nat_eq, ◌==◌, if◌then◌else◌, ◌&&◌, ◌||◌,
}
use lukscrypt.Vault.Mounts.{escape_byte, proc_mounts_escape, mounted_in}

-- A text cut at its spaces: the first part, and the others.
add_head : ℕ → Text × List Text → Text × List Text
add_head c (h, t) = (c ∷ h, t)

abbrev close_part : Text × List Text → Text × List Text
close_part (h, t) = ([], h ∷ t)

unfoldable pub fields : Text → Text × List Text
unfolding add_head
fields [] = ([], [])
fields (c ∷ s) = let rest = fields s in if c == b' ' then close_part rest else add_head c rest

abbrev but_last : List Text → List Text
but_last [] = []
but_last (x ∷ []) = []
but_last (x ∷ y ∷ r) = x ∷ but_last (y ∷ r)

-- The parts with a space on both sides.
abbrev pub inner : Text × List Text → List Text
inner (h, t) = but_last t

abbrev starts : Text → Text × List Text → Bool
starts w (h, []) = false
starts w (h, g ∷ t) = text_beq w h

abbrev pub HasNoSpace : Text → Type 0
HasNoSpace s = All (λ c. c ≢ b' ') s

starts-close_part : (p : Text × List Text) → starts [] (close_part p) ≡ true
unfolding text_beq
starts-close_part (h, t) = refl

starts_nil-add_head : (c : ℕ) (p : Text × List Text) → starts [] (add_head c p) ≡ false
unfolding text_beq add_head
starts_nil-add_head c (h, []) = refl
starts_nil-add_head c (h, g ∷ t) = refl

starts_cons-close_part :
    (d : ℕ) (w : Text) (p : Text × List Text) → starts (d ∷ w) (close_part p) ≡ false
unfolding text_beq
starts_cons-close_part d w (h, t) = refl

starts_cons-add_head :
    (d : ℕ) (w : Text) (c : ℕ) (p : Text × List Text)
    → starts (d ∷ w) (add_head c p) ≡ (c == d && starts w p)
unfolding text_beq add_head
starts_cons-add_head d w c (h, []) = ground arith
starts_cons-add_head d w c (h, g ∷ t) = ground arith

has_prefix-fields :
    (w s : Text) → HasNoSpace w → has_prefix s (w ++ b' ' ∷ []) ≡ starts w (fields s)
unfolding has_prefix fields
has_prefix-fields [] [] h = refl
has_prefix-fields (d ∷ w) [] h = refl
has_prefix-fields [] (c ∷ s) h =
    ground (arith, starts-close_part (fields s), starts_nil-add_head c (fields s))
has_prefix-fields (d ∷ w) (c ∷ s) (p, h) = ground (
  arith,
  has_prefix-fields w s h,
  starts_cons-close_part d w (fields s),
  starts_cons-add_head d w c (fields s),
)

any-inner-close_part :
    (w : Text) (p : Text × List Text)
    → any (text_beq w) (inner (close_part p)) ≡ (starts w p || any (text_beq w) (inner p))
any-inner-close_part w (h, []) = refl
any-inner-close_part w (h, g ∷ t) = refl

inner-add_head : (c : ℕ) (p : Text × List Text) → inner (add_head c p) ≡ inner p
unfolding add_head
inner-add_head c (h, t) = refl

-- Searching for a spaced word is searching for it among the inner fields.
contains-fields :
    (w s : Text)
    → HasNoSpace w
    → contains s (b' ' ∷ (w ++ b' ' ∷ [])) ≡ any (text_beq w) (inner (fields s))
unfolding contains fields
contains-fields w [] h = refl
contains-fields w (c ∷ s) h = ground (
  arith,
  contains-fields w s h,
  has_prefix-fields w s h,
  any-inner-close_part w (fields s),
  inner-add_head c (fields s),
)

escape_byte-HasNoSpace : (c : ℕ) → HasNoSpace (escape_byte c)
unfolding escape_byte
escape_byte-HasNoSpace c = ground arith

proc_mounts_escape-HasNoSpace : (s : Text) → HasNoSpace (proc_mounts_escape s)
unfolding proc_mounts_escape
proc_mounts_escape-HasNoSpace [] = tt
proc_mounts_escape-HasNoSpace (c ∷ s) =
    All-append _ (escape_byte c) (proc_mounts_escape s) (escape_byte-HasNoSpace c)
      (proc_mounts_escape-HasNoSpace s)

-- A mount point is found exactly where its escaped form is a whole field between two spaces: a
-- mount point of which it is a prefix, or a part, is not taken for it.
pub mounted_in-fields :
    (mount_point mounts : Text)
    → mounted_in mount_point mounts
      ≡ any (text_beq (proc_mounts_escape mount_point)) (inner (fields mounts))
unfolding mounted_in
mounted_in-fields mount_point mounts =
    contains-fields (proc_mounts_escape mount_point) mounts
      (proc_mounts_escape-HasNoSpace mount_point)

escape_byte-append_inj :
    (c d : ℕ) (s t : Text) → escape_byte c ++ s ≡ escape_byte d ++ t → (c ≡ d) × (s ≡ t)
unfolding escape_byte
escape_byte-append_inj c d s t e = ground arith

-- Two mount points with one escaped form are the same.
pub proc_mounts_escape_injective :
    (s t : Text) → proc_mounts_escape s ≡ proc_mounts_escape t → s ≡ t
unfolding proc_mounts_escape
proc_mounts_escape_injective [] [] e = refl
proc_mounts_escape_injective [] (d ∷ t) e = ground arith
proc_mounts_escape_injective (c ∷ s) [] e = ground arith
proc_mounts_escape_injective (c ∷ s) (d ∷ t) e =
    let (p, q) = escape_byte-append_inj c d _ _ e in cc (p, proc_mounts_escape_injective s t q)
