-- ===== src/Prelude/FilePath.antt =====
-- `filepath.Clean` and `filepath.Join` on Unix.
pub mod Laws
use mathlib.Core.Bool.{Bool, true, false, ◌||◌}
use mathlib.Core.List.{List, [], ◌∷◌, ◌++◌, reverse}
use mathlib.Core.Path.{◌≡◌, refl}
use lukscrypt.Prelude.Tests.{if◌then◌else◌, nat_eq, ◌==◌}
use lukscrypt.Prelude.Lists.{is_empty}
use lukscrypt.Prelude.Bytes.{Text, text, text_beq, text_eq, split}

abbrev pub dot : Text
dot = b'.' ∷ []

abbrev pub dotdot : Text
dotdot = b'.' ∷ b'.' ∷ []

-- A ".." removes the last part; at the root it goes, and before a relative path it stays.
abbrev pub pop : Bool → List Text → List Text
pop true [] = []
pop false [] = dotdot ∷ []
pop rooted (p ∷ stack) = if p == dotdot then dotdot ∷ p ∷ stack else stack

-- The stack holds the parts so far, the last at its head.
unfoldable pub resolve : Bool → List Text → Text → List Text
resolve rooted stack part =
    if is_empty part || part == dot
    then stack
    else if part == dotdot
    then pop rooted stack
    else part ∷ stack

unfoldable pub resolve_all : Bool → List Text → List Text → List Text
unfolding resolve
resolve_all rooted stack [] = stack
resolve_all rooted stack (part ∷ parts) = resolve_all rooted (resolve rooted stack part) parts

unfoldable pub join_parts : List Text → Text
join_parts [] = []
join_parts (part ∷ []) = part
join_parts (part ∷ more) = part ++ (b'/' ∷ join_parts more)

abbrev pub is_rooted : Text → Bool
is_rooted [] = false
is_rooted (c ∷ s) = c == b'/'

abbrev pub with_root : Bool → List Text → Text
with_root true parts = b'/' ∷ join_parts parts
with_root false [] = dot
with_root false (part ∷ parts) = join_parts (part ∷ parts)

unfoldable pub clean : Text → Text
unfolding resolve_all join_parts
clean p = with_root (is_rooted p) (reverse (resolve_all (is_rooted p) [] (split b'/' p)))

-- `filepath.Join` of two elements.
unfoldable pub join : Text → Text → Text
unfolding clean
join [] [] = []
join [] (c ∷ b) = clean (c ∷ b)
join (c ∷ a) [] = clean (c ∷ a)
join (c ∷ a) (d ∷ b) = clean ((c ∷ a) ++ (b'/' ∷ d ∷ b))

clean_tests :
    (clean (text "/vaults/../secret.img") ≡ text "/secret.img")
    × (clean (text "/a//b/./c/../d/") ≡ text "/a/b/d")
    × (clean (text "../x/../..") ≡ text "../..")
    × (clean (text "a/..") ≡ text ".")
    × (join (text "/vaults/") (text "photos.img") ≡ text "/vaults/photos.img")
unfolding join text split text_beq
clean_tests = (refl, refl, refl, refl, refl)
