-- ===== src/Prelude/FilePath/Laws.antt =====
-- What `clean` and `join` make of paths whose parts are plain, and of any rooted path.
use mathlib.Core.Bool.{Bool, true}
use mathlib.Core.List.{
  List, [], ◌∷◌, ◌++◌, reverse, reverse-cons, append_assoc, append-nil, reverse-reverse,
}
use mathlib.Core.Logic.{◌≢◌}
use mathlib.Core.Path.{◌≡◌, refl, ap, ◌∙◌, sym}
use native.Mathlib.Omega.{arith}
use lukscrypt.Prelude.Tests.{nat_eq}
use lukscrypt.Prelude.Lists.{All, All-append}
use lukscrypt.Prelude.Bytes.{Text, text_beq_iff, text_eq, split, split_from}
use lukscrypt.Prelude.FilePath.{
  dot, dotdot, resolve, resolve_all, join_parts, is_rooted, with_root, clean, join,
}

-- A part that names an entry of its directory.
abbrev pub IsPlain : Text → Type 0
IsPlain part = (part ≢ []) × (part ≢ dot) × (part ≢ dotdot) × All (λ c. c ≢ b'/') part

split_from-part :
    (cur s rest : Text)
    → All (λ c. c ≢ b'/') s
    → split_from b'/' cur (s ++ (b'/' ∷ rest)) ≡ (reverse cur ++ s) ∷ split_from b'/' [] rest
split_from-part cur [] rest h = simp append-nil
split_from-part cur (c ∷ s) rest (p, h) = ground (
  arith,
  split_from-part (c ∷ cur) s rest h,
  reverse-cons c cur,
  append_assoc (reverse cur) (c ∷ []) s,
)

split_from-last :
    (cur s : Text) → All (λ c. c ≢ b'/') s → split_from b'/' cur s ≡ (reverse cur ++ s) ∷ []
split_from-last cur [] h = simp append-nil
split_from-last cur (c ∷ s) (p, h) = ground (
  arith,
  split_from-last (c ∷ cur) s h,
  reverse-cons c cur,
  append_assoc (reverse cur) (c ∷ []) s,
)

split-join_parts :
    (part : Text) (parts : List Text)
    → All IsPlain (part ∷ parts)
    → split_from b'/' [] (join_parts (part ∷ parts)) ≡ part ∷ parts
unfolding join_parts
split-join_parts part [] (h, _) = split_from-last [] part h.3
split-join_parts part (q ∷ parts) (h, hs) =
    split_from-part [] part (join_parts (q ∷ parts)) h.3
    ∙ ap (◌∷◌ part) (split-join_parts q parts hs)

resolve_plain :
    (rooted : Bool) (stack : List Text) (part : Text)
    → IsPlain part
    → resolve rooted stack part ≡ part ∷ stack
unfolding resolve
resolve_plain rooted stack [] h = absurd (h.0 refl)
resolve_plain rooted stack (c ∷ part) h =
    ground (arith, text_beq_iff (c ∷ part) dot, text_beq_iff (c ∷ part) dotdot)

resolve_all-plain :
    (rooted : Bool) (stack parts : List Text)
    → All IsPlain parts
    → resolve_all rooted stack parts ≡ reverse parts ++ stack
unfolding resolve_all
resolve_all-plain rooted stack [] h = refl
resolve_all-plain rooted stack (part ∷ parts) (p, h) =
    ap (λ s. resolve_all rooted s parts) (resolve_plain rooted stack part p)
    ∙ resolve_all-plain rooted (part ∷ stack) parts h
    ∙ rw (reverse-cons part parts) (sym (append_assoc (reverse parts) (part ∷ []) stack))

-- An absolute path of plain parts is clean.
pub clean_plain :
    (part : Text) (parts : List Text)
    → All IsPlain (part ∷ parts)
    → clean (b'/' ∷ join_parts (part ∷ parts)) ≡ b'/' ∷ join_parts (part ∷ parts)
unfolding clean split
clean_plain part parts h =
    let cut : split b'/' (b'/' ∷ join_parts (part ∷ parts)) ≡ [] ∷ part ∷ parts =
      ap (◌∷◌ []) (split-join_parts part parts h) in
    let stacked : resolve_all true [] ([] ∷ part ∷ parts) ≡ reverse (part ∷ parts) =
      resolve_all-plain true [] (part ∷ parts) h ∙ append-nil (reverse (part ∷ parts)) in
    ap (λ ps. with_root true (reverse (resolve_all true [] ps))) cut
    ∙ ap (λ ps. with_root true (reverse ps)) stacked
    ∙ ap (with_root true) (reverse-reverse (part ∷ parts))

join_parts-concat :
    (part : Text) (parts : List Text) (last : Text)
    → join_parts ((part ∷ parts) ++ last ∷ []) ≡ join_parts (part ∷ parts) ++ (b'/' ∷ last)
unfolding join_parts
join_parts-concat part [] last = refl
join_parts-concat part (q ∷ parts) last =
    rw (join_parts-concat q parts last)
      (sym (append_assoc part (b'/' ∷ join_parts (q ∷ parts)) (b'/' ∷ last)))

All-concat :
    (parts : List Text) (last : Text)
    → All IsPlain parts
    → IsPlain last
    → All IsPlain (parts ++ last ∷ [])
All-concat parts last h k = All-append IsPlain parts (last ∷ []) h (k, tt)

-- A plain name joined to an absolute path of plain parts is put behind it, after one slash.
pub join_plain :
    (parts : List Text) (last : Text)
    → parts ≢ []
    → All IsPlain parts
    → IsPlain last
    → join (b'/' ∷ join_parts parts) last ≡ (b'/' ∷ join_parts parts) ++ (b'/' ∷ last)
unfolding join
join_plain [] last ne h k = absurd (ne refl)
join_plain (part ∷ parts) [] ne h k = absurd (k.0 refl)
join_plain (part ∷ parts) (c ∷ last) ne h k =
    let whole = join_parts-concat part parts (c ∷ last) in
    ap (λ s. clean (b'/' ∷ s)) (sym whole)
    ∙ clean_plain part (parts ++ (c ∷ last) ∷ []) (All-concat (part ∷ parts) (c ∷ last) h k)
    ∙ ap (◌∷◌ b'/') whole

-- No part of the stack is "..".
resolve-no_dotdot :
    (stack : List Text) (part : Text)
    → All (λ q. q ≢ dotdot) stack
    → All (λ q. q ≢ dotdot) (resolve true stack part)
unfolding resolve
resolve-no_dotdot [] part h = ground (arith, text_beq_iff part dotdot)
resolve-no_dotdot (q ∷ stack) part (g, h) =
    ground (arith, text_beq_iff part dotdot, text_beq_iff q dotdot)

resolve_all-no_dotdot :
    (stack parts : List Text)
    → All (λ q. q ≢ dotdot) stack
    → All (λ q. q ≢ dotdot) (resolve_all true stack parts)
unfolding resolve_all
resolve_all-no_dotdot stack [] h = h
resolve_all-no_dotdot stack (part ∷ parts) h =
    resolve_all-no_dotdot (resolve true stack part) parts (resolve-no_dotdot stack part h)

All-reverse : (xs : List Text) → All (λ q. q ≢ dotdot) xs → All (λ q. q ≢ dotdot) (reverse xs)
All-reverse [] h = tt
All-reverse (x ∷ xs) (p, h) =
    rw (reverse-cons x xs)
      (All-append (λ q. q ≢ dotdot) (reverse xs) (x ∷ []) (All-reverse xs h) (p, tt))

-- A rooted path is cleaned to a rooted path with no part "..".
pub clean-no_dotdot :
    (p : Text)
    → is_rooted p ≡ true
    → (parts : List Text) × (clean p ≡ b'/' ∷ join_parts parts) × All (λ q. q ≢ dotdot) parts
unfolding clean
clean-no_dotdot p rooted = (
  reverse (resolve_all true [] (split b'/' p)),
  rw rooted refl,
  All-reverse _ (resolve_all-no_dotdot [] (split b'/' p) tt),
)
