-- ===== src/Slug.antt =====
-- `slugify` of src/domain/memory-store.ts, which src/domain/http/v1-routes.ts repeats.
-- `toLowerCase` is written out for the characters that it takes to ASCII: A to Z, the Kelvin sign
-- and the dotted capital I. Every other character stays outside [a-z0-9:_-] when it is lowered,
-- and the replacement puts one dash for a whole run of such characters, so the result is exact.
pub mod Laws
use directory.Common.{
  ℕ, ◌+◌, Bool, true, false, not, ◌&&◌, ◌||◌, [], ◌∷◌, leb, if◌then◌else◌, ◌==◌, nat_eq, Text,
  is_empty,
}

lower_char : ℕ → ℕ
lower_char c = if leb b'A' c && leb c b'Z' then c + 32 else if c == 0x212A then b'k' else c

unfoldable pub to_lower_case : Text → Text
unfolding lower_char
to_lower_case [] = []
to_lower_case (c ∷ s) =
    let rest = to_lower_case s in if c == 0x130 then b'i' ∷ 0x307 ∷ rest else lower_char c ∷ rest

-- [a-z0-9:_-]
unfoldable pub is_slug_char : ℕ → Bool
is_slug_char c =
    (leb b'a' c && leb c b'z') || (leb b'0' c && leb c b'9') || c == b':' || c == b'_' || c == b'-'

-- `.replace(/[^a-z0-9:_-]+/g, "-")`; the flag says that the character before was replaced too.
unfoldable pub collapse : Bool → Text → Text
unfolding is_slug_char
collapse in_run [] = []
collapse in_run (c ∷ s) =
    let rest = collapse (not (is_slug_char c)) s in
    if is_slug_char c then c ∷ rest else if in_run then rest else b'-' ∷ rest

-- `.replace(/^-+|-+$/g, "")`: the dashes in front, then those at the end.
unfoldable pub drop_dashes : Text → Text
drop_dashes [] = []
drop_dashes (c ∷ s) = let rest = drop_dashes s in if c == b'-' then rest else c ∷ s

unfoldable pub strip_dashes : Text → Text
strip_dashes [] = []
strip_dashes (c ∷ s) =
    let rest = strip_dashes s in if c == b'-' && is_empty rest then [] else c ∷ rest

unfoldable pub slugify : Text → Text
unfolding to_lower_case collapse drop_dashes strip_dashes
slugify value = strip_dashes (drop_dashes (collapse false (to_lower_case value)))
