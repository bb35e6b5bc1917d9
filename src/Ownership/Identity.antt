-- ===== src/Ownership/Identity.antt =====
-- The regular expressions of src/domain/ownership.ts that read a provider's identity.
use directory.Common.{
  ℕ, zero, suc, not, refl, ◌≡◌, Bool, true, false, ◌&&◌, ◌||◌, [], ◌∷◌, ◌++◌, leb, if◌then◌else◌,
  ◌==◌, nat_eq, Text, codes, starts_with, any, length,
}

unfoldable pub drop : ℕ → Text → Text
drop zero s = s
drop (suc n) [] = []
drop (suc n) (c ∷ s) = drop n s

-- Takes a prefix away where it stands.
unfoldable pub without_prefix : Text → Text → Text
unfolding drop
without_prefix p s = if starts_with s p then drop (length p) s else s

-- `/^https?:\/\//`
unfoldable pub without_scheme : Text → Text
unfolding drop
without_scheme s =
    if starts_with s (codes "https://")
    then drop 8 s
    else if starts_with s (codes "http://")
    then drop 7 s
    else s

-- `split("/")[0]`
unfoldable pub until_slash : Text → Text
until_slash [] = []
until_slash (c ∷ s) = if c == b'/' then [] else c ∷ until_slash s

unfoldable pub domain_of : Text → Text
unfolding without_scheme until_slash
domain_of value = until_slash (without_scheme value)

-- `/\.$/`
unfoldable pub without_last_dot : Text → Text
without_last_dot [] = []
without_last_dot (c ∷ []) = if c == b'.' then [] else c ∷ []
without_last_dot (c ∷ d ∷ s) = c ∷ without_last_dot (d ∷ s)

unfoldable pub record_name_of : Text → Text
unfolding without_last_dot
record_name_of domain = codes "_404-directory." ++ without_last_dot domain

-- `/^https?:\/\/(www\.)?github\.com\//`
unfoldable pub without_github : Text → Text
unfolding without_prefix without_scheme
without_github s =
    let host = without_prefix (codes "www.") (without_scheme s) in
    if (starts_with s (codes "https://") || starts_with s (codes "http://"))
      && starts_with host (codes "github.com/")
    then without_prefix (codes "github.com/") host
    else s

-- What `.` does not match.
abbrev pub is_line_end : ℕ → Bool
is_line_end c = c == 10 || c == 13 || c == 0x2028 || c == 0x2029

-- `/\/.*$/`: from the first slash that the end of the text follows on the same line.
unfoldable pub without_path : Text → Text
without_path [] = []
without_path (c ∷ s) = if c == b'/' && not (any is_line_end s) then [] else c ∷ without_path s

unfoldable pub login_of : Text → Text
unfolding without_github without_path without_prefix
login_of value = without_prefix (codes "@") (without_path (without_github value))

abbrev pub is_login_char : ℕ → Bool
is_login_char c =
    (leb b'a' c && leb c b'z') || (leb b'A' c && leb c b'Z') || (leb b'0' c && leb c b'9')

-- Letters and digits, and dashes that one of these follows.
unfoldable pub is_login_tail : Text → Bool
is_login_tail [] = true
is_login_tail (c ∷ []) = is_login_char c
is_login_tail (c ∷ d ∷ s) =
    (is_login_char c || (c == b'-' && is_login_char d)) && is_login_tail (d ∷ s)

unfoldable pub is_login : Text → Bool
unfolding is_login_tail
is_login [] = false
is_login (c ∷ s) = is_login_char c && leb (length s) 38 && is_login_tail s

test_identity :
    (domain_of (codes "https://example.org/x") ≡ codes "example.org")
    × (record_name_of (codes "example.org.") ≡ codes "_404-directory.example.org")
    × (login_of (codes "https://www.github.com/octo-cat/repo") ≡ codes "octo-cat")
    × (login_of (codes "@octo") ≡ codes "octo")
    × (is_login (codes "octo-cat") ≡ true)
    × (is_login (codes "octo--cat") ≡ false)
    × (is_login (codes "octo-") ≡ false)
unfolding domain_of record_name_of login_of is_login
test_identity = (refl, refl, refl, refl, refl, refl, refl)
