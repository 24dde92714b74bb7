-- ===== src/Gateway/Text.antt =====
-- The helpers on header values of internal/platform/gateway.go, over code points. Wherever the
-- source counts or cuts bytes the value is ASCII, or is refused by the next test.
use newapi_risk_platform.Base.{
  ℕ, ◌+◌, Bool, true, false, ◌&&◌, ◌||◌, List, [], ◌∷◌, ltb, leb, ◌==◌, length, take, drop, not,
  if◌then◌else◌,
}
use mathlib.Core.List.{reverse}
use newapi_risk_platform.Gateway.Types.{Text}

-- `unicode.IsSpace`.
unfoldable pub is_space : ℕ → Bool
is_space c =
    (leb 9 c && leb c 13)
    || c == b' '
    || c == 0x85
    || c == 0xa0
    || c == 0x1680
    || (leb 0x2000 c && leb c 0x200a)
    || c == 0x2028
    || c == 0x2029
    || c == 0x202f
    || c == 0x205f
    || c == 0x3000

pub trim_left : Text → Text
trim_left [] = []
trim_left (c ∷ s) = if is_space c then trim_left s else c ∷ s

-- `strings.TrimSpace`.
unfoldable pub trim_space : Text → Text
unfolding trim_left is_space
trim_space s = reverse (trim_left (reverse (trim_left s)))

-- A character of `requestIDPattern`.
pub is_id_char : ℕ → Bool
is_id_char c =
    (leb b'A' c && leb c b'Z')
    || (leb b'a' c && leb c b'z')
    || (leb b'0' c && leb c b'9')
    || c == b'.'
    || c == b'_'
    || c == b':'
    || c == b'-'

abbrev pub all : (ℕ → Bool) → Text → Bool
all p [] = true
all p (c ∷ s) = p c && all p s

abbrev pub is_empty : Text → Bool
is_empty [] = true
is_empty (_ ∷ _) = false

pub checked_id : Text → Text
checked_id value =
    if is_empty value || ltb 128 (length value) || not (all is_id_char value) then [] else value

unfoldable pub normalize_request_id : Text → Text
unfolding checked_id trim_space is_id_char
normalize_request_id value = checked_id (trim_space value)

unfoldable pub first_non_empty : List Text → Text
first_non_empty [] = []
first_non_empty ([] ∷ values) = first_non_empty values
first_non_empty ((c ∷ s) ∷ values) = c ∷ s

abbrev lower_ascii : ℕ → ℕ
lower_ascii c = if leb b'A' c && leb c b'Z' then c + 32 else c

abbrev pub text_eq : Text → Text → Bool
text_eq [] [] = true
text_eq (c ∷ s) (d ∷ t) = c == d && text_eq s t
text_eq _ _ = false

abbrev map_lower : Text → Text
map_lower [] = []
map_lower (c ∷ s) = lower_ascii c ∷ map_lower s

abbrev bearer_prefix : Text
bearer_prefix = b'b' ∷ b'e' ∷ b'a' ∷ b'r' ∷ b'e' ∷ b'r' ∷ b' ' ∷ []

abbrev token_of : Text → Text
token_of header =
    if ltb (length header) 7 || not (text_eq (map_lower (take 7 header)) bearer_prefix)
    then []
    else trim_space (drop 7 header)

-- No letter of the prefix has a fold outside ASCII, so `strings.EqualFold` is the ASCII fold.
unfoldable pub bearer_token : Text → Text
unfolding trim_space
bearer_token header = token_of (trim_space header)

-- `strings.HasPrefix`, the prefix first.
abbrev pub has_prefix : Text → Text → Bool
has_prefix [] s = true
has_prefix (c ∷ p) [] = false
has_prefix (c ∷ p) (d ∷ s) = c == d && has_prefix p s
