-- ===== src/Audit/Texts.antt =====
-- The text operations of Go that the audit uses on labels, codes and categories. A text is read as its code points; each
-- result is compared with an ASCII constant, or with a code, only.
use newapi_risk_platform.Base.{
  ℕ, ◌+◌, Bool, false, ◌&&◌, ◌||◌, String, List, [], ◌∷◌, leb, ◌==◌, str_eq, if◌then◌else◌,
}
use Prim.Native.Char.{code}
use Prim.Native.String.{◌∷◌ as ◌∷ˢ◌, [] as []ˢ}
use newapi_risk_platform.Gateway.Text.{is_space, has_prefix, text_eq}

unfoldable pub codes : String → List ℕ
codes []ˢ = []
codes (c ∷ˢ s) = code c ∷ codes s

unfoldable pub trim_start : String → String
unfolding is_space
trim_start []ˢ = []ˢ
trim_start (c ∷ˢ s) = let rest = trim_start s in if is_space (code c) then rest else c ∷ˢ s

unfoldable pub turned : String → String → String
turned []ˢ t = t
turned (c ∷ˢ s) t = turned s (c ∷ˢ t)

-- `strings.TrimSpace`.
unfoldable pub trim : String → String
trim s = turned (trim_start (turned (trim_start s) "")) ""

-- `unicode.ToLower` where its result is ASCII.
abbrev lower : ℕ → ℕ
lower c =
    if leb b'A' c && leb c b'Z'
    then c + 32
    else if c == 0x212a
    then b'k'
    else if c == 0x130
    then b'i'
    else c

-- The fold of `strings.EqualFold` where it is ASCII.
abbrev fold : ℕ → ℕ
fold c =
    if leb b'A' c && leb c b'Z'
    then c + 32
    else if c == 0x212a
    then b'k'
    else if c == 0x17f
    then b's'
    else c

abbrev map_codes : (ℕ → ℕ) → List ℕ → List ℕ
map_codes f [] = []
map_codes f (c ∷ s) = f c ∷ map_codes f s

unfoldable pub is_blank : String → Bool
is_blank s = str_eq (trim s) ""

-- `strings.ToLower(strings.TrimSpace(s))`.
unfoldable pub normalized : String → List ℕ
normalized s = map_codes lower (codes (trim s))

-- `strings.ToLower`.
unfoldable pub lowered : String → List ℕ
unfolding codes
lowered s = map_codes lower (codes s)

abbrev pub is_normalized : String → String → Bool
is_normalized s label = text_eq (normalized s) (codes label)

abbrev pub is_one_of : String → List String → Bool
is_one_of s [] = false
is_one_of s (label ∷ labels) = is_normalized s label || is_one_of s labels

abbrev occurs : List ℕ → List ℕ → Bool
occurs p [] = has_prefix p []
occurs p (c ∷ s) = has_prefix p (c ∷ s) || occurs p s

unfoldable pub mentions : String → String → Bool
mentions s word = occurs (codes word) (normalized s)

unfoldable pub begins_with : String → String → Bool
begins_with s prefix = has_prefix (codes prefix) (normalized s)

-- `strings.EqualFold` of the trimmed texts.
unfoldable pub equal_fold : String → String → Bool
equal_fold s t = text_eq (map_codes fold (codes (trim s))) (map_codes fold (codes (trim t)))
