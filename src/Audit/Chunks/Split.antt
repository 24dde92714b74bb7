-- ===== src/Audit/Chunks/Split.antt =====
-- `splitAuditTextWithOffsets` of internal/platform/audit_long_context.go over the bytes of the text.
pub mod Coverage
use newapi_risk_platform.Base.{
  ℕ, zero, suc, ◌+◌, ◌-◌, ◌*◌, ◌/◌, ◌%◌, Bool, true, false, not, List, [], ◌∷◌, ltb, leb, ◌==◌,
  if◌then◌else◌, length, take, drop, Option, none, some, ◌||◌,
}

-- The byte at an index; the source reads indices of the text only.
unfoldable pub byte_at : List ℕ → ℕ → ℕ
byte_at [] i = 0
byte_at (b ∷ bs) zero = b
byte_at (b ∷ bs) (suc i) = byte_at bs i

-- `utf8.RuneStart`: the two high bits are not 10.
unfoldable pub rune_start : ℕ → Bool
rune_start b = not (b % 256 / 64 == 2)

-- From `start + d` down to the start of a rune, or to `start`.
unfoldable pub back_to_rune : List ℕ → ℕ → ℕ → ℕ
back_to_rune text start zero = start
back_to_rune text start (suc d) =
    let rest = back_to_rune text start d in
    if rune_start (byte_at text (start + suc d)) then start + suc d else rest

-- From `next` up to the start of a rune, by at most `d`.
unfoldable pub forward_to_rune : List ℕ → ℕ → ℕ → ℕ
forward_to_rune text next zero = next
forward_to_rune text next (suc d) =
    let rest = forward_to_rune text (next + 1) d in
    if rune_start (byte_at text next) then next else rest

-- `strings.LastIndexByte` of a newline in the `d` bytes from `floor`.
unfoldable pub last_newline : List ℕ → ℕ → ℕ → Option ℕ
last_newline text floor zero = none
last_newline text floor (suc d) =
    let rest = last_newline text floor d in if byte_at text (floor + d) == 10 then some d else rest

abbrev after_newline : ℕ → ℕ → ℕ → Option ℕ → ℕ
after_newline start floor end none = end
after_newline start floor end (some r) = if ltb start (floor + r + 1) then floor + r + 1 else end

-- Where a chunk that does not reach the end of the text ends, before the guard.
unfoldable pub cut : List ℕ → (max_bytes start : ℕ) → ℕ
cut text max_bytes start =
    let end = back_to_rune text start max_bytes in
    let floor = start + max_bytes * 3 / 4 in
    if ltb floor end
    then after_newline start floor end (last_newline text floor (end - floor))
    else end

unfoldable pub chunk_end : List ℕ → (max_bytes start : ℕ) → ℕ
chunk_end text max_bytes start =
    let n = length text in
    let end = if leb n (start + max_bytes) then n else cut text max_bytes start in
    if leb end start then forward_to_rune text (start + 1) (n - (start + 1)) else end

unfoldable pub next_start : List ℕ → (overlap start end : ℕ) → ℕ
next_start text overlap start end =
    let next = if leb (end - overlap) start then end else end - overlap in
    forward_to_rune text next (length text - next)

-- The chunks as pairs of their start and end; the fuel bounds the number of rounds.
unfoldable pub split_from : (fuel : ℕ) → List ℕ → (max_bytes overlap start : ℕ) → List (ℕ × ℕ)
split_from zero text max_bytes overlap start = []
split_from (suc fuel) text max_bytes overlap start =
    let end = chunk_end text max_bytes start in
    let rest = split_from fuel text max_bytes overlap (next_start text overlap start end) in
    if ltb start (length text)
    then (if leb (length text) end then (start, end) ∷ [] else (start, end) ∷ rest)
    else []

unfoldable pub split_audit_text_with_offsets : List ℕ → (max_bytes overlap : ℕ) → List (ℕ × ℕ)
split_audit_text_with_offsets [] max_bytes overlap = []
split_audit_text_with_offsets (b ∷ bs) max_bytes overlap =
    let text = b ∷ bs in
    let overlap' = if leb (max_bytes / 2) overlap then max_bytes / 4 else overlap in
    if max_bytes == 0 || leb (length text) max_bytes
    then (0, length text) ∷ []
    else split_from (length text) text max_bytes overlap' 0

-- The texts of the chunks.
abbrev pub slice : List ℕ → ℕ × ℕ → List ℕ
slice text (start, end) = take (end - start) (drop start text)
