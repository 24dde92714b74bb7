-- ===== src/Audit/Chunks/Split/Coverage.antt =====
-- No rune of the text is left out of the chunks.
use newapi_risk_platform.Base.{
  ℕ, zero, suc, ◌+◌, ◌-◌, ◌*◌, ◌/◌, ◌≤◌, ◌<◌, ◌≡◌, refl, false, List, [], ◌∷◌, ltb, leb, ◌==◌,
  if◌then◌else◌, length, Option, none, some, ◌||◌, arith, ◌⊎◌, inl, inr, Bool-cases, if_holds, All,
  ltb→lt,
}
use newapi_risk_platform.Audit.Chunks.Split.{
  byte_at, rune_start, back_to_rune, forward_to_rune, last_newline, cut, chunk_end, next_start,
  split_from, split_audit_text_with_offsets, after_newline,
}

-- An index lies in one of the chunks.
abbrev pub Covered : ℕ → List (ℕ × ℕ) → Type 0
Covered i [] = ⊥
Covered i ((start, end) ∷ cs) = (start ≤ i × i < end) ⊎ Covered i cs

back_to_rune-bounds :
    (text : List ℕ) (start d : ℕ)
    → (start ≤ back_to_rune text start d) × (back_to_rune text start d ≤ start + d)
unfolding back_to_rune
back_to_rune-bounds text start zero = ground arith
back_to_rune-bounds text start (suc d) = ground (arith, back_to_rune-bounds text start d)

forward_to_rune-bounds :
    (text : List ℕ) (next d : ℕ)
    → (next ≤ forward_to_rune text next d) × (forward_to_rune text next d ≤ next + d)
unfolding forward_to_rune
forward_to_rune-bounds text next zero = ground arith
forward_to_rune-bounds text next (suc d) = ground (arith, forward_to_rune-bounds text (next + 1) d)

-- The bytes that are stepped over do not start a rune.
forward_to_rune-skips :
    (text : List ℕ) (next d i : ℕ)
    → next ≤ i
    → i < forward_to_rune text next d
    → rune_start (byte_at text i) ≡ false
unfolding forward_to_rune
forward_to_rune-skips text next zero i le lt = absurd (omega arith)
forward_to_rune-skips text next (suc d) i le lt =
    elim (Bool-cases (rune_start (byte_at text next))) [
      | inl h ↦ absurd (ground (arith, lt, h))
      | inr h ↦ elim (Bool-cases (i == next)) [
        | inl same ↦ same_index h (ground (arith, same))
        | inr other ↦
            forward_to_rune-skips text (next + 1) d i (ground (arith, other))
              (ground (arith, lt, h))
      ]
    ]
  where
    same_index :
        rune_start (byte_at text next) ≡ false → next ≡ i → rune_start (byte_at text i) ≡ false
    same_index h e = rw e at h

last_newline-bound : (text : List ℕ) (floor d r : ℕ) → last_newline text floor d ≡ some r → r < d
unfolding last_newline
last_newline-bound text floor zero r e = ground (arith, e)
last_newline-bound text floor (suc d) r e = ground (arith, last_newline-bound text floor d r)

cut_le : (text : List ℕ) (max_bytes start : ℕ) → cut text max_bytes start ≤ start + max_bytes
unfolding cut
cut_le text max_bytes start =
    let end = back_to_rune text start max_bytes in
    let floor = start + max_bytes * 3 / 4 in
    if_holds (λ n. n ≤ start + max_bytes) (ltb floor end)
      (λ inside. after_newline_le (last_newline text floor (end - floor)) refl)
      (λ _. (back_to_rune-bounds text start max_bytes).1)
  where
    after_newline_le :
        (o : Option ℕ)
        → last_newline text
            (start + max_bytes * 3 / 4)
            (back_to_rune text start max_bytes - (start + max_bytes * 3 / 4))
          ≡ o
        → after_newline start (start + max_bytes * 3 / 4) (back_to_rune text start max_bytes) o
          ≤ start + max_bytes
    after_newline_le none e = (back_to_rune-bounds text start max_bytes).1
    after_newline_le (some r) e = ground (
      arith,
      last_newline-bound text (start + max_bytes * 3 / 4)
          (back_to_rune text start max_bytes - (start + max_bytes * 3 / 4)) r e,
      back_to_rune-bounds text start max_bytes,
    )

chunk_end-bounds :
    (text : List ℕ) (max_bytes start : ℕ)
    → start < length text
    → (start < chunk_end text max_bytes start) × (chunk_end text max_bytes start ≤ length text)
unfolding chunk_end
chunk_end-bounds text max_bytes start lt = ground (
  arith,
  cut_le text max_bytes start,
  forward_to_rune-bounds text (start + 1) (length text - (start + 1)),
)

next_start-bounds :
    (text : List ℕ) (overlap start end : ℕ)
    → start < end
    → end ≤ length text
    → (start < next_start text overlap start end)
      × ((i : ℕ)
          → end ≤ i
          → i < next_start text overlap start end
          → rune_start (byte_at text i) ≡ false)
unfolding next_start
next_start-bounds text overlap start end lt le =
    let next = if leb (end - overlap) start then end else end - overlap in
    let d = length text - next in
    (
      ground (arith, forward_to_rune-bounds text next d),
      (λ i low high. forward_to_rune-skips text next d i (ground (arith, low)) high),
    )

-- An index lies in a chunk, or its byte starts no rune.
abbrev pub IsKept : List ℕ → ℕ → List (ℕ × ℕ) → Type 0
IsKept text i cs = Covered i cs ⊎ (rune_start (byte_at text i) ≡ false)

keep_later :
    (text : List ℕ) (i : ℕ) (c : ℕ × ℕ) (cs : List (ℕ × ℕ))
    → IsKept text i cs
    → IsKept text i (c ∷ cs)
keep_later text i c cs (inl h) = inl (inr h)
keep_later text i c cs (inr h) = inr h

split_from-covers :
    (fuel : ℕ) (text : List ℕ) (max_bytes overlap start i : ℕ)
    → length text ≤ start + fuel
    → start ≤ i
    → i < length text
    → IsKept text i (split_from fuel text max_bytes overlap start)
unfolding split_from
split_from-covers zero text max_bytes overlap start i enough le lt = absurd (omega arith)
split_from-covers (suc fuel) text max_bytes overlap start i enough le lt =
    let end = chunk_end text max_bytes start in
    let next = next_start text overlap start end in
    let ends = chunk_end-bounds text max_bytes start (omega arith) in
    let nexts = next_start-bounds text overlap start end ends.0 ends.1 in
    let rest = split_from-covers fuel text max_bytes overlap next i (omega (arith, nexts.0)) in
    let kept = IsKept text i in
    if_holds kept (ltb start (length text))
      (λ _.
        if_holds kept (leb (length text) end) (λ last. inl (inl (le, ground (arith, last))))
          (λ _. elim (Bool-cases (ltb i end)) [
            | inl within ↦ inl (inl (le, ground (arith, within)))
            | inr past ↦ elim (Bool-cases (leb next i)) [
              | inl far ↦ keep_later text i (start, end) _ (rest (ground (arith, far)) lt)
              | inr near ↦ inr (nexts.1 i (ground (arith, past)) (ground (arith, near)))
            ]
          ]))
      (λ no. absurd (ground (arith, no)))

-- Every byte of the text that starts a rune lies in one of the chunks, whatever the size and the overlap are, also in a
-- text that is not valid UTF-8: only bytes that continue a rune can lie in none.
pub split_audit_text_with_offsets-IsKept :
    (text : List ℕ) (max_bytes overlap i : ℕ)
    → i < length text
    → IsKept text i (split_audit_text_with_offsets text max_bytes overlap)
unfolding split_audit_text_with_offsets
split_audit_text_with_offsets-IsKept [] max_bytes overlap i lt = absurd (omega arith)
split_audit_text_with_offsets-IsKept (b ∷ bs) max_bytes overlap i lt =
    let text = b ∷ bs in
    if_holds (IsKept text i) (max_bytes == 0 || leb (length text) max_bytes)
      (λ _. inl (inl (omega arith, lt)))
      (λ _. split_from-covers (length text) text max_bytes _ 0 i (omega arith) (omega arith) lt)

-- What each chunk is: not empty, in the text, and no longer than the maximum unless it is a single rune.
abbrev pub IsFitting : List ℕ → ℕ → ℕ × ℕ → Type 0
IsFitting text max_bytes (start, end) =
    (start < end)
    × (end ≤ length text)
    × ((end ≤ start + max_bytes)
        ⊎ ((i : ℕ) → start + 1 ≤ i → i < end → rune_start (byte_at text i) ≡ false))

chunk_end-IsFitting :
    (text : List ℕ) (max_bytes start : ℕ)
    → start < length text
    → IsFitting text max_bytes (start, chunk_end text max_bytes start)
unfolding chunk_end
chunk_end-IsFitting text max_bytes start lt =
    let ends = chunk_end-bounds text max_bytes start lt in
    let n = length text in
    let end = if leb n (start + max_bytes) then n else cut text max_bytes start in
    (
      ends.0,
      ends.1,
      if_holds
          (λ (e : ℕ).
            (e ≤ start + max_bytes)
            ⊎ ((i : ℕ) → start + 1 ≤ i → i < e → rune_start (byte_at text i) ≡ false))
          (leb end start) (λ _. inr (forward_to_rune-skips text (start + 1) (n - (start + 1))))
          (λ _. inl (ground (arith, cut_le text max_bytes start))),
    )

split_from-IsFitting :
    (fuel : ℕ) (text : List ℕ) (max_bytes overlap start : ℕ)
    → All (IsFitting text max_bytes) (split_from fuel text max_bytes overlap start)
unfolding split_from
split_from-IsFitting zero text max_bytes overlap start = tt
split_from-IsFitting (suc fuel) text max_bytes overlap start =
    let end = chunk_end text max_bytes start in
    let fitting = All (IsFitting text max_bytes) in
    if_holds fitting (ltb start (length text))
      (λ inside.
        let fits = chunk_end-IsFitting text max_bytes start (ltb→lt start (length text) inside) in
        if_holds fitting (leb (length text) end) (λ _. (fits, tt))
          (λ _. (
            fits,
            split_from-IsFitting fuel text max_bytes overlap (next_start text overlap start end),
          )))
      (λ _. tt)

-- With a positive maximum every chunk is a non-empty part of the text, and it is no longer than the maximum unless all its
-- bytes but the first continue a rune.
pub split_audit_text_with_offsets-IsFitting :
    (text : List ℕ) (max_bytes overlap : ℕ)
    → 0 < max_bytes
    → All (IsFitting text max_bytes) (split_audit_text_with_offsets text max_bytes overlap)
unfolding split_audit_text_with_offsets
split_audit_text_with_offsets-IsFitting [] max_bytes overlap pos = tt
split_audit_text_with_offsets-IsFitting (b ∷ bs) max_bytes overlap pos =
    let text = b ∷ bs in
    if_holds (All (IsFitting text max_bytes)) (max_bytes == 0 || leb (length text) max_bytes)
      (λ small. ((omega arith, omega arith, inl (ground (arith, small))), tt))
      (λ _. split_from-IsFitting (length text) text max_bytes _ 0)
