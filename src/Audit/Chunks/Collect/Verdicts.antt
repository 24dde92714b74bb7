-- ===== src/Audit/Chunks/Collect/Verdicts.antt =====
-- In whatever order the chunks answer: a block wins, and an allow needs every chunk.
use newapi_risk_platform.Base.{
  ℕ, ◌+◌, ◌≤◌, ◌≡◌, refl, Bool, true, false, ◌&&◌, ◌||◌, not, List, [], ◌∷◌, Option, none, some,
  ltb, arith, length, if_holds,
}
use newapi_risk_platform.Audit.Types.{
  Verdict, allow, block, review, unknown, AuditDecision, AuditError, Result, ok, err,
}
use newapi_risk_platform.Audit.Chunks.Collect.{
  ChunkResult, Found, Collected, nothing_yet, or_first, stronger, collect_verdict, collect_answer,
  collect, decorate_chunk_decision, conclude_review, conclude_complete, conclude_error,
  conclude_block, combine_chunks,
}

abbrev is_allow_verdict : Verdict → Bool
is_allow_verdict allow = true
is_allow_verdict _ = false

abbrev is_block_verdict : Verdict → Bool
is_block_verdict block = true
is_block_verdict _ = false

abbrev is_allow : Result AuditDecision → Bool
is_allow (ok d) = is_allow_verdict d.verdict
is_allow (err e) = false

abbrev is_block : Result AuditDecision → Bool
is_block (ok d) = is_block_verdict d.verdict
is_block (err e) = false

-- Every chunk that answered allowed, and some chunk that answered blocked.
abbrev pub all_allow : List ChunkResult → Bool
all_allow [] = true
all_allow (r ∷ rs) = is_allow r.answer && all_allow rs

abbrev pub some_block : List ChunkResult → Bool
some_block [] = false
some_block (r ∷ rs) = is_block r.answer || some_block rs

abbrev is_none {ℓ} : {A : Type ℓ} → Option A → Bool
is_none none = true
is_none (some _) = false

abbrev is_clean : Collected → Bool
is_clean c = is_none c.first_block && is_none c.first_error && is_none c.strongest_review

is_clean-collect_verdict :
    (v : Verdict) (f : Found) (c : Collected)
    → is_clean (collect_verdict v f c) ≡ (is_clean c && is_allow_verdict v)
unfolding collect_verdict
is_clean-collect_verdict allow f c = ground arith
is_clean-collect_verdict block f c = ground arith
is_clean-collect_verdict review f c = ground arith
is_clean-collect_verdict (unknown s) f c = ground arith

is_clean-collect_answer :
    (i : ℕ) (a : Result AuditDecision) (c : Collected)
    → is_clean (collect_answer i a c) ≡ (is_clean c && is_allow a)
unfolding collect_answer
is_clean-collect_answer i (ok d) c = is_clean-collect_verdict d.verdict _ c
is_clean-collect_answer i (err e) c = ground arith

is_clean-collect :
    (rs : List ChunkResult) (c : Collected) → is_clean (collect rs c) ≡ (is_clean c && all_allow rs)
unfolding collect
is_clean-collect [] c = ground arith
is_clean-collect (r ∷ rs) c =
    let c' = record c { completed = c.completed + 1 } in
    ground (
      arith,
      is_clean-collect_answer r.index r.answer c',
      is_clean-collect rs (collect_answer r.index r.answer c'),
    )

completed-collect_answer :
    (i : ℕ) (a : Result AuditDecision) (c : Collected)
    → (collect_answer i a c).completed ≡ c.completed
unfolding collect_answer collect_verdict
completed-collect_answer i (ok d) c = by_verdict d.verdict
  where
    by_verdict :
        (v : Verdict)
        → (collect_verdict v (record { index = i; decision = d }) c).completed ≡ c.completed
    by_verdict allow = refl
    by_verdict block = refl
    by_verdict review = refl
    by_verdict (unknown s) = refl
completed-collect_answer i (err e) c = refl

completed-collect :
    (rs : List ChunkResult) (c : Collected) → (collect rs c).completed ≡ c.completed + length rs
unfolding collect
completed-collect [] c = omega arith
completed-collect (r ∷ rs) c =
    let c' = record c { completed = c.completed + 1 } in
    omega (
      arith,
      completed-collect_answer r.index r.answer c',
      completed-collect rs (collect_answer r.index r.answer c'),
    )

-- What was found has the verdict under which it was kept.
abbrev HasVerdict : Verdict → Option Found → Type 0
HasVerdict v none = Unit
HasVerdict v (some f) = f.decision.verdict ≡ v

abbrev IsSorted : Collected → Type 0
IsSorted c = HasVerdict block c.first_block × HasVerdict review c.strongest_review

or_first-HasVerdict :
    (v : Verdict) (o : Option Found) (f : Found)
    → HasVerdict v o
    → f.decision.verdict ≡ v
    → HasVerdict v (or_first o f)
or_first-HasVerdict v none f h e = e
or_first-HasVerdict v (some g) f h e = h

stronger-HasVerdict :
    (v : Verdict) (o : Option Found) (f : Found)
    → HasVerdict v o
    → f.decision.verdict ≡ v
    → HasVerdict v (stronger o f)
stronger-HasVerdict v none f h e = e
stronger-HasVerdict v (some g) f h e =
    if_holds (HasVerdict v) (ltb g.decision.confidence f.decision.confidence) (λ _. e) (λ _. h)

collect_verdict-IsSorted :
    (v : Verdict) (f : Found) (c : Collected)
    → IsSorted c
    → f.decision.verdict ≡ v
    → IsSorted (collect_verdict v f c)
unfolding collect_verdict
collect_verdict-IsSorted allow f c k e = k
collect_verdict-IsSorted block f c k e = (or_first-HasVerdict block c.first_block f k.0 e, k.1)
collect_verdict-IsSorted review f c k e =
    (k.0, stronger-HasVerdict review c.strongest_review f k.1 e)
collect_verdict-IsSorted (unknown s) f c k e = k

collect-IsSorted : (rs : List ChunkResult) (c : Collected) → IsSorted c → IsSorted (collect rs c)
unfolding collect collect_answer
collect-IsSorted [] c k = k
collect-IsSorted (r ∷ rs) c k = collect-IsSorted rs _ (keeps r.answer)
  where
    keeps :
        (a : Result AuditDecision)
        → IsSorted (collect_answer r.index a (record c { completed = c.completed + 1 }))
    keeps (ok d) = collect_verdict-IsSorted d.verdict _ _ k refl
    keeps (err e) = k

is_none-collect_verdict :
    (v : Verdict) (f : Found) (c : Collected)
    → is_none (collect_verdict v f c).first_block
      ≡ (is_none c.first_block && not (is_block_verdict v))
unfolding collect_verdict
is_none-collect_verdict allow f c = ground arith
is_none-collect_verdict block f c = ground arith
is_none-collect_verdict review f c = ground arith
is_none-collect_verdict (unknown s) f c = ground arith

is_none-collect_answer :
    (i : ℕ) (a : Result AuditDecision) (c : Collected)
    → is_none (collect_answer i a c).first_block ≡ (is_none c.first_block && not (is_block a))
unfolding collect_answer
is_none-collect_answer i (ok d) c = is_none-collect_verdict d.verdict _ c
is_none-collect_answer i (err e) c = ground arith

-- A block is found exactly when some chunk blocked.
is_none-collect :
    (rs : List ChunkResult) (c : Collected)
    → is_none (collect rs c).first_block ≡ (is_none c.first_block && not (some_block rs))
unfolding collect
is_none-collect [] c = ground arith
is_none-collect (r ∷ rs) c =
    let c' = record c { completed = c.completed + 1 } in
    ground (
      arith,
      is_none-collect_answer r.index r.answer c',
      is_none-collect rs (collect_answer r.index r.answer c'),
    )

abbrev Gives : Verdict → Result AuditDecision → Type 0
Gives v a = (d : AuditDecision) × (a ≡ ok d) × (d.verdict ≡ v)

conclude_block-Gives :
    (o : Option Found) (ended : Option AuditError) (total : ℕ) (c : Collected)
    → HasVerdict block o
    → is_none o ≡ false
    → Gives block (conclude_block o ended total c)
unfolding conclude_block decorate_chunk_decision
conclude_block-Gives none ended total c h e = absurd (ground (arith, e))
conclude_block-Gives (some f) ended total c h e = (_, refl, h)

-- When some chunk blocked, the answer is a block, wherever its result stands among the others, errors and an ended context
-- included, and also when other chunks have not answered.
pub combine_chunks_block :
    (full total : ℕ) (rs : List ChunkResult) (ended : Option AuditError)
    → some_block rs ≡ true
    → (d : AuditDecision) × (combine_chunks full total rs ended ≡ ok d) × (d.verdict ≡ block)
unfolding combine_chunks
combine_chunks_block full total rs ended h =
    conclude_block-Gives _ ended total _ (collect-IsSorted rs (nothing_yet full) (tt, tt)).0
      (ground (arith, h, is_none-collect rs (nothing_yet full)))

conclude-is_clean :
    (ended : Option AuditError) (total : ℕ) (c : Collected)
    → IsSorted c
    → is_allow (conclude_block c.first_block ended total c) ≡ true
    → (is_clean c ≡ true) × (ended ≡ none) × (total ≤ c.completed)
unfolding conclude_block conclude_error conclude_complete conclude_review decorate_chunk_decision
conclude-is_clean ended total c k h = ground arith

-- When the answer allows, all answers that were delivered allow, there are at least as many of
-- them as chunks, and the context had not ended.
pub combine_chunks_allow :
    (full total : ℕ) (rs : List ChunkResult) (ended : Option AuditError) (d : AuditDecision)
    → combine_chunks full total rs ended ≡ ok d
    → d.verdict ≡ allow
    → (all_allow rs ≡ true) × (total ≤ length rs) × (ended ≡ none)
unfolding combine_chunks
combine_chunks_allow full total rs ended d e v =
    let c = collect rs (nothing_yet full) in
    let allowing : is_allow (conclude_block c.first_block ended total c) ≡ true = rw (e, v) in
    let clean =
      conclude-is_clean ended total c (collect-IsSorted rs (nothing_yet full) (tt, tt)) allowing in
    (
      ground (arith, clean.0, is_clean-collect rs (nothing_yet full)),
      ground (arith, clean.2, completed-collect rs (nothing_yet full)),
      clean.1,
    )
