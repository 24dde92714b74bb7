-- ===== src/Audit/Fusion/Panel.antt =====
-- `auditFusionProfiles` and `validateFusionExtra` of internal/platform/audit_fusion.go: which profiles make up a panel.
use newapi_risk_platform.Base.{
  ℕ, suc, ◌≤◌, ◌≡◌, refl, Bool, true, false, not, ◌&&◌, ◌||◌, String, List, [], ◌∷◌, Option, none,
  some, ltb, ◌==◌, str_eq, if◌then◌else◌, length, arith, inl, inr, if_holds, Bool-cases, subst_some,
  length-reverse,
}
use mathlib.Core.List.{reverse}

-- A profile, with its endpoint and its model in lower case, without blanks and final slashes.
pub record Expert : Type 0 where
  pub id : ℕ
  pub enabled : Bool
  pub endpoint_and_model : String

-- A profile with the identifier that was asked for.
pub record Loaded : Type 0 where
  pub asked : ℕ
  pub expert : Expert

abbrev mem_id : ℕ → List ℕ → Bool
mem_id i [] = false
mem_id i (j ∷ js) = i == j || mem_id i js

abbrev mem_key : String → List String → Bool
mem_key k [] = false
mem_key k (j ∷ js) = str_eq k j || mem_key k js

abbrev pub ids : List Loaded → List ℕ
ids [] = []
ids (p ∷ ps) = p.asked ∷ ids ps

abbrev pub keys : List Loaded → List String
keys [] = []
keys (p ∷ ps) = p.expert.endpoint_and_model ∷ keys ps

-- The profile of an identifier that is not the root's is looked up; `none` is any failure.
abbrev find : (root : Expert) → (ℕ → Option Expert) → ℕ → Option Expert
find root get i = if i == root.id then some root else get i

abbrev enabled_or_root : (root : Expert) → ℕ → Option Expert → Option Expert
enabled_or_root root i none = none
enabled_or_root root i (some p) = if i == root.id || p.enabled then some p else none

-- The profiles loaded so far stand with the last one first.
abbrev add_expert : ℕ → Option Expert → List Loaded → Option (List Loaded)
add_expert i none seen = none
add_expert i (some p) seen =
    if mem_id i (ids seen) || mem_key p.endpoint_and_model (keys seen)
    then none
    else some (record { asked = i; expert = p } ∷ seen)

-- A raw value that is no identifier is `none`.
unfoldable pub load :
    (root : Expert) → (ℕ → Option Expert) → Option ℕ → List Loaded → Option (List Loaded)
load root get none seen = none
load root get (some i) seen = add_expert i (enabled_or_root root i (find root get i)) seen

abbrev load_after :
    (root : Expert) → (ℕ → Option Expert) → Option ℕ → Option (List Loaded) → Option (List Loaded)
load_after root get raw none = none
load_after root get raw (some seen) = load root get raw seen

-- The profiles are loaded in their order: the list stands with the last one first.
unfoldable pub load_all :
    (root : Expert) → (ℕ → Option Expert) → List (Option ℕ) → Option (List Loaded)
load_all root get [] = some []
load_all root get (raw ∷ raws) = load_after root get raw (load_all root get raws)

abbrev load_arbiter :
    (root : Expert)
    → (ℕ → Option Expert)
    → Option (Option ℕ)
    → Option (List Loaded)
    → Option (List Loaded)
load_arbiter root get none panel = panel
load_arbiter root get (some raw) panel = load_after root get raw panel

-- The panel has two or three profiles; the arbiter, if one is named, is loaded last.
unfoldable pub audit_fusion_profiles :
    (root : Expert)
    → (ℕ → Option Expert)
    → List (Option ℕ)
    → Option (Option ℕ)
    → Option (List Loaded)
audit_fusion_profiles root get raws arbiter =
    if ltb (length raws) 2 || ltb 3 (length raws)
    then none
    else load_arbiter root get arbiter (load_all root get (reverse raws))

-- The check of the shape when a profile is saved.
unfoldable pub distinct_ids : List (Option ℕ) → List ℕ → Bool
distinct_ids [] seen = true
distinct_ids (none ∷ raws) seen = false
distinct_ids (some i ∷ raws) seen = not (mem_id i seen) && distinct_ids raws (i ∷ seen)

abbrev with_arbiter : List (Option ℕ) → Option (Option ℕ) → List (Option ℕ)
with_arbiter [] none = []
with_arbiter [] (some a) = a ∷ []
with_arbiter (r ∷ rs) a = r ∷ with_arbiter rs a

unfoldable pub validate_fusion_extra : Option (List (Option ℕ)) → Option (Option ℕ) → Bool
validate_fusion_extra none none = true
validate_fusion_extra none (some a) = false
validate_fusion_extra (some raws) arbiter =
    not (ltb (length raws) 2 || ltb 3 (length raws)) && distinct_ids (with_arbiter raws arbiter) []

-- No two of the profiles share an identifier, or the endpoint with the model; each is the root or enabled.
abbrev pub AreDistinct : (root : Expert) → List Loaded → Type 0
AreDistinct root [] = Unit
AreDistinct root (p ∷ ps) =
    (mem_id p.asked (ids ps) ≡ false)
    × (mem_key p.expert.endpoint_and_model (keys ps) ≡ false)
    × ((p.asked == root.id || p.expert.enabled) ≡ true)
    × AreDistinct root ps

-- A list of a known length of distinct profiles, if there is one.
abbrev pub IsPanel : (root : Expert) → ℕ → Option (List Loaded) → Type 0
IsPanel root n none = Unit
IsPanel root n (some ps) = (length ps ≡ n) × AreDistinct root ps

enabled_or_root-enabled :
    (root : Expert) (i : ℕ) (o : Option Expert) (p : Expert)
    → enabled_or_root root i o ≡ some p
    → (i == root.id || p.enabled) ≡ true
enabled_or_root-enabled root i none p e = absurd (ground (arith, e))
enabled_or_root-enabled root i (some q) p e = elim (Bool-cases (i == root.id || q.enabled)) [
  | inl usable ↦
      subst_some (λ (x : Expert). (i == root.id || x.enabled) ≡ true) (rw usable at e) usable
  | inr unusable ↦ absurd (ground (arith, rw unusable at e))
]

add_expert-IsPanel :
    (root : Expert) (i : ℕ) (o : Option Expert) (seen : List Loaded) (n : ℕ)
    → ((p : Expert) → o ≡ some p → (i == root.id || p.enabled) ≡ true)
    → length seen ≡ n
    → AreDistinct root seen
    → IsPanel root (suc n) (add_expert i o seen)
add_expert-IsPanel root i none seen n on l k = tt
add_expert-IsPanel root i (some p) seen n on l k =
    if_holds (IsPanel root (suc n))
      (mem_id i (ids seen) || mem_key p.endpoint_and_model (keys seen)) (λ _. tt)
      (λ new. (omega (arith, l), (ground (arith, new), ground (arith, new), on p refl, k)))

load-IsPanel :
    (root : Expert) (get : ℕ → Option Expert) (raw : Option ℕ) (seen : List Loaded) (n : ℕ)
    → length seen ≡ n
    → AreDistinct root seen
    → IsPanel root (suc n) (load root get raw seen)
unfolding load
load-IsPanel root get none seen n l k = tt
load-IsPanel root get (some i) seen n l k =
    add_expert-IsPanel root i _ seen n (enabled_or_root-enabled root i (find root get i)) l k

load_after-IsPanel :
    (root : Expert) (get : ℕ → Option Expert) (raw : Option ℕ) (o : Option (List Loaded)) (n : ℕ)
    → IsPanel root n o
    → IsPanel root (suc n) (load_after root get raw o)
load_after-IsPanel root get raw none n k = tt
load_after-IsPanel root get raw (some seen) n k = load-IsPanel root get raw seen n k.0 k.1

load_all-IsPanel :
    (root : Expert) (get : ℕ → Option Expert) (raws : List (Option ℕ))
    → IsPanel root (length raws) (load_all root get raws)
unfolding load_all
load_all-IsPanel root get [] = (refl, tt)
load_all-IsPanel root get (raw ∷ raws) =
    load_after-IsPanel root get raw (load_all root get raws) _ (load_all-IsPanel root get raws)

-- The profiles of a fusion, the arbiter included: between two and four, no two with the same identifier or with the same
-- endpoint and model, and each is the root or enabled.
abbrev pub IsFusionPanel : (root : Expert) → Option (List Loaded) → Type 0
IsFusionPanel root none = Unit
IsFusionPanel root (some ps) = (2 ≤ length ps) × (length ps ≤ 4) × AreDistinct root ps

IsPanel→IsFusionPanel :
    (root : Expert) (n : ℕ) (o : Option (List Loaded))
    → 2 ≤ n
    → n ≤ 4
    → IsPanel root n o
    → IsFusionPanel root o
IsPanel→IsFusionPanel root n none low high k = tt
IsPanel→IsFusionPanel root n (some ps) low high k = (omega (arith, k.0), omega (arith, k.0), k.1)

-- Whatever the configuration names, the loaded profiles are between two and four, no two of them share an identifier or
-- an endpoint with its model, and each is the root or enabled.
audit_fusion_profiles-IsFusionPanel :
    (root : Expert) (get : ℕ → Option Expert) (raws : List (Option ℕ)) (arbiter : Option (Option ℕ))
    → IsFusionPanel root (audit_fusion_profiles root get raws arbiter)
unfolding audit_fusion_profiles
audit_fusion_profiles-IsFusionPanel root get raws arbiter =
    if_holds (IsFusionPanel root) (ltb (length raws) 2 || ltb 3 (length raws)) (λ _. tt)
      (λ size. with_panel arbiter (length-reverse raws) size)
  where
    with_panel :
        (a : Option (Option ℕ))
        → length (reverse raws) ≡ length raws
        → (ltb (length raws) 2 || ltb 3 (length raws)) ≡ false
        → IsFusionPanel root (load_arbiter root get a (load_all root get (reverse raws)))
    with_panel none l size =
        IsPanel→IsFusionPanel root (length (reverse raws)) _ (ground (arith, l, size))
          (ground (arith, l, size)) (load_all-IsPanel root get (reverse raws))
    with_panel (some raw) l size =
        IsPanel→IsFusionPanel root (suc (length (reverse raws))) _ (ground (arith, l, size))
          (ground (arith, l, size))
          (load_after-IsPanel root get raw _ _ (load_all-IsPanel root get (reverse raws)))
