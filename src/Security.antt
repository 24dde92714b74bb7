-- ===== src/Security.antt =====
-- The encryption of secrets at rest: `Encrypt` and `Decrypt` of internal/platform/security.go. The cipher of the Go library
-- is a parameter, with what its documentation promises.
pub mod Sealing
mod Tests
use newapi_risk_platform.Base.{
  ℕ, suc, ◌+◌, ◌≡◌, Bool, true, false, not, String, List, [], ◌∷◌, ◌++◌, Option, none, some, ◌==◌,
  ltb, if◌then◌else◌, length, take, drop, ◌⊎◌, inl, inr,
}

-- AES-GCM under one key. The scope is the additional data.
pub record Gcm : Type 0 where
  pub nonce_size : ℕ
  pub overhead : ℕ
  pub seal : (nonce plaintext : List ℕ) → (scope : String) → List ℕ
  pub unseal : (nonce payload : List ℕ) → (scope : String) → Option (List ℕ)

-- What is sealed is unsealed under the same nonce and scope, nothing else is, and it is longer by the overhead.
pub record GcmLaws (gcm : Gcm) : Type 0 where
  pub unseal-seal :
      (nonce plaintext : List ℕ) (scope : String)
      → gcm.unseal nonce (gcm.seal nonce plaintext scope) scope ≡ some plaintext
  pub unseal_sealed :
      (nonce payload plaintext : List ℕ) (scope : String)
      → gcm.unseal nonce payload scope ≡ some plaintext
      → payload ≡ gcm.seal nonce plaintext scope
  pub length-seal :
      (nonce plaintext : List ℕ) (scope : String)
      → length (gcm.seal nonce plaintext scope) ≡ length plaintext + gcm.overhead

pub data SecurityError : Type 0 where
  bad_key no_randomness unsupported_version truncated not_authentic : SecurityError

abbrev pub Bytes : Type 0
Bytes = SecurityError ⊎ List ℕ

-- The framing of a ciphertext: its version, the nonce, and what is sealed.
abbrev pub frame : (nonce sealed : List ℕ) → List ℕ
frame nonce sealed = 1 ∷ (nonce ++ sealed)

abbrev pub seal_with : Gcm → Option (List ℕ) → (scope : String) → (plaintext : List ℕ) → Bytes
seal_with gcm none scope plaintext = inl no_randomness
seal_with gcm (some nonce) scope plaintext = inr (frame nonce (gcm.seal nonce plaintext scope))

-- `cipher` is absent where the master key has a length that AES does not take; `random` is what the source of randomness
-- gives for a nonce.
unfoldable pub encrypt :
    (cipher : Option Gcm)
    → (random : Option (List ℕ)) → (scope : String) → (plaintext : List ℕ) → Bytes
encrypt cipher random scope [] = inr []
encrypt none random scope (b ∷ bs) = inl bad_key
encrypt (some gcm) random scope (b ∷ bs) = seal_with gcm random scope (b ∷ bs)

abbrev pub opened : Option (List ℕ) → Bytes
opened none = inl not_authentic
opened (some plaintext) = inr plaintext

abbrev pub unseal_with : Option Gcm → (scope : String) → (rest : List ℕ) → Bytes
unseal_with none scope rest = inl bad_key
unseal_with (some gcm) scope rest =
    if ltb (suc (length rest)) (1 + gcm.nonce_size + gcm.overhead)
    then inl truncated
    else opened (gcm.unseal (take gcm.nonce_size rest) (drop gcm.nonce_size rest) scope)

unfoldable pub decrypt : (cipher : Option Gcm) → (scope : String) → (ciphertext : List ℕ) → Bytes
decrypt cipher scope [] = inr []
decrypt cipher scope (v ∷ rest) =
    if not (v == 1) then inl unsupported_version else unseal_with cipher scope rest
