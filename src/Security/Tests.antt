-- ===== src/Security/Tests.antt =====
-- Ciphertexts under a toy cipher, which puts a zero before the plaintext.
use newapi_risk_platform.Base.{
  ℕ, zero, suc, ◌≡◌, refl, List, [], ◌∷◌, Option, none, some, ◌⊎◌, inl, inr, arith,
}
use newapi_risk_platform.Security.{
  Gcm, GcmLaws, encrypt, decrypt, frame, truncated, unsupported_version,
}
use newapi_risk_platform.Security.Sealing.{decrypt-encrypt, decrypt-IsSealed}

abbrev secret : List ℕ
secret = 65 ∷ 66 ∷ []

abbrev toy_unseal : List ℕ → Option (List ℕ)
toy_unseal [] = none
toy_unseal (zero ∷ bs) = some bs
toy_unseal (suc b ∷ bs) = none

abbrev toy : Gcm
toy = record {
  nonce_size = 2;
  overhead = 1;
  seal = λ nonce plaintext scope. 0 ∷ plaintext;
  unseal = λ nonce payload scope. toy_unseal payload;
}

toy_unsealed :
    (payload plaintext : List ℕ) → toy_unseal payload ≡ some plaintext → payload ≡ 0 ∷ plaintext
toy_unsealed [] plaintext h = absurd (cc h)
toy_unsealed (zero ∷ bs) plaintext h = cc h
toy_unsealed (suc b ∷ bs) plaintext h = absurd (cc h)

toy_laws : GcmLaws toy
toy_laws = record {
  unseal-seal = λ nonce plaintext scope. refl;
  unseal_sealed = λ nonce payload plaintext scope h. toy_unsealed payload plaintext h;
  length-seal = λ nonce plaintext scope. omega arith;
}

short_is_truncated : decrypt (some toy) "route" (1 ∷ 7 ∷ 8 ∷ []) ≡ inl truncated
unfolding decrypt
short_is_truncated = refl

version_is_tested : decrypt (some toy) "route" (2 ∷ 7 ∷ 8 ∷ 0 ∷ []) ≡ inl unsupported_version
unfolding decrypt
version_is_tested = refl

decrypt-encrypt_example :
    (ciphertext : List ℕ) × (encrypt (some toy) (some (7 ∷ 8 ∷ [])) "route" (65 ∷ 66 ∷ [])
      ≡ inr ciphertext)
    × (decrypt (some toy) "route" ciphertext ≡ inr (65 ∷ 66 ∷ []))
decrypt-encrypt_example =
    decrypt-encrypt toy toy_laws "route" (7 ∷ 8 ∷ []) (65 ∷ 66 ∷ []) (omega arith)

decrypt-IsSealed_example :
    ((frame (7 ∷ 8 ∷ []) (0 ∷ secret) ≡ []) × (secret ≡ []))
    ⊎ ((nonce : List ℕ) × (frame (7 ∷ 8 ∷ []) (0 ∷ secret) ≡ frame nonce (0 ∷ secret)))
unfolding decrypt
decrypt-IsSealed_example =
    decrypt-IsSealed toy toy_laws "route" (frame (7 ∷ 8 ∷ []) (0 ∷ secret)) secret refl
