-- ===== src/Security/Sealing.antt =====
-- What is encrypted is decrypted again, and nothing else is accepted.
use newapi_risk_platform.Base.{
  ℕ, suc, ◌+◌, ◌≡◌, refl, ap, subst, ◌∙◌, false, not, String, List, [], ◌∷◌, ◌++◌, Option, none,
  some, ◌==◌, ltb, length, take, drop, take-drop, ◌⊎◌, inl, inr, arith, if_holds, length-append,
}
use newapi_risk_platform.Security.{
  Gcm, GcmLaws, unsupported_version, truncated, Bytes, frame, encrypt, opened, unseal_with, decrypt,
}

take-append : (xs ys : List ℕ) → take (length xs) (xs ++ ys) ≡ xs
take-append [] ys = refl
take-append (x ∷ xs) ys = ap (λ (zs : List ℕ). x ∷ zs) (take-append xs ys)

drop-append : (xs ys : List ℕ) → drop (length xs) (xs ++ ys) ≡ ys
drop-append [] ys = refl
drop-append (x ∷ xs) ys = drop-append xs ys

opened-some :
    (o : Option (List ℕ)) (plaintext : List ℕ) → opened o ≡ inr plaintext → o ≡ some plaintext
opened-some none plaintext h = absurd (cc h)
opened-some (some bytes) plaintext h = cc h

module _ (gcm : Gcm) (laws : GcmLaws gcm) (scope : String) where
  unseal_with-frame :
      (nonce plaintext : List ℕ)
      → length nonce ≡ gcm.nonce_size
      → unseal_with (some gcm) scope (nonce ++ gcm.seal nonce plaintext scope) ≡ inr plaintext
  unseal_with-frame nonce plaintext size =
      let sealed = gcm.seal nonce plaintext scope in
      let long : ltb (suc (length (nonce ++ sealed))) (1 + gcm.nonce_size + gcm.overhead) ≡ false =
        ground (arith, length-append nonce sealed, laws.length-seal nonce plaintext scope, size) in
      let taken : take gcm.nonce_size (nonce ++ sealed) ≡ nonce =
        subst (λ k. take k (nonce ++ sealed) ≡ nonce) size (take-append nonce sealed) in
      let dropped : drop gcm.nonce_size (nonce ++ sealed) ≡ sealed =
        subst (λ k. drop k (nonce ++ sealed) ≡ sealed) size (drop-append nonce sealed) in
      rw (long, taken, dropped, laws.unseal-seal nonce plaintext scope) refl

  unseal_with-IsSealed :
      (rest plaintext : List ℕ)
      → unseal_with (some gcm) scope rest ≡ inr plaintext
      → (nonce : List ℕ) × (rest ≡ nonce ++ gcm.seal nonce plaintext scope)
  unseal_with-IsSealed rest plaintext h =
      let nonce = take gcm.nonce_size rest in
      let payload = drop gcm.nonce_size rest in
      if_holds
        (λ (x : Bytes).
          x ≡ inr plaintext → (nonce : List ℕ) × (rest ≡ nonce ++ gcm.seal nonce plaintext scope))
        (ltb (suc (length rest)) (1 + gcm.nonce_size + gcm.overhead)) {x = inl truncated}
        {y = opened (gcm.unseal nonce payload scope)} (λ _ k. absurd (cc k))
        (λ _ k. (
          nonce,
          take-drop gcm.nonce_size rest
              ∙ ap (λ (ys : List ℕ). nonce ++ ys)
                  (laws.unseal_sealed nonce payload plaintext scope
                    (opened-some (gcm.unseal nonce payload scope) plaintext k)),
        ))
        h

  framed :
      (v : ℕ) (rest plaintext : List ℕ)
      → v ≡ 1
      → (nonce : List ℕ) × (rest ≡ nonce ++ gcm.seal nonce plaintext scope)
      → (nonce : List ℕ) × (v ∷ rest ≡ frame nonce (gcm.seal nonce plaintext scope))
  framed v rest plaintext version (nonce, e) = (nonce, rw (version, e) refl)

  -- With a nonce of the cipher's size, what is encrypted is not refused, and its decryption under the same
  -- scope is the plaintext, also where that is empty.
  pub decrypt-encrypt :
      (nonce plaintext : List ℕ)
      → length nonce ≡ gcm.nonce_size
      → (ciphertext : List ℕ) × (encrypt (some gcm) (some nonce) scope plaintext ≡ inr ciphertext)
        × (decrypt (some gcm) scope ciphertext ≡ inr plaintext)
  unfolding encrypt decrypt
  decrypt-encrypt nonce [] size = ([], refl, refl)
  decrypt-encrypt nonce (b ∷ bs) size =
      (frame nonce (gcm.seal nonce (b ∷ bs) scope), refl, unseal_with-frame nonce (b ∷ bs) size)

  -- What is decrypted to bytes is empty, as they are, or the version, a nonce and these bytes sealed under
  -- it for the same scope.
  pub decrypt-IsSealed :
      (ciphertext plaintext : List ℕ)
      → decrypt (some gcm) scope ciphertext ≡ inr plaintext
      → ((ciphertext ≡ []) × (plaintext ≡ []))
        ⊎ ((nonce : List ℕ) × (ciphertext ≡ frame nonce (gcm.seal nonce plaintext scope)))
  unfolding decrypt
  decrypt-IsSealed [] plaintext h = inl (refl, cc h)
  decrypt-IsSealed (v ∷ rest) plaintext h =
      if_holds
        (λ (x : Bytes).
          x ≡ inr plaintext
          → ((v ∷ rest ≡ []) × (plaintext ≡ []))
            ⊎ ((nonce : List ℕ) × (v ∷ rest ≡ frame nonce (gcm.seal nonce plaintext scope))))
        (not (v == 1)) {x = inl unsupported_version} {y = unseal_with (some gcm) scope rest}
        (λ _ k. absurd (cc k))
        (λ version k. inr (
          framed v rest plaintext (ground (arith, version))
            (unseal_with-IsSealed rest plaintext k)))
        h
