-- ===== src/Crypto/RoundTrip.antt =====
-- What is encrypted is decrypted, and nothing is decrypted that AES-GCM did not accept.
use shopping_cart_payment.Prelude.{
  ◌≤◌, ◌≡◌, ◌≢◌, refl, sym, ap, subst, ◌∙◌, true, false, [], ◌∷◌, ◌++◌, arith, ltb, length, take,
  drop, length-append, take-append-drop, length-take, length-drop, take-append, drop-append,
  Bool-cases, inl, inr,
}
use shopping_cart_payment.Text.{Text, is_empty}
use shopping_cart_payment.Errors.{ok}
use shopping_cart_payment.Store.Scans.{Result-cases}
use shopping_cart_payment.Crypto.{
  CryptoOps, EncryptionService, nonce_size, tag_size, is_enabled, encrypt, decrypt,
}
use shopping_cart_payment.Crypto.Laws.{CryptoLaws}

not_empty : (t : Text) → t ≢ [] → is_empty t ≡ false
not_empty [] h = absurd (h refl)
not_empty (x ∷ t) h = refl

not_nil : (t : Text) → 28 ≤ length t → t ≢ []
not_nil t h e = let none_left : length t ≡ 0 = ap length e in omega arith

module _ (ops : CryptoOps) (s : EncryptionService) where
  key_of_enabled : is_enabled ops s ≡ true → length s.key ≡ 32
  key_of_enabled h = ground arith

  -- A ciphertext, not empty, that an enabled service decrypts is base64 of twelve bytes of nonce and
  -- at least the sixteen bytes of the tag, and AES-GCM accepted it under the service's key.
  pub decrypt-eq-ok :
      (c p : Text)
      → is_enabled ops s ≡ true
      → c ≢ []
      → decrypt ops s c ≡ ok p
      → (nonce sealed : Text) × (ops.base64_decode c ≡ ok (nonce ++ sealed))
        × (length nonce ≡ nonce_size)
        × (tag_size ≤ length sealed)
        × (ops.unseal s.key nonce sealed ≡ ok p)
  unfolding decrypt
  decrypt-eq-ok [] p on given h = absurd (given refl)
  decrypt-eq-ok (x ∷ c) p on given h = elim (Result-cases (ops.base64_decode (x ∷ c))) [
    | inr (e, failed) ↦ ground arith
    | inl (d, read) ↦ elim (Bool-cases (ltb (length d) 28)) [
      | inl short ↦ ground arith
      | inr long ↦
          let enough : 28 ≤ length d = ground arith in
          let front = length-take 12 d (omega arith) in
          let back = length-drop 12 d (omega arith) in
          (
            take 12 d,
            drop 12 d,
            rw (take-append-drop 12 d) read,
            front,
            omega arith,
            unsealed d read long,
          )
    ]
  ]
    where
      unsealed :
          (d : Text)
          → ops.base64_decode (x ∷ c) ≡ ok d
          → ltb (length d) 28 ≡ false
          → ops.unseal s.key (take 12 d) (drop 12 d) ≡ ok p
      unsealed d read long = elim (Result-cases (ops.new_cipher s.key)) [
        | inr (e, failed) ↦ ground arith
        | inl (u, good) ↦ elim (Result-cases (ops.new_gcm s.key)) [
          | inr (e, failed) ↦ ground arith
          | inl (v, fine) ↦ ground arith
        ]
      ]

  module _ (laws : CryptoLaws ops) where
    -- base64 of something is not empty.
    encode-ne-nil : (t : Text) → t ≢ [] → ops.base64_encode t ≢ []
    encode-ne-nil t given e =
        given (unwrap (sym (laws.decode-encode t) ∙ ap ops.base64_decode e ∙ laws.decode_empty))
      where
        unwrap : {a b : Text} → ok a ≡ ok b → a ≡ b
        unwrap h = cc

    -- When the laws of base64 and AES-GCM hold, whatever a service encrypts with twelve random bytes,
    -- it decrypts to the same text; the service may be disabled and the text empty.
    pub decrypt-encrypt :
        (nonce p : Text)
        → length nonce ≡ nonce_size
        → (c : Text) × (encrypt ops s (ok nonce) p ≡ ok c) × (decrypt ops s c ≡ ok p)
    unfolding encrypt decrypt
    decrypt-encrypt nonce p size = elim (Bool-cases (is_enabled ops s)) [
      | inr off ↦ (p, rw (encrypt, off) refl, rw (decrypt, off) refl)
      | inl on ↦ by_text p on
    ]
      where
        by_text :
            (t : Text)
            → is_enabled ops s ≡ true
            → (c : Text) × (encrypt ops s (ok nonce) t ≡ ok c) × (decrypt ops s c ≡ ok t)
        by_text [] on = ([], rw (encrypt, on) refl, rw (decrypt, on) refl)
        by_text (x ∷ t) on =
            let key = key_of_enabled on in
            let sealed : Text = ops.seal s.key nonce (x ∷ t) in
            let body : Text = nonce ++ sealed in
            let long = length-append nonce sealed in
            let tagged = laws.length-seal s.key nonce (x ∷ t) key size in
            let enough : ltb (length body) 28 ≡ false = ground arith in
            let given : is_empty (ops.base64_encode body) ≡ false =
              not_empty (ops.base64_encode body)
                (encode-ne-nil body (not_nil body (omega arith))) in
            let front : take 12 body ≡ nonce =
              subst (λ n. take n body ≡ nonce) size (take-append nonce sealed) in
            let back : drop 12 body ≡ sealed =
              subst (λ n. drop n body ≡ sealed) size (drop-append nonce sealed) in
            (
              ops.base64_encode body,
              rw (encrypt, on, laws.cipher_of_key s.key key, laws.gcm_of_key s.key key) refl,
              rw
                  (
                    decrypt,
                    on,
                    given,
                    laws.decode-encode body,
                    enough,
                    laws.cipher_of_key s.key key,
                    laws.gcm_of_key s.key key,
                    front,
                    back,
                  )
                  (laws.unseal-seal s.key nonce (x ∷ t) key size),
            )
