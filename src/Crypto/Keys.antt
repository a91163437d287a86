-- ===== src/Crypto/Keys.antt =====
-- Which key material `NewEncryptionService` takes.
use shopping_cart_payment.Prelude.{
  ℕ, ◌≡◌, refl, ◌⊎◌, inl, inr, Bool, true, false, not, ◌||◌, ◌&&◌, [], ◌∷◌, arith, leb, ◌==◌,
  length, All, All-map, if◌then◌else◌,
}
use shopping_cart_payment.Text.{Text}
use shopping_cart_payment.Errors.{GoError, ok, err}
use shopping_cart_payment.Store.Scans.{Result-cases}
use shopping_cart_payment.Crypto.{
  CryptoOps, EncryptionService, is_enabled, decode_key, new_encryption_service, key_size_wrong,
}
use shopping_cart_payment.Crypto.Laws.{Base64Laws, is_alphanumeric}

-- The test of the key's size lets this key through.
sized :
    (key : Text) (s : EncryptionService)
    → (if not (length key == 32)
        then err key_size_wrong
        else ok (record { enabled = true; key = key }))
      ≡ ok s
    → (length key ≡ 32) × (s.key ≡ key) × (s.enabled ≡ true)
sized key s made = ground arith

module _ (ops : CryptoOps) where
  -- Where the key of an enabled service came from.
  abbrev pub IsKeyOf : (material key : Text) → Type 0
  IsKeyOf material key =
      (length key ≡ 32)
      × ((ops.base64_decode material ≡ ok key)
          ⊎ ((e : GoError) × (ops.base64_decode material ≡ err e)
              × (ops.hex_decode material ≡ ok key)))

  has_key :
      (material key : Text) (s : EncryptionService)
      → (if not (length key == 32)
          then err key_size_wrong
          else ok (record { enabled = true; key = key }))
        ≡ ok s
      → (ops.base64_decode material ≡ ok key)
        ⊎ ((e : GoError) × (ops.base64_decode material ≡ err e)
            × (ops.hex_decode material ≡ ok key))
      → (is_enabled ops s ≡ true) × IsKeyOf material s.key
  has_key material key s made origin =
      let (size, same, on) = sized key s made in rw (on, same) (ground arith, (size, origin))

  -- A service that `NewEncryptionService` returns is enabled, in the sense of IsEnabled, exactly when
  -- it was asked to be; then its key has 32 bytes and came from base64, or from hex where base64 does
  -- not read the material.
  pub new_encryption_service-IsKeyOf :
      (enabled : Bool) (material : Text) (s : EncryptionService)
      → new_encryption_service ops enabled material ≡ ok s
      → ((enabled ≡ false) × (is_enabled ops s ≡ false))
        ⊎ ((enabled ≡ true) × (is_enabled ops s ≡ true) × IsKeyOf material s.key)
  unfolding new_encryption_service decode_key
  new_encryption_service-IsKeyOf false material s made = inl (refl, ground arith)
  new_encryption_service-IsKeyOf true [] s made = absurd (cc made)
  new_encryption_service-IsKeyOf true (x ∷ m) s made =
      elim (Result-cases (ops.base64_decode (x ∷ m))) [
        | inl (key, read) ↦
            let (on, of) =
              has_key (x ∷ m) key s (rw (new_encryption_service, decode_key, read) at made)
                (inl read) in
            inr (refl, on, of)
        | inr (e, failed) ↦ elim (Result-cases (ops.hex_decode (x ∷ m))) [
          | inl (key, read) ↦
              let (on, of) =
                has_key (x ∷ m) key s
                  (rw (new_encryption_service, decode_key, failed, read) at made)
                  (inr (e, failed, read)) in
              inr (refl, on, of)
          | inr (e', also_failed) ↦
              absurd
                (refused (rw (new_encryption_service, decode_key, failed, also_failed) at made))
        ]
      ]
    where
      refused : {A : Type 0} {a : A} {f : GoError} → err f ≡ ok a → ⊥
      refused h = cc h

-- One of 0-9, a-f and A-F.
abbrev pub is_hex_digit : ℕ → Bool
is_hex_digit c =
    (leb b'0' c && leb c b'9') || (leb b'a' c && leb c b'f') || (leb b'A' c && leb c b'F')

hex_is_alphanumeric : (c : ℕ) → is_hex_digit c ≡ true → is_alphanumeric c ≡ true
hex_is_alphanumeric c h = ground arith

-- Base64 reads four letters or digits as three bytes (`Base64Laws`), so the 64 hex digits of a key of
-- 32 bytes are taken for base64: whatever they are, `NewEncryptionService` refuses them, with the
-- error that the key must be 32 bytes.
pub new_encryption_service-hex_key :
    (ops : CryptoOps)
    → Base64Laws ops
    → (material : Text) → All (λ c. is_hex_digit c ≡ true) material
    → length material ≡ 64
    → new_encryption_service ops true material ≡ err key_size_wrong
unfolding new_encryption_service decode_key
new_encryption_service-hex_key ops laws [] digits size = absurd (omega arith)
new_encryption_service-hex_key ops laws (x ∷ m) digits size =
    let (d, read, long) =
      laws.decode_quads 16 (x ∷ m) (omega arith)
        (All-map _ (λ c. is_alphanumeric c ≡ true) hex_is_alphanumeric (x ∷ m) digits) in
    ground arith
