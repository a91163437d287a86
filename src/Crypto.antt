-- ===== src/Crypto.antt =====
-- go/internal/crypto/encryption.go: the encryption service. Base64, hex, AES-GCM and random bytes are
-- the standard library's and come as a parameter; `Laws` says what is relied on.
pub mod Laws
pub mod RoundTrip
pub mod Keys
pub mod Masking
use shopping_cart_payment.Prelude.{
  ℕ, ◌+◌, Bool, true, false, not, ◌&&◌, ◌||◌, [], ◌++◌, ltb, ◌==◌, length, take, drop,
  if◌then◌else◌,
}
use shopping_cart_payment.Text.{Text, bytes, is_empty}
use shopping_cart_payment.Errors.{GoError, Result, ok, err, plain}

pub record CryptoOps : Type 0 where
  pub base64_encode : Text → Text
  pub base64_decode : Text → Result Text
  pub hex_decode : Text → Result Text
  -- aes.NewCipher(key), and cipher.NewGCM of its block
  pub new_cipher : (key : Text) → Result (Unit {0})
  pub new_gcm : (key : Text) → Result (Unit {0})
  -- gcm.Seal(nil, nonce, plaintext, nil) and gcm.Open(nil, nonce, ciphertext, nil)
  pub seal : (key nonce plaintext : Text) → Text
  pub unseal : (key nonce ciphertext : Text) → Result Text

pub record EncryptionService : Type 0 where
  pub enabled : Bool
  pub key : Text

infixl 5 ◌>>=◌ ◌>>◌
abbrev ◌>>=◌ : {A B : Type 0} → Result A → (A → Result B) → Result B
ok a >>= f = f a
err e >>= f = err e

abbrev ◌>>◌ : {A B : Type 0} → Result A → Result B → Result B
m >> k = m >>= λ _. k

abbrev pub nonce_size : ℕ
nonce_size = 12

abbrev pub tag_size : ℕ
tag_size = 16

abbrev pub key_size_wrong : GoError
key_size_wrong = plain (bytes "encryption key must be 32 bytes (AES-256)")

module _ (ops : CryptoOps) where
  -- `decodeKey`
  unfoldable pub decode_key : Text → Result Text
  decode_key encoded = elim (ops.base64_decode encoded) [
    | ok decoded ↦ ok decoded
    | err _ ↦ elim (ops.hex_decode encoded) [
      | ok decoded ↦ ok decoded
      | err _ ↦ err (plain (bytes "encryption key must be base64 or hex"))
    ]
  ]

  -- `NewEncryptionService`
  unfoldable pub new_encryption_service : Bool → (key_material : Text) → Result EncryptionService
  new_encryption_service enabled key_material =
      if not enabled
      then ok (record { enabled = enabled; key = [] })
      else if is_empty key_material
      then err (plain (bytes "encryption enabled but ENCRYPTION_KEY is empty"))
      else do
        key ← decode_key key_material
        if not (length key == 32)
            then err key_size_wrong
            else ok (record { enabled = enabled; key = key })

  -- `IsEnabled`
  abbrev pub is_enabled : EncryptionService → Bool
  is_enabled s = s.enabled && length s.key == 32

  -- `Encrypt`; `random` is what io.ReadFull gave for the twelve bytes of the nonce.
  unfoldable pub encrypt : EncryptionService → (random : Result Text) → Text → Result Text
  encrypt s random plaintext = if not (is_enabled s) || is_empty plaintext then ok plaintext else do
    ops.new_cipher s.key
    ops.new_gcm s.key
    nonce ← random
    ok (ops.base64_encode (nonce ++ ops.seal s.key nonce plaintext))

  -- `Decrypt`
  unfoldable pub decrypt : EncryptionService → Text → Result Text
  decrypt s ciphertext = if not (is_enabled s) || is_empty ciphertext then ok ciphertext else do
    decoded ← ops.base64_decode ciphertext
    if ltb (length decoded) (nonce_size + tag_size)
        then err (plain (bytes "ciphertext too short"))
        else (do
          ops.new_cipher s.key
          ops.new_gcm s.key
          ops.unseal s.key (take nonce_size decoded) (drop nonce_size decoded))
