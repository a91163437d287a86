-- ===== src/Crypto/Laws.antt =====
-- What the encryption service relies on of encoding/base64 and of AES-GCM.
use shopping_cart_payment.Prelude.{ℕ, ◌+◌, ◌*◌, ◌≡◌, Bool, true, ◌&&◌, ◌||◌, [], leb, length, All}
use shopping_cart_payment.Text.{Text}
use shopping_cart_payment.Errors.{ok}
use shopping_cart_payment.Crypto.{CryptoOps, nonce_size, tag_size}

pub record CryptoLaws (ops : CryptoOps) : Type 0 where
  pub decode-encode : (t : Text) → ops.base64_decode (ops.base64_encode t) ≡ ok t
  pub decode_empty : ops.base64_decode [] ≡ ok []
  -- AES takes keys of 32 bytes, and GCM every block of AES.
  pub cipher_of_key : (key : Text) → length key ≡ 32 → ops.new_cipher key ≡ ok tt
  pub gcm_of_key : (key : Text) → length key ≡ 32 → ops.new_gcm key ≡ ok tt
  -- The tag stands behind a ciphertext of the plaintext's length.
  pub length-seal :
      (key nonce plaintext : Text)
      → length key ≡ 32
      → length nonce ≡ nonce_size
      → length (ops.seal key nonce plaintext) ≡ length plaintext + tag_size
  pub unseal-seal :
      (key nonce plaintext : Text)
      → length key ≡ 32
      → length nonce ≡ nonce_size
      → ops.unseal key nonce (ops.seal key nonce plaintext) ≡ ok plaintext

-- A letter or a digit: the characters that base64 and hex share are among them.
abbrev pub is_alphanumeric : ℕ → Bool
is_alphanumeric c =
    (leb b'0' c && leb c b'9') || (leb b'A' c && leb c b'Z') || (leb b'a' c && leb c b'z')

-- Base64 reads four letters or digits as three bytes.
pub record Base64Laws (ops : CryptoOps) : Type 0 where
  pub decode_quads :
      (k : ℕ) (t : Text)
      → length t ≡ 4 * k
      → All (λ c. is_alphanumeric c ≡ true) t
      → (d : Text) × (ops.base64_decode t ≡ ok d) × (length d ≡ 3 * k)
