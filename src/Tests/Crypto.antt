-- ===== src/Tests/Crypto.antt =====
-- Crypto: a cipher that appends a tag of zeros, and the theorems at a key, a message and masks.
use shopping_cart_payment.Prelude.{
  ℕ, zero, suc, ◌-◌, ◌*◌, ◌/◌, ◌≡◌, ◌≤◌, refl, ap, ◌∙◌, true, false, ◌⊎◌, ◌∷◌, ◌++◌, length, take,
  drop, replicate, All, length-append, length-take, take-append, arith,
}
use shopping_cart_payment.Text.{Text, bytes}
use shopping_cart_payment.Errors.{ok, err, plain}
use shopping_cart_payment.Crypto.{
  CryptoOps, EncryptionService, new_encryption_service, is_enabled, decode_key, encrypt, decrypt,
  key_size_wrong, nonce_size, tag_size,
}
use shopping_cart_payment.Crypto.Laws.{CryptoLaws, Base64Laws}
use shopping_cart_payment.Crypto.Keys.{
  IsKeyOf, is_hex_digit, new_encryption_service-IsKeyOf, new_encryption_service-hex_key,
}
use shopping_cart_payment.Crypto.RoundTrip.{decrypt-eq-ok, decrypt-encrypt}
use shopping_cart_payment.Crypto.Masking.{
  mask_card_number, mask_email, mask_token, string_of_byte, has_at, mask_card_number-hides,
  mask_email-hides, mask_token-shows,
}

abbrev zeros : Text
zeros = replicate 16 0

abbrev ops : CryptoOps
ops = record {
  base64_encode = λ t. t;
  base64_decode = λ t. ok t;
  hex_decode = λ t. err (plain (bytes "odd length"));
  new_cipher = λ key. ok tt;
  new_gcm = λ key. ok tt;
  seal = λ key nonce p. p ++ zeros;
  unseal = λ key nonce c. ok (take (length c - 16) c);
}

unsealed : (p : Text) → take (length (p ++ zeros) - 16) (p ++ zeros) ≡ p
unsealed p =
    let size : length (p ++ zeros) - 16 ≡ length p = omega (arith, length-append p zeros) in
    rw size (take-append p zeros)

laws : CryptoLaws ops
laws = record {
  decode-encode = λ t. refl;
  decode_empty = refl;
  cipher_of_key = λ key h. refl;
  gcm_of_key = λ key h. refl;
  length-seal = λ key nonce p hk hn. length-append p zeros;
  unseal-seal = λ key nonce p hk hn. ap ok (unsealed p);
}

abbrev service : EncryptionService
service = record { enabled = true; key = replicate 32 7 }

abbrev nonce : Text
nonce = replicate 12 9

decrypt-encrypt_example :
    (c : Text) × (encrypt ops service (ok nonce) (bytes "4242") ≡ ok c)
    × (decrypt ops service c ≡ ok (bytes "4242"))
decrypt-encrypt_example = decrypt-encrypt ops service laws nonce (bytes "4242") refl

decrypt-eq-ok_example :
    (n sealed : Text) × (ops.base64_decode (nonce ++ (bytes "4242" ++ zeros)) ≡ ok (n ++ sealed))
    × (length n ≡ nonce_size)
    × (tag_size ≤ length sealed)
    × (ops.unseal service.key n sealed ≡ ok (bytes "4242"))
unfolding decrypt
decrypt-eq-ok_example =
    decrypt-eq-ok ops service (nonce ++ (bytes "4242" ++ zeros)) (bytes "4242") refl
      (λ h. ground arith) refl

new_encryption_service-IsKeyOf_example :
    ((true ≡ false) × (is_enabled ops service ≡ false))
    ⊎ ((true ≡ true) × (is_enabled ops service ≡ true) × IsKeyOf ops (replicate 32 7) service.key)
unfolding new_encryption_service decode_key
new_encryption_service-IsKeyOf_example =
    new_encryption_service-IsKeyOf ops true (replicate 32 7) service refl

-- Base64 by its length alone.
abbrev quads : CryptoOps
quads = record ops { base64_decode = λ t. ok (take (length t / 4 * 3) t) }

quad_laws : Base64Laws quads
quad_laws = record {
  decode_quads = λ k t size digits.
      (let third : length t / 4 * 3 ≡ 3 * k = omega arith in
        (take (length t / 4 * 3) t, refl, length-take (length t / 4 * 3) t (omega arith) ∙ third));
}

digits : (n : ℕ) → All (λ c. is_hex_digit c ≡ true) (replicate n b'a')
digits zero = tt
digits (suc n) = (refl, digits n)

new_encryption_service-hex_key_example :
    new_encryption_service quads true (replicate 64 b'a') ≡ err key_size_wrong
new_encryption_service-hex_key_example =
    new_encryption_service-hex_key quads quad_laws (replicate 64 b'a') (digits 64) refl

mask_card_number-hides_example :
    (length (mask_card_number (bytes "4242424242424242")) ≡ length (bytes "4242424242424242"))
    × (mask_card_number (bytes "5555555555554242") ≡ mask_card_number (bytes "4242424242424242"))
mask_card_number-hides_example =
    mask_card_number-hides (bytes "4242424242424242") (bytes "5555555555554242") (omega arith) refl
      refl

mask_email-hides_example :
    mask_email (b'j' ∷ b'a' ∷ bytes "ne" ++ b'@' ∷ bytes "shop.example")
    ≡ string_of_byte b'j' ++ (bytes "***@" ++ bytes "shop.example")
unfolding has_at
mask_email-hides_example = mask_email-hides b'j' b'a' (bytes "ne") (bytes "shop.example") refl

mask_token-shows_example :
    take 4 (mask_token (bytes "tok_1234")) ++ drop 7 (mask_token (bytes "tok_1234"))
    ≡ bytes "tok_1234"
mask_token-shows_example = mask_token-shows (bytes "tok_1234") refl
