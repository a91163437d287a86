-- ===== src/Crypto/Masking.antt =====
-- encryption.go, `PciDataMasker`: what may be shown of card data, and how much it gives away. Lengths
-- count bytes.
use shopping_cart_payment.Prelude.{
  ℕ, zero, suc, ◌+◌, ◌-◌, ◌/◌, ◌%◌, ◌≤◌, ◌≡◌, refl, ap, sym, ◌∙◌, subst, Bool, true, false, not, [],
  ◌∷◌, ◌++◌, arith, leb, ltb, ◌==◌, length, take, drop, replicate, length-append, length-drop,
  length-take, take-append, drop-append, take-append-drop, append_assoc, if◌then◌else◌,
}
use shopping_cart_payment.Text.{Text, bytes}

-- `MaskCardNumber`
unfoldable pub mask_card_number : Text → Text
mask_card_number number =
    if ltb (length number) 4
    then bytes "****"
    else replicate (length number - 4) b'*' ++ drop (length number - 4) number

-- `MaskCvv`
unfoldable pub mask_cvv : Text → Text
mask_cvv _ = bytes "***"

-- `strings.Index(s, "@")` for a text that has one
unfoldable pub index_at : Text → ℕ
index_at [] = 0
index_at (c ∷ s) = if c == b'@' then 0 else suc (index_at s)

-- `strings.Contains(s, "@")`
unfoldable pub has_at : Text → Bool
has_at [] = false
has_at (c ∷ s) = if c == b'@' then true else has_at s

-- `string(b)` for a byte b: the UTF-8 encoding of the character with that number.
unfoldable pub string_of_byte : ℕ → Text
string_of_byte b = if ltb b 0x80 then b ∷ [] else (0xc0 + b / 64) ∷ (0x80 + b % 64) ∷ []

unfoldable pub first_letter : Text → Text
unfolding string_of_byte
first_letter [] = []
first_letter (b ∷ _) = string_of_byte b

-- `MaskEmail`
unfoldable pub mask_email : Text → Text
unfolding has_at index_at first_letter
mask_email email =
    if not (has_at email)
    then bytes "***@***"
    else if leb (index_at email) 1
    then bytes "*" ++ drop (index_at email) email
    else first_letter email ++ (bytes "***" ++ drop (index_at email) email)

-- `MaskToken`
unfoldable pub mask_token : Text → Text
mask_token token =
    if ltb (length token) 8
    then bytes "****"
    else take 4 token ++ (bytes "..." ++ drop (length token - 4) token)

-- `MaskAddress`
unfoldable pub mask_address : Text → Text
mask_address address = if ltb (length address) 5 then bytes "***" else take 3 address ++ bytes "***"

-- Card numbers.
length-replicate : (n c : ℕ) → length (replicate n c) ≡ n
length-replicate zero c = refl
length-replicate (suc n) c = omega (arith, length-replicate n c)

-- The mask of a card number of at least four bytes has as many bytes as the card number, and two card
-- numbers of at least four bytes with the same length and the same last four bytes have the same mask.
pub mask_card_number-hides :
    (number other : Text)
    → 4 ≤ length number
    → length other ≡ length number
    → drop (length other - 4) other ≡ drop (length number - 4) number
    → (length (mask_card_number number) ≡ length number)
      × (mask_card_number other ≡ mask_card_number number)
unfolding mask_card_number
mask_card_number-hides number other long same_length same_end =
    let short : ltb (length number) 4 ≡ false = ground arith in
    let short' : ltb (length other) 4 ≡ false = ground arith in
    let rest = length-drop (length number - 4) number (omega arith) in
    let stars = length-replicate (length number - 4) b'*' in
    let sum =
      length-append (replicate (length number - 4) b'*') (drop (length number - 4) number) in
    (
      rw (mask_card_number, short) (omega arith),
      rw (mask_card_number, short, short', same_end, same_length) refl,
    )

-- E-mail addresses.
has_at-append : (name domain : Text) → has_at name ≡ false → has_at (name ++ b'@' ∷ domain) ≡ true
unfolding has_at
has_at-append [] domain h = refl
has_at-append (c ∷ name) domain h = ground (arith, has_at-append name domain)

index_at-append :
    (name domain : Text) → has_at name ≡ false → index_at (name ++ b'@' ∷ domain) ≡ length name
unfolding has_at index_at
index_at-append [] domain h = refl
index_at-append (c ∷ name) domain h = ground (arith, index_at-append name domain)

-- An address whose name, the part before the first @, has two bytes or more is shown as the
-- character with the number of its first byte, three stars, and the domain: the rest of the name, its
-- length included, is gone.
pub mask_email-hides :
    (a b : ℕ) (name domain : Text)
    → has_at (a ∷ b ∷ name) ≡ false
    → mask_email (a ∷ b ∷ name ++ b'@' ∷ domain) ≡ string_of_byte a ++ (bytes "***@" ++ domain)
unfolding mask_email
mask_email-hides a b name domain h =
    let full : Text = a ∷ b ∷ name ++ b'@' ∷ domain in
    let found : has_at full ≡ true = has_at-append (a ∷ b ∷ name) domain h in
    let place : index_at full ≡ length (a ∷ b ∷ name) = index_at-append (a ∷ b ∷ name) domain h in
    let long : leb (length (a ∷ b ∷ name)) 1 ≡ false = ground arith in
    rw (mask_email, found, place, long, drop-append (a ∷ b ∷ name) (b'@' ∷ domain)) refl

-- All eight bytes of a token of that length can be read off its mask.
pub mask_token-shows :
    (token : Text)
    → length token ≡ 8
    → take 4 (mask_token token) ++ drop 7 (mask_token token) ≡ token
unfolding mask_token
mask_token-shows token size =
    let long : ltb (length token) 8 ≡ false = ground arith in
    let half : length token - 4 ≡ 4 = omega arith in
    let front : Text = take 4 token in
    let back : Text = drop 4 token in
    let four : length front ≡ 4 = length-take 4 token (omega arith) in
    let seven : length (front ++ bytes "...") ≡ 7 =
      length-append front (bytes "...") ∙ ap (λ n. n + 3) four in
    let first : take 4 (front ++ (bytes "..." ++ back)) ≡ front =
      subst (λ n. take n (front ++ (bytes "..." ++ back)) ≡ front) four
        (take-append front (bytes "..." ++ back)) in
    let last : drop 7 (front ++ (bytes "..." ++ back)) ≡ back =
      ap (drop 7) (sym (append_assoc front (bytes "...") back))
      ∙ subst (λ n. drop n ((front ++ bytes "...") ++ back) ≡ back) seven
          (drop-append (front ++ bytes "...") back) in
    rw (mask_token, long, half, first, last) (take-append-drop 4 token)
