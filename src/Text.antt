-- ===== src/Text.antt =====
-- Go strings as lists of bytes, and what the program uses of the package `strings`.
pub mod Laws
use Prim.Native.Char.{code}
use Prim.Native.String
use shopping_cart_payment.Prelude.{
  ℕ, suc, ◌+◌, ◌-◌, String, Bool, true, false, ◌&&◌, ◌||◌, Option, none, some, List, [], ◌∷◌, map,
  reverse, leb, ltb, ◌==◌, if◌then◌else◌,
}

abbrev pub Text : Type 0
Text = List ℕ

-- The bytes of an ASCII literal.
abbrev pub bytes : String → Text
bytes String.[] = []
bytes (String.◌∷◌ c s) = code c ∷ bytes s

-- `s == t`
unfoldable pub text_eq : Text → Text → Bool
text_eq [] [] = true
text_eq [] (b ∷ t) = false
text_eq (a ∷ s) [] = false
text_eq (a ∷ s) (b ∷ t) = a == b && text_eq s t

-- `s == ""`
abbrev pub is_empty : Text → Bool
is_empty [] = true
is_empty (_ ∷ _) = false

-- The white space of `unicode.IsSpace`, by the bytes of its UTF-8 encodings.
abbrev space_byte : ℕ → Bool
space_byte a = a == 0x20 || (leb 0x09 a && leb a 0x0d)

abbrev space_pair : ℕ → ℕ → Bool
space_pair a b = a == 0xc2 && (b == 0x85 || b == 0xa0)

abbrev space_triple : ℕ → ℕ → ℕ → Bool
space_triple a b c =
    (a == 0xe1 && b == 0x9a && c == 0x80)
    || (a == 0xe2
        && b == 0x80
        && ((leb 0x80 c && leb c 0x8a) || c == 0xa8 || c == 0xa9 || c == 0xaf))
    || (a == 0xe2 && b == 0x81 && c == 0x9f)
    || (a == 0xe3 && b == 0x80 && c == 0x80)

-- Drop characters from the front as long as one of the tests recognises the first.
module _ (one : ℕ → Bool) (two : ℕ → ℕ → Bool) (three : ℕ → ℕ → ℕ → Bool) where
  unfoldable pub strip : Text → Text
  strip [] = []
  strip (a ∷ []) = if one a then [] else a ∷ []
  strip (a ∷ b ∷ []) =
      let rest = strip (b ∷ []) in if one a then rest else if two a b then [] else a ∷ b ∷ []
  strip (a ∷ b ∷ c ∷ s) =
      let after_one = strip (b ∷ c ∷ s) in
      let after_two = strip (c ∷ s) in
      let after_three = strip s in
      if one a
      then after_one
      else if two a b
      then after_two
      else if three a b c
      then after_three
      else a ∷ b ∷ c ∷ s

unfoldable pub trim_left : Text → Text
unfolding strip
trim_left = strip space_byte space_pair space_triple

-- The same from the back: the text is reversed, so the bytes of a character come last one first.
unfoldable pub trim_back : Text → Text
unfolding strip
trim_back = strip space_byte (λ b a. space_pair a b) (λ c b a. space_triple a b c)

-- `strings.TrimSpace`
unfoldable pub trim_space : Text → Text
unfolding trim_left trim_back
trim_space s = reverse (trim_back (reverse (trim_left s)))

-- `strings.TrimSpace(s) == ""`
unfoldable pub is_blank : Text → Bool
unfolding trim_space
is_blank s = is_empty (trim_space s)

abbrev pub is_prefix : Text → Text → Bool
is_prefix [] s = true
is_prefix (a ∷ p) [] = false
is_prefix (a ∷ p) (b ∷ s) = a == b && is_prefix p s

-- `strings.Contains(s, part)`
unfoldable pub contains : Text → Text → Bool
contains [] part = is_prefix part []
contains (a ∷ s) part = is_prefix part (a ∷ s) || contains s part

abbrev is_ascii : Text → Bool
is_ascii [] = true
is_ascii (a ∷ s) = ltb a 0x80 && is_ascii s

abbrev pub lower_byte : ℕ → ℕ
lower_byte a = if leb b'A' a && leb a b'Z' then a + 32 else a

abbrev pub upper_byte : ℕ → ℕ
upper_byte a = if leb b'a' a && leb a b'z' then a - 32 else a

-- `strings.ToLower` and `strings.ToUpper`: ASCII texts byte by byte, all others by the tables of
-- the package `unicode`, which are a parameter.
unfoldable pub to_lower : (Text → Text) → Text → Text
to_lower tables s = if is_ascii s then map lower_byte s else tables s

unfoldable pub to_upper : (Text → Text) → Text → Text
to_upper tables s = if is_ascii s then map upper_byte s else tables s

-- The characters of a UTF-8 text: the bytes that continue no character.
abbrev pub char_count : Text → ℕ
char_count [] = 0
char_count (a ∷ s) = if leb 0x80 a && ltb a 0xc0 then char_count s else suc (char_count s)
