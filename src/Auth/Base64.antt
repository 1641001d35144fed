-- ===== src/Auth/Base64.antt =====
-- base64.RawURLEncoding of Go's encoding/base64: no padding, trailing bits not checked, and line
-- ends skipped by the decoder.
use discord_proxy_rpc.Base.{
  ℕ, ◌+◌, ◌-◌, ◌*◌, ◌/◌, ◌%◌, ◌<◌, ◌≡◌, refl, false, ◌&&◌, ◌||◌, Option, none, some, List, [], ◌∷◌,
  Text, ltb, leb, ◌==◌, if◌then◌else◌, All, arith,
}

abbrev pub IsByte : ℕ → Type 0
IsByte b = b < 256

-- The character of six bits.
abbrev pub char_of : ℕ → ℕ
char_of n =
    if ltb n 26
    then n + b'A'
    else if ltb n 52
    then n - 26 + b'a'
    else if ltb n 62
    then n - 52 + b'0'
    else if n == 62
    then b'-'
    else b'_'

abbrev pub sextet_of : ℕ → Option ℕ
sextet_of c =
    if leb b'A' c && leb c b'Z'
    then some (c - b'A')
    else if leb b'a' c && leb c b'z'
    then some (c - b'a' + 26)
    else if leb b'0' c && leb c b'9'
    then some (c - b'0' + 52)
    else if c == b'-'
    then some 62
    else if c == b'_'
    then some 63
    else none

-- Three bytes are four groups of six bits; what is left over is padded with zero bits.
unfoldable pub sextets : Text → List ℕ
sextets [] = []
sextets (a ∷ []) = (a / 4) ∷ (a % 4 * 16) ∷ []
sextets (a ∷ b ∷ []) = (a / 4) ∷ (a % 4 * 16 + b / 16) ∷ (b % 16 * 4) ∷ []
sextets (a ∷ b ∷ c ∷ s) =
    (a / 4) ∷ (a % 4 * 16 + b / 16) ∷ (b % 16 * 4 + c / 64) ∷ (c % 64) ∷ sextets s

unfoldable pub chars : List ℕ → Text
chars [] = []
chars (n ∷ ns) = char_of n ∷ chars ns

-- EncodeToString.
unfoldable pub encode : Text → Text
encode s = chars (sextets s)

-- Line feeds and carriage returns are skipped; any other character outside the alphabet, the
-- padding included, is an error.
unfoldable pub read_chars : Text → Option (List ℕ)
read_chars [] = some []
read_chars (c ∷ s) =
    let rest = read_chars s in
    if c == 10 || c == 13 then rest else elim (sextet_of c) [
      | none ↦ none
      | some n ↦ elim rest [ none ↦ none | some ns ↦ some (n ∷ ns) ]
    ]

unfoldable pub bytes : List ℕ → Option Text
bytes [] = some []
bytes (w ∷ []) = none
bytes (w ∷ x ∷ []) = some ((w * 4 + x / 16) ∷ [])
bytes (w ∷ x ∷ y ∷ []) = some ((w * 4 + x / 16) ∷ (x % 16 * 16 + y / 4) ∷ [])
bytes (w ∷ x ∷ y ∷ z ∷ s) = elim (bytes s) [
  | none ↦ none
  | some t ↦ some ((w * 4 + x / 16) ∷ (x % 16 * 16 + y / 4) ∷ (y % 4 * 64 + z) ∷ t)
]

-- DecodeString: `none` is its error.
unfoldable pub decode : Text → Option Text
decode s = elim (read_chars s) [ none ↦ none | some ns ↦ bytes ns ]

abbrev IsSextet : ℕ → Type 0
IsSextet n = n < 64

sextets-All : (s : Text) → All IsByte s → All IsSextet (sextets s)
unfolding sextets
sextets-All [] h = tt
sextets-All (a ∷ []) (h, t) = (omega arith, (omega arith, tt))
sextets-All (a ∷ b ∷ []) (h, (i, t)) = (omega arith, (omega arith, (omega arith, tt)))
sextets-All (a ∷ b ∷ c ∷ s) (h, (i, (j, t))) =
    (omega arith, (omega arith, (omega arith, (omega arith, sextets-All s t))))

sextet_of-char_of : (n : ℕ) → n < 64 → sextet_of (char_of n) ≡ some n
sextet_of-char_of n h = ground arith

char_no_line_end : (n : ℕ) → n < 64 → (char_of n == 10 || char_of n == 13) ≡ false
char_no_line_end n h = ground arith

read_chars-chars : (ns : List ℕ) → All IsSextet ns → read_chars (chars ns) ≡ some ns
unfolding read_chars chars
read_chars-chars [] h = refl
read_chars-chars (n ∷ ns) (h, t) =
    rw (char_no_line_end n h, sextet_of-char_of n h, read_chars-chars ns t) refl

bytes-sextets : (s : Text) → All IsByte s → bytes (sextets s) ≡ some s
unfolding bytes sextets
bytes-sextets [] h = refl
bytes-sextets (a ∷ []) (h, t) = ground arith
bytes-sextets (a ∷ b ∷ []) (h, (i, t)) = ground arith
bytes-sextets (a ∷ b ∷ c ∷ s) (h, (i, (j, t))) = ground (arith, bytes-sextets s t)

-- Every text is decoded from its encoding.
pub decode-encode : (s : Text) → All IsByte s → decode (encode s) ≡ some s
unfolding decode encode
decode-encode s h = rw (decode, read_chars-chars (sextets s) (sextets-All s h)) (bytes-sextets s h)

-- A character that is neither a space nor a byte of a longer rune, nor a comma.
abbrev pub IsCode : ℕ → Type 0
IsCode c = (b',' < c) × (c < 128)

chars-All : (ns : List ℕ) → All IsSextet ns → All IsCode (chars ns)
unfolding chars
chars-All [] h = tt
chars-All (n ∷ ns) (h, t) = ((ground arith, ground arith), chars-All ns t)

pub encode-All : (s : Text) → All IsByte s → All IsCode (encode s)
unfolding encode
encode-All s h = chars-All (sextets s) (sextets-All s h)
