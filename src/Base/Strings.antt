-- ===== src/Base/Strings.antt =====
-- Functions of Go's package strings on bytes.
use Prim.Native.Nat.{ℕ, zero, suc, ◌+◌}
use mathlib.Core.Path.{◌≡◌, refl}
use mathlib.Core.Bool.{Bool, true, false, ◌&&◌, ◌||◌}
use mathlib.Core.Option.{Option, none, some}
use mathlib.Core.List.{List, [], ◌∷◌}
use native.Mathlib.Omega.{arith}
use discord_proxy_rpc.Base.Tests.{leb, ◌==◌, if◌then◌else◌}
use discord_proxy_rpc.Base.Lists.{length, All}
use discord_proxy_rpc.Base.Texts.{Text}

abbrev pub drop {ℓ} : {A : Type ℓ} → ℕ → List A → List A
drop zero xs = xs
drop (suc n) [] = []
drop (suc n) (x ∷ xs) = drop n xs

-- Tail recursive, as `out` grows.
abbrev pub reverse_onto : Text → Text → Text
reverse_onto [] out = out
reverse_onto (b ∷ s) out = reverse_onto s (b ∷ out)

abbrev pub reverse : Text → Text
reverse s = reverse_onto s []

-- unicode.IsSpace on the runes of one byte.
abbrev pub is_ascii_space : ℕ → Bool
is_ascii_space b = (leb 9 b && leb b 13) || b == 32

-- Its other runes, as the bytes of their UTF-8: U+0085, U+00A0, U+1680, U+2000 to U+200A, U+2028,
-- U+2029, U+202F, U+205F and U+3000.
abbrev pub is_space_2 : ℕ → ℕ → Bool
is_space_2 a b = a == 0xc2 && (b == 0x85 || b == 0xa0)

abbrev pub is_space_3 : ℕ → ℕ → ℕ → Bool
is_space_3 a b c =
    (a == 0xe1 && (b == 0x9a && c == 0x80))
    || ((a == 0xe2
          && ((b == 0x80 && ((leb 0x80 c && leb c 0x8a) || (c == 0xa8 || (c == 0xa9 || c == 0xaf))))
              || (b == 0x81 && c == 0x9f)))
        || (a == 0xe3 && (b == 0x80 && c == 0x80)))

-- The bytes of the space that a text begins with, 0 where it begins with none.
abbrev pub space_width : Text → ℕ
space_width [] = 0
space_width (a ∷ []) = if is_ascii_space a then 1 else 0
space_width (a ∷ b ∷ []) = if is_ascii_space a then 1 else if is_space_2 a b then 2 else 0
space_width (a ∷ b ∷ c ∷ s) =
    if is_ascii_space a then 1 else if is_space_2 a b then 2 else if is_space_3 a b c then 3 else 0

-- The same of the reverse of a text.
abbrev pub space_width_rev : Text → ℕ
space_width_rev [] = 0
space_width_rev (a ∷ []) = if is_ascii_space a then 1 else 0
space_width_rev (a ∷ b ∷ []) = if is_ascii_space a then 1 else if is_space_2 b a then 2 else 0
space_width_rev (a ∷ b ∷ c ∷ s) =
    if is_ascii_space a then 1 else if is_space_2 b a then 2 else if is_space_3 c b a then 3 else 0

-- Spaces are dropped from the front until there is none; each round drops a byte at least, so that
-- the length is enough fuel.
unfoldable pub drop_spaces : (Text → ℕ) → ℕ → Text → Text
drop_spaces width zero s = s
drop_spaces width (suc fuel) s =
    let rest = drop_spaces width fuel (drop (width s) s) in if width s == 0 then s else rest

-- strings.TrimSpace.
unfoldable pub trim_space : Text → Text
trim_space s =
    let front = drop_spaces space_width (length s) s in
    reverse (drop_spaces space_width_rev (length front) (reverse front))

-- The texts before and behind the first byte `sep`, if there is one: `SplitN(s, sep, 2)`.
abbrev pub cut : ℕ → Text → Option (Text × Text)
cut sep [] = none
cut sep (b ∷ s) =
    let rest = cut sep s in
    if b == sep then some ([], s) else elim rest [ none ↦ none | some r ↦ some (b ∷ r.0, r.1) ]

-- `Split(s, sep)` for one byte: the first part, and the others.
abbrev pub split_parts : ℕ → Text → Text × List Text
split_parts sep [] = ([], [])
split_parts sep (b ∷ s) =
    let rest = split_parts sep s in if b == sep then ([], rest.0 ∷ rest.1) else (b ∷ rest.0, rest.1)

abbrev pub split : ℕ → Text → List Text
split sep s = let r = split_parts sep s in r.0 ∷ r.1

-- The rest behind a prefix, if the text has it: HasPrefix and TrimPrefix.
abbrev pub strip_prefix : Text → Text → Option Text
strip_prefix [] s = some s
strip_prefix (p ∷ ps) [] = none
strip_prefix (p ∷ ps) (b ∷ s) = let rest = strip_prefix ps s in if p == b then rest else none

abbrev pub to_lower : ℕ → ℕ
to_lower b = if leb b'A' b && leb b b'Z' then b + 32 else b

-- EqualFold against a text of lower-case ASCII letters other than k and s, whose letters have no
-- case but their ASCII ones.
abbrev pub equal_fold : Text → Text → Bool
equal_fold [] [] = true
equal_fold [] (b ∷ t) = false
equal_fold (a ∷ s) [] = false
equal_fold (a ∷ s) (b ∷ t) = to_lower a == b && equal_fold s t

drop_spaces-none :
    (width : Text → ℕ) (fuel : ℕ) (s : Text) → width s ≡ 0 → drop_spaces width fuel s ≡ s
unfolding drop_spaces
drop_spaces-none width zero s e = refl
drop_spaces-none width (suc fuel) s e = ground arith

reverse_onto-twice : (s out : Text) → reverse (reverse_onto s out) ≡ reverse_onto out s
reverse_onto-twice [] out = refl
reverse_onto-twice (b ∷ s) out = reverse_onto-twice s (b ∷ out)

pub reverse-reverse : (s : Text) → reverse (reverse s) ≡ s
reverse-reverse s = reverse_onto-twice s []

-- A text with no space at either end is its own trim.
pub trim_space-trimmed :
    (s : Text) → space_width s ≡ 0 → space_width_rev (reverse s) ≡ 0 → trim_space s ≡ s
unfolding trim_space
trim_space-trimmed s e f =
    rw
      (
        drop_spaces-none space_width (length s) s e,
        drop_spaces-none space_width_rev (length s) (reverse s) f,
      )
      (reverse-reverse s)

module _ {κ} (P : ℕ → Type κ) where
  All-reverse_onto : (s out : Text) → All P s → All P out → All P (reverse_onto s out)
  All-reverse_onto [] out h k = k
  All-reverse_onto (b ∷ s) out h k = All-reverse_onto s (b ∷ out) h.1 (h.0, k)

  pub All-reverse : (s : Text) → All P s → All P (reverse s)
  All-reverse s h = All-reverse_onto s [] h tt
