-- ===== src/Config/Digits.antt =====
-- What Validate of internal/config/config.go accepts.
use discord_proxy_rpc.Base.{
  ℕ, ◌≤◌, ◌≡◌, ◌≢◌, refl, subst, true, false, [], ◌∷◌, Text, is_nil, ok, all, All, trim_space,
  trim_space-trimmed, All-reverse, space_width, space_width_rev, reverse, arith,
}
use discord_proxy_rpc.Config.{Config, is_digit, validate}

abbrev pub IsDigit : ℕ → Type 0
IsDigit b = (b'0' ≤ b) × (b ≤ b'9')

all_digits : (s : Text) → all is_digit s ≡ true → All IsDigit s
all_digits [] h = tt
all_digits (b ∷ s) h = ground (arith, all_digits s)

space_width-digits : (s : Text) → All IsDigit s → space_width s ≡ 0
space_width-digits [] h = refl
space_width-digits (a ∷ []) h = ground arith
space_width-digits (a ∷ b ∷ []) h = ground arith
space_width-digits (a ∷ b ∷ c ∷ s) h = ground arith

space_width_rev-digits : (s : Text) → All IsDigit s → space_width_rev s ≡ 0
space_width_rev-digits [] h = refl
space_width_rev-digits (a ∷ []) h = ground arith
space_width_rev-digits (a ∷ b ∷ []) h = ground arith
space_width_rev-digits (a ∷ b ∷ c ∷ s) h = ground arith

trim_space-digits : (s : Text) → All IsDigit s → trim_space s ≡ s
trim_space-digits s h =
    trim_space-trimmed s (space_width-digits s h)
      (space_width_rev-digits (reverse s) (All-reverse IsDigit s h))

abbrev with_id : Config → Text → Config
with_id c id = record c { discord = record c.discord { client_id = id } }

validate-accepts :
    (c : Config) (id : Text)
    → trim_space c.discord.client_id ≡ id
    → is_nil id ≡ false
    → all is_digit id ≡ true
    → validate c ≡ ok (with_id c id)
unfolding validate
validate-accepts c id t n a = rw (validate, t) (rw n (rw a refl))

validate-refuses :
    (c d : Config)
    → validate c ≡ ok d
    → (is_nil (trim_space c.discord.client_id) ≡ false)
      × (all is_digit (trim_space c.discord.client_id) ≡ true)
unfolding validate
validate-refuses c d h = ground arith

not_nil : (s : Text) → is_nil s ≡ false → s ≢ []
not_nil [] h = cc
not_nil (b ∷ s) h = cc

-- A configuration that Validate returns has a client id of one or more digits, which is the trimmed
-- one, and is returned unchanged when it is validated again; nothing else is changed.
pub validate-valid :
    (c d : Config)
    → validate c ≡ ok d
    → (d ≡ record c { discord = record c.discord { client_id = trim_space c.discord.client_id } })
      × (d.discord.client_id ≢ [])
      × All IsDigit d.discord.client_id
      × (validate d ≡ ok d)
validate-valid c d h =
    let id : Text = trim_space c.discord.client_id in
    let (n, a) = validate-refuses c d h in
    let digits : All IsDigit id = all_digits id a in
    let same : with_id c id ≡ d = ground (arith, validate-accepts c id refl n a) in
    subst
      (λ (v : Config).
        (v ≡ with_id c id)
        × (v.discord.client_id ≢ [])
        × All IsDigit v.discord.client_id
        × (validate v ≡ ok v))
      same
      (
        refl,
        not_nil id n,
        digits,
        validate-accepts (with_id c id) id (trim_space-digits id digits) n a,
      )
