-- ===== src/Base/Decimal.antt =====
-- Decimal numerals, as Go's fmt prints integers of 64 bits.
use Prim.Native.Nat.{ℕ, zero, suc, ◌+◌, ◌-◌, ◌*◌, ◌/◌, ◌%◌, ◌^◌, ◌<◌}
use native.Mathlib.Nat.{pow-suc}
use mathlib.Core.Path.{◌≡◌, ap, ◌∙◌, subst}
use mathlib.Core.Logic.{inl, inr}
use mathlib.Core.List.{[], ◌∷◌}
use native.Mathlib.Omega.{arith}
use discord_proxy_rpc.Base.Tests.{◌==◌, if◌then◌else◌, Bool-cases}
use discord_proxy_rpc.Base.Int.{ℤ, pos, negsuc}
use discord_proxy_rpc.Base.Texts.{Text}

-- The digits of `n` in front of `out`; the first argument is fuel, and the last digit takes one.
unfoldable pub digits : ℕ → ℕ → Text → Text
digits zero n out = out
digits (suc fuel) n out =
    let next = (b'0' + n % 10) ∷ out in
    let rest = digits fuel (n / 10) next in if n / 10 == 0 then next else rest

-- An integer of 64 bits has at most twenty digits.
unfoldable pub show_nat : ℕ → Text
show_nat n = digits 20 n []

unfoldable pub show_int : ℤ → Text
show_int (pos n) = show_nat n
show_int (negsuc n) = b'-' ∷ show_nat (suc n)

-- The number that digits spell behind `n`.
abbrev pub value : ℕ → Text → ℕ
value n [] = n
value n (c ∷ s) = value (n * 10 + (c - b'0')) s

value-next : (n : ℕ) (out : Text) → value (n / 10) ((b'0' + n % 10) ∷ out) ≡ value n out
value-next n out = ap (λ k. value k out) (omega arith)

value-last : (n : ℕ) (out : Text) → n / 10 ≡ 0 → value 0 ((b'0' + n % 10) ∷ out) ≡ value n out
value-last n out h = ap (λ k. value k out) (omega (arith, h))

tenth : (n k : ℕ) → n < k * 10 → n / 10 < k
tenth n k h = omega (arith, h)

fits : (fuel n : ℕ) → n < 10 ^ suc (suc fuel) → n < 10 ^ suc fuel * 10
fits fuel n h = subst (λ k. n < k) (pow-suc 10 (suc fuel)) h

value-digits :
    (fuel n : ℕ) (out : Text) → n < 10 ^ suc fuel → value 0 (digits (suc fuel) n out) ≡ value n out
unfolding digits
value-digits zero n out h = elim (Bool-cases (n / 10 == 0)) [
  | inl e ↦ rw (digits, e) (value-last n out (ground arith))
  | inr e ↦ absurd (ground arith)
]
value-digits (suc fuel) n out h = elim (Bool-cases (n / 10 == 0)) [
  | inl e ↦ rw (digits, e) (value-last n out (ground arith))
  | inr e ↦
      rw (digits, e)
        (value-digits fuel (n / 10) ((b'0' + n % 10) ∷ out)
            (tenth n (10 ^ suc fuel) (fits fuel n h))
          ∙ value-next n out)
]

pub value-show_nat : (n : ℕ) → n < 2 ^ 64 → value 0 (show_nat n) ≡ n
unfolding show_nat
value-show_nat n h = value-digits 19 n [] (omega arith)
