-- ===== src/Presence/Notify/Counts.antt =====
-- How many elements of a list pass a test, for the lists of internal/state/presence.go's goroutines.
use discord_proxy_rpc.Base.{
  ℕ, zero, suc, ◌+◌, ◌≡◌, ap, Bool, some, Option-cases, inl, inr, List, [], ◌∷◌, length,
  if◌then◌else◌, arith,
}
use discord_proxy_rpc.Presence.Notify.{pick}

abbrev pub count {ℓ} : {A : Type ℓ} → (A → Bool) → List A → ℕ
count p [] = 0
count p (c ∷ cs) = (if p c then 1 else 0) + count p cs

module _ {A : Type 0} where
  pub count-pick :
      (p : A → Bool) (n : ℕ) (cs : List A) (c : A) (ds : List A)
      → pick n cs ≡ some (c, ds)
      → (count p cs ≡ count p (c ∷ ds)) × (length cs ≡ suc (length ds))
  count-pick p n [] c ds e = absurd (ground (arith, e))
  count-pick p zero (x ∷ xs) c ds e = ground (arith, e)
  count-pick p (suc n) (x ∷ xs) c ds e = elim (Option-cases (pick n xs)) [
    | inl h ↦ absurd (ground (arith, e, h))
    | inr (r, h) ↦
        let (k, l) = count-pick p n xs r.0 r.1 h in
        let here : r.0 ≡ c = ground (arith, e, h) in
        let there : x ∷ r.1 ≡ ds = ground (arith, e, h) in
        (
          omega (arith, k, ap (λ (y : A). count p (y ∷ [])) here, ap (count p) there),
          omega (arith, l, ap (λ (ys : List A). length ys) there),
        )
  ]
