-- ===== src/Parser/Accepts.antt =====
-- Which activities internal/ipc/parser.go accepts, and with which error it refuses the others.
use discord_proxy_rpc.Base.{
  ℕ, suc, ◌≤◌, ◌≡◌, ◌≢◌, ◌↔◌, ◌⊎◌, inl, inr, refl, false, Bool-cases, Text, none, some, List, [],
  ◌∷◌, text_eq, text_eq_iff, ℤ, pos, negsuc, length, All, ok, err, arith, ltb, Option-cases,
}
use discord_proxy_rpc.Activity.{Activity, Button}
use discord_proxy_rpc.Parser.{
  SourceActivity, ParseError, label_required, url_required, validate_activity_type,
  too_many_buttons, check_buttons, parse_buttons, built, parse_activity,
}

-- The type is one of the six that Discord defines, numbered from 0.
abbrev IsKnownType : ℤ → Type 0
IsKnownType (pos n) = n ≤ 5
IsKnownType (negsuc n) = ⊥

abbrev IsLabelled : Button → Type 0
IsLabelled b = (b.label ≢ []) × (b.url ≢ [])

-- At most two buttons, each with a label and a URL, under a known type.
pub record IsAcceptable (src : SourceActivity) : Type 0 where
  pub known : IsKnownType src.type
  pub few : length src.buttons ≤ 2
  pub labelled : All IsLabelled src.buttons

validate_iff : (t : ℤ) → (validate_activity_type t ≡ none) ↔ IsKnownType t
unfolding validate_activity_type
validate_iff (pos n) = ground arith
validate_iff (negsuc n) = ground arith

-- The loop returns its input, or the error of a button that lacks a label or a URL.
check_buttons_cases :
    (i : ℕ) (bs : List Button)
    → ((check_buttons i bs ≡ ok bs) × All IsLabelled bs)
      ⊎ ((e : ParseError) × (check_buttons i bs ≡ err e) × (¬ All IsLabelled bs))
unfolding check_buttons
check_buttons_cases i [] = inl (refl, tt)
check_buttons_cases i (b ∷ bs) = elim (Bool-cases (text_eq b.label [])) [
  | inl e ↦ inr (label_required i, rw e, λ h. h.0.0 ((text_eq_iff b.label []).0 e))
  | inr l ↦ elim (Bool-cases (text_eq b.url [])) [
    | inl e ↦ inr (url_required i, rw (l, e), λ h. h.0.1 ((text_eq_iff b.url []).0 e))
    | inr u ↦ elim (check_buttons_cases (suc i) bs) [
      | inl (q, h) ↦ inl (rw (l, u, q), ((λ e. ne l e, λ e. ne u e), h))
      | inr (e, q, h) ↦ inr (e, rw (l, u, q), λ k. h k.1)
    ]
  ]
]
  where
    ne : {s : Text} → text_eq s [] ≡ false → s ≢ []
    ne {s} f e = ground (arith, text_eq_iff s [])

parse_buttons_cases :
    (bs : List Button)
    → ((parse_buttons bs ≡ ok bs) × (length bs ≤ 2) × All IsLabelled bs)
      ⊎ ((e : ParseError) × (parse_buttons bs ≡ err e) × (¬ ((length bs ≤ 2) × All IsLabelled bs)))
unfolding parse_buttons
parse_buttons_cases [] = inl (refl, omega arith, tt)
parse_buttons_cases (b ∷ bs) = elim (Bool-cases (ltb 2 (length (b ∷ bs)))) [
  | inl many ↦ inr (too_many_buttons (length (b ∷ bs)), rw many, λ h. absurd (ground (arith, h.0)))
  | inr few ↦ elim (check_buttons_cases 0 (b ∷ bs)) [
    | inl (q, h) ↦ inl (rw few q, ground arith, h)
    | inr (e, q, h) ↦ inr (e, rw few q, λ k. h k.1)
  ]
]

-- The result is the built activity, or an error, as the source is acceptable or not.
pub parse_activity_cases :
    (src : SourceActivity)
    → ((parse_activity (some src) ≡ ok (built src src.buttons)) × IsAcceptable src)
      ⊎ ((e : ParseError) × (parse_activity (some src) ≡ err e) × (¬ IsAcceptable src))
unfolding parse_activity
parse_activity_cases src = elim (Option-cases (validate_activity_type src.type)) [
  | inr (e, v) ↦ inr (e, ground arith, λ h. cc (v, (validate_iff src.type).1 h.known))
  | inl v ↦ elim (parse_buttons_cases src.buttons) [
    | inl (q, few, h) ↦
        inl (ground arith, record { known = (validate_iff src.type).0 v; few = few; labelled = h })
    | inr (e, q, h) ↦ inr (e, ground arith, λ k. h (k.few, k.labelled))
  ]
]

-- `ParseActivity` succeeds exactly on a non-nil activity of a known type (0 to 5) with at most two
-- buttons, each of which has a label and a URL.
pub parse_activity_accepts :
    (src : SourceActivity)
    → ((a : Activity) × (parse_activity (some src) ≡ ok a)) ↔ IsAcceptable src
parse_activity_accepts src = elim (parse_activity_cases src) [
  | inl (q, h) ↦ (λ _. h, λ _. (built src src.buttons, q))
  | inr (e, q, h) ↦ (λ r. cc (r.1, q), λ k. absurd (h k))
]
