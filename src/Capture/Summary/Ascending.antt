-- ===== src/Capture/Summary/Ascending.antt =====
-- Strings in ascending order, as formatCounts of cmd/ipc-capture/main.go lists them.
use discord_proxy_rpc.Base.{
  ◌≡◌, refl, sym, ap, ◌∙◌, subst, Bool, true, false, ◌||◌, Bool-cases, inl, inr, List, [], ◌∷◌,
  Text, text_eq, text_eq_iff, text_eq_refl, if◌then◌else◌, All, arith,
}
use discord_proxy_rpc.Capture.Summary.{text_lt, insert_sorted, sort_strings}

text_lt_irrefl : (s : Text) → text_lt s s ≡ false
text_lt_irrefl [] = refl
text_lt_irrefl (a ∷ s) = ground (arith, text_lt_irrefl s)

text_lt_trans : (s t u : Text) → text_lt s t ≡ true → text_lt t u ≡ true → text_lt s u ≡ true
text_lt_trans [] [] u h k = cc
text_lt_trans [] (b ∷ t) [] h k = cc
text_lt_trans [] (b ∷ t) (c ∷ u) h k = refl
text_lt_trans (a ∷ s) [] u h k = cc
text_lt_trans (a ∷ s) (b ∷ t) [] h k = cc
text_lt_trans (a ∷ s) (b ∷ t) (c ∷ u) h k = ground (arith, text_lt_trans s t u)

text_lt_total : (s t : Text) → text_lt s t ≡ false → text_eq s t ≡ false → text_lt t s ≡ true
unfolding text_eq
text_lt_total [] [] h k = cc
text_lt_total [] (b ∷ t) h k = cc
text_lt_total (a ∷ s) [] h k = refl
text_lt_total (a ∷ s) (b ∷ t) h k = ground (arith, text_lt_total s t)

abbrev pub is_key : Text → List Text → Bool
is_key x [] = false
is_key x (k ∷ ks) = let later = is_key x ks in if text_eq k x then true else later

-- Each string is less than all that follow.
abbrev pub IsAscending : List Text → Type 0
IsAscending [] = Unit
IsAscending (k ∷ ks) = All (λ j. text_lt k j ≡ true) ks × IsAscending ks

abbrev pub IsDistinct : List Text → Type 0
IsDistinct [] = Unit
IsDistinct (k ∷ ks) = (is_key k ks ≡ false) × IsDistinct ks

is_key-insert_sorted :
    (x k : Text) (ks : List Text) → is_key x (insert_sorted k ks) ≡ (text_eq k x || is_key x ks)
is_key-insert_sorted x k [] = ground arith
is_key-insert_sorted x k (j ∷ js) = ground (arith, is_key-insert_sorted x k js)

above-insert_sorted :
    (i k : Text) (ks : List Text)
    → text_lt i k ≡ true
    → All (λ j. text_lt i j ≡ true) ks
    → All (λ j. text_lt i j ≡ true) (insert_sorted k ks)
above-insert_sorted i k [] h a = (h, tt)
above-insert_sorted i k (j ∷ js) h a = ground (arith, above-insert_sorted i k js)

above_all :
    (k j : Text) (js : List Text)
    → text_lt k j ≡ true
    → All (λ i. text_lt j i ≡ true) js
    → All (λ i. text_lt k i ≡ true) js
above_all k j [] h a = tt
above_all k j (i ∷ is) h a = (text_lt_trans k j i h a.0, above_all k j is h a.1)

insert_sorted-IsAscending :
    (k : Text) (ks : List Text)
    → is_key k ks ≡ false
    → IsAscending ks
    → IsAscending (insert_sorted k ks)
insert_sorted-IsAscending k [] n a = (tt, tt)
insert_sorted-IsAscending k (j ∷ js) n a = elim (Bool-cases (text_lt k j)) [
  | inl h ↦ rw h ((h, above_all k j js h a.0), a)
  | inr h ↦ rw h (
    above-insert_sorted j k js
        (text_lt_total k j h (ground (arith, n, text_eq_iff k j, text_eq_iff j k))) a.0,
    insert_sorted-IsAscending k js (ground arith) a.1,
  )
]

pub is_key-sort_strings : (x : Text) (ks : List Text) → is_key x (sort_strings ks) ≡ is_key x ks
is_key-sort_strings x [] = refl
is_key-sort_strings x (k ∷ ks) =
    ground (arith, is_key-insert_sorted x k (sort_strings ks), is_key-sort_strings x ks)

pub sort_strings-IsAscending : (ks : List Text) → IsDistinct ks → IsAscending (sort_strings ks)
sort_strings-IsAscending [] d = tt
sort_strings-IsAscending (k ∷ ks) d =
    insert_sorted-IsAscending k (sort_strings ks) (is_key-sort_strings k ks ∙ d.0)
      (sort_strings-IsAscending ks d.1)

key_above :
    (i x : Text) (ks : List Text)
    → All (λ j. text_lt i j ≡ true) ks
    → is_key x ks ≡ true
    → text_lt i x ≡ true
key_above i x [] a h = cc
key_above i x (k ∷ ks) a h = ground (arith, text_eq_iff k x, key_above i x ks a.1)

-- The heads of two ascending lists of the same strings are the same.
heads_same :
    (k j : Text) (ks js : List Text)
    → IsAscending (k ∷ ks)
    → IsAscending (j ∷ js)
    → ((x : Text) → is_key x (k ∷ ks) ≡ is_key x (j ∷ js))
    → k ≡ j
heads_same k j ks js a b f = elim (Bool-cases (text_eq j k)) [
  | inl e ↦ sym ((text_eq_iff j k).0 e)
  | inr e ↦
      let down : text_lt j k ≡ true =
        key_above j k js b.0 (ground (arith, f k, text_eq_refl k, e)) in
      let up : text_lt k j ≡ true =
        key_above k j ks a.0
          (ground (arith, f j, text_eq_refl j, e, text_eq_iff k j, text_eq_iff j k)) in
      absurd (ground (arith, text_lt_trans k j k up down, text_lt_irrefl k))
]

head_absent : (k : Text) (ks : List Text) → All (λ j. text_lt k j ≡ true) ks → is_key k ks ≡ false
head_absent k ks a = elim (Bool-cases (is_key k ks)) [
  | inl h ↦ absurd (ground (arith, key_above k k ks a h, text_lt_irrefl k))
  | inr h ↦ h
]

tails_same :
    (k j : Text) (ks js : List Text)
    → k ≡ j
    → IsAscending (k ∷ ks)
    → IsAscending (j ∷ js)
    → ((x : Text) → is_key x (k ∷ ks) ≡ is_key x (j ∷ js))
    → (x : Text) → is_key x ks ≡ is_key x js
tails_same k j ks js same a b f x = elim (Bool-cases (text_eq k x)) [
  | inl e ↦
      let here : k ≡ x = (text_eq_iff k x).0 e in
      subst (λ y. is_key y ks ≡ is_key y js) here
        (head_absent k ks a.0
          ∙ sym (subst (λ y. is_key y js ≡ false) (sym same) (head_absent j js b.0)))
  | inr e ↦ ground (arith, f x, e, same, text_eq_iff j x, text_eq_iff k x)
]

pub ascending_unique :
    (ks js : List Text)
    → IsAscending ks
    → IsAscending js
    → ((x : Text) → is_key x ks ≡ is_key x js)
    → ks ≡ js
ascending_unique [] [] a b f = refl
ascending_unique [] (j ∷ js) a b f = absurd (ground (arith, f j, text_eq_refl j))
ascending_unique (k ∷ ks) [] a b f = absurd (ground (arith, f k, text_eq_refl k))
ascending_unique (k ∷ ks) (j ∷ js) a b f =
    let same : k ≡ j = heads_same k j ks js a b f in
    ap (λ x. x ∷ ks) same
    ∙ ap (λ xs. j ∷ xs) (ascending_unique ks js a.1 b.1 (tails_same k j ks js same a b f))
