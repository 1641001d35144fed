-- ===== src/Activity/Normal.antt =====
-- `Equals` of pkg/types/activity.go compares activities up to absent and zero fields.
use discord_proxy_rpc.Base.{
  ◌≡◌, refl, ap, ◌↔◌, true, ◌&&◌, Option, none, some, List, [], ◌∷◌, text_eq_iff, pos, int_eq_iff,
  length, ◌==◌, arith,
}
use discord_proxy_rpc.Activity.{
  Activity, Timestamps, Assets, Party, Button, elements, equals, clone, is_empty, zero_activity,
  timestamps_equal, assets_equal, party_equal, buttons_equal, copy_buttons, clone_buttons,
  clone_timestamps, clone_assets, clone_party,
}

abbrev pub fill_timestamps : Option Timestamps → Timestamps
fill_timestamps none = record { start = pos 0; end = pos 0 }
fill_timestamps (some t) = t

abbrev pub fill_assets : Option Assets → Assets
fill_assets none = record { large_image = []; large_text = []; small_image = []; small_text = [] }
fill_assets (some s) = s

abbrev pub fill_party : Option Party → Party
fill_party none = record { id = []; size_0 = pos 0; size_1 = pos 0 }
fill_party (some p) = p

-- Each nil pointer replaced by a pointer to the zero value, and a nil slice by the empty one.
abbrev pub normal : Activity → Activity
normal a = record a {
  timestamps = some (fill_timestamps a.timestamps);
  assets = some (fill_assets a.assets);
  party = some (fill_party a.party);
  buttons = some (elements a.buttons);
}

timestamps_equal_iff :
    (s t : Option Timestamps)
    → (timestamps_equal s t ≡ true) ↔ (fill_timestamps s ≡ fill_timestamps t)
unfolding timestamps_equal
timestamps_equal_iff none none = ground arith
timestamps_equal_iff none (some b) =
    ground (arith, int_eq_iff b.start (pos 0), int_eq_iff b.end (pos 0))
timestamps_equal_iff (some a) none =
    ground (arith, int_eq_iff a.start (pos 0), int_eq_iff a.end (pos 0))
timestamps_equal_iff (some a) (some b) =
    ground (arith, int_eq_iff a.start b.start, int_eq_iff a.end b.end)

assets_equal_iff :
    (s t : Option Assets) → (assets_equal s t ≡ true) ↔ (fill_assets s ≡ fill_assets t)
unfolding assets_equal
assets_equal_iff none none = ground arith
assets_equal_iff none (some b) = ground (
  arith,
  text_eq_iff b.large_image [],
  text_eq_iff b.large_text [],
  text_eq_iff b.small_image [],
  text_eq_iff b.small_text [],
)
assets_equal_iff (some a) none = ground (
  arith,
  text_eq_iff a.large_image [],
  text_eq_iff a.large_text [],
  text_eq_iff a.small_image [],
  text_eq_iff a.small_text [],
)
assets_equal_iff (some a) (some b) = ground (
  arith,
  text_eq_iff a.large_image b.large_image,
  text_eq_iff a.large_text b.large_text,
  text_eq_iff a.small_image b.small_image,
  text_eq_iff a.small_text b.small_text,
)

party_equal_iff : (s t : Option Party) → (party_equal s t ≡ true) ↔ (fill_party s ≡ fill_party t)
unfolding party_equal
party_equal_iff none none = ground arith
party_equal_iff none (some b) =
    ground (arith, text_eq_iff b.id [], int_eq_iff b.size_0 (pos 0), int_eq_iff b.size_1 (pos 0))
party_equal_iff (some a) none =
    ground (arith, text_eq_iff a.id [], int_eq_iff a.size_0 (pos 0), int_eq_iff a.size_1 (pos 0))
party_equal_iff (some a) (some b) =
    ground
      (arith, text_eq_iff a.id b.id, int_eq_iff a.size_0 b.size_0, int_eq_iff a.size_1 b.size_1)

-- What the length test and the loop over the buttons establish together.
buttons_equal_iff :
    (xs ys : List Button) → (((length xs == length ys) && buttons_equal xs ys) ≡ true) ↔ (xs ≡ ys)
unfolding buttons_equal
buttons_equal_iff [] [] = ground arith
buttons_equal_iff [] (y ∷ ys) = ground arith
buttons_equal_iff (x ∷ xs) [] = ground arith
buttons_equal_iff (x ∷ xs) (y ∷ ys) =
    ground (arith, text_eq_iff x.label y.label, text_eq_iff x.url y.url, buttons_equal_iff xs ys)

-- `Equals` holds exactly when the two activities have one normal form, in which absent timestamps,
-- assets, party and buttons are the zero ones.
pub equals_iff_normal : (a b : Activity) → (equals a b ≡ true) ↔ (normal a ≡ normal b)
unfolding equals
equals_iff_normal a b = ground (
  arith,
  text_eq_iff a.details b.details,
  text_eq_iff a.state b.state,
  int_eq_iff a.type b.type,
  timestamps_equal_iff a.timestamps b.timestamps,
  assets_equal_iff a.assets b.assets,
  party_equal_iff a.party b.party,
  buttons_equal_iff (elements a.buttons) (elements b.buttons),
)

copy_buttons_lem : (bs : List Button) → copy_buttons bs ≡ bs
unfolding copy_buttons
copy_buttons_lem [] = refl
copy_buttons_lem (b ∷ bs) = ap (λ t. b ∷ t) (copy_buttons_lem bs)

clone_buttons_lem : (bs : Option (List Button)) → clone_buttons bs ≡ bs
unfolding clone_buttons
clone_buttons_lem none = refl
clone_buttons_lem (some bs) = ap some (copy_buttons_lem bs)

clone_pointers :
    (t : Option Timestamps) (s : Option Assets) (p : Option Party)
    → (clone_timestamps t ≡ t) × (clone_assets s ≡ s) × (clone_party p ≡ p)
unfolding clone_timestamps clone_assets clone_party
clone_pointers t s p = ground arith

-- A clone has the value of its original, which holds also of nil and empty buttons.
pub clone_lem : (a : Activity) → clone a ≡ a
unfolding clone
clone_lem a =
    ground (arith, clone_buttons_lem a.buttons, clone_pointers a.timestamps a.assets a.party)

-- `IsEmpty` holds exactly of the activities that are `Equals` to the zero activity and carry no
-- timestamps, assets or party, not even zero ones.
pub is_empty_iff :
    (a : Activity)
    → (is_empty a ≡ true) ↔ (
        (equals a zero_activity ≡ true)
        × (a.timestamps ≡ none)
        × (a.assets ≡ none)
        × (a.party ≡ none))
unfolding is_empty equals timestamps_equal assets_equal party_equal buttons_equal
is_empty_iff a = ground (arith, text_eq_iff a.details [], text_eq_iff a.state [])
