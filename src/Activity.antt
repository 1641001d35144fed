-- ===== src/Activity.antt =====
-- pkg/types/activity.go: the activity payload, its provenance and its comparison. A pointer that
-- may be nil is an Option, and so is a slice, whose nil differs from its empty value.
pub mod Normal
mod Examples
use discord_proxy_rpc.Base.{
  ℕ, ◌≡◌, Bool, true, false, not, ◌&&◌, ◌||◌, Option, none, some, List, [], ◌∷◌, Text, text_eq,
  codes, ℤ, pos, int_eq, if◌then◌else◌, is_nil, length, ◌==◌,
}

-- An activity type is an int, of which six have names.
pub record Timestamps : Type 0 where
  pub start : ℤ
  pub end : ℤ

pub record Assets : Type 0 where
  pub large_image : Text
  pub large_text : Text
  pub small_image : Text
  pub small_text : Text

-- `Size [2]int` is two numbers.
pub record Party : Type 0 where
  pub id : Text
  pub size_0 : ℤ
  pub size_1 : ℤ

pub record Button : Type 0 where
  pub label : Text
  pub url : Text

pub record Activity : Type 0 where
  pub details : Text
  pub state : Text
  pub timestamps : Option Timestamps
  pub assets : Option Assets
  pub party : Option Party
  pub buttons : Option (List Button)
  pub type : ℤ

abbrev pub activity_playing : ℤ
activity_playing = pos 0

abbrev pub activity_streaming : ℤ
activity_streaming = pos 1

abbrev pub activity_listening : ℤ
activity_listening = pos 2

abbrev pub activity_watching : ℤ
activity_watching = pos 3

abbrev pub activity_custom : ℤ
activity_custom = pos 4

abbrev pub activity_competing : ℤ
activity_competing = pos 5

-- `types.Activity{}`.
abbrev pub zero_activity : Activity
zero_activity = record {
  details = [];
  state = [];
  timestamps = none;
  assets = none;
  party = none;
  buttons = none;
  type = activity_playing;
}

-- The two values of ActivitySource that the program makes.
pub data ActivitySource : Type 0 where
  source_none source_ipc : ActivitySource

pub record PresenceSnapshot : Type 0 where
  pub source : ActivitySource
  pub activity : Option Activity

-- The elements that `range` visits: none on a nil slice.
abbrev pub elements {ℓ} : {A : Type ℓ} → Option (List A) → List A
elements none = []
elements (some xs) = xs

-- `p == nil` for a pointer.
abbrev pub is_none {ℓ} : {A : Type ℓ} → Option A → Bool
is_none none = true
is_none (some x) = false

unfoldable pub is_empty : Activity → Bool
is_empty a =
    is_nil a.details
    && (is_nil a.state
        && (is_none a.timestamps
            && (is_none a.assets
                && (is_none a.party
                    && (is_nil (elements a.buttons) && int_eq a.type activity_playing)))))

-- What `ts := *a.Timestamps; out.Timestamps = &ts` copies, and so for the other pointers.
clone_timestamps : Option Timestamps → Option Timestamps
clone_timestamps none = none
clone_timestamps (some t) = some (record { start = t.start; end = t.end })

clone_assets : Option Assets → Option Assets
clone_assets none = none
clone_assets (some s) = some (record {
  large_image = s.large_image;
  large_text = s.large_text;
  small_image = s.small_image;
  small_text = s.small_text;
})

clone_party : Option Party → Option Party
clone_party none = none
clone_party (some p) = some (record { id = p.id; size_0 = p.size_0; size_1 = p.size_1 })

copy_buttons : List Button → List Button
copy_buttons [] = []
copy_buttons (b ∷ bs) = record { label = b.label; url = b.url } ∷ copy_buttons bs

clone_buttons : Option (List Button) → Option (List Button)
clone_buttons none = none
clone_buttons (some bs) = some (copy_buttons bs)

unfoldable pub clone : Activity → Activity
unfolding clone_timestamps clone_assets clone_party clone_buttons copy_buttons
clone a = record {
  details = a.details;
  state = a.state;
  timestamps = clone_timestamps a.timestamps;
  assets = clone_assets a.assets;
  party = clone_party a.party;
  buttons = clone_buttons a.buttons;
  type = a.type;
}

timestamps_equal : Option Timestamps → Option Timestamps → Bool
timestamps_equal none none = true
timestamps_equal none (some b) = int_eq b.start (pos 0) && int_eq b.end (pos 0)
timestamps_equal (some a) none = int_eq a.start (pos 0) && int_eq a.end (pos 0)
timestamps_equal (some a) (some b) = int_eq a.start b.start && int_eq a.end b.end

assets_equal : Option Assets → Option Assets → Bool
assets_equal none none = true
assets_equal none (some b) =
    text_eq b.large_image []
    && (text_eq b.large_text [] && (text_eq b.small_image [] && text_eq b.small_text []))
assets_equal (some a) none =
    text_eq a.large_image []
    && (text_eq a.large_text [] && (text_eq a.small_image [] && text_eq a.small_text []))
assets_equal (some a) (some b) =
    text_eq a.large_image b.large_image
    && (text_eq a.large_text b.large_text
        && (text_eq a.small_image b.small_image && text_eq a.small_text b.small_text))

party_equal : Option Party → Option Party → Bool
party_equal none none = true
party_equal none (some b) = text_eq b.id [] && (int_eq b.size_0 (pos 0) && int_eq b.size_1 (pos 0))
party_equal (some a) none = text_eq a.id [] && (int_eq a.size_0 (pos 0) && int_eq a.size_1 (pos 0))
party_equal (some a) (some b) =
    text_eq a.id b.id && (int_eq a.size_0 b.size_0 && int_eq a.size_1 b.size_1)

-- The loop `for i := range a.Buttons`, which runs on two slices of one length. Where `other` is
-- shorter the code would panic; the length test stands before the loop.
buttons_equal : List Button → List Button → Bool
buttons_equal [] ys = true
buttons_equal (x ∷ xs) [] = false
buttons_equal (x ∷ xs) (y ∷ ys) =
    if not (text_eq x.label y.label) || not (text_eq x.url y.url)
    then false
    else buttons_equal xs ys

unfoldable pub equals : Activity → Activity → Bool
unfolding timestamps_equal assets_equal party_equal buttons_equal
equals a other =
    if not (text_eq a.details other.details)
      || (not (text_eq a.state other.state) || not (int_eq a.type other.type))
    then false
    else if not (timestamps_equal a.timestamps other.timestamps)
    then false
    else if not (assets_equal a.assets other.assets)
    then false
    else if not (party_equal a.party other.party)
    then false
    else if not (length (elements a.buttons) == length (elements other.buttons))
    then false
    else buttons_equal (elements a.buttons) (elements other.buttons)
