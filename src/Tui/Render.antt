-- ===== src/Tui/Render.antt =====
-- internal/tui/render.go: an activity as text.
use discord_proxy_rpc.Base.{
  ℕ, ◌/◌, ◌%◌, Bool, false, not, ◌&&◌, ◌||◌, Option, none, some, List, [], ◌∷◌, ◌++◌, Text, codes,
  is_nil, ℤ, pos, negsuc, int_eq, ltb_ℤ, leb_ℤ, if◌then◌else◌, show_nat, show_int, ltb, quotient,
  sub_int64, map,
}
use discord_proxy_rpc.Activity.{
  Timestamps, Assets, Party, Button, activity_playing, activity_streaming, activity_listening,
  activity_watching, activity_custom, activity_competing,
}

-- U+2014 in UTF-8.
abbrev pub dash : Text
dash = 0xe2 ∷ 0x80 ∷ 0x94 ∷ []

pub activity_type_label : ℤ → Text
activity_type_label t =
    if int_eq t activity_playing
    then codes "Playing"
    else if int_eq t activity_streaming
    then codes "Streaming"
    else if int_eq t activity_listening
    then codes "Listening"
    else if int_eq t activity_watching
    then codes "Watching"
    else if int_eq t activity_custom
    then codes "Custom"
    else if int_eq t activity_competing
    then codes "Competing"
    else codes "Unknown"

-- The text for a number of seconds that is not negative.
unfoldable pub format_seconds : ℕ → Text
format_seconds seconds =
    let h = seconds / 3600 in
    let m = seconds % 3600 / 60 in
    let s = seconds % 60 in
    if ltb 0 h
    then show_nat h ++ (codes "h " ++ (show_nat m ++ (codes "m " ++ (show_nat s ++ codes "s"))))
    else if ltb 0 m
    then show_nat m ++ (codes "m " ++ (show_nat s ++ codes "s"))
    else show_nat s ++ codes "s"

unfoldable pub format_duration : ℤ → Text
format_duration (pos seconds) = format_seconds seconds
format_duration (negsuc n) = format_seconds 0

-- `elapsed` and `remaining` are there where HasElapsed and HasRemaining are set.
pub record TimestampValues : Type 0 where
  pub elapsed : Option ℤ
  pub remaining : Option ℤ
  pub ended : Bool

abbrev elapsed_at : ℤ → ℤ → Option ℤ
elapsed_at start now_ms =
    let elapsed = quotient (sub_int64 now_ms start) 1000 in
    if int_eq start (pos 0) || ltb_ℤ elapsed (pos 0) then none else some elapsed

abbrev seconds_left : ℤ → ℤ → ℤ
seconds_left end now_ms = quotient (sub_int64 end now_ms) 1000

unfoldable pub compute_timestamps : Option Timestamps → ℤ → TimestampValues
compute_timestamps none now_ms = record { elapsed = none; remaining = none; ended = false }
compute_timestamps (some ts) now_ms =
    let remaining = seconds_left ts.end now_ms in
    let over = leb_ℤ remaining (pos 0) in
    let unset = int_eq ts.end (pos 0) in
    record {
      elapsed = elapsed_at ts.start now_ms;
      remaining = if unset || over then none else some remaining;
      ended = not unset && over;
    }

abbrev or_dash : Option ℤ → Text
or_dash none = dash
or_dash (some seconds) = format_duration seconds

-- The elapsed and the remaining time.
pub format_timestamps : Option Timestamps → ℤ → Text × Text
format_timestamps ts now_ms =
    let values = compute_timestamps ts now_ms in
    (or_dash values.elapsed, if values.ended then codes "Ended" else or_dash values.remaining)

abbrev pub value_or_dash : Text → Text
value_or_dash value = if is_nil value then dash else value

pub format_party : Option Party → Text
format_party none = dash
format_party (some party) =
    value_or_dash party.id
    ++ (codes " ("
        ++ (show_int party.size_0 ++ (codes "/" ++ (show_int party.size_1 ++ codes ")"))))

-- The text of an asset, else its image.
abbrev format_asset : Text → Text → Text
format_asset text image = if is_nil text then value_or_dash image else text

-- The large and the small asset.
pub format_assets : Option Assets → Text × Text
format_assets none = (dash, dash)
format_assets (some a) =
    (format_asset a.large_text a.large_image, format_asset a.small_text a.small_image)

pub format_button : Button → Text
format_button b = b.label ++ (codes " (" ++ (b.url ++ codes ")"))

-- strings.Join with ", ".
pub join_labels : List Text → Text
join_labels [] = []
join_labels (label ∷ []) = label
join_labels (label ∷ next ∷ labels) = label ++ (codes ", " ++ join_labels (next ∷ labels))

pub format_buttons : List Button → Text
format_buttons buttons = if is_nil buttons then dash else join_labels (map format_button buttons)
