-- ===== src/Parser.antt =====
-- internal/ipc/parser.go: from an activity as Discord sends it to the shared payload.
pub mod Accepts
pub mod Keeps
mod Examples
use discord_proxy_rpc.Base.{
  ℕ, suc, ◌+◌, ◌≡◌, Bool, true, false, not, ◌&&◌, ◌||◌, Option, none, some, List, [], ◌∷◌, Text,
  text_eq, codes, ℤ, pos, int_eq, ltb, if◌then◌else◌, is_nil, length, Result, ok, err, ◌>>=◌,
}
use discord_proxy_rpc.Activity.{
  Activity, Timestamps, Assets, Party, Button, activity_playing, activity_streaming,
  activity_listening, activity_watching, activity_custom, activity_competing,
}

-- The fields of gopresence's Activity that the parser reads. Its nested structs hold the same
-- fields as the payload's, so they are written with those records.
pub record SourceActivity : Type 0 where
  pub type : ℤ
  pub details : Text
  pub state : Text
  pub timestamps : Option Timestamps
  pub assets : Option Assets
  pub party : Option Party
  pub buttons : List Button

pub data ParseError : Type 0 where
  nil_activity : ParseError
  nil_frame : ParseError
  unmarshal_failed : ParseError
  unknown_type : ℤ → ParseError
  too_many_buttons : ℕ → ParseError
  label_required : ℕ → ParseError
  url_required : ℕ → ParseError

abbrev pub max_activity_buttons : ℕ
max_activity_buttons = 2

-- The error, or nil.
unfoldable pub validate_activity_type : ℤ → Option ParseError
validate_activity_type t =
    if int_eq t activity_playing
      || (int_eq t activity_streaming
          || (int_eq t activity_listening
              || (int_eq t activity_watching
                  || (int_eq t activity_custom || int_eq t activity_competing))))
    then none
    else some (unknown_type t)

unfoldable pub parse_timestamps : Option Timestamps → Option Timestamps
parse_timestamps none = none
parse_timestamps (some src) =
    if int_eq src.start (pos 0) && int_eq src.end (pos 0)
    then none
    else some (record { start = src.start; end = src.end })

unfoldable pub parse_assets : Option Assets → Option Assets
parse_assets none = none
parse_assets (some src) =
    if text_eq src.large_image []
      && (text_eq src.large_text [] && (text_eq src.small_image [] && text_eq src.small_text []))
    then none
    else some src

unfoldable pub parse_party : Option Party → Option Party
parse_party none = none
parse_party (some src) =
    if text_eq src.id [] && (int_eq src.size_0 (pos 0) && int_eq src.size_1 (pos 0))
    then none
    else some src

-- The loop over the buttons, from index `i`.
unfoldable pub check_buttons : ℕ → List Button → Result ParseError (List Button)
check_buttons i [] = ok []
check_buttons i (btn ∷ rest) =
    let checked = (check_buttons (suc i) rest >>= λ dst. ok (btn ∷ dst)) in
    if text_eq btn.label []
    then err (label_required i)
    else if text_eq btn.url []
    then err (url_required i)
    else checked

unfoldable pub parse_buttons : List Button → Result ParseError (List Button)
unfolding check_buttons
parse_buttons src =
    if is_nil src
    then ok []
    else if ltb max_activity_buttons (length src)
    then err (too_many_buttons (length src))
    else check_buttons 0 src

-- An empty result stays nil: `if len(buttons) > 0 { dst.Buttons = buttons }`.
abbrev slice_of : List Button → Option (List Button)
slice_of [] = none
slice_of (b ∷ bs) = some (b ∷ bs)

-- `dst`, with the buttons that `parseButtons` returned.
unfoldable pub built : SourceActivity → List Button → Activity
built src buttons = record {
  details = src.details;
  state = src.state;
  timestamps = parse_timestamps src.timestamps;
  assets = parse_assets src.assets;
  party = parse_party src.party;
  buttons = slice_of buttons;
  type = src.type;
}

unfoldable pub parse_activity : Option SourceActivity → Result ParseError Activity
parse_activity none = err nil_activity
parse_activity (some src) = elim (validate_activity_type src.type) [
  | some e ↦ err e
  | none ↦ parse_buttons src.buttons >>= λ buttons. ok (built src buttons)
]

-- `json.Unmarshal` into gopresence's struct is a parameter; `none` is its error.
module _ (unmarshal : Text → Option SourceActivity) where
  unfoldable pub parse_activity_data : Text → Result ParseError Activity
  parse_activity_data raw =
      if is_nil raw || text_eq raw (codes "null") then err nil_activity else elim (unmarshal raw) [
        | none ↦ err unmarshal_failed
        | some src ↦ parse_activity (some src)
      ]

  -- A frame is a pointer; only its raw data is read.
  unfoldable pub parse_activity_frame : Option Text → Result ParseError Activity
  parse_activity_frame none = err nil_frame
  parse_activity_frame (some raw) = parse_activity_data raw
