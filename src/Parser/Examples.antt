-- ===== src/Parser/Examples.antt =====
-- An activity of internal/ipc/parser_test.go's kind, and the theorems at it.
use discord_proxy_rpc.Base.{◌≡◌, ◌↔◌, refl, true, none, some, [], ◌∷◌, codes, text_eq, pos, ok, err}
use discord_proxy_rpc.Activity.{Activity, Button, equals}
use discord_proxy_rpc.Parser.{
  SourceActivity, parse_activity, built, validate_activity_type, parse_buttons, check_buttons,
  parse_timestamps, parse_assets, parse_party, label_required,
}
use discord_proxy_rpc.Parser.Accepts.{IsAcceptable, parse_activity_accepts}

abbrev site : Button
site = record { label = codes "Site"; url = codes "https://example.com" }

abbrev game : SourceActivity
game = record {
  type = pos 0;
  details = codes "In a match";
  state = codes "Ranked";
  timestamps = some (record { start = pos 0; end = pos 0 });
  assets = none;
  party = some (record { id = codes "p1"; size_0 = pos 2; size_1 = pos 4 });
  buttons = site ∷ [];
}

abbrev parsed : Activity
parsed = record {
  details = codes "In a match";
  state = codes "Ranked";
  timestamps = none;
  assets = none;
  party = some (record { id = codes "p1"; size_0 = pos 2; size_1 = pos 4 });
  buttons = some (site ∷ []);
  type = pos 0;
}

game_parses : parse_activity (some game) ≡ ok parsed
unfolding parse_activity validate_activity_type parse_buttons check_buttons built parse_timestamps
    parse_assets parse_party text_eq
game_parses = refl

-- Zero timestamps are dropped, so an activity without them has the same result.
abbrev untimed : SourceActivity
untimed = record game { timestamps = none }

untimed_parses : parse_activity (some untimed) ≡ ok parsed
unfolding parse_activity validate_activity_type parse_buttons check_buttons built parse_timestamps
    parse_assets parse_party text_eq
untimed_parses = refl

parsed_equal : equals parsed parsed ≡ true
unfolding equals text_eq
parsed_equal = refl

nameless_button_refused :
    parse_activity
      (some (record game { buttons = site ∷ record { label = []; url = codes "u" } ∷ [] }))
    ≡ err (label_required 1)
unfolding parse_activity validate_activity_type parse_buttons check_buttons text_eq
nameless_button_refused = refl

parse_activity_accepts_example :
    ((a : Activity) × (parse_activity (some game) ≡ ok a)) ↔ IsAcceptable game
parse_activity_accepts_example = parse_activity_accepts game
