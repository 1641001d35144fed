-- ===== src/Parser/Keeps.antt =====
-- What internal/ipc/parser.go keeps of an activity: everything that `Equals` sees, in one form.
use discord_proxy_rpc.Base.{
  ◌≡◌, inl, inr, refl, sym, ◌∙◌, ap, true, Option, none, some, List, [], ◌∷◌, text_eq, text_eq_iff,
  pos, int_eq_iff, ok, arith,
}
use discord_proxy_rpc.Activity.{Activity, Timestamps, Assets, Party, Button, elements, equals}
use discord_proxy_rpc.Activity.Normal.{
  normal, fill_timestamps, fill_assets, fill_party, equals_iff_normal,
}
use discord_proxy_rpc.Parser.{
  SourceActivity, slice_of, parse_timestamps, parse_assets, parse_party, built, parse_activity,
}
use discord_proxy_rpc.Parser.Accepts.{parse_activity_cases}

-- The source read as a payload, with nothing dropped.
abbrev pub as_activity : SourceActivity → Activity
as_activity src = record {
  details = src.details;
  state = src.state;
  timestamps = src.timestamps;
  assets = src.assets;
  party = src.party;
  buttons = some src.buttons;
  type = src.type;
}

fill-parse_timestamps :
    (t : Option Timestamps) → fill_timestamps (parse_timestamps t) ≡ fill_timestamps t
unfolding parse_timestamps
fill-parse_timestamps none = refl
fill-parse_timestamps (some t) =
    ground (arith, int_eq_iff t.start (pos 0), int_eq_iff t.end (pos 0))

fill-parse_assets : (s : Option Assets) → fill_assets (parse_assets s) ≡ fill_assets s
unfolding parse_assets
fill-parse_assets none = refl
fill-parse_assets (some s) = ground (
  arith,
  text_eq_iff s.large_image [],
  text_eq_iff s.large_text [],
  text_eq_iff s.small_image [],
  text_eq_iff s.small_text [],
)

fill-parse_party : (p : Option Party) → fill_party (parse_party p) ≡ fill_party p
unfolding parse_party
fill-parse_party none = refl
fill-parse_party (some p) =
    ground (arith, text_eq_iff p.id [], int_eq_iff p.size_0 (pos 0), int_eq_iff p.size_1 (pos 0))

elements-slice_of : (bs : List Button) → elements (slice_of bs) ≡ bs
elements-slice_of [] = refl
elements-slice_of (b ∷ bs) = refl

-- The parts of a parsed activity are determined by the filled parts.
parse_timestamps_of_fill :
    (t : Option Timestamps) → parse_timestamps (some (fill_timestamps t)) ≡ parse_timestamps t
unfolding parse_timestamps
parse_timestamps_of_fill none = refl
parse_timestamps_of_fill (some t) = refl

parse_assets_of_fill : (s : Option Assets) → parse_assets (some (fill_assets s)) ≡ parse_assets s
unfolding parse_assets text_eq
parse_assets_of_fill none = refl
parse_assets_of_fill (some s) = refl

parse_party_of_fill : (p : Option Party) → parse_party (some (fill_party p)) ≡ parse_party p
unfolding parse_party text_eq
parse_party_of_fill none = refl
parse_party_of_fill (some p) = refl

normal-built : (src : SourceActivity) → normal (built src src.buttons) ≡ normal (as_activity src)
unfolding built
normal-built src = ground (
  arith,
  fill-parse_timestamps src.timestamps,
  fill-parse_assets src.assets,
  fill-parse_party src.party,
  elements-slice_of src.buttons,
)

ok_built :
    (src : SourceActivity) {a : Activity}
    → parse_activity (some src) ≡ ok a
    → a ≡ built src src.buttons
ok_built src h = elim (parse_activity_cases src) [ inl (q, _) ↦ cc | inr (e, q, _) ↦ cc ]

-- An accepted activity is `Equals` to its source: parsing drops only parts that are absent or zero.
pub parse_activity-equals :
    (src : SourceActivity) {a : Activity}
    → parse_activity (some src) ≡ ok a
    → equals a (as_activity src) ≡ true
parse_activity-equals src {a} h =
    (equals_iff_normal a (as_activity src)).1 (ap normal (ok_built src h) ∙ normal-built src)

rebuild : Activity → Activity
rebuild n = record n {
  timestamps = parse_timestamps n.timestamps;
  assets = parse_assets n.assets;
  party = parse_party n.party;
  buttons = slice_of (elements n.buttons);
}

built-rebuild : (src : SourceActivity) → built src src.buttons ≡ rebuild (normal (as_activity src))
unfolding built rebuild
built-rebuild src = ground (
  arith,
  parse_timestamps_of_fill src.timestamps,
  parse_assets_of_fill src.assets,
  parse_party_of_fill src.party,
)

rebuild-normal :
    (src : SourceActivity) {a : Activity}
    → parse_activity (some src) ≡ ok a
    → a ≡ rebuild (normal a)
rebuild-normal src h =
    ok_built src h
    ∙ built-rebuild src
    ∙ ap rebuild (sym (ap normal (ok_built src h) ∙ normal-built src))

-- On parsed activities `Equals` is identity: no two different results are equal to one another.
pub parse_activity_canonical :
    (src other : SourceActivity) {a b : Activity}
    → parse_activity (some src) ≡ ok a
    → parse_activity (some other) ≡ ok b
    → equals a b ≡ true
    → a ≡ b
parse_activity_canonical src other {a} {b} h k e =
    rebuild-normal src h ∙ ap rebuild ((equals_iff_normal a b).0 e) ∙ sym (rebuild-normal other k)
