-- ===== src/Activity/Examples.antt =====
-- Activities of pkg/types/activity_test.go's kind, and the theorems at them.
use discord_proxy_rpc.Base.{◌≡◌, ◌↔◌, refl, true, false, some, text_eq, pos}
use discord_proxy_rpc.Activity.{
  Activity, zero_activity, equals, is_empty, timestamps_equal, assets_equal, party_equal,
  buttons_equal,
}
use discord_proxy_rpc.Activity.Normal.{normal, equals_iff_normal}

abbrev zero_times : Activity
zero_times = record zero_activity { timestamps = some (record { start = pos 0; end = pos 0 }) }

zero_times_equal : equals zero_times zero_activity ≡ true
unfolding equals text_eq timestamps_equal assets_equal party_equal buttons_equal
zero_times_equal = refl

zero_times_not_empty : is_empty zero_times ≡ false
unfolding is_empty
zero_times_not_empty = refl

equals_iff_normal_example :
    (equals zero_times zero_activity ≡ true) ↔ (normal zero_times ≡ normal zero_activity)
equals_iff_normal_example = equals_iff_normal zero_times zero_activity
