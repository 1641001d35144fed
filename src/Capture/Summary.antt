-- ===== src/Capture/Summary.antt =====
-- The summary that cmd/ipc-capture/main.go prints.
pub mod Ascending
pub mod Printed
use discord_proxy_rpc.Base.{
  ℕ, Bool, true, false, Option, none, some, List, [], ◌∷◌, ◌++◌, Text, codes, is_nil, ltb, ◌==◌,
  if◌then◌else◌, Map, lookup, show_nat, map,
}
use discord_proxy_rpc.Capture.{CaptureSummary, count_of}

-- `s < t` on Go strings: byte by byte.
abbrev pub text_lt : Text → Text → Bool
text_lt [] [] = false
text_lt [] (b ∷ t) = true
text_lt (a ∷ s) [] = false
text_lt (a ∷ s) (b ∷ t) =
    let rest = text_lt s t in if ltb a b then true else if a == b then rest else false

-- sort.Strings.
abbrev pub insert_sorted : Text → List Text → List Text
insert_sorted k [] = k ∷ []
insert_sorted k (j ∷ js) =
    let rest = insert_sorted k js in if text_lt k j then k ∷ j ∷ js else j ∷ rest

abbrev pub sort_strings : List Text → List Text
sort_strings [] = []
sort_strings (k ∷ ks) = insert_sorted k (sort_strings ks)

abbrev pub keys : Map ℕ → List Text
keys [] = []
keys ((k, n) ∷ m) = k ∷ keys m

-- strings.Join with a space.
abbrev pub join_parts : List Text → Text
join_parts [] = []
join_parts (p ∷ []) = p
join_parts (p ∷ q ∷ ps) = p ++ (codes " " ++ join_parts (q ∷ ps))

abbrev pub part_of : Map ℕ → Text → Text
part_of counts k = k ++ (codes "=" ++ show_nat (count_of (lookup k counts)))

-- formatCounts. The loop over the map fixes the order of the keys before they are sorted.
unfoldable pub format_counts : Map ℕ → Text
format_counts counts =
    if is_nil counts
    then codes "-"
    else join_parts (map (part_of counts) (sort_strings (keys counts)))

abbrev line : Text → Text
line s = s ++ (10 ∷ [])

abbrev pub verdict : ℕ → Text
verdict activity =
    if activity == 0
    then line (codes "No ACTIVITY frame was observed. Discord's local IPC socket does not")
      ++ line (codes "push another application's Rich Presence, so the proxy has no activity")
      ++ line (codes "source via IPC and correctly reports source=\"none\".")
    else line (
        codes "Found "
        ++ show_nat activity
        ++ codes " ACTIVITY frame(s). Discord does push Rich Presence on this setup;")
      ++ line (codes "share this capture so the ACTIVITY frame can be wired into the proxy source.")

-- The lines, given the texts of the two maps.
abbrev pub summary_text : CaptureSummary → Text → Text → Text
summary_text s opcodes events =
    line (codes "=== IPC capture summary ===")
    ++ line (codes "socket:          " ++ s.socket_path)
    ++ line (codes "frames:          " ++ show_nat s.frames)
    ++ line (codes "opcodes:         " ++ opcodes)
    ++ line (codes "events:          " ++ events)
    ++ line (codes "activity frames: " ++ show_nat s.activity)
    ++ line []
    ++ verdict s.activity

-- What printSummary writes, where each write succeeds.
unfoldable pub print_summary : CaptureSummary → Text
print_summary s = summary_text s (format_counts s.opcodes) (format_counts s.events)
