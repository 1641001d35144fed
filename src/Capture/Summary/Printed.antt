-- ===== src/Capture/Summary/Printed.antt =====
-- The summary of cmd/ipc-capture/main.go does not depend on the order in which Go ranges over a map.
use discord_proxy_rpc.Base.{
  ℕ, ◌≡◌, refl, sym, ap, ◌∙◌, false, Option, none, some, is_some, List, [], ◌∷◌, ◌++◌, Text, codes,
  is_nil, if◌then◌else◌, Map, lookup, insert-Distinct, ℤ, ◌+◌, if_elim, show_nat, text_eq_refl,
  Distinct, map, arith,
}
use discord_proxy_rpc.Capture.{
  CaptureFrame, CaptureSummary, count_of, increment, record_frame, ParsedFrame, classify,
  capture_frames, new_capture_summary,
}
use discord_proxy_rpc.Capture.Summary.{
  sort_strings, keys, join_parts, part_of, format_counts, summary_text, print_summary,
}
use discord_proxy_rpc.Capture.Summary.Ascending.{
  is_key, IsDistinct, is_key-sort_strings, sort_strings-IsAscending, ascending_unique,
}

-- Two maps of the same entries, which may stand in different orders.
abbrev pub SameEntries : Map ℕ → Map ℕ → Type 0
SameEntries m n = (k : Text) → lookup k m ≡ lookup k n

is_key-keys : (x : Text) (m : Map ℕ) → is_key x (keys m) ≡ is_some (lookup x m)
unfolding lookup
is_key-keys x [] = refl
is_key-keys x ((k, n) ∷ m) = ground (arith, is_key-keys x m)

none-is_some : {A : Type 0} (o : Option A) → o ≡ none → is_some o ≡ false
none-is_some none e = refl
none-is_some (some x) e = cc

keys-IsDistinct : (m : Map ℕ) → Distinct m → IsDistinct (keys m)
keys-IsDistinct [] d = tt
keys-IsDistinct ((k, n) ∷ m) d =
    (is_key-keys k m ∙ none-is_some (lookup k m) d.0, keys-IsDistinct m d.1)

keys_same :
    (m n : Map ℕ)
    → Distinct m
    → Distinct n
    → SameEntries m n
    → sort_strings (keys m) ≡ sort_strings (keys n)
keys_same m n d e s =
    ascending_unique (sort_strings (keys m)) (sort_strings (keys n))
      (sort_strings-IsAscending (keys m) (keys-IsDistinct m d))
      (sort_strings-IsAscending (keys n) (keys-IsDistinct n e))
      (λ x.
        is_key-sort_strings x (keys m)
        ∙ is_key-keys x m
        ∙ ap (λ o. is_some o) (s x)
        ∙ sym (is_key-keys x n)
        ∙ sym (is_key-sort_strings x (keys n)))

parts_same :
    (m n : Map ℕ) (ks : List Text) → SameEntries m n → map (part_of m) ks ≡ map (part_of n) ks
parts_same m n [] s = refl
parts_same m n (k ∷ ks) s =
    ap (λ o. (k ++ (codes "=" ++ show_nat (count_of o))) ∷ map (part_of m) ks) (s k)
    ∙ ap (λ l. part_of n k ∷ l) (parts_same m n ks s)

nil_same : (m n : Map ℕ) → SameEntries m n → is_nil m ≡ is_nil n
unfolding lookup
nil_same [] [] s = refl
nil_same [] ((k, v) ∷ n) s = absurd (ground (arith, s k, text_eq_refl k))
nil_same ((k, v) ∷ m) [] s = absurd (ground (arith, s k, text_eq_refl k))
nil_same ((k, v) ∷ m) ((j, w) ∷ n) s = refl

format_counts_same :
    (m n : Map ℕ) → Distinct m → Distinct n → SameEntries m n → format_counts m ≡ format_counts n
unfolding format_counts
format_counts_same m n d e s =
    ap (λ b. if b then codes "-" else join_parts (map (part_of m) (sort_strings (keys m))))
      (nil_same m n s)
    ∙ ap (λ ks. if is_nil n then codes "-" else join_parts ks)
        (parts_same m n (sort_strings (keys m)) s ∙ ap (map (part_of n)) (keys_same m n d e s))

-- Each key of the two maps of a summary stands there once.
abbrev IsKeyed : CaptureSummary → Type 0
IsKeyed s = Distinct s.opcodes × Distinct s.events

increment-Distinct : (k : Text) (m : Map ℕ) → Distinct m → Distinct (increment k m)
increment-Distinct k m d = insert-Distinct k (count_of (lookup k m) + 1) m d

record_frame-IsKeyed :
    (s : CaptureSummary) (frame : CaptureFrame) → IsKeyed s → IsKeyed (record_frame s frame)
unfolding record_frame
record_frame-IsKeyed s frame k = (
  increment-Distinct frame.opcode_name s.opcodes k.0,
  if_elim Distinct (is_nil frame.event) k.1 (increment-Distinct frame.event s.events k.1),
)

module _ (parse_frame : Text → Option ParsedFrame) (to_upper : Text → Text) where
  capture_frames-IsKeyed :
      (s : CaptureSummary) (frames : List (ℤ × (Text × Text)))
      → IsKeyed s
      → IsKeyed (capture_frames parse_frame to_upper s frames)
  unfolding capture_frames
  capture_frames-IsKeyed s [] k = k
  capture_frames-IsKeyed s ((opcode, (raw, time)) ∷ rest) k =
      capture_frames-IsKeyed (record_frame s (classify parse_frame to_upper opcode raw time)) rest
        (record_frame-IsKeyed s (classify parse_frame to_upper opcode raw time) k)

  abbrev pub captured : Text → List (ℤ × (Text × Text)) → CaptureSummary
  captured path frames = capture_frames parse_frame to_upper (new_capture_summary path) frames

  -- Whatever frames are captured, the printed summary is the same in whichever order Go ranges over
  -- the maps of the opcodes and of the events.
  pub summary_unordered :
      (path : Text) (frames : List (ℤ × (Text × Text))) (opcodes events : Map ℕ)
      → Distinct opcodes
      → Distinct events
      → SameEntries (captured path frames).opcodes opcodes
      → SameEntries (captured path frames).events events
      → print_summary (captured path frames)
        ≡ print_summary (record (captured path frames) { opcodes = opcodes; events = events })
  unfolding print_summary new_capture_summary
  summary_unordered path frames opcodes events d e s t =
      let k : IsKeyed (captured path frames) =
        capture_frames-IsKeyed (new_capture_summary path) frames (tt, tt) in
      ap (λ o. summary_text (captured path frames) o (format_counts (captured path frames).events))
        (format_counts_same (captured path frames).opcodes opcodes k.0 d s)
      ∙ ap (λ v. summary_text (captured path frames) (format_counts opcodes) v)
          (format_counts_same (captured path frames).events events k.1 e t)
