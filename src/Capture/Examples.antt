-- ===== src/Capture/Examples.antt =====
-- A capture of three frames.
use discord_proxy_rpc.Base.{
  ok, ltb, length, ◌++◌, Map, ℕ, lookup, Distinct, false, ap, ◌∙◌, insert, text_eq, text_eq_iff,
  arith, ◌≡◌, refl, Option, none, some, List, [], ◌∷◌, Text, codes, ℤ, pos, show_int, show_nat,
  digits, err,
}
use discord_proxy_rpc.Capture.Session.{Host, writing, capture_loop, newline, capture}
use discord_proxy_rpc.Capture.Counts.{HasCounted, classified}
use discord_proxy_rpc.Capture.Session.Keeps.{nothing_counted, lines, capture_keeps_all}
use discord_proxy_rpc.Capture.Summary.{format_counts, print_summary}
use discord_proxy_rpc.Capture.Summary.Printed.{SameEntries, summary_unordered}
use discord_proxy_rpc.Capture.{
  CaptureSummary, new_capture_summary, ParsedFrame, classify, capture_frames, opcode_name,
  record_frame, dial,
}

abbrev activity_event : Text → Option ParsedFrame
activity_event raw = some (record { command = codes "DISPATCH"; event = codes "ACTIVITY_JOIN" })

abbrev upper : Text → Text
upper s = s

abbrev frames_read : List (ℤ × (Text × Text))
frames_read = (pos 0, (codes "{}", [])) ∷ (pos 1, (codes "{}", [])) ∷ (pos 1, (codes "x", [])) ∷ []

abbrev captured : CaptureSummary
captured = capture_frames activity_event upper (new_capture_summary (codes "/tmp/s")) frames_read

activity_frames : captured.activity ≡ 2
unfolding capture_frames record_frame classify new_capture_summary
activity_frames = refl

unknown_opcode : opcode_name (pos 17) ≡ codes "opcode-17"
unfolding opcode_name show_int show_nat digits
unknown_opcode = refl

nothing_listens :
    dial (λ path. some (codes "refused")) none (codes "a" ∷ codes "b" ∷ [])
    ≡ err (some (codes "refused"))
unfolding dial
nothing_listens = refl

counts_sorted :
    format_counts ((codes "pong", 2) ∷ (codes "frame", 11) ∷ (codes "close", 1) ∷ [])
    ≡ codes "close=1 frame=11 pong=2"
unfolding format_counts lookup text_eq show_nat digits
counts_sorted = refl

no_counts : format_counts [] ≡ codes "-"
unfolding format_counts
no_counts = refl

-- The opcodes of the capture in the other order.
abbrev other_order : Map ℕ
other_order = (codes "frame", 2) ∷ (codes "handshake", 1) ∷ []

captured_opcodes : captured.opcodes ≡ (codes "handshake", 1) ∷ (codes "frame", 2) ∷ []
unfolding capture_frames record_frame classify new_capture_summary opcode_name insert lookup text_eq
captured_opcodes = refl

swapped :
    (i j : Text) (m n : ℕ) (k : Text)
    → text_eq i j ≡ false
    → lookup k ((i, m) ∷ (j, n) ∷ []) ≡ lookup k ((j, n) ∷ (i, m) ∷ [])
unfolding lookup
swapped i j m n k e = ground (arith, text_eq_iff i k, text_eq_iff j k, text_eq_iff i j)

other_order-Distinct : Distinct other_order
unfolding lookup text_eq
other_order-Distinct = (refl, (refl, tt))

captured_events-Distinct : Distinct captured.events
unfolding capture_frames record_frame classify new_capture_summary insert lookup text_eq
captured_events-Distinct = (refl, tt)

same_opcodes : SameEntries captured.opcodes other_order
unfolding text_eq
same_opcodes k =
    ap (lookup k) captured_opcodes ∙ swapped (codes "handshake") (codes "frame") 1 2 k refl

summary_unordered_example :
    print_summary captured
    ≡ print_summary (record captured { opcodes = other_order; events = captured.events })
summary_unordered_example =
    summary_unordered activity_event upper (codes "/tmp/s") frames_read other_order captured.events
      other_order-Distinct captured_events-Distinct same_opcodes (λ k. refl)

-- A disk with room for `room` bytes, and one socket that listens.
abbrev host : ℕ → Host
host room = record {
  dials = λ path. none;
  login = λ client_id. none;
  create = λ path. none;
  write = λ o bytes. ltb (length (o ++ bytes)) room;
  marshal = λ frame. some frame.payload;
  parse_frame = activity_event;
  to_upper = upper;
}

abbrev written : Text
written = codes "{}" ++ newline ++ codes "{}" ++ newline ++ codes "x" ++ newline

all_written :
    capture (host 100) (codes "/tmp/s" ∷ []) (codes "1") (codes "out") frames_read
    ≡ (ok captured, written)
unfolding capture dial capture_loop capture_frames record_frame classify new_capture_summary
all_written = refl

-- The second frame is not written, and its count is lost with the summary.
disk_full :
    capture (host 5) (codes "/tmp/s" ∷ []) (codes "1") (codes "out") frames_read
    ≡ (err writing, codes "{}" ++ newline)
unfolding capture dial capture_loop record_frame classify new_capture_summary
disk_full = refl

capture_keeps_all_example :
    (path : Text) × (dial (λ p. none) none (codes "/tmp/s" ∷ []) ≡ ok path)
    × HasCounted (nothing_counted path) captured (classified activity_event upper frames_read)
    × (written ≡ lines (host 100) frames_read)
capture_keeps_all_example =
    capture_keeps_all (host 100) (codes "/tmp/s" ∷ []) (codes "1") (codes "out") frames_read
      captured written all_written
