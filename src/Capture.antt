-- ===== src/Capture.antt =====
-- cmd/ipc-capture/main.go: the classification and the counting of captured frames.
pub mod Counts
pub mod Summary
pub mod Session
mod Examples
use discord_proxy_rpc.Base.{
  ℕ, suc, ◌+◌, ◌-◌, ◌≡◌, Bool, true, false, ◌&&◌, ◌||◌, Option, none, some, List, [], ◌∷◌, ◌++◌,
  Text, codes, text_eq, is_nil, is_some, ℤ, pos, int_eq, leb, if◌then◌else◌, Map, lookup, insert,
  strip_prefix, show_nat, show_int, Result, ok, err,
}

-- captureFrame. `time` is already formatted.
pub record CaptureFrame : Type 0 where
  pub time : Text
  pub opcode : ℤ
  pub opcode_name : Text
  pub command : Text
  pub event : Text
  pub activity : Bool
  pub payload : Text

pub record CaptureSummary : Type 0 where
  pub socket_path : Text
  pub frames : ℕ
  pub opcodes : Map ℕ
  pub events : Map ℕ
  pub activity : ℕ

unfoldable pub new_capture_summary : Text → CaptureSummary
new_capture_summary path = record {
  socket_path = path;
  frames = 0;
  opcodes = [];
  events = [];
  activity = 0;
}

-- `m[k]`, which is 0 for a missing key, and `m[k]++`.
abbrev pub count_of : Option ℕ → ℕ
count_of none = 0
count_of (some n) = n

abbrev pub increment : Text → Map ℕ → Map ℕ
increment k m = insert k (count_of (lookup k m) + 1) m

-- Counters of type int, which a capture does not reach the bound of.
unfoldable pub record_frame : CaptureSummary → CaptureFrame → CaptureSummary
record_frame s frame = record s {
  frames = s.frames + 1;
  opcodes = increment frame.opcode_name s.opcodes;
  events = (if is_nil frame.event then s.events else increment frame.event s.events);
  activity = (if frame.activity then s.activity + 1 else s.activity);
}

unfoldable pub opcode_name : ℤ → Text
opcode_name op =
    if int_eq op (pos 0)
    then codes "handshake"
    else if int_eq op (pos 1)
    then codes "frame"
    else if int_eq op (pos 2)
    then codes "close"
    else if int_eq op (pos 3)
    then codes "ping"
    else if int_eq op (pos 4)
    then codes "pong"
    else codes "opcode-" ++ show_int op

-- strings.Contains.
abbrev pub contains : Text → Text → Bool
contains part [] = is_nil part
contains part (b ∷ s) =
    let later = contains part s in if is_some (strip_prefix part (b ∷ s)) then true else later

-- What ParseFrame of the package gopresence reads of a frame.
pub record ParsedFrame : Type 0 where
  pub command : Text
  pub event : Text

-- ParseFrame and ToUpper are parameters.
module _ (parse_frame : Text → Option ParsedFrame) (to_upper : Text → Text) where
  unfoldable pub classify : ℤ → Text → Text → CaptureFrame
  classify opcode raw time =
      let bare : CaptureFrame = record {
        time = time;
        opcode = opcode;
        opcode_name = opcode_name opcode;
        command = [];
        event = [];
        activity = false;
        payload = raw;
      } in
      let parsed : CaptureFrame = elim (parse_frame raw) [
        | none ↦ bare
        | some p ↦ record bare {
          command = p.command;
          event = p.event;
          activity = contains (codes "ACTIVITY") (to_upper p.event);
        }
      ] in
      if int_eq opcode (pos 1) then parsed else bare

  -- What the loop of `capture` counts of the frames that are read until the socket is closed.
  unfoldable pub capture_frames : CaptureSummary → List (ℤ × (Text × Text)) → CaptureSummary
  capture_frames s [] = s
  capture_frames s ((opcode, (raw, time)) ∷ rest) =
      capture_frames (record_frame s (classify opcode raw time)) rest

-- `dial`: the first path that accepts a connection, else the last error.
pub dial : (Text → Option Text) → Option Text → List Text → Result (Option Text) Text
dial connect last_err [] = err last_err
dial connect last_err (path ∷ paths) = elim (connect path) [
  | none ↦ ok path
  | some e ↦ dial connect (some e) paths
]
