-- ===== src/Capture/Session.antt =====
-- `capture` of cmd/ipc-capture/main.go: the session, from the connection to the summary.
pub mod Keeps
use discord_proxy_rpc.Base.{
  ℕ, ◌≡◌, Bool, true, false, Option, none, some, List, [], ◌∷◌, ◌++◌, Text, codes, is_nil, ℤ,
  if◌then◌else◌, Result, ok, err,
}
use discord_proxy_rpc.Capture.{
  CaptureFrame, CaptureSummary, ParsedFrame, new_capture_summary, record_frame, classify, dial,
}

pub data CaptureError : Type 0 where
  no_socket : Option Text → CaptureError
  handshake creating : Text → CaptureError
  writing : CaptureError

-- The package gopresence, the file system and json.Marshal: the error of Connect and of Login, of
-- creating the output, and whether bytes can be written after those already written.
pub record Host : Type 0 where
  pub dials : Text → Option Text
  pub login : Text → Option Text
  pub create : Text → Option Text
  pub write : Text → Text → Bool
  pub marshal : CaptureFrame → Option Text
  pub parse_frame : Text → Option ParsedFrame
  pub to_upper : Text → Text

-- The loop: what it counted and wrote, and whether a write failed.
pub record Progress : Type 0 where
  pub summary : CaptureSummary
  pub output : Text
  pub failed : Bool

abbrev pub newline : Text
newline = 10 ∷ []

module _ (host : Host) where
  -- A line and its newline are two writes; the first may succeed alone.
  abbrev pub write_line : Progress → Option Text → Progress
  write_line c none = c
  write_line c (some line) =
      if host.write c.output line
      then if host.write (c.output ++ line) newline
        then record c { output = c.output ++ line ++ newline }
        else record c { output = c.output ++ line; failed = true }
      else record c { failed = true }

  -- A frame with the time at which it was read.
  abbrev pub frame_of : ℤ × (Text × Text) → CaptureFrame
  frame_of (opcode, (raw, time)) = classify host.parse_frame host.to_upper opcode raw time

  abbrev pub capture_turn : Bool → Progress → CaptureFrame → Progress
  capture_turn has_out c frame =
      let counted : Progress = record c { summary = record_frame c.summary frame } in
      if has_out then write_line counted (host.marshal frame) else counted

  -- Over the frames that are read until the socket is closed or fails.
  unfoldable pub capture_loop : Bool → Progress → List (ℤ × (Text × Text)) → Progress
  capture_loop has_out c [] = c
  capture_loop has_out c (r ∷ reads) =
      let next = capture_turn has_out c (frame_of r) in
      let rest = capture_loop has_out next reads in if next.failed then next else rest

  abbrev pub ended : Progress → Result CaptureError CaptureSummary
  ended c = if c.failed then err writing else ok c.summary

  -- With no output file nothing is created, and the lines are discarded.
  abbrev pub logged_in :
      Text
      → Text
      → List (ℤ × (Text × Text))
      → Option Text
      → Result CaptureError CaptureSummary × Text
  logged_in path out reads (some e) = (err (creating e), [])
  logged_in path out reads none =
      let start : Progress = record {
        summary = new_capture_summary path;
        output = [];
        failed = false;
      } in
      let c = capture_loop (if is_nil out then false else true) start reads in (ended c, c.output)

  abbrev pub connected :
      Text
      → Text
      → List (ℤ × (Text × Text))
      → Text
      → Option Text
      → Result CaptureError CaptureSummary × Text
  connected client_id out reads path (some e) = (err (handshake e), [])
  connected client_id out reads path none =
      logged_in path out reads (if is_nil out then none else host.create out)

  abbrev pub dialed :
      Text
      → Text
      → List (ℤ × (Text × Text))
      → Result (Option Text) Text
      → Result CaptureError CaptureSummary × Text
  dialed client_id out reads (err e) = (err (no_socket e), [])
  dialed client_id out reads (ok path) = connected client_id out reads path (host.login client_id)

  -- What it returns, and what the writer of the output was given.
  unfoldable pub capture :
      List Text → Text → Text → List (ℤ × (Text × Text)) → Result CaptureError CaptureSummary × Text
  capture paths client_id out reads = dialed client_id out reads (dial host.dials none paths)
