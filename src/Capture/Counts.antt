-- ===== src/Capture/Counts.antt =====
-- The counts of cmd/ipc-capture/main.go add up.
use discord_proxy_rpc.Base.{
  Bool, not, ◌&&◌, if◌then◌else◌, is_nil, text_eq_iff, lookup-insert, ap, ◌∙◌, ℕ, ◌+◌, ◌≤◌, ◌≡◌,
  refl, Bool-cases, inl, inr, Option, List, [], ◌∷◌, Text, text_eq, ℤ, Map, lookup, insert, length,
  arith,
}
use discord_proxy_rpc.Capture.{
  CaptureFrame, CaptureSummary, new_capture_summary, count_of, increment, record_frame, ParsedFrame,
  classify, capture_frames,
}

abbrev pub total : Map ℕ → ℕ
total [] = 0
total ((k, n) ∷ m) = n + total m

total-insert :
    (k : Text) (n : ℕ) (m : Map ℕ) → total (insert k n m) + count_of (lookup k m) ≡ total m + n
unfolding insert lookup
total-insert k n [] = omega arith
total-insert k n ((j, v) ∷ m) = elim (Bool-cases (text_eq j k)) [
  | inl e ↦ rw e (omega arith)
  | inr e ↦ rw e (omega (arith, total-insert k n m))
]

total-increment : (k : Text) (m : Map ℕ) → total (increment k m) ≡ total m + 1
total-increment k m = omega (arith, total-insert k (count_of (lookup k m) + 1) m)

-- The opcodes are counted once for each frame, events and activities at most once.
abbrev pub AddsUp : CaptureSummary → Type 0
AddsUp s = (total s.opcodes ≡ s.frames) × (total s.events ≤ s.frames) × (s.activity ≤ s.frames)

record_frame-AddsUp :
    (s : CaptureSummary) (frame : CaptureFrame) → AddsUp s → AddsUp (record_frame s frame)
unfolding record_frame
record_frame-AddsUp s frame h =
    ground
      (arith, total-increment frame.opcode_name s.opcodes, total-increment frame.event s.events)

module _ (parse_frame : Text → Option ParsedFrame) (to_upper : Text → Text) where
  capture_frames-AddsUp :
      (s : CaptureSummary) (frames : List (ℤ × (Text × Text)))
      → AddsUp s
      → AddsUp (capture_frames parse_frame to_upper s frames)
        × ((capture_frames parse_frame to_upper s frames).frames ≡ s.frames + length frames)
  unfolding capture_frames record_frame
  capture_frames-AddsUp s [] h = (h, omega arith)
  capture_frames-AddsUp s ((opcode, (raw, time)) ∷ rest) h =
      let frame : CaptureFrame = classify parse_frame to_upper opcode raw time in
      let (k, n) =
        capture_frames-AddsUp (record_frame s frame) rest (record_frame-AddsUp s frame h) in
      (k, omega (arith, n))

  -- Whatever frames a capture reads, the summary has as many frames, its opcode counts add up to
  -- that number, and its event counts and its activity frames to no more.
  pub capture-AddsUp :
      (path : Text) (frames : List (ℤ × (Text × Text)))
      → AddsUp (capture_frames parse_frame to_upper (new_capture_summary path) frames)
        × ((capture_frames parse_frame to_upper (new_capture_summary path) frames).frames
            ≡ length frames)
  unfolding new_capture_summary
  capture-AddsUp path frames =
      let (k, n) =
        capture_frames-AddsUp (new_capture_summary path) frames (refl, omega arith, omega arith) in
      (k, omega (arith, n))

-- How many frames pass a test.
abbrev pub frames_with : (CaptureFrame → Bool) → List CaptureFrame → ℕ
frames_with p [] = 0
frames_with p (f ∷ fs) = (if p f then 1 else 0) + frames_with p fs

-- The frame has this event, and an event at all.
abbrev pub is_of_event : Text → CaptureFrame → Bool
is_of_event k f = not (is_nil f.event) && text_eq f.event k

-- A summary has counted these frames, and what it held before.
pub record HasCounted (before after : CaptureSummary) (fs : List CaptureFrame) : Type 0 where
  pub same_path : after.socket_path ≡ before.socket_path
  pub all_frames : after.frames ≡ before.frames + length fs
  pub each_opcode :
      (k : Text)
      → count_of (lookup k after.opcodes)
        ≡ count_of (lookup k before.opcodes) + frames_with (λ f. text_eq f.opcode_name k) fs
  pub each_event :
      (k : Text)
      → count_of (lookup k after.events)
        ≡ count_of (lookup k before.events) + frames_with (is_of_event k) fs
  pub activities : after.activity ≡ before.activity + frames_with (λ f. f.activity) fs

count-increment :
    (j k : Text) (m : Map ℕ)
    → count_of (lookup k (increment j m)) ≡ count_of (lookup k m) + (if text_eq j k then 1 else 0)
count-increment j k m = elim (Bool-cases (text_eq j k)) [
  | inl e ↦ ground (
    arith,
    e,
    text_eq_iff j k,
    lookup-insert j k (count_of (lookup j m) + 1) m,
    ap (λ x. count_of (lookup x m)) ((text_eq_iff j k).0 e),
  )
  | inr e ↦ ground (arith, e, lookup-insert j k (count_of (lookup j m) + 1) m)
]

record_frame-counts :
    (s : CaptureSummary) (f : CaptureFrame) → HasCounted s (record_frame s f) (f ∷ [])
unfolding record_frame
record_frame-counts s f = record {
  same_path = refl;
  all_frames = omega arith;
  each_opcode = λ k. omega (arith, count-increment f.opcode_name k s.opcodes);
  each_event = λ k. elim (Bool-cases (is_nil f.event)) [
    | inl e ↦ ground (arith, e)
    | inr e ↦ ground (arith, e, count-increment f.event k s.events)
  ];
  activities = ground arith;
}

count-then :
    (r s t : CaptureSummary) (f : CaptureFrame) (fs : List CaptureFrame)
    → HasCounted r s (f ∷ [])
    → HasCounted s t fs
    → HasCounted r t (f ∷ fs)
count-then r s t f fs a b = record {
  same_path = b.same_path ∙ a.same_path;
  all_frames = omega (arith, a.all_frames, b.all_frames);
  each_opcode = λ k. omega (arith, a.each_opcode k, b.each_opcode k);
  each_event = λ k. omega (arith, a.each_event k, b.each_event k);
  activities = omega (arith, a.activities, b.activities);
}

module _ (parse_frame : Text → Option ParsedFrame) (to_upper : Text → Text) where
  -- The frames that were read, as they are classified.
  abbrev pub classified : List (ℤ × (Text × Text)) → List CaptureFrame
  classified [] = []
  classified ((opcode, (raw, time)) ∷ rest) =
      classify parse_frame to_upper opcode raw time ∷ classified rest

  pub capture_frames-counts :
      (s : CaptureSummary) (reads : List (ℤ × (Text × Text)))
      → HasCounted s (capture_frames parse_frame to_upper s reads) (classified reads)
  unfolding capture_frames
  capture_frames-counts s [] = record {
    same_path = refl;
    all_frames = omega arith;
    each_opcode = λ k. omega arith;
    each_event = λ k. omega arith;
    activities = omega arith;
  }
  capture_frames-counts s ((opcode, (raw, time)) ∷ rest) =
      let f : CaptureFrame = classify parse_frame to_upper opcode raw time in
      count-then s (record_frame s f) (capture_frames parse_frame to_upper (record_frame s f) rest)
        f (classified rest) (record_frame-counts s f)
        (capture_frames-counts (record_frame s f) rest)
