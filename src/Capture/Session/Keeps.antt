-- ===== src/Capture/Session/Keeps.antt =====
-- A capture of cmd/ipc-capture/main.go that ends well has counted and written every frame.
use mathlib.Core.List.{append-nil, append_assoc}
use discord_proxy_rpc.Base.{
  ◌≡◌, refl, subst, sym, ap, ◌∙◌, Bool, true, false, Bool-cases, inl, inr, Option, none, some, List,
  [], ◌∷◌, ◌++◌, Text, is_nil, ℤ, if◌then◌else◌, Result, ok, err, arith,
}
use discord_proxy_rpc.Capture.{
  CaptureSummary, new_capture_summary, record_frame, capture_frames, dial,
}
use discord_proxy_rpc.Capture.Counts.{HasCounted, classified, capture_frames-counts}
use discord_proxy_rpc.Capture.Session.{
  Host, Progress, newline, write_line, frame_of, capture_turn, capture_loop, ended, logged_in,
  connected, dialed, capture,
}

-- A summary of no frame.
abbrev pub nothing_counted : Text → CaptureSummary
nothing_counted path = record {
  socket_path = path;
  frames = 0;
  opcodes = [];
  events = [];
  activity = 0;
}

module _ (host : Host) where
  -- The bytes for a frame that was marshalled, or for none.
  abbrev pub bytes_for : Option Text → Text
  bytes_for none = []
  bytes_for (some line) = line ++ newline

  abbrev pub lines : List (ℤ × (Text × Text)) → Text
  lines [] = []
  lines (r ∷ reads) = bytes_for (host.marshal (frame_of host r)) ++ lines reads

  -- What an output file gets; without one, nothing.
  abbrev pub output_of : Bool → List (ℤ × (Text × Text)) → Text
  output_of has_out reads = if has_out then lines reads else []

  write_line-kept :
      (c : Progress) (o : Option Text)
      → (write_line host c o).failed ≡ false
      → write_line host c o ≡ record c { output = c.output ++ bytes_for o; failed = false }
  write_line-kept c none h = ground (arith, h, append-nil c.output)
  write_line-kept c (some line) h = ground (arith, h, append_assoc c.output line newline)

  capture_turn-kept :
      (has_out : Bool) (c : Progress) (r : ℤ × (Text × Text)) (reads : List (ℤ × (Text × Text)))
      → (capture_turn host has_out c (frame_of host r)).failed ≡ false
      → ((capture_turn host has_out c (frame_of host r)).summary
          ≡ record_frame c.summary (frame_of host r))
        × ((capture_turn host has_out c (frame_of host r)).output ++ output_of has_out reads
            ≡ c.output ++ output_of has_out (r ∷ reads))
  capture_turn-kept true c r reads h =
      let counted : Progress = record c { summary = record_frame c.summary (frame_of host r) } in
      let o = host.marshal (frame_of host r) in
      let q = write_line-kept counted o h in
      (
        ap (λ p. p.summary) q,
        ap (λ p. p.output ++ lines reads) q ∙ append_assoc c.output (bytes_for o) (lines reads),
      )
  capture_turn-kept false c r reads h = (refl, refl)

  capture_loop-kept :
      (has_out : Bool) (c : Progress) (reads : List (ℤ × (Text × Text)))
      → (capture_loop host has_out c reads).failed ≡ false
      → ((capture_loop host has_out c reads).summary
          ≡ capture_frames host.parse_frame host.to_upper c.summary reads)
        × ((capture_loop host has_out c reads).output ≡ c.output ++ output_of has_out reads)
  unfolding capture_loop capture_frames
  capture_loop-kept true c [] h = (refl, sym (append-nil c.output))
  capture_loop-kept false c [] h = (refl, sym (append-nil c.output))
  capture_loop-kept has_out c (r ∷ reads) h =
      let next : Progress = capture_turn host has_out c (frame_of host r) in
      elim (Bool-cases next.failed) [
        | inl f ↦ absurd (ground (arith, h, f))
        | inr f ↦
            let q : capture_loop host has_out c (r ∷ reads) ≡ capture_loop host has_out next reads =
              ground (arith, f) in
            let (a, b) = capture_turn-kept has_out c r reads f in
            let (d, e) = capture_loop-kept has_out next reads (sym (ap (λ x. x.failed) q) ∙ h) in
            (
              ap (λ x. x.summary) q
                  ∙ d
                  ∙ ap (λ s. capture_frames host.parse_frame host.to_upper s reads) a,
              ap (λ x. x.output) q ∙ e ∙ b,
            )
      ]

  abbrev has_file : Text → Bool
  has_file out = if is_nil out then false else true

  -- What a session that returned `s`, and wrote `o`, has done on a path.
  abbrev Kept : Text → Text → List (ℤ × (Text × Text)) → CaptureSummary → Text → Type 0
  Kept path out reads s o =
      (s ≡ capture_frames host.parse_frame host.to_upper (new_capture_summary path) reads)
      × (o ≡ output_of (has_file out) reads)

  abbrev start : Text → Progress
  start path = record { summary = new_capture_summary path; output = []; failed = false }

  ended-ok :
      (c : Progress) (s : CaptureSummary)
      → ended host c ≡ ok s
      → (c.failed ≡ false) × (c.summary ≡ s)
  ended-ok c s h = elim (Bool-cases c.failed) [
    | inl f ↦ absurd (ground (arith, h, f))
    | inr f ↦ (f, ground (arith, h, f))
  ]

  logged_in-Kept :
      (path out : Text) (reads : List (ℤ × (Text × Text))) (created : Option Text)
      (s : CaptureSummary) (o : Text)
      → logged_in host path out reads created ≡ (ok s, o)
      → Kept path out reads s o
  logged_in-Kept path out reads (some e) s o h = absurd (ground (arith, ap (λ x. x.0) h))
  logged_in-Kept path out reads none s o h =
      let c : Progress = capture_loop host (has_file out) (start path) reads in
      let (f, q) = ended-ok c s (ap (λ x. x.0) h) in
      let (a, b) = capture_loop-kept (has_file out) (start path) reads f in
      (sym q ∙ a, sym (ap (λ x. x.1) h) ∙ b)

  connected-Kept :
      (client_id path out : Text) (reads : List (ℤ × (Text × Text))) (refused : Option Text)
      (s : CaptureSummary) (o : Text)
      → connected host client_id out reads path refused ≡ (ok s, o)
      → Kept path out reads s o
  connected-Kept client_id path out reads (some e) s o h = absurd (ground (arith, ap (λ x. x.0) h))
  connected-Kept client_id path out reads none s o h =
      logged_in-Kept path out reads (if is_nil out then none else host.create out) s o h

  dialed-Kept :
      (client_id out : Text) (reads : List (ℤ × (Text × Text))) (d : Result (Option Text) Text)
      (s : CaptureSummary) (o : Text)
      → dialed host client_id out reads d ≡ (ok s, o)
      → (path : Text) × (d ≡ ok path) × Kept path out reads s o
  dialed-Kept client_id out reads (err e) s o h = absurd (ground (arith, ap (λ x. x.0) h))
  dialed-Kept client_id out reads (ok path) s o h =
      (path, refl, connected-Kept client_id path out reads (host.login client_id) s o h)

  -- A capture that returns a summary has counted, from nothing, every frame that was read, on the path
  -- that was dialed: the frames, those of each opcode and of each event, and those of an activity. And
  -- where an output file is named, its writer was given, in order, the line of every frame that can be
  -- marshalled, and else nothing.
  pub capture_keeps_all :
      (paths : List Text) (client_id out : Text) (reads : List (ℤ × (Text × Text)))
      (s : CaptureSummary) (o : Text)
      → capture host paths client_id out reads ≡ (ok s, o)
      → (path : Text) × (dial host.dials none paths ≡ ok path)
        × HasCounted (nothing_counted path) s (classified host.parse_frame host.to_upper reads)
        × (o ≡ output_of (if is_nil out then false else true) reads)
  unfolding capture new_capture_summary
  capture_keeps_all paths client_id out reads s o h =
      let (path, d, k) = dialed-Kept client_id out reads (dial host.dials none paths) s o h in
      (
        path,
        d,
        subst
            (λ t.
              HasCounted (nothing_counted path) t (classified host.parse_frame host.to_upper reads))
            (sym k.0)
            (capture_frames-counts host.parse_frame host.to_upper (new_capture_summary path) reads),
        k.1,
      )
