-- ===== src/Tui/View.antt =====
-- The View of internal/tui/model.go. How lipgloss renders a text in a style is a parameter.
use discord_proxy_rpc.Base.{
  ◌-◌, ◌&&◌, Option, none, some, [], ◌∷◌, ◌++◌, Text, codes, text_eq, is_nil, if◌then◌else◌, leb,
}
use discord_proxy_rpc.Activity.{Activity, elements, is_empty}
use discord_proxy_rpc.Messages.{state_connected, state_disconnected, state_reconnecting}
use discord_proxy_rpc.Tui.{
  Model, WsStatus, status_connecting, status_connected, status_reconnecting,
}
use discord_proxy_rpc.Tui.Render.{
  activity_type_label, format_timestamps, format_assets, format_party, format_buttons,
  value_or_dash,
}

-- The styles that have a name, those of the statuses, which share three colours, and the plain one.
pub data Style : Type 0 where
  title_style section_head label_style foot_style notice_style err_style : Style
  green orange red plain : Style

abbrev newline : Text
newline = 10 ∷ []

-- U+25CF and a space.
abbrev bullet : Text
bullet = 0xe2 ∷ 0x97 ∷ 0x8f ∷ 32 ∷ []

-- The first byte of an ASCII text in upper case.
abbrev capitalized : Text → Text
capitalized [] = []
capitalized (b ∷ s) = (if leb b'a' b && leb b b'z' then b - 32 else b) ∷ s

abbrev pub ws_status_text : WsStatus → Text
ws_status_text status_connecting = codes "connecting"
ws_status_text status_connected = codes "connected"
ws_status_text status_reconnecting = codes "reconnecting"

abbrev pub status_style : WsStatus → Style
status_style status_connecting = orange
status_style status_connected = green
status_style status_reconnecting = orange

-- The style of a state of the IPC connection, plain where it has none.
pub ipc_status_style : Text → Style
ipc_status_style state =
    if text_eq state state_connected
    then green
    else if text_eq state state_disconnected
    then red
    else if text_eq state state_reconnecting
    then orange
    else plain

-- The sentences have no byte outside ASCII but the U+2019 of the second.
pub source_notice : Text → Text
source_notice source =
    if text_eq source (codes "ipc")
    then codes "No activity reported by the source right now."
    else codes "No activity source: Discord IPC exposes no command to read another app"
      ++ ((0xe2 ∷ 0x80 ∷ 0x99 ∷ [])
          ++ codes "s Rich Presence, so this proxy cannot observe activity yet.")

module _ (render : Style → Text → Text) where
  pub field : Text → Text → Text
  field label value = render label_style label ++ value

  pub render_ws_status : Model → Text
  render_ws_status m = render (status_style m.ws) (bullet ++ capitalized (ws_status_text m.ws))

  pub render_ipc_status : Model → Text
  render_ipc_status m =
      let text = if is_nil m.ipc then state_disconnected else m.ipc in
      let shown = render (ipc_status_style m.ipc) (bullet ++ capitalized text) in
      if is_nil m.client_id
      then shown
      else shown ++ (codes " (client " ++ (m.client_id ++ codes ")"))

  abbrev line : Text → Text → Text
  line label value = field label value ++ newline

  pub render_activity : Model → Activity → Text
  render_activity m a =
      let times = format_timestamps a.timestamps m.now in
      let assets = format_assets a.assets in
      line (codes "Type") (activity_type_label a.type)
      ++ (line (codes "Details") (value_or_dash a.details)
          ++ (line (codes "State") (value_or_dash a.state)
              ++ (line (codes "Elapsed") times.0
                  ++ (line (codes "Remaining") times.1
                      ++ (line (codes "Large asset") assets.0
                          ++ (line (codes "Small asset") assets.1
                              ++ (line (codes "Party") (format_party a.party)
                                  ++ field (codes "Buttons")
                                      (format_buttons (elements a.buttons)))))))))

  -- The section on the activity, or a notice where there is none to show.
  pub activity_section : Model → Option Activity → Text
  activity_section m none = render notice_style (source_notice m.snapshot.source) ++ newline
  activity_section m (some a) =
      if is_empty a
      then render notice_style (source_notice m.snapshot.source) ++ newline
      else line (codes "Source") m.snapshot.source ++ (render_activity m a ++ newline)

  pub error_section : Text → Text
  error_section last_err =
      if is_nil last_err
      then []
      else newline ++ (render err_style (codes "Error: " ++ last_err) ++ newline)

  pub view : Model → Text
  view m =
      if m.quitting
      then []
      else render title_style (codes "discord-proxy-rpc")
        ++ (newline
            ++ (newline
                ++ (line (codes "Proxy") m.url
                    ++ (line (codes "WebSocket") (render_ws_status m)
                        ++ (line (codes "Discord IPC") (render_ipc_status m)
                            ++ (newline
                                ++ (render section_head (codes "Activity")
                                    ++ (newline
                                        ++ (activity_section m m.snapshot.activity
                                            ++ (error_section m.last_err
                                                ++ (newline
                                                    ++ render foot_style
                                                        (codes "q / ctrl+c to quit"))))))))))))
