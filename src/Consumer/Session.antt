-- ===== src/Consumer/Session.antt =====
-- `consume` of examples/consumer/main.go: one session with the server.
use discord_proxy_rpc.Base.{
  ◌≡◌, ◌≢◌, ◌↔◌, refl, ap, ◌∙◌, Bool, true, false, not, Option, none, some, List, [], ◌∷◌, ◌++◌,
  Text, codes, is_nil, if◌then◌else◌, cut,
}
use discord_proxy_rpc.Messages.{
  ServerMessage, ClientMessage, msg_type_subscribe, msg_type_get_current, msg_type_presence,
  msg_type_state, msg_type_current,
}
use discord_proxy_rpc.Auth.{Request, AuthConfig, bearer_auth}
use discord_proxy_rpc.Auth.Tokens.{IsToken, by_header, presented_token_decides}
use discord_proxy_rpc.Consumer.{line_of, Turn}
use discord_proxy_rpc.Tui.{Decoder}

-- The Authorization header of the upgrade; "" stands for none.
abbrev pub authorization : Text → Text
authorization token = if is_nil token then [] else codes "Bearer " ++ token

abbrev pub subscribe_message : ClientMessage
subscribe_message = record {
  type = msg_type_subscribe;
  subscribe_events = msg_type_presence ∷ msg_type_state ∷ msg_type_current ∷ [];
}

abbrev pub get_current_message : ClientMessage
get_current_message = record { type = msg_type_get_current; subscribe_events = [] }

-- What the session meets: whether the dial, each of the two messages and the deadline succeed, and
-- what is read until a read fails.
pub record Connection : Type 0 where
  pub dials : Bool
  pub subscribes : Bool
  pub asks : Bool
  pub sets_deadline : Bool
  pub reads : List Text

-- What it sent, whether it received a message, and the lines that it printed.
pub record Consumed : Type 0 where
  pub sent : List ClientMessage
  pub received : Bool
  pub printed : List Text

abbrev pub failed : List ClientMessage → Consumed
failed sent = record { sent = sent; received = false; printed = [] }

module _ (quote : Text → Text) (decoder : Decoder) (decode : Text → Option ServerMessage) where
  -- A message without a line is skipped.
  abbrev pub print_line : List Text → Option Text → List Text
  print_line printed none = printed
  print_line printed (some line) = printed ++ line ∷ []

  abbrev pub read_messages : Consumed → List Text → Consumed
  read_messages s [] = s
  read_messages s (raw ∷ reads) =
      read_messages
        (record s {
          received = true;
          printed = print_line s.printed (line_of quote decoder decode raw);
        })
        reads

  abbrev pub consume : Connection → Consumed
  consume c =
      if not c.dials
      then failed []
      else if not c.subscribes
      then failed []
      else if not c.asks
      then failed (subscribe_message ∷ [])
      else if not c.sets_deadline
      then failed (subscribe_message ∷ get_current_message ∷ [])
      else read_messages (failed (subscribe_message ∷ get_current_message ∷ [])) c.reads

  -- A turn of `run` from the session, given when the context is done.
  abbrev pub turn_of : Connection → Bool → Bool → Turn
  turn_of c ctx_done cancelled = record {
    received = (consume c).received;
    ctx_done = ctx_done;
    cancelled = cancelled;
  }

authorization-cut : (t : Text) → t ≢ [] → cut b' ' (authorization t) ≡ some (codes "Bearer", t)
authorization-cut [] h = absurd (h refl)
authorization-cut (b ∷ t) h = refl

-- A server that asks for a token accepts a request with the consumer's header exactly when the
-- consumer has that token, whatever the request's other sources of a token hold.
pub authorization-decides :
    (cfg : AuthConfig) (r : Request) (t : Text)
    → cfg.enabled ≡ true
    → IsToken t
    → r.authorization ≡ authorization t
    → (bearer_auth cfg r ≡ true) ↔ (t ≡ cfg.token)
authorization-decides cfg r t e k h =
    presented_token_decides cfg r t e k
      (by_header (codes "Bearer") (ap (cut b' ') h ∙ authorization-cut t k.present) refl)
