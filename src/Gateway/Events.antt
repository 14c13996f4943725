-- ===== src/Gateway/Events.antt =====
-- gateway/src/sse.rs: the gateway's events, the frames they are sent as, and the stream of a
-- subscriber. A JSON value is what serde_json holds, its members as the code writes them; its
-- numbers are a parameter. `serialize` is serde_json's, `none` an error.
use rust_web_fullstack.Prelude.{
  ℕ, Bool, String, Text, codes, Option, none, some, List, [], ◌∷◌, ◌++◌,
}

mutual
  pub data Json (N : Type 0) : Type 0 where
    null : Json N
    boolean : Bool → Json N
    number : N → Json N
    string : Text → Json N
    array : Items N → Json N
    object : Members N → Json N

  pub data Items (N : Type 0) : Type 0 where
    no_items : Items N
    item : Json N → Items N → Items N

  pub data Members (N : Type 0) : Type 0 where
    no_members : Members N
    member : Text → Json N → Members N → Members N

pub data GatewayEvent (N : Type 0) : Type 0 where
  service_started service_stopped : String → GatewayEvent N
  health_changed : String → Text → GatewayEvent N
  custom : String → Json N → GatewayEvent N

-- The event's name and its data.
pub record Frame : Type 0 where
  pub event : String
  pub data_text : Text

-- What `BroadcastStream` yields.
pub data Received (N : Type 0) : Type 0 where
  arrived : GatewayEvent N → Received N
  lagged : ℕ → Received N

module _ {N : Type 0} where
  -- An object with these members, in their order.
  abbrev pub members : List (String × Json N) → Members N
  members [] = no_members
  members ((key, value) ∷ rest) = member (codes key) value (members rest)

  -- `GatewayEventView`, as serde writes it: the type, and the fields under "data".
  abbrev view : String → List (String × Json N) → Json N
  view type fields =
      object (members (("type", string (codes type)) ∷ ("data", object (members fields)) ∷ []))

  module _ (serialize : Json N → Option Text) where
    unfoldable pub build_event : String → Json N → Frame
    build_event event_name payload = record {
      event = event_name;
      data_text = elim (serialize payload) [
        | none ↦ codes "serialization error"
        | some text ↦ text
      ];
    }

    -- `From<GatewayEvent> for Event`.
    unfoldable pub frame : GatewayEvent N → Frame
    unfolding build_event
    frame (service_started name) =
        build_event "service_started" (view "service_started" (("name", string (codes name)) ∷ []))
    frame (service_stopped name) =
        build_event "service_stopped" (view "service_stopped" (("name", string (codes name)) ∷ []))
    frame (health_changed name status) =
        build_event "health_changed"
          (view "health_changed" (("name", string (codes name)) ∷ ("status", string status) ∷ []))
    frame (custom type payload) = build_event type payload

    -- The frames of a subscriber, from what its stream yields until the channel closes.
    unfoldable pub sse_handler : List (Received N) → List Frame
    unfolding frame
    sse_handler [] = []
    sse_handler (arrived event ∷ rest) = frame event ∷ sse_handler rest
    sse_handler (lagged n ∷ rest) = sse_handler rest

  -- The channel's record of what was sent, to which `publish_event` adds.
  unfoldable pub publish_event : List (GatewayEvent N) → GatewayEvent N → List (GatewayEvent N)
  publish_event sent event = sent ++ event ∷ []
