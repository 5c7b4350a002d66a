-- ===== src/Activity/Bridge.antt =====
-- The two ends of src/activities/client.ts. A window, and a callback, is known by a number.
use strangertv.Common.{
  ℕ, List, [], ◌++◌, map, Option, none, some, Bool, true, false, ◌&&◌, String, ◌==◌, ℕ_eq,
  String_eq, if◌then◌else◌,
}
use strangertv.Common.Maps.{add, discard}
use strangertv.Common.Json.{Json, Number}
use strangertv.Activity.Messages.{
  ActivityPresenceUser, HostMessage, GuestMessage, host_json, guest_json, as_type, as_init,
  as_state, as_presence, as_publish,
}

pub record Window : Type 0 where
  pub id : ℕ
  pub origin : String

pub record MessageEvent : Type 0 where
  pub origin : String
  pub source : ℕ
  pub content : Json

-- `to.postMessage(content, target)`, called by `from`: the event that reaches `to`, if any does.
abbrev pub post_message : Window → Window → Json → String → Option MessageEvent
post_message from to content target =
    if to.origin == target
    then some (record { origin = from.origin; source = from.id; content = content })
    else none

-- The calls of the game's callbacks.
pub data GuestCall : Type 0 where
  on_init : ℕ → String → Number → GuestCall
  on_state : ℕ → Number → Json → GuestCall
  on_presence : ℕ → List ActivityPresenceUser → GuestCall
  on_ended : ℕ → GuestCall

-- The calls of the application's callbacks.
pub data HostCall : Type 0 where
  on_ready : ℕ → HostCall
  on_publish : ℕ → Json → HostCall
  on_leave : ℕ → HostCall

-- `createActivityGuest`
pub record Guest : Type 0 where
  pub window : Window
  pub parent : ℕ
  pub listening : Bool
  pub inits : List ℕ
  pub states : List ℕ
  pub presences : List ℕ
  pub endeds : List ℕ
  pub calls : List GuestCall

-- `createActivityHost`, for an iframe that has a window
pub record Host : Type 0 where
  pub window : Window
  pub content_window : ℕ
  pub listening : Bool
  pub readys : List ℕ
  pub publishes : List ℕ
  pub leaves : List ℕ
  pub calls : List HostCall

abbrev pub create_guest : Window → ℕ → Guest
create_guest window parent = record {
  window = window;
  parent = parent;
  listening = true;
  inits = [];
  states = [];
  presences = [];
  endeds = [];
  calls = [];
}

abbrev pub create_host : Window → Option ℕ → Option Host
create_host window none = none
create_host window (some content_window) = some (record {
  window = window;
  content_window = content_window;
  listening = true;
  readys = [];
  publishes = [];
  leaves = [];
  calls = [];
})

-- The calls that a message makes, from its data.
abbrev ended_calls : Json → Guest → List GuestCall
ended_calls v g = if as_type v "activity:ended" then map (λ cb. on_ended cb) g.endeds else []

abbrev pub presence_calls : Option (List ActivityPresenceUser) → Json → Guest → List GuestCall
presence_calls (some users) v g = map (λ cb. on_presence cb users) g.presences
presence_calls none v g = ended_calls v g

abbrev state_calls : Option (Number × Json) → Json → Guest → List GuestCall
state_calls (some (user, s)) v g = map (λ cb. on_state cb user s) g.states
state_calls none v g = presence_calls (as_presence v) v g

abbrev pub init_calls : Option (String × Number) → Json → Guest → List GuestCall
init_calls (some (code, instance_id)) v g = map (λ cb. on_init cb code instance_id) g.inits
init_calls none v g = state_calls (as_state v) v g

-- Whether an event comes from the counterpart.
abbrev pub is_from : String → ℕ → MessageEvent → Bool
is_from origin window e = e.origin == origin && e.source == window

-- The game's listener.
unfoldable pub guest_receives : MessageEvent → Guest → Guest
guest_receives e g =
    if g.listening && is_from g.window.origin g.parent e
    then record g { calls = g.calls ++ init_calls (as_init e.content) e.content g }
    else g

abbrev leave_calls : Json → Host → List HostCall
leave_calls v h = if as_type v "activity:leave" then map (λ cb. on_leave cb) h.leaves else []

abbrev publish_calls : Option Json → Json → Host → List HostCall
publish_calls (some s) v h = map (λ cb. on_publish cb s) h.publishes
publish_calls none v h = leave_calls v h

abbrev pub ready_calls : Json → Host → List HostCall
ready_calls v h =
    if as_type v "activity:ready"
    then map (λ cb. on_ready cb) h.readys
    else publish_calls (as_publish v) v h

-- The application's listener.
unfoldable pub host_receives : MessageEvent → Host → Host
host_receives e h =
    if h.listening && is_from h.window.origin h.content_window e
    then record h { calls = h.calls ++ ready_calls e.content h }
    else h

-- `init`, `pushState`, `pushPresence`, `pushEnded`
abbrev pub host_posts : Window → Host → HostMessage → Option MessageEvent
host_posts frame h m = post_message h.window frame (host_json m) h.window.origin

-- `ready`, `publish`, `leave`
abbrev pub guest_posts : Window → Guest → GuestMessage → Option MessageEvent
guest_posts opener g m = post_message g.window opener (guest_json m) g.window.origin

-- `onInit` and the others, and the functions that they return
abbrev pub subscribe_init : ℕ → Guest → Guest
subscribe_init cb g = record g { inits = add cb g.inits }

abbrev pub unsubscribe_init : ℕ → Guest → Guest
unsubscribe_init cb g = record g { inits = discard cb g.inits }

abbrev pub subscribe_state : ℕ → Guest → Guest
subscribe_state cb g = record g { states = add cb g.states }

abbrev pub subscribe_presence : ℕ → Guest → Guest
subscribe_presence cb g = record g { presences = add cb g.presences }

abbrev pub subscribe_ended : ℕ → Guest → Guest
subscribe_ended cb g = record g { endeds = add cb g.endeds }

abbrev pub subscribe_ready : ℕ → Host → Host
subscribe_ready cb h = record h { readys = add cb h.readys }

abbrev pub subscribe_publish : ℕ → Host → Host
subscribe_publish cb h = record h { publishes = add cb h.publishes }

abbrev pub subscribe_leave : ℕ → Host → Host
subscribe_leave cb h = record h { leaves = add cb h.leaves }

abbrev pub dispose_guest : Guest → Guest
dispose_guest g = record g { listening = false }

abbrev pub dispose_host : Host → Host
dispose_host h = record h { listening = false }
