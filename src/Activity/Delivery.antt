-- ===== src/Activity/Delivery.antt =====
-- What of a message reaches the other end of src/activities/client.ts.
use strangertv.Common.{
  ℕ, List, [], ◌∷◌, ◌++◌, map, Option, none, some, true, false, ◌&&◌, ◌≡◌, refl, sym, ap, ◌∙◌,
  String, Bool, if◌then◌else◌, ◌==◌, String_eq, ℕ_eq, keep, inl, inr, Bool-cases, arith,
}
use strangertv.Common.Json.{Json}
use strangertv.Activity.Messages.{
  HostMessage, GuestMessage, init, state, presence, ended, ready, publish, leave, host_json,
  guest_json, as_init, as_state, as_presence, as_publish, as_type,
}
use strangertv.Activity.Bridge.{
  Window, MessageEvent, post_message, GuestCall, on_init, on_state, on_presence, on_ended, HostCall,
  on_ready, on_publish, on_leave, Guest, Host, is_from, guest_receives, host_receives, host_posts,
  guest_posts, init_calls, presence_calls, ready_calls,
}
use strangertv.Activity.Decoding.{as_presence-host_json}

abbrev pub guest_gets : Option MessageEvent → Guest → Guest
guest_gets none g = g
guest_gets (some e) g = guest_receives e g

abbrev pub host_gets : Option MessageEvent → Host → Host
host_gets none h = h
host_gets (some e) h = host_receives e h

-- The calls that a message of the application is meant to make.
abbrev pub meant_for_guest : HostMessage → Guest → List GuestCall
meant_for_guest (init code instance_id) g =
    if code == "" then [] else map (λ cb. on_init cb code instance_id) g.inits
meant_for_guest (state user s) g = map (λ cb. on_state cb user s) g.states
meant_for_guest (presence users) g = map (λ cb. on_presence cb users) g.presences
meant_for_guest ended g = map (λ cb. on_ended cb) g.endeds

abbrev pub meant_for_host : GuestMessage → Host → List HostCall
meant_for_host ready h = map (λ cb. on_ready cb) h.readys
meant_for_host (publish s) h = map (λ cb. on_publish cb s) h.publishes
meant_for_host leave h = map (λ cb. on_leave cb) h.leaves

host_json-calls :
    (m : HostMessage) (g : Guest)
    → init_calls (as_init (host_json m)) (host_json m) g ≡ meant_for_guest m g
unfolding host_json as_init as_state as_presence as_type
host_json-calls (init code instance_id) g = elim (Bool-cases (code == "")) [
  | inl e ↦ rw (e) refl
  | inr e ↦ rw (e) refl
]
host_json-calls (state user s) g = refl
host_json-calls (presence users) g =
    ap (λ o. presence_calls o (host_json (presence users)) g) (as_presence-host_json users)
host_json-calls ended g = refl

guest_json-calls : (m : GuestMessage) (h : Host) → ready_calls (guest_json m) h ≡ meant_for_host m h
unfolding guest_json as_publish as_type
guest_json-calls ready h = refl
guest_json-calls (publish s) h = refl
guest_json-calls leave h = refl

post_message-same :
    (from to : Window) (v : Json)
    → to.origin ≡ from.origin
    → post_message from to v from.origin
      ≡ some (record { origin = from.origin; source = from.id; content = v })
post_message-same from to v o =
    ap
      (λ b.
        if b then some (record { origin = from.origin; source = from.id; content = v }) else none)
      ((String_eq.same_iff to.origin from.origin).1 o)

is_from-same :
    (origin : String) (window : ℕ) (e : MessageEvent)
    → e.origin ≡ origin
    → e.source ≡ window
    → is_from origin window e ≡ true
is_from-same origin window e o s =
    ground (arith, (String_eq.same_iff e.origin origin).1 o, (ℕ_eq.same_iff e.source window).1 s)

guest_receives-calls :
    (e : MessageEvent) (g : Guest)
    → g.listening ≡ true
    → is_from g.window.origin g.parent e ≡ true
    → guest_receives e g
      ≡ record g { calls = g.calls ++ init_calls (as_init e.content) e.content g }
unfolding guest_receives
guest_receives-calls e g l f =
    ap
      (λ b.
        if b then record g { calls = g.calls ++ init_calls (as_init e.content) e.content g } else g)
      (ap (λ b. b && is_from g.window.origin g.parent e) l ∙ f)

host_receives-calls :
    (e : MessageEvent) (h : Host)
    → h.listening ≡ true
    → is_from h.window.origin h.content_window e ≡ true
    → host_receives e h ≡ record h { calls = h.calls ++ ready_calls e.content h }
unfolding host_receives
host_receives-calls e h l f =
    ap (λ b. if b then record h { calls = h.calls ++ ready_calls e.content h } else h)
      (ap (λ b. b && is_from h.window.origin h.content_window e) l ∙ f)

-- Whatever the application posts to a game of its own origin that listens to it calls the game's
-- callbacks of that kind, once each, in the order of their subscription, with the same values; but
-- for a launch code that is empty, which calls none.
pub host_posts_arrive :
    (h : Host) (g : Guest) (m : HostMessage)
    → g.listening ≡ true
    → g.parent ≡ h.window.id
    → g.window.origin ≡ h.window.origin
    → guest_gets (host_posts g.window h m) g ≡ record g { calls = g.calls ++ meant_for_guest m g }
host_posts_arrive h g m l p o =
    let e : MessageEvent = record {
      origin = h.window.origin;
      source = h.window.id;
      content = host_json m;
    } in
    ap (λ x. guest_gets x g) (post_message-same h.window g.window (host_json m) o)
    ∙ guest_receives-calls e g l (is_from-same g.window.origin g.parent e (sym o) (sym p))
    ∙ ap (λ c. record g { calls = g.calls ++ c }) (host_json-calls m g)

-- Whatever the game posts to an application of its own origin that listens to its frame calls the
-- application's callbacks of that kind, once each, in order, with the same state.
pub guest_posts_arrive :
    (g : Guest) (h : Host) (m : GuestMessage)
    → h.listening ≡ true
    → h.content_window ≡ g.window.id
    → h.window.origin ≡ g.window.origin
    → host_gets (guest_posts h.window g m) h ≡ record h { calls = h.calls ++ meant_for_host m h }
guest_posts_arrive g h m l p o =
    let e : MessageEvent = record {
      origin = g.window.origin;
      source = g.window.id;
      content = guest_json m;
    } in
    ap (λ x. host_gets x h) (post_message-same g.window h.window (guest_json m) o)
    ∙ host_receives-calls e h l (is_from-same h.window.origin h.content_window e (sym o) (sym p))
    ∙ ap (λ c. record h { calls = h.calls ++ c }) (guest_json-calls m h)

unfoldable pub guest_receives_all : List MessageEvent → Guest → Guest
guest_receives_all [] g = g
guest_receives_all (e ∷ es) g = guest_receives_all es (guest_receives e g)

guest_receives-foreign :
    (e : MessageEvent) (g : Guest)
    → is_from g.window.origin g.parent e ≡ false
    → guest_receives e g ≡ g
unfolding guest_receives
guest_receives-foreign e g f = ground arith

guest_receives-ends :
    (e : MessageEvent) (g : Guest)
    → (g.window.origin ≡ (guest_receives e g).window.origin)
      × (g.parent ≡ (guest_receives e g).parent)
unfolding guest_receives
guest_receives-ends e g = ground arith

-- Posted by that window, from that origin.
abbrev pub posted_by : String → ℕ → MessageEvent → Bool
posted_by origin window e = (e.origin == origin) && (e.source == window)

is_from-posted_by :
    (origin : String) (window : ℕ) (e : MessageEvent)
    → is_from origin window e ≡ posted_by origin window e
is_from-posted_by origin window e = refl

foreign-keep :
    (origin : String) (window : ℕ) (es : List MessageEvent) (g : Guest)
    → g.window.origin ≡ origin
    → g.parent ≡ window
    → guest_receives_all es g ≡ guest_receives_all (keep (posted_by origin window) es) g
unfolding guest_receives_all
foreign-keep origin window [] g o p = refl
foreign-keep origin window (e ∷ es) g o p = elim (Bool-cases (posted_by origin window e)) [
  | inl own ↦
      let (co, cp) = guest_receives-ends e g in
      rw (own) (foreign-keep origin window es (guest_receives e g) (sym co ∙ o) (sym cp ∙ p))
  | inr other ↦ rw (other) (
      ap (guest_receives_all es) (
        guest_receives-foreign e g (
          ap (λ x. is_from x g.parent e) o
          ∙ ap (λ x. is_from origin x e) p
          ∙ is_from-posted_by origin window e
          ∙ other))
      ∙ foreign-keep origin window es g o p)
]

-- Messages whose origin is not the game's own or whose source is not its parent window have no
-- influence on a game, wherever they stand in a sequence of messages: it ends as it would if only the
-- others had come.
pub foreign_messages_ignored :
    (es : List MessageEvent) (g : Guest)
    → guest_receives_all es g ≡ guest_receives_all (keep (posted_by g.window.origin g.parent) es) g
foreign_messages_ignored es g = foreign-keep g.window.origin g.parent es g refl refl
