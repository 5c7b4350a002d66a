-- ===== src/Activity/Tests.antt =====
-- An application and a game in src/activities/client.ts.
use strangertv.Common.{List, [], ◌∷◌, true, ◌≡◌, refl, keep, ℕ_eq, String_eq}
use strangertv.Common.Maps.{add, has}
use strangertv.Common.Int.{pos}
use strangertv.Common.Json.{int, null}
use strangertv.Activity.Messages.{init, publish, host_json}
use strangertv.Activity.Bridge.{
  Window, MessageEvent, Guest, Host, on_init, create_guest, subscribe_init, host_posts, guest_posts,
  on_publish,
}
use strangertv.Activity.Delivery.{
  guest_gets, host_posts_arrive, guest_receives_all, foreign_messages_ignored, posted_by, host_gets,
  guest_posts_arrive,
}

abbrev opener : Window
opener = record { id = 1; origin = "https://s.tv" }

abbrev frame : Window
frame = record { id = 2; origin = "https://s.tv" }

abbrev game : Guest
unfolding add has
game = subscribe_init 8 (subscribe_init 7 (create_guest frame 1))

abbrev application : Host
application = record {
  window = opener;
  content_window = 2;
  listening = true;
  readys = [];
  publishes = 5 ∷ [];
  leaves = [];
  calls = [];
}

host_posts_arrive_example :
    guest_gets (host_posts frame application (init "c" (int (pos 3)))) game
    ≡ record game { calls = on_init 7 "c" (int (pos 3)) ∷ on_init 8 "c" (int (pos 3)) ∷ [] }
unfolding game add has
host_posts_arrive_example =
    host_posts_arrive application game (init "c" (int (pos 3))) refl refl refl

guest_posts_arrive_example :
    host_gets (guest_posts opener game (publish null)) application
    ≡ record application { calls = on_publish 5 null ∷ [] }
unfolding game add has
guest_posts_arrive_example = guest_posts_arrive game application (publish null) refl refl refl

-- A message of another window, and one of the application.
abbrev mixed : List MessageEvent
mixed =
    record { origin = "https://s.tv"; source = 9; content = host_json (init "x" (int (pos 3))) }
    ∷ record { origin = "https://s.tv"; source = 1; content = host_json (init "c" (int (pos 3))) }
    ∷ []

foreign_messages_ignored_example :
    guest_receives_all mixed game
    ≡ guest_receives_all (keep (posted_by "https://s.tv" 1) mixed) game
unfolding game
foreign_messages_ignored_example = foreign_messages_ignored mixed game
