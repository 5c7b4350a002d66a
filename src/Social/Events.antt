-- ===== src/Social/Events.antt =====
-- What `handleSocialEvent` of src/App.tsx makes of an event of the session, lines 125 to 166. The
-- part of an address before '@', the first 80 characters of a text and the fields of a message are
-- parameters.
use Prim.Native.String.{◌++◌ as append}
use strangertv.Common.{ℕ, Option, none, some, String}
use strangertv.Wire.{PublicUser}
use strangertv.Social.Store.{
  NotificationKind, Detail, nothing, of_sender, of_invitation, of_group_invite, Draft,
}

-- `SocialWsEvent`
pub data SocialEvent : Type 0 where
  friend_request friend_accepted : ℕ → PublicUser → SocialEvent
  friend_declined friend_removed : ℕ → SocialEvent
  message_new : ℕ → String → SocialEvent
  invitation_send : ℕ → String → PublicUser → SocialEvent
  invitation_accepted : ℕ → String → SocialEvent
  invitation_declined : ℕ → SocialEvent
  group_invite : ℕ → ℕ → String → PublicUser → SocialEvent
  group_invite_accepted group_invite_declined : ℕ → ℕ → ℕ → SocialEvent
  match_invite_received : String → PublicUser → SocialEvent
  participant_joined : String → ℕ → SocialEvent
  participant_left : String → ℕ → SocialEvent

unfoldable pub kind_of : SocialEvent → NotificationKind
kind_of (friend_request _ _) = NotificationKind.friend_request
kind_of (friend_accepted _ _) = NotificationKind.friend_accepted
kind_of (message_new _ _) = NotificationKind.message
kind_of (invitation_send _ _ _) = NotificationKind.invitation
kind_of (invitation_accepted _ _) = NotificationKind.invitation
kind_of (invitation_declined _) = NotificationKind.invitation
kind_of _ = NotificationKind.group_invite

unfoldable pub title_of : SocialEvent → String
title_of (friend_request _ _) = "Friend Request"
title_of (friend_accepted _ _) = "Request Accepted"
title_of (message_new _ _) = "New Message"
title_of (invitation_send _ _ _) = "Match Invitation"
title_of (invitation_accepted _ _) = "Invitation Accepted"
title_of (invitation_declined _) = "Invitation Declined"
title_of _ = "Group Invite"

-- `'from' in msg && msg.from`
unfoldable pub from_of : SocialEvent → Option PublicUser
from_of (friend_request _ from) = some from
from_of (friend_accepted _ from) = some from
from_of _ = none

unfoldable pub detail_of : SocialEvent → Detail
detail_of (message_new sender _) = of_sender sender
detail_of (invitation_send id room _) = of_invitation id room
detail_of (invitation_accepted id room) = of_invitation id room
detail_of (group_invite id group _ _) = of_group_invite id group
detail_of _ = nothing

-- What is taken of a text: `split('@')[0]` and `slice(0, 80)`.
pub record Texts : Type 0 where
  pub local_part : String → String
  pub first_80 : String → String

abbrev pub name_of : Texts → Option PublicUser → String
name_of x none = ""
name_of x (some from) = x.local_part from.email

unfoldable pub body_of : Texts → SocialEvent → String
unfolding from_of
body_of x (invitation_send _ _ inviter) =
    append (x.local_part inviter.email) " invited you to a match"
body_of x (invitation_accepted _ _) = "Your invitation was accepted"
body_of x (invitation_declined _) = "Your invitation was declined"
body_of x (message_new _ text) = x.first_80 text
body_of x (group_invite _ _ name inviter) =
    append (x.local_part inviter.email) (append " invited you to \"" (append name "\""))
body_of x (group_invite_accepted _ _ _) = "Someone joined your group"
body_of x (friend_request id from) =
    append (name_of x (from_of (friend_request id from))) " wants to be your friend"
body_of x event = append (name_of x (from_of event)) " accepted your request"

unfoldable pub draft_of : Texts → SocialEvent → Draft
draft_of x event = record {
  kind = kind_of event;
  title = title_of event;
  body = body_of x event;
  from = from_of event;
  detail = detail_of event;
}
