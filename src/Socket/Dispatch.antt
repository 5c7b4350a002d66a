-- ===== src/Socket/Dispatch.antt =====
-- The `switch` of `onmessage` in src/hooks/useMatchSocket.ts.
use strangertv.Common.{Option, none, some, true, false}
use strangertv.Wire.{
  ServerMessage, queue_waiting, room_matched, room_peer_left, stats, error, report_ack, block_ack,
  server_draining, group_message_new, friend_request, friend_accepted, friend_declined,
  friend_removed, message_new, invitation_accepted, invitation_declined, group_invite,
  group_invite_accepted, group_invite_declined, group_match_created, group_match_participant_joined,
  group_match_participant_left, group_match_invite_received, group_match_invite_sent,
  group_match_invite_declined, presence_list, presence_online, presence_offline,
  group_match_matched, activity_presence, activity_ended, activity_launched, activity_invited,
  unhandled,
}
use strangertv.Wire.{
  Call, on_waiting, on_matched, on_peer_left, on_signal, on_chat, on_stats, on_error, on_report_ack,
  on_block_ack, on_draining, on_group_message, on_friend_request, on_friend_accepted,
  on_friend_declined, on_friend_removed, on_message_new, on_invitation, on_invitation_accepted,
  on_invitation_declined, on_group_invite, on_group_invite_accepted, on_group_invite_declined,
  on_group_match_created, on_group_match_participant_joined, on_group_match_participant_left,
  on_group_match_invite_received, on_group_match_invite_sent, on_group_match_invite_declined,
  on_group_match_matched, on_presence_list, on_presence_change, on_activity_state,
  on_activity_presence, on_activity_ended, on_activity_launched, on_activity_invited,
}

unfoldable pub dispatch : ServerMessage → Option Call
dispatch (queue_waiting position online) = some (on_waiting position online)
dispatch (room_matched room role meta) = some (on_matched room role meta)
dispatch (room_peer_left reason) = some (on_peer_left reason)
dispatch (ServerMessage.signal payload from) = some (on_signal payload from)
dispatch (ServerMessage.chat text time) = some (on_chat text time)
dispatch (stats online waiting) = some (on_stats online waiting)
dispatch (error code message) = some (on_error code message)
dispatch report_ack = some on_report_ack
dispatch block_ack = some on_block_ack
dispatch (server_draining message) = some (on_draining message)
dispatch (group_message_new message) = some (on_group_message message)
dispatch (friend_request friend from) = some (on_friend_request friend from)
dispatch (friend_accepted friend from) = some (on_friend_accepted friend from)
dispatch (friend_declined friend) = some (on_friend_declined friend)
dispatch (friend_removed friend) = some (on_friend_removed friend)
dispatch (message_new message) = some (on_message_new message)
dispatch (ServerMessage.invitation_send id room inviter) = some (on_invitation id room inviter)
dispatch (invitation_accepted id room) = some (on_invitation_accepted id room)
dispatch (invitation_declined id) = some (on_invitation_declined id)
dispatch (group_invite id group name inviter) = some (on_group_invite id group name inviter)
dispatch (group_invite_accepted id group user) = some (on_group_invite_accepted id group user)
dispatch (group_invite_declined id group user) = some (on_group_invite_declined id group user)
dispatch (group_match_created room visibility) = some (on_group_match_created room visibility)
dispatch (group_match_participant_joined room user email) =
    some (on_group_match_participant_joined room user email)
dispatch (group_match_participant_left room user peer) =
    some (on_group_match_participant_left room user peer)
dispatch (group_match_invite_received room host) = some (on_group_match_invite_received room host)
dispatch (group_match_invite_sent user) = some (on_group_match_invite_sent user)
dispatch (group_match_invite_declined room) = some (on_group_match_invite_declined room)
dispatch (presence_list users) = some (on_presence_list users)
dispatch (presence_online user) = some (on_presence_change user true)
dispatch (presence_offline user) = some (on_presence_change user false)
dispatch (group_match_matched room role peers interests me) =
    some (on_group_match_matched room role peers interests me)
dispatch (ServerMessage.activity_state instance_id user state) =
    some (on_activity_state instance_id user state)
dispatch (activity_presence instance_id participants) =
    some (on_activity_presence instance_id participants)
dispatch (activity_ended instance_id) = some (on_activity_ended instance_id)
dispatch (activity_launched game activity) = some (on_activity_launched game activity)
dispatch (activity_invited room game activity inviter) =
    some (on_activity_invited room game activity inviter)
dispatch (unhandled type) = none
