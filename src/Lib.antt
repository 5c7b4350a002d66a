-- ===== src/Lib.antt =====
-- A model of the calling core of the client of strangertv, a random video chat: the WebSocket hook,
-- the session of matches above it, the WebRTC hook beside it, and the game of tic-tac-toe that two
-- matched users play; and of what surrounds it: the bridge between the application and the frame of a
-- game, the party of a call, the social store and its conversations, the camera, the settings in the
-- browser, and the start. The session joins a queue over the socket, is told of a match, has the WebRTC
-- hook connect the peers, and hands its signals on; the game is an activity of a call. The party makes a
-- group for the call, launches activities in it and invites the room over the socket; a room comes from
-- the session, which also asks for the camera's stream. The session's social events become notifications, from which the conversations learn of
-- direct messages. The start waits for the API and reads what the settings keep.
--
-- The files, and the code that they model:
--
--   Common, Common/*     JavaScript values: maps and sets, integers, JSON; shared lemmas
--   Wire                 shared/generated/*.ts, shared/types.ts: the messages and the handlers' calls;
--                        a profile and a group's peer have the fields that the client's logic reads
--   Socket/State         src/hooks/useMatchSocket.ts: the sockets, the timers, send, ensureSocket,
--                        disposeSocket
--   Socket/Dispatch      its switch over the messages
--   Socket/Requests      join, next, leave and the other requests
--   Socket/Events        onopen, onclose, onerror, onmessage, the timers' callbacks, the effects
--   Session/State        src/hooks/useMatchSession.ts: the state, the refs, a render
--   Session/Handlers     its handlers for the queue, the room and the signals
--   Session/Groups       its handlers for groups, and those that hand on
--   Session/Commands     beginMatch, stop, next, sendChat and the answers to invitations
--   Session/Run          its timeouts, the ends of its awaits, its events
--   Webrtc/Quality       src/utils/webrtcQuality.ts
--   Webrtc/Browser       the browser's peer connection, as a record of operations
--   Webrtc/Hook, Events  src/hooks/useWebRTC.ts: the state, clear, removePeer, the connections' events
--   Webrtc/Signals       handleSignal, drainPendingSignals, createPeer
--   Webrtc/Peers         createMeshPeers, cut at its awaits
--   Webrtc/Acts          the calls and the events of the hook, as a sequence
--   Tictactoe/Rules      src/activities/tictactoe/logic.ts
--   Tictactoe/Client     src/activities/tictactoe/TicTacToe.tsx: the board, the roster, the clicks
--   Activity/Messages    src/activities/client.ts: the messages, and how they are read
--   Activity/Bridge      its listeners, its subscriptions, posting
--   Party/Peers          src/hooks/useCallParty.ts: resolveCallPeers
--   Party/State, Games   src/hooks/useActivities.ts, for the group of the party
--   Party/Call           useCallParty: its operations and its effects
--   Social/Store         src/store/socialStore.ts
--   Social/Events        src/App.tsx: handleSocialEvent
--   Social/Data, Changes src/hooks/useSocialData.ts: the loads, the listeners, the mutations
--   Settings/Storage     src/utils/storage.ts
--   Settings/Setup       src/utils/clientStorage.ts: the age gate, the terms, the devices
--   Settings/Profile     its applyUserToClient
--   Settings/Share       src/utils/sharePrefs.ts
--   Media/Errors         src/utils/mediaErrors.ts
--   Media/Streams        src/hooks/useMedia.ts: ensureStream, switchDevice, stopStream
--   Age                  shared/age.ts
--   Boot/Wait            src/utils/waitForApi.ts
--   Boot/Account         src/hooks/useSessionBootstrap.ts: whose account is shown
--
-- The other modules of a folder hold the proofs, each named for what it proves, and Tests the runs.
--
-- A `_ref` of a hook and its React state are two fields, and a render copies the one to the other,
-- as the code does. Sockets, timers and tasks are known by numbers, in the order in which they are
-- made. What the code asks of the browser or of another hook is appended to a log, in order.
--
-- The browser's peer connection is a parameter: each operation may reject (`none`). createMeshPeers is
-- cut at its awaits, and anything may come in between; handleSignal and createPeer run to their end, so
-- what comes during their awaits is not modelled. A closed connection fires no event. The events of
-- the socket and of the session come in any order, one at a time; the session's awaits are tasks that
-- resume at any later event. The loops go over lists, but for that of waitForApi: it goes round by round, with fuel,
-- and one round more than the pauses that the time-out holds is shown to be enough.
--
-- Effects of a hook run after each event, in the order of their declaration, with the values of the
-- render that they belong to; where a new room meets an open session, this is the render before. The
-- answers of requests come in any order, but for those of the camera, whose calls run one after the
-- other. JSON, base64, addresses, patterns in texts and the length of a text in UTF-16 units are
-- parameters, with what the code relies on as hypotheses. The ids of users, groups, messages and
-- activities are numbers from 0.
--
-- Not modelled: video elements, the denoiser, muting and the replacement of tracks, the telemetry,
-- the notifications of the browser, the HTTP client, the deep links of e-mails, the user interface,
-- and the server, whose messages and answers are inputs.
pub mod Common
pub mod Wire
pub mod Tictactoe
pub mod Webrtc
pub mod Session
pub mod Socket
pub mod Activity
pub mod Age
pub mod Media
pub mod Party
pub mod Social
pub mod Settings
pub mod Boot
