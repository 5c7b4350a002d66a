-- ===== src/Party/Invites.antt =====
-- A room is invited once for each game: what src/hooks/useCallParty.ts sends while the room stays.
use mathlib.Core.Path.{subst}
use strangertv.Common.{
  ℕ, List, [], ◌∷◌, ◌++◌, Option, none, some, Bool, true, false, not, ◌&&◌, ◌||◌, String, ◌==◌,
  ℕ_eq, ◌≡◌, refl, sym, arith, inl, inr, Bool-cases, nat_eq_iff,
}
use strangertv.Common.Maps.{has}
use strangertv.Party.Peers.{is_user, IsUnique}
use strangertv.Party.State.{Instance, ActivitySession, Sent, invite_room, Party}
use strangertv.Party.Call.{
  invites, joins, invite_effect, join_effect, effects, Event, act, step, steps,
}
use strangertv.Party.Quiet.{Quiet, Stays, invites_of, invites_of-append, joins-Quiet, act-Quiet}

-- What has been sent is unique and known.
abbrev pub Known : Party → Type 0
Known s =
    IsUnique (invites_of s.sent)
    × ((id : ℕ) → has id (invites_of s.sent) ≡ true → has id s.sent_invites ≡ true)

abbrev KnownLists : List ℕ → List ℕ → Type 0
KnownLists sent known = IsUnique sent × ((id : ℕ) → has id sent ≡ true → has id known ≡ true)

has-end : (id j : ℕ) (ids : List ℕ) → has id (ids ++ j ∷ []) ≡ (has id ids || j == id)
unfolding has
has-end id j [] = ground arith
has-end id j (i ∷ ids) = ground (arith, has-end id j ids)

end-IsUnique :
    (id : ℕ) (ids : List ℕ) → IsUnique ids → has id ids ≡ false → IsUnique (ids ++ id ∷ [])
unfolding has
end-IsUnique id [] u h = (refl, tt)
end-IsUnique id (j ∷ ids) (new, u) h = (
  ground (arith, has-end j id ids, nat_eq_iff id j, nat_eq_iff j id),
  end-IsUnique id ids u (ground arith),
)

kept-Known : (s t : Party) → Quiet s t → Known s → Known t
kept-Known s t (same, known) k =
    subst (λ (l : List ℕ). KnownLists l t.sent_invites) (sym same)
      (subst (λ (l : List ℕ). KnownLists (invites_of s.sent) l) (sym known) k)

unsent : (sent known : Bool) → (sent ≡ true → known ≡ true) → known ≡ false → sent ≡ false
unsent true known h new = ground (arith, h refl)
unsent false known h new = refl

sent-KnownLists :
    (id : ℕ) (sent known : List ℕ)
    → has id known ≡ false
    → KnownLists sent known
    → KnownLists (sent ++ id ∷ []) (id ∷ known)
unfolding has
sent-KnownLists id sent known new (u, k) = (
  end-IsUnique id sent u (unsent (has id sent) (has id known) (k id) new),
  λ j h. ground (arith, has-end j id sent, k j),
)

invites-Known :
    (session : Option ActivitySession) (room : Option String) (s : Party)
    → Known s
    → Known (invites session room s)
invites-Known none room s k = k
invites-Known (some session) none s k = k
invites-Known (some session) (some room) s k =
    let game : Instance = session.instance_of in
    elim (Bool-cases
      (s.connected && is_user game.created_by s.user_id && not (has game.id s.sent_invites))) [
        | inl go ↦ rw go (
            subst (λ (l : List ℕ). KnownLists l (game.id ∷ s.sent_invites))
              (sym (invites_of-append s.sent (invite_room room game.id ∷ [])))
              (sent-KnownLists game.id (invites_of s.sent) s.sent_invites (ground arith) k))
        | inr stay ↦ rw stay k
      ]

effects-Known : (s : Party) → Known s → Known (effects s)
unfolding effects invite_effect join_effect
effects-Known s k =
    let t : Party = invites s.session s.room s in
    kept-Known t (joins t.join_id t) (joins-Quiet t.join_id t) (invites-Known s.session s.room s k)

abbrev pub AllStay : List Event → Type 0
AllStay [] = Unit
AllStay (e ∷ rest) = Stays e × AllStay rest

steps-Known : (events : List Event) (s : Party) → AllStay events → Known s → Known (steps events s)
unfolding steps step
steps-Known [] s _ k = k
steps-Known (e ∷ rest) s (stays, all) k =
    steps-Known rest (step e s) all
      (effects-Known (act e s) (kept-Known s (act e s) (act-Quiet e s stays) k))

none_sent : (known : List ℕ) → KnownLists [] known
unfolding has
none_sent known = (tt, λ id h. ground arith)

-- While the room stays, whatever happens, the room is invited at most once to each game.
pub steps-invites_once :
    (events : List Event) (s : Party)
    → AllStay events
    → s.sent ≡ []
    → IsUnique (invites_of (steps events s).sent)
steps-invites_once events s all e =
    let start : Known s =
      subst (λ (l : List Sent). KnownLists (invites_of l) s.sent_invites) (sym e)
        (none_sent s.sent_invites) in
    (steps-Known events s all start).0
