-- ===== src/Party/Peers.antt =====
-- Who can hold a seat: `resolveCallPeers` and `peerDisplayName` of src/hooks/useCallParty.ts. The part
-- of an address before '@', trimmed, and the text of a number are parameters. No id is negative.
use Prim.Native.String.{◌++◌ as append}
use mathlib.Core.Path.{subst}
use strangertv.Common.{
  ℕ, List, [], ◌∷◌, Option, none, some, Bool, true, false, not, ◌&&◌, ◌||◌, String, ◌==◌, ℕ_eq,
  String_eq, if◌then◌else◌, any, map, ◌≡◌, refl, arith, inl, inr, Bool-cases, nat_eq_iff,
}
use strangertv.Common.Maps.{has}
use strangertv.Session.State.{GroupMatchParticipant}

pub record CallPeer : Type 0 where
  pub user_id : ℕ
  pub name : String

-- `a === b` for a number and a number or null
abbrev pub is_user : ℕ → Option ℕ → Bool
is_user id none = false
is_user id (some me) = id == me

abbrev pub peer_ids : List CallPeer → List ℕ
peer_ids peers = map (λ (p : CallPeer). p.user_id) peers

abbrev pub IsUnique : List ℕ → Type 0
IsUnique [] = Unit
IsUnique (id ∷ ids) = (has id ids ≡ false) × IsUnique ids

-- Who takes part.
abbrev pub takes_part : ℕ → Option ℕ → List GroupMatchParticipant → Bool
takes_part id peer [] = is_user id peer
takes_part id peer (p ∷ ps) = any (λ (q : GroupMatchParticipant). q.user_id == id) (p ∷ ps)

module _ (local_part : String → String) (text_of : ℕ → String) where
  abbrev named_or : String → ℕ → String
  named_or local id = if local == "" then append "User " (text_of id) else local

  unfoldable pub peer_display_name : Option String → ℕ → String
  peer_display_name none id = named_or "" id
  peer_display_name (some email) id = named_or (local_part email) id

  -- The loop of `resolveCallPeers` from `seen` on.
  unfoldable pub collect : Option ℕ → List ℕ → List GroupMatchParticipant → List CallPeer
  collect me seen [] = []
  collect me seen (p ∷ ps) =
      let skipped : Bool = is_user p.user_id me || p.user_id == 0 || has p.user_id seen in
      let rest : List CallPeer = collect me (if skipped then seen else p.user_id ∷ seen) ps in
      if skipped
      then rest
      else record { user_id = p.user_id; name = peer_display_name p.email p.user_id } ∷ rest

  abbrev single_peer : Option ℕ → Option ℕ → Option String → List CallPeer
  single_peer me none email = []
  single_peer me (some id) email =
      if id == 0 || is_user id me
      then []
      else record { user_id = id; name = peer_display_name email id } ∷ []

  unfoldable pub resolve_call_peers :
      Option ℕ → Option ℕ → Option String → List GroupMatchParticipant → List CallPeer
  resolve_call_peers me peer email [] = single_peer me peer email
  resolve_call_peers me peer email (p ∷ ps) = collect me [] (p ∷ ps)

  blocked-same :
      (j id : ℕ) (me : Option ℕ) (seen : List ℕ) (b : Bool)
      → (is_user j me || j == 0 || has j seen) ≡ b
      → (j == id) ≡ true
      → (is_user id me || id == 0 || has id seen) ≡ b
  blocked-same j id me seen b h same =
      subst (λ (i : ℕ). (is_user i me || i == 0 || has i seen) ≡ b) ((nat_eq_iff j id).0 same) h

  has-collect :
      (me : Option ℕ) (seen : List ℕ) (ps : List GroupMatchParticipant) (id : ℕ)
      → has id (peer_ids (collect me seen ps)) ≡ (
          any (λ (q : GroupMatchParticipant). q.user_id == id) ps
          && not (is_user id me)
          && not (id == 0)
          && not (has id seen))
  unfolding collect has
  has-collect me seen [] id = refl
  has-collect me seen (p ∷ ps) id =
      elim (Bool-cases (is_user p.user_id me || p.user_id == 0 || has p.user_id seen)) [
        | inl skip ↦
            rw skip (
              ground
                (arith, has-collect me seen ps id, blocked-same p.user_id id me seen true skip))
        | inr take ↦ rw take (
            ground (
              arith,
              has-collect me (p.user_id ∷ seen) ps id,
              blocked-same p.user_id id me seen false take,
            ))
      ]

  collect-IsUnique :
      (me : Option ℕ) (seen : List ℕ) (ps : List GroupMatchParticipant)
      → IsUnique (peer_ids (collect me seen ps))
  unfolding collect has
  collect-IsUnique me seen [] = tt
  collect-IsUnique me seen (p ∷ ps) =
      elim (Bool-cases (is_user p.user_id me || p.user_id == 0 || has p.user_id seen)) [
        | inl skip ↦ rw skip (collect-IsUnique me seen ps)
        | inr take ↦ rw take (
          ground (
            arith,
            has-collect me (p.user_id ∷ seen) ps p.user_id,
            nat_eq_iff p.user_id p.user_id,
          ),
          collect-IsUnique me (p.user_id ∷ seen) ps,
        )
      ]

  no_seat :
      (j id : ℕ) (me : Option ℕ) (b : Bool)
      → (j == 0 || is_user j me) ≡ b
      → (j == id) ≡ true
      → (id == 0 || is_user id me) ≡ b
  no_seat j id me b h same =
      subst (λ (i : ℕ). (i == 0 || is_user i me) ≡ b) ((nat_eq_iff j id).0 same) h

  single_peer-Seats :
      (me peer : Option ℕ) (email : Option String)
      → IsUnique (peer_ids (single_peer me peer email))
        × ((id : ℕ)
            → has id (peer_ids (single_peer me peer email))
              ≡ (is_user id peer && not (is_user id me) && not (id == 0)))
  unfolding has
  single_peer-Seats me none email = (tt, λ id. refl)
  single_peer-Seats me (some peer) email = elim (Bool-cases (peer == 0 || is_user peer me)) [
    | inl out ↦ rw out (tt, λ id. ground (arith, no_seat peer id me true out, nat_eq_iff id peer))
    | inr inside ↦
        rw inside
          ((refl, tt), λ id. ground (arith, no_seat peer id me false inside, nat_eq_iff id peer))
  ]

  -- The peers that are offered a seat are those who take part, without the user and without those that
  -- have no account, each once.
  pub resolve_call_peers-Seats :
      (me peer : Option ℕ) (email : Option String) (ps : List GroupMatchParticipant)
      → IsUnique (peer_ids (resolve_call_peers me peer email ps))
        × ((id : ℕ)
            → has id (peer_ids (resolve_call_peers me peer email ps))
              ≡ (takes_part id peer ps && not (is_user id me) && not (id == 0)))
  unfolding resolve_call_peers has
  resolve_call_peers-Seats me peer email [] = single_peer-Seats me peer email
  resolve_call_peers-Seats me peer email (p ∷ ps) =
      (collect-IsUnique me [] (p ∷ ps), λ id. ground (arith, has-collect me [] (p ∷ ps) id))
