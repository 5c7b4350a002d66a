-- ===== src/Session/Roster.antt =====
-- The participants of a group room in src/hooks/useMatchSession.ts: each user once.
use strangertv.Common.{
  ℕ, List, [], ◌∷◌, ◌++◌, Bool, true, false, not, ◌&&◌, ◌||◌, ◌≡◌, refl, arith, ◌==◌, if◌then◌else◌,
  ℕ_eq, String_eq, nat_eq_iff,
}
use strangertv.Session.State.{GroupMatchParticipant}
use strangertv.Session.Groups.{without_user}

abbrev pub has_user : ℕ → List GroupMatchParticipant → Bool
has_user user [] = false
has_user user (p ∷ ps) = p.user_id == user || has_user user ps

abbrev pub distinct : List GroupMatchParticipant → Bool
distinct [] = true
distinct (p ∷ ps) = not (has_user p.user_id ps) && distinct ps

has_user-without_user :
    (u v : ℕ) (ps : List GroupMatchParticipant)
    → has_user v (without_user u ps) ≡ (if u == v then false else has_user v ps)
unfolding without_user
has_user-without_user u v [] = ground arith
has_user-without_user u v (p ∷ ps) = ground (
  arith,
  nat_eq_iff u v,
  nat_eq_iff p.user_id u,
  nat_eq_iff p.user_id v,
  has_user-without_user u v ps,
)

pub distinct-without_user :
    (u : ℕ) (ps : List GroupMatchParticipant)
    → distinct ps ≡ true
    → distinct (without_user u ps) ≡ true
unfolding without_user
distinct-without_user u [] h = refl
distinct-without_user u (p ∷ ps) h =
    ground (arith, distinct-without_user u ps, has_user-without_user u p.user_id ps)

has_user-append :
    (v : ℕ) (ps : List GroupMatchParticipant) (q : GroupMatchParticipant)
    → has_user v (ps ++ q ∷ []) ≡ (has_user v ps || q.user_id == v)
has_user-append v [] q = ground arith
has_user-append v (p ∷ ps) q = ground (arith, has_user-append v ps q)

distinct-append :
    (ps : List GroupMatchParticipant) (q : GroupMatchParticipant)
    → distinct ps ≡ true
    → has_user q.user_id ps ≡ false
    → distinct (ps ++ q ∷ []) ≡ true
distinct-append [] q h n = refl
distinct-append (p ∷ ps) q h n = ground (
  arith,
  distinct-append ps q,
  has_user-append p.user_id ps q,
  nat_eq_iff p.user_id q.user_id,
  nat_eq_iff q.user_id p.user_id,
)

pub distinct-joined :
    (ps : List GroupMatchParticipant) (q : GroupMatchParticipant)
    → distinct ps ≡ true
    → distinct (without_user q.user_id ps ++ q ∷ []) ≡ true
distinct-joined ps q h =
    distinct-append (without_user q.user_id ps) q (distinct-without_user q.user_id ps h)
      (ground (arith, has_user-without_user q.user_id q.user_id ps, nat_eq_iff q.user_id q.user_id))
