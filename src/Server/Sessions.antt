-- ===== src/Server/Sessions.antt =====
-- The removal of expired sessions (ServerSource/src/Server/Server.cpp).
use nat_data_collector.Prelude.{
  ℕ, suc, ◌≡◌, ◌⊎◌, ◌↔◌, ◌∙◌, refl, sym, ap, Bool, true, false, Option, none, some, List, [], ◌∷◌,
  arith, All, Bool-cases, inl, inr, length,
}
use nat_data_collector.Prelude.OrderedMap.{
  Map, find, contains, erase_if, IsSorted, find-erase_if, keep_unless, erase_if_id,
  length-erase_if-le,
}
use mathlib.Core.Path.{subst}
use nat_data_collector.Data.{User, Lobby}
use nat_data_collector.Server.{
  Server, Libs, send_all_lobbies, remove_expired_sessions, is_orphan, lacks_session, is_expired,
}

module _ {J : Type 0} (lib : Libs J) (s : Server J) where
  abbrev pub alive : Map Bool
  alive = erase_if is_expired s.sessions

  -- The states in which the removal can end.
  pub remove_expired_cases :
      ((length alive ≡ length s.sessions) × (remove_expired_sessions lib s ≡ s))
      ⊎ (¬ (length alive ≡ length s.sessions)
          × ((remove_expired_sessions lib s).sessions ≡ alive)
          × ((remove_expired_sessions lib s).lobbies ≡ erase_if (is_orphan alive) s.lobbies))
  unfolding remove_expired_sessions send_all_lobbies
  remove_expired_cases = ground arith

-- Owner and joined users all have a session.
abbrev pub IsConnected : {J : Type 0} → Map Bool → ℕ × Lobby J → Type 0
IsConnected sessions (key, l) =
    (contains key sessions ≡ true) × All (λ u. contains u.session sessions ≡ true) l.joined

lacks_session-All :
    {J : Type 0} (sessions : Map Bool) (us : List (User J))
    → (lacks_session sessions us ≡ false) ↔ All (λ u. contains u.session sessions ≡ true) us
unfolding lacks_session
lacks_session-All sessions [] = ((λ _. tt), (λ _. refl))
lacks_session-All sessions (u ∷ us) =
    let ih = lacks_session-All sessions us in
    ((λ h. (ground arith, ih.0 (ground arith))), (λ h. ground (arith, ih.1 h.1)))

is_orphan-IsConnected :
    {J : Type 0} (sessions : Map Bool) (x : ℕ × Lobby J)
    → (is_orphan sessions x ≡ false) ↔ IsConnected sessions x
unfolding is_orphan
is_orphan-IsConnected sessions (key, l) =
    let all = lacks_session-All sessions l.joined in
    ((λ h. (ground arith, all.0 (ground arith))), (λ h. ground (arith, all.1 h.1)))

keep_unless_iff :
    {V : Type 0} (p : ℕ × V → Bool) (k : ℕ) (o : Option V) (v : V)
    → (keep_unless p k o ≡ some v) ↔ ((o ≡ some v) × (p (k, v) ≡ false))
keep_unless_iff p k none v = ((λ h. cc), (λ h. cc))
keep_unless_iff p k (some w) v = elim (Bool-cases (p (k, w))) [
  | inl e ↦ (
    (λ h. cc (rw e at h)),
    (λ h.
        let q : w ≡ v = cc h.0 in
        let out : p (k, w) ≡ false = subst (λ x. p (k, x) ≡ false) (sym q) h.1 in cc),
  )
  | inr e ↦ (
    (λ h. let q : w ≡ v = cc (rw e at h) in (ap some q, subst (λ x. p (k, x) ≡ false) q e)),
    (λ h. rw e h.0),
  )
]

abbrev pub live_only : Option Bool → Option Bool
live_only (some true) = some true
live_only _ = none

is_expired-live_only : (key : ℕ) (o : Option Bool) → keep_unless is_expired key o ≡ live_only o
is_expired-live_only key o = ground arith

find-alive :
    {J : Type 0} (s : Server J) (key : ℕ)
    → IsSorted s.sessions
    → find key (erase_if is_expired s.sessions) ≡ live_only (find key s.sessions)
find-alive s key ss =
    find-erase_if 0 key is_expired s.sessions ss ∙ is_expired-live_only key (find key s.sessions)

IsConnected-iff :
    {J : Type 0} (sessions : Map Bool) (key : ℕ) (l : Lobby J) (o : Option (Lobby J))
    → (keep_unless (is_orphan sessions) key o ≡ some l)
      ↔ ((o ≡ some l) × IsConnected sessions (key, l))
IsConnected-iff sessions key l o =
    let kept = keep_unless_iff (is_orphan sessions) key o l in
    let orphan = is_orphan-IsConnected sessions (key, l) in
    ((λ h. ((kept.0 h).0, orphan.0 (kept.0 h).1)), (λ h. kept.1 (h.0, orphan.1 h.1)))

erase_if_none : (m : Map Bool) → All (λ x. x.1 ≡ true) m → length (erase_if is_expired m) ≡ length m
unfolding erase_if
erase_if_none [] h = refl
erase_if_none ((k, true) ∷ m) h = ap suc (erase_if_none m h.1)
erase_if_none ((k, false) ∷ m) h = cc h.0

erase_if_same : (m : Map Bool) → length (erase_if is_expired m) ≡ length m → All (λ x. x.1 ≡ true) m
unfolding erase_if
erase_if_same [] h = tt
erase_if_same ((k, true) ∷ m) h = (refl, erase_if_same m (omega arith))
erase_if_same ((k, false) ∷ m) h = absurd (omega (arith, length-erase_if-le is_expired m))

-- Of sorted sessions and lobbies: what remains of the sessions are those whose object lives. If all
-- of them live, nothing changes at all; if some do not, what remains of the lobbies are exactly those
-- whose owner and joined users all have a session still.
pub remove_expired_sessions_lem :
    {J : Type 0} (lib : Libs J) (s : Server J) (key : ℕ) (l : Lobby J)
    → IsSorted s.sessions
    → IsSorted s.lobbies
    → let t = remove_expired_sessions lib s in
      (find key t.sessions ≡ live_only (find key s.sessions))
      × ((All (λ x. x.1 ≡ true) s.sessions × (t ≡ s))
          ⊎ (¬ (All (λ x. x.1 ≡ true) s.sessions)
              × ((find key t.lobbies ≡ some l)
                  ↔ ((find key s.lobbies ≡ some l) × IsConnected t.sessions (key, l)))))
remove_expired_sessions_lem lib s key l ss sl = elim (remove_expired_cases lib s) [
  | inl (len, same) ↦ (
    rw same (ap (find key) (sym (erase_if_id is_expired s.sessions len)) ∙ find-alive s key ss),
    inl (erase_if_same s.sessions len, same),
  )
  | inr (fewer, sessions, lobbies) ↦ (
    rw sessions (find-alive s key ss),
    inr (
      (λ all. fewer (erase_if_none s.sessions all)),
      rw (sessions, lobbies, find-erase_if 0 key (is_orphan (alive lib s)) s.lobbies sl)
          (IsConnected-iff (alive lib s) key l (find key s.lobbies)),
    ),
  )
]
