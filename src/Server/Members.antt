-- ===== src/Server/Members.antt =====
-- `Server::remove_member` of ServerSource/src/Server/Server.cpp.
use mathlib.Core.List.{Perm}
use mathlib.Core.List.Perm
use nat_data_collector.Prelude.{
  ℕ, zero, suc, ◌+◌, ◌≡◌, refl, Bool, false, ◌||◌, Option, none, some, List, [], ◌∷◌, ◌++◌, ◌==◌,
  if◌then◌else◌, arith, length, length-append, Option-cases, inl, inr, true, ◌≢◌, ◌⊎◌, ap, All,
  Bool-cases, ==_iff, ==_self,
}
use nat_data_collector.Prelude.OrderedMap.{find, insert, find-insert}
use nat_data_collector.Data.{User, Lobby}
use nat_data_collector.Server.{Server}

module _ {J : Type 0} where
  -- The inner `find_if`: whether a user is among those to remove.
  unfoldable pub is_listed : List (User J) → User J → Bool
  is_listed [] u = false
  is_listed (m ∷ ms) u = m.session == u.session || is_listed ms u

  -- `std::remove_if` moves the elements to keep to the front, in their order, and gives back the
  -- new end, which the program drops: the vector keeps its length. What stands behind the new end
  -- is not specified, and so a parameter, `moved`, of the place.
  unfoldable pub kept : (User J → Bool) → List (User J) → List (User J)
  kept p [] = []
  kept p (u ∷ us) = let rest = kept p us in if p u then rest else u ∷ rest

  unfoldable pub removed : (User J → Bool) → List (User J) → ℕ
  removed p [] = 0
  removed p (u ∷ us) = let rest = removed p us in if p u then suc rest else rest

  unfoldable pub leftovers : (ℕ → User J) → ℕ → List (User J)
  leftovers moved zero = []
  leftovers moved (suc n) = moved n ∷ leftovers moved n

  unfoldable pub remove_if : (ℕ → User J) → (User J → Bool) → List (User J) → List (User J)
  unfolding kept removed leftovers
  remove_if moved p us = kept p us ++ leftovers moved (removed p us)

  abbrev pub with_joined :
      Server J → ℕ → (List (User J) → List (User J)) → Option (Lobby J) → Server J
  with_joined s key f none = s
  with_joined s key f (some l) = record s {
    lobbies = insert key (record l { joined = f l.joined }) s.lobbies;
  }

  unfoldable pub remove_member : (ℕ → User J) → Server J → User J → List (User J) → Server J
  unfolding remove_if is_listed
  remove_member moved s owner members =
      with_joined s owner.session (remove_if moved (is_listed members))
        (find owner.session s.lobbies)

  length-remove_if :
      (moved : ℕ → User J) (p : User J → Bool) (us : List (User J))
      → length (remove_if moved p us) ≡ length us
  unfolding remove_if
  length-remove_if moved p us = omega (
    arith,
    length-append {0} (kept p us) (leftovers moved (removed p us)),
    length-leftovers moved (removed p us),
    length-kept p us,
  )
    where
      length-leftovers : (moved : ℕ → User J) (n : ℕ) → length (leftovers moved n) ≡ n
      length-leftovers moved zero = refl
      length-leftovers moved (suc n) = omega (arith, length-leftovers moved n)

      length-kept :
          (p : User J → Bool) (us : List (User J)) → length (kept p us) + removed p us ≡ length us
      length-kept p [] = refl
      length-kept p (u ∷ us) = ground (arith, length-kept p us)

  abbrev pub joined_count : Option (Lobby J) → Option ℕ
  joined_count none = none
  joined_count (some l) = some (length l.joined)

  -- A user has the session of one of the members, or of none.
  abbrev pub IsMember : List (User J) → User J → Type 0
  IsMember [] u = ⊥
  IsMember (m ∷ ms) u = (m.session ≡ u.session) ⊎ IsMember ms u

  abbrev pub IsNoMember : List (User J) → User J → Type 0
  IsNoMember members u = All (λ m. m.session ≢ u.session) members

  is_listed-IsMember : (ms : List (User J)) (u : User J) → is_listed ms u ≡ true → IsMember ms u
  unfolding is_listed
  is_listed-IsMember [] u e = cc e
  is_listed-IsMember (m ∷ ms) u e = elim (Bool-cases (m.session == u.session)) [
    | inl same ↦ inl ((==_iff m.session u.session).0 same)
    | inr other ↦ inr (is_listed-IsMember ms u (rw other at e))
  ]

  is_listed-IsNoMember :
      (ms : List (User J)) (u : User J) → is_listed ms u ≡ false → IsNoMember ms u
  unfolding is_listed
  is_listed-IsNoMember [] u e = tt
  is_listed-IsNoMember (m ∷ ms) u e = elim (Bool-cases (m.session == u.session)) [
    | inl same ↦ cc (rw same at e)
    | inr other ↦ (ground (arith, other), is_listed-IsNoMember ms u (rw other at e))
  ]

  -- What `remove_if` drops.
  unfoldable dropped : (User J → Bool) → List (User J) → List (User J)
  dropped p [] = []
  dropped p (u ∷ us) = let rest = dropped p us in if p u then u ∷ rest else rest

  perm_middle : (u : User J) (xs ys : List (User J)) → Perm (xs ++ u ∷ ys) (u ∷ xs ++ ys)
  perm_middle u [] ys = Perm.refl (u ∷ ys)
  perm_middle u (x ∷ xs) ys =
      Perm.trans (Perm.cons x (perm_middle u xs ys)) (Perm.swap u x (xs ++ ys))

  kept-dropped : (p : User J → Bool) (us : List (User J)) → Perm (kept p us ++ dropped p us) us
  unfolding kept dropped
  kept-dropped p [] = Perm.refl []
  kept-dropped p (u ∷ us) = elim (Bool-cases (p u)) [
    | inl e ↦
        rw e
          (Perm.trans (perm_middle u (kept p us) (dropped p us)) (Perm.cons u (kept-dropped p us)))
    | inr e ↦ rw e (Perm.cons u (kept-dropped p us))
  ]

  kept-All : (members us : List (User J)) → All (IsNoMember members) (kept (is_listed members) us)
  unfolding kept
  kept-All members [] = tt
  kept-All members (u ∷ us) = elim (Bool-cases (is_listed members u)) [
    | inl e ↦ rw e (kept-All members us)
    | inr e ↦ rw e (is_listed-IsNoMember members u e, kept-All members us)
  ]

  dropped-All :
      (members us : List (User J)) → All (IsMember members) (dropped (is_listed members) us)
  unfolding dropped
  dropped-All members [] = tt
  dropped-All members (u ∷ us) = elim (Bool-cases (is_listed members u)) [
    | inl e ↦ rw e (is_listed-IsMember members u e, dropped-All members us)
    | inr e ↦ rw e (dropped-All members us)
  ]

  length-leftovers :
      (moved : ℕ → User J) (p : User J → Bool) (us : List (User J))
      → length (leftovers moved (removed p us)) ≡ length (dropped p us)
  unfolding leftovers removed dropped
  length-leftovers moved p [] = refl
  length-leftovers moved p (u ∷ us) = elim (Bool-cases (p u)) [
    | inl e ↦ rw e (ap suc (length-leftovers moved p us))
    | inr e ↦ rw e (length-leftovers moved p us)
  ]

  joined_counts :
      (moved : ℕ → User J) (s : Server J) (owner : User J) (members : List (User J)) (key : ℕ)
      → joined_count (find key (remove_member moved s owner members).lobbies)
        ≡ joined_count (find key s.lobbies)
  unfolding remove_member
  joined_counts moved s owner members key = elim (Option-cases (find owner.session s.lobbies)) [
    | inl e ↦ rw e
    | inr (l, e) ↦ rw e (
        rw
          (find-insert key owner.session
            (record l { joined = remove_if moved (is_listed members) l.joined }) s.lobbies)
          (ground (arith, e, length-remove_if moved (is_listed members) l.joined)))
  ]

  -- `remove_member` never makes the list of joined users shorter: every lobby has as many joined
  -- users afterwards as before. In the lobby of the owner, those who have the session of none of the
  -- members stand in front; behind them stand as many users as the members are that should have been
  -- removed, and which users these are is not specified, so that one of the members may still be
  -- among them or not.
  pub remove_member_keeps_count :
      (moved : ℕ → User J) (s : Server J) (owner : User J) (members : List (User J)) (l : Lobby J)
      (key : ℕ)
      → find owner.session s.lobbies ≡ some l
      → let t = remove_member moved s owner members in
        (joined_count (find key t.lobbies) ≡ joined_count (find key s.lobbies))
        × ((front : List (User J)) × (gone : List (User J)) × (rest : List (User J)) × (find
                owner.session t.lobbies
              ≡ some (record l { joined = front ++ rest }))
            × Perm (front ++ gone) l.joined
            × All (IsNoMember members) front
            × All (IsMember members) gone
            × (length rest ≡ length gone))
  unfolding remove_member remove_if
  remove_member_keeps_count moved s owner members l key e =
      let p = is_listed members in
      let new : Lobby J = record l { joined = remove_if moved p l.joined } in
      (
        joined_counts moved s owner members key,
        (
          kept p l.joined,
          dropped p l.joined,
          leftovers moved (removed p l.joined),
          rw e (
              rw (find-insert owner.session owner.session new s.lobbies, ==_self owner.session)
                refl),
          kept-dropped p l.joined,
          kept-All members l.joined,
          dropped-All members l.joined,
          length-leftovers moved p l.joined,
        ),
      )
