-- ===== src/Scoreboard/Scores.antt =====
-- The order of the scores, and the connection of AndroidSource/src/Components/Scoreboard.cpp.
use mathlib.Core.List.{Perm}
use mathlib.Core.List.Perm
use nat_data_collector.Prelude.{
  ◌≤◌, true, none, List, [], ◌∷◌, ◌≡◌, refl, leb, leb→le, All, Bool-cases, inl, inr, arith, Gives,
  if-true,
}
use nat_data_collector.Types.{Transaction, ErrorType}
use nat_data_collector.Errors.{failed, is}
use nat_data_collector.Protocol.{DataPackage, get_object}
use nat_data_collector.Data.{ClientId}
use nat_data_collector.Model.{Model}
use nat_data_collector.UserData.{Information}
use nat_data_collector.Client.{Ends, invalid, disconnect, valid}
use nat_data_collector.Scoreboard.{
  Scoreboard, Codecs, insert_score, sort_scores, shutdown, handle_transaction, request_scores,
}

-- No user has more samples than one in front of it.
abbrev pub IsDescending : List ClientId → Type 0
IsDescending [] = Unit
IsDescending (a ∷ rest) =
    All (λ b. b.uploaded_samples ≤ a.uploaded_samples) rest × IsDescending rest

insert_score-All :
    (P : ClientId → Type 0) (a : ClientId) (bs : List ClientId)
    → P a
    → All P bs
    → All P (insert_score a bs)
unfolding insert_score
insert_score-All P a [] p h = (p, h)
insert_score-All P a (b ∷ bs) p h = elim (Bool-cases (leb b.uploaded_samples a.uploaded_samples)) [
  | inl e ↦ rw e (p, h)
  | inr e ↦ rw e (h.0, insert_score-All P a bs p h.1)
]

All-imp :
    (P Q : ClientId → Type 0) (bs : List ClientId)
    → ((b : ClientId) → P b → Q b)
    → All P bs
    → All Q bs
All-imp P Q [] f h = h
All-imp P Q (b ∷ bs) f h = (f b h.0, All-imp P Q bs f h.1)

insert_score-IsDescending :
    (a : ClientId) (bs : List ClientId) → IsDescending bs → IsDescending (insert_score a bs)
unfolding insert_score
insert_score-IsDescending a [] h = (tt, tt)
insert_score-IsDescending a (b ∷ bs) h =
    elim (Bool-cases (leb b.uploaded_samples a.uploaded_samples)) [
      | inl e ↦ rw e (
        (
          leb→le b.uploaded_samples a.uploaded_samples e,
          All-imp (λ c. c.uploaded_samples ≤ b.uploaded_samples)
              (λ c. c.uploaded_samples ≤ a.uploaded_samples) bs
              (λ c le. omega (arith, leb→le b.uploaded_samples a.uploaded_samples e)) h.0,
        ),
        h,
      )
      | inr e ↦ rw e (
        insert_score-All (λ c. c.uploaded_samples ≤ b.uploaded_samples) a bs (ground arith) h.0,
        insert_score-IsDescending a bs h.1,
      )
    ]

insert_score-perm : (a : ClientId) (bs : List ClientId) → Perm (insert_score a bs) (a ∷ bs)
unfolding insert_score
insert_score-perm a [] = Perm.refl (a ∷ [])
insert_score-perm a (b ∷ bs) = elim (Bool-cases (leb b.uploaded_samples a.uploaded_samples)) [
  | inl e ↦ rw e (Perm.refl (a ∷ b ∷ bs))
  | inr e ↦ rw e (Perm.trans (Perm.cons b (insert_score-perm a bs)) (Perm.swap a b bs))
]

-- The scores come out in descending order of the samples, and none is lost or added.
pub sort_scores_lem : (l : List ClientId) → IsDescending (sort_scores l) × Perm (sort_scores l) l
unfolding sort_scores
sort_scores_lem [] = (tt, Perm.refl [])
sort_scores_lem (a ∷ rest) =
    let ih = sort_scores_lem rest in
    (
      insert_score-IsDescending a (sort_scores rest) ih.0,
      Perm.trans (insert_score-perm a (sort_scores rest)) (Perm.cons a ih.1),
    )

module _ {J : Type 0} (codecs : Codecs J) where
  -- When an answer with scores has come whose content the library reads as a list of users without
  -- an error, the scoreboard holds these users, each as often, with the most samples in front, and the
  -- client has disconnected: its four futures have no task and no result, and no queue is left.
  pub handle_transaction-scores :
      (model : Model) (info : Information) (ends : Ends) (pkg : DataPackage J) (s : Scoreboard)
      (sent : List ClientId)
      → pkg.transaction ≡ Transaction.client_receive_scores
      → is ErrorType.answer pkg.error ≡ true
      → codecs.scores.deserialize s.scores pkg.content ≡ (sent, [])
      → Gives
          (λ u.
            IsDescending u.scores
            × Perm u.scores sent
            × (u.client.rw_future ≡ invalid)
            × (u.client.analyze_nat_future ≡ invalid)
            × (u.client.traverse_nat_future ≡ invalid)
            × (u.client.http_future ≡ invalid)
            × (u.client.read_queue ≡ none)
            × (u.client.write_queue ≡ none))
          (handle_transaction codecs model info ends pkg s)
  unfolding handle_transaction shutdown disconnect get_object
  handle_transaction-scores model info ends pkg s sent e answers reads =
      let sorted = sort_scores_lem sent in
      rw (e, answers, reads) (sorted.0, sorted.1, refl, refl, refl, refl, refl, refl)

  -- When scores have come that cannot be read, the client stays connected, and the scoreboard
  -- refuses every later request for the scores, since the client still runs.
  pub handle_transaction-unreadable :
      (model : Model) (info : Information) (ends : Ends) (pkg : DataPackage J) (s : Scoreboard)
      → pkg.transaction ≡ Transaction.client_receive_scores
      → failed (get_object codecs.scores pkg s.scores).1 ≡ true
      → valid s.client.rw_future ≡ true
      → Gives
          (λ u.
            (u.client ≡ s.client)
            × ((m : Model) (i : Information) (late : Ends) → request_scores m i late u ≡ u))
          (handle_transaction codecs model info ends pkg s)
  unfolding handle_transaction request_scores
  handle_transaction-unreadable model info ends pkg s e bad runs =
      rw (e, bad) (refl, λ m i late. if-true (valid s.client.rw_future) _ _ runs)
