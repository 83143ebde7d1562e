-- ===== src/Worker/Rounds.antt =====
-- What rounds of processOutbox of cmd/worker/main.go deliver.
use xiuxian.Base.{
  ℕ, true, false, ◌&&◌, none, some, List, [], ◌∷◌, ◌++◌, String, ◌≡◌, refl, sym, ◌∙◌, ap, subst,
  arith, inl, inr, Bool-cases, Option-cases,
}
use mathlib.Core.List.{append-nil}
use xiuxian.Store.{OutboxRow}
use xiuxian.Worker.{
  DeadlineCandidate, Worker, Luck, first_pending, update_row, attempt, complete, set_outbox,
  project_deadlines, deliver, process_outbox,
}
use xiuxian.Worker.Outbox.{
  waiting, ApartIds, ApartIds-update, is_lucky, completed_row, waiting-none, waiting-some,
  waiting-attempt,
}

module _ {F : Type 0} where
  -- A round that claims a row leaves it waiting, published or not; or it publishes and completes it.
  data Claimed (luck : Luck) (row : OutboxRow) (w w' : Worker F) : Type 0 where
    left :
        (extra : List ℕ)
        → w'.db.outbox ≡ update_row row.id attempt w.db.outbox
        → w'.published ≡ w.published ++ extra
        → is_lucky luck ≡ false
        → Claimed luck row w w'
    sent :
        w'.db.outbox ≡ completed_row row.id w.db.outbox
        → w'.published ≡ w.published ++ row.state_version ∷ []
        → Claimed luck row w w'

  -- A round either is done with the first row that waits, or was not lucky, or had nothing to do.
  pub data Round (luck : Luck) (w w' : Worker F) : Type 0 where
    done :
        (id v : ℕ)
        → waiting w.db.outbox ≡ (id, v) ∷ waiting w'.db.outbox
        → w'.published ≡ w.published ++ v ∷ []
        → ApartIds w'.db.outbox
        → Round luck w w'
    unlucky :
        (extra : List ℕ)
        → waiting w.db.outbox ≡ waiting w'.db.outbox
        → w'.published ≡ w.published ++ extra
        → is_lucky luck ≡ false
        → ApartIds w'.db.outbox
        → Round luck w w'
    idle : waiting w.db.outbox ≡ [] → w' ≡ w → Round luck w w'

  Claimed-Round :
      (luck : Luck) (row : OutboxRow) (w w' : Worker F)
      → ApartIds w.db.outbox
      → first_pending w.db.outbox ≡ some row
      → Claimed luck row w w'
      → Round luck w w'
  Claimed-Round luck row w w' h e (left extra same grown bad) =
      unlucky extra (sym (ap waiting same ∙ waiting-attempt row.id w.db.outbox)) grown bad (
        subst ApartIds (sym same)
          (ApartIds-update attempt row.id w.db.outbox (record { id = λ r. refl }) h))
  Claimed-Round luck row w w' h e (sent same grown) =
      done row.id row.state_version
        (waiting-some w.db.outbox row h e
          ∙ ap (λ x. (row.id, row.state_version) ∷ waiting x) (sym same))
        grown
        (subst ApartIds (sym same) (
          ApartIds-update complete row.id _ (record { id = λ r. refl })
            (ApartIds-update attempt row.id w.db.outbox (record { id = λ r. refl }) h)))

  module _ (encode : DeadlineCandidate → String) where
    deliver-Claimed :
        (luck : Luck) (row : OutboxRow) (w : Worker F)
        → Claimed luck row w (deliver encode luck row (set_outbox (update_row row.id attempt) w))
    unfolding deliver project_deadlines set_outbox
    deliver-Claimed luck row w =
        let nil = append-nil w.published in
        elim (Bool-cases (luck.reads && luck.pipes)) [
          | inl projects ↦ elim (Bool-cases luck.publishes) [
            | inl publishes ↦ elim (Bool-cases luck.completes) [
              | inl completes ↦ sent (ground arith) (ground arith)
              | inr fails ↦
                  left (row.state_version ∷ []) (ground arith) (ground arith) (ground arith)
            ]
            | inr fails ↦ left [] (ground arith) (ground arith) (ground arith)
          ]
          | inr fails ↦ left [] (ground arith) (ground arith) (ground arith)
        ]

    process_outbox-none :
        (luck : Luck) (w : Worker F)
        → first_pending w.db.outbox ≡ none
        → process_outbox encode luck w ≡ w
    unfolding process_outbox
    process_outbox-none luck w e = ground arith

    process_outbox-claims :
        (luck : Luck) (w : Worker F) (row : OutboxRow)
        → first_pending w.db.outbox ≡ some row
        → luck.claims ≡ true
        → process_outbox encode luck w
          ≡ deliver encode luck row (set_outbox (update_row row.id attempt) w)
    unfolding process_outbox
    process_outbox-claims luck w row e claims = ground arith

    process_outbox-stays :
        (luck : Luck) (w : Worker F) (row : OutboxRow)
        → first_pending w.db.outbox ≡ some row
        → luck.claims ≡ false
        → process_outbox encode luck w ≡ w
    unfolding process_outbox
    process_outbox-stays luck w row e fails = ground arith

    pub process_outbox-Round :
        (luck : Luck) (w : Worker F)
        → ApartIds w.db.outbox
        → Round luck w (process_outbox encode luck w)
    process_outbox-Round luck w h = elim (Option-cases (first_pending w.db.outbox)) [
      | inl nothing ↦ idle (waiting-none w.db.outbox nothing) (process_outbox-none luck w nothing)
      | inr (row, first) ↦ elim (Bool-cases luck.claims) [
        | inl claims ↦
            subst (Round luck w) (sym (process_outbox-claims luck w row first claims))
              (Claimed-Round luck row w _ h first (deliver-Claimed luck row w))
        | inr fails ↦
            subst (Round luck w) (sym (process_outbox-stays luck w row first fails))
              (unlucky [] refl (sym (append-nil w.published)) (ground arith) h)
      ]
    ]
