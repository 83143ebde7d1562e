-- ===== src/Worker/Outbox.antt =====
-- What a round of processOutbox of cmd/worker/main.go does to the rows that wait.
use xiuxian.Base.{
  ℕ, Bool, true, false, ◌&&◌, none, some, List, [], ◌∷◌, if◌then◌else◌, ◌==◌, ◌≡◌, refl, sym, ◌∙◌,
  ap, subst, arith, inl, inr, Bool-cases,
}
use xiuxian.Store.{OutboxRow}
use xiuxian.Worker.{Luck, first_pending, update_row, attempt, complete}

-- The rows that wait, by their id and their version.
unfoldable pub waiting : List OutboxRow → List (ℕ × ℕ)
waiting [] = []
waiting (row ∷ rows) =
    let rest = waiting rows in if row.completed then rest else (row.id, row.state_version) ∷ rest

-- The primary key: no two rows have the same id.
abbrev pub Without : ℕ → List OutboxRow → Type 0
Without id [] = Unit {0}
Without id (row ∷ rows) = ((row.id == id) ≡ false) × Without id rows

abbrev pub ApartIds : List OutboxRow → Type 0
ApartIds [] = Unit {0}
ApartIds (row ∷ rows) = Without row.id rows × ApartIds rows

-- Every step of the round succeeds.
abbrev pub is_lucky : Luck → Bool
is_lucky luck = luck.claims && luck.reads && luck.pipes && luck.publishes && luck.completes

-- What an update that keeps the ids of the rows keeps.
pub record KeepsIds (f : OutboxRow → OutboxRow) : Type 0 where
  pub id : (row : OutboxRow) → (f row).id ≡ row.id

Without-update :
    (f : OutboxRow → OutboxRow) (id j : ℕ) (rows : List OutboxRow)
    → KeepsIds f
    → Without j rows
    → Without j (update_row id f rows)
unfolding update_row
Without-update f id j [] k h = tt
Without-update f id j (row ∷ rows) k h = (
  (elim (Bool-cases (row.id == id)) [
    | inl same ↦ ground (arith, k.id row)
    | inr other ↦ ground arith
  ]),
  Without-update f id j rows k h.1,
)

pub ApartIds-update :
    (f : OutboxRow → OutboxRow) (id : ℕ) (rows : List OutboxRow)
    → KeepsIds f
    → ApartIds rows
    → ApartIds (update_row id f rows)
unfolding update_row
ApartIds-update f id [] k h = tt
ApartIds-update f id (row ∷ rows) k h =
    let here : (if row.id == id then f row else row).id ≡ row.id =
      elim (Bool-cases (row.id == id)) [
        | inl same ↦ ground (arith, k.id row)
        | inr other ↦ ground arith
      ] in
    (
      subst (λ j. Without j (update_row id f rows)) (sym here)
          (Without-update f id row.id rows k h.0),
      ApartIds-update f id rows k h.1,
    )

pub waiting-attempt :
    (id : ℕ) (rows : List OutboxRow) → waiting (update_row id attempt rows) ≡ waiting rows
unfolding waiting update_row
waiting-attempt id [] = refl
waiting-attempt id (row ∷ rows) = ground (arith, waiting-attempt id rows)

update_other :
    (f : OutboxRow → OutboxRow) (id : ℕ) (rows : List OutboxRow)
    → Without id rows
    → update_row id f rows ≡ rows
unfolding update_row
update_other f id [] h = refl
update_other f id (row ∷ rows) h = ground (arith, update_other f id rows h.1)

pub waiting-none : (rows : List OutboxRow) → first_pending rows ≡ none → waiting rows ≡ []
unfolding waiting first_pending
waiting-none [] e = refl
waiting-none (row ∷ rows) e = elim (Bool-cases row.completed) [
  | inl done ↦ ground (arith, waiting-none rows)
  | inr pending ↦ absurd (ground arith)
]

update_self :
    (f : OutboxRow → OutboxRow) (row : OutboxRow) (rows : List OutboxRow)
    → update_row row.id f (row ∷ rows) ≡ f row ∷ update_row row.id f rows
unfolding update_row
update_self f row rows = ground arith

update_skip :
    (f : OutboxRow → OutboxRow) (id : ℕ) (row : OutboxRow) (rows : List OutboxRow)
    → (row.id == id) ≡ false
    → update_row id f (row ∷ rows) ≡ row ∷ update_row id f rows
unfolding update_row
update_skip f id row rows h = ground arith

waiting_done :
    (row : OutboxRow) (rows : List OutboxRow)
    → row.completed ≡ true
    → waiting (row ∷ rows) ≡ waiting rows
unfolding waiting
waiting_done row rows h = ground arith

waiting_pending :
    (row : OutboxRow) (rows : List OutboxRow)
    → row.completed ≡ false
    → waiting (row ∷ rows) ≡ (row.id, row.state_version) ∷ waiting rows
unfolding waiting
waiting_pending row rows h = ground arith

first_done :
    (r : OutboxRow) (rows : List OutboxRow)
    → r.completed ≡ true
    → first_pending (r ∷ rows) ≡ first_pending rows
unfolding first_pending
first_done r rows h = ground arith

first_pending_self :
    (r : OutboxRow) (rows : List OutboxRow)
    → r.completed ≡ false
    → first_pending (r ∷ rows) ≡ some r
unfolding first_pending
first_pending_self r rows h = ground arith

-- What claiming and completing a row makes of the rows.
abbrev pub completed_row : ℕ → List OutboxRow → List OutboxRow
completed_row id rows = update_row id complete (update_row id attempt rows)

completed_row_self :
    (row : OutboxRow) (rows : List OutboxRow)
    → Without row.id rows
    → waiting (completed_row row.id (row ∷ rows)) ≡ waiting rows
completed_row_self row rows h =
    ap (λ x. waiting (update_row row.id complete x)) (update_self attempt row rows)
    ∙ ap waiting (update_self complete (attempt row) (update_row row.id attempt rows))
    ∙ waiting_done _ _ refl
    ∙ ap (λ x. waiting (update_row row.id complete x)) (update_other attempt row.id rows h)
    ∙ ap waiting (update_other complete row.id rows h)

completed_row-done :
    (id : ℕ) (r : OutboxRow) (rows : List OutboxRow)
    → r.completed ≡ true
    → waiting (completed_row id (r ∷ rows)) ≡ waiting (completed_row id rows)
unfolding update_row
completed_row-done id r rows done = waiting_done _ _ (ground arith)

none_some : {row : OutboxRow} → ¬ (first_pending [] ≡ some row)
unfolding first_pending
none_some e = ground arith

-- The first row that waits is the one that completing it takes away.
pub waiting-some :
    (rows : List OutboxRow) (row : OutboxRow)
    → ApartIds rows
    → first_pending rows ≡ some row
    → waiting rows ≡ (row.id, row.state_version) ∷ waiting (completed_row row.id rows)
waiting-some [] row h e = absurd (none_some e)
waiting-some (r ∷ rows) row h e = elim (Bool-cases r.completed) [
  | inl done ↦
      waiting_done r rows done
      ∙ waiting-some rows row h.1 (sym (first_done r rows done) ∙ e)
      ∙ ap (λ x. (row.id, row.state_version) ∷ x) (sym (completed_row-done row.id r rows done))
  | inr pending ↦
      let same : some r ≡ some row = sym (first_pending_self r rows pending) ∙ e in
      let one : r ≡ row = cc in
      subst
        (λ (x : OutboxRow).
          waiting (r ∷ rows) ≡ (x.id, x.state_version) ∷ waiting (completed_row x.id (r ∷ rows)))
        one
        (waiting_pending r rows pending
          ∙ ap (λ x. (r.id, r.state_version) ∷ x) (sym (completed_row_self r rows h.0)))
]
