-- ===== src/Worker/Deadlines.antt =====
-- What settleDue of cmd/worker/main.go leaves in the set of deadlines.
use xiuxian.Base.{
  Bool, true, false, ◌&&◌, ◌||◌, not, Option, none, some, List, [], ◌∷◌, String, ◌≡◌, refl, sym,
  ◌∙◌, ap, arith, inl, inr, Bool-cases, Option-cases, take,
}
use xiuxian.Base.Int.{ℤ, leb_ℤ}
use xiuxian.Base.Dict.{str_eq_iff}
use xiuxian.Base.Text.{str_eq}
use xiuxian.Worker.{
  DeadlineCandidate, Member, Answers, due_members, remove_member, removed, is_success,
  settle_members, settle_due,
}

-- Whether a set has a member.
abbrev pub has : String → List Member → Bool
has m [] = false
has m (x ∷ xs) = str_eq x.member m || has m xs

-- Whether a member is due: its score, the time of its deadline, is not after this time.
abbrev pub is_due : ℤ → String → List Member → Bool
is_due now m [] = false
is_due now m (x ∷ xs) = (leb_ℤ x.score now && str_eq x.member m) || is_due now m xs

has-due_members :
    (now : ℤ) (m : String) (set : List Member) → has m (due_members now set) ≡ is_due now m set
unfolding due_members
has-due_members now m [] = refl
has-due_members now m (x ∷ xs) = ground (arith, has-due_members now m xs)

both : (x y m : String) → str_eq x y ≡ true → str_eq x m ≡ str_eq y m
both x y m e = ap (λ z. str_eq z m) ((str_eq_iff x y).0 e)

apart : (x y m : String) → str_eq y x ≡ false → str_eq x m ≡ true → str_eq y m ≡ false
apart x y m e f = elim (Bool-cases (str_eq y m)) [
  | inl same ↦
      let one : y ≡ x = (str_eq_iff y m).0 same ∙ sym ((str_eq_iff x m).0 f) in
      absurd (ground (arith, (str_eq_iff y x).1 one))
  | inr other ↦ other
]

has-remove_member :
    (m x : String) (set : List Member)
    → has m (remove_member x set) ≡ (has m set && not (str_eq x m))
unfolding remove_member
has-remove_member m x [] = refl
has-remove_member m x (y ∷ set) =
    let more = has-remove_member m x set in
    elim (Bool-cases (str_eq y.member x)) [
      | inl e ↦ ground (arith, both y.member x m e)
      | inr e ↦ elim (Bool-cases (str_eq x m)) [
        | inl f ↦ ground (arith, apart x y.member m e f)
        | inr f ↦ ground arith
      ]
    ]

without_both : (a b c : Bool) → ((a && not b) && not c) ≡ (a && not (b || c))
without_both a b c = ground arith

module _ (decode : String → Option DeadlineCandidate) (answers : Answers) where
  has-removed :
      (m x : String) (set : List Member)
      → str_eq x m ≡ false
      → has m (removed answers x set) ≡ has m set
  unfolding removed
  has-removed m x set e = ground (arith, has-remove_member m x set)

  step-none :
      (x : Member) (ms set : List Member)
      → decode x.member ≡ none
      → settle_members decode answers (x ∷ ms) set
        ≡ settle_members decode answers ms (removed answers x.member set)
  unfolding settle_members
  step-none x ms set e = ground arith

  step_refused :
      (x : Member) (c : DeadlineCandidate) (ms set : List Member)
      → decode x.member ≡ some c
      → is_success (answers.settles c) ≡ false
      → settle_members decode answers (x ∷ ms) set ≡ (false, set)
  unfolding settle_members
  step_refused x c ms set e f = ground arith

  step_stuck :
      (x : Member) (c : DeadlineCandidate) (ms set : List Member)
      → decode x.member ≡ some c
      → answers.removes x.member ≡ false
      → settle_members decode answers (x ∷ ms) set ≡ (false, set)
  unfolding settle_members
  step_stuck x c ms set e f = ground arith

  step_done :
      (x : Member) (c : DeadlineCandidate) (ms set : List Member)
      → decode x.member ≡ some c
      → is_success (answers.settles c) ≡ true
      → answers.removes x.member ≡ true
      → settle_members decode answers (x ∷ ms) set
        ≡ settle_members decode answers ms (removed answers x.member set)
  unfolding settle_members
  step_done x c ms set e f r = ground arith

  abbrev left : String → Bool × List Member → Bool
  left m p = has m p.1

  members-keep :
      (m : String) (c : DeadlineCandidate) (ms set : List Member)
      → decode m ≡ some c
      → is_success (answers.settles c) ≡ false
      → has m (settle_members decode answers ms set).1 ≡ has m set
  unfolding settle_members
  members-keep m c [] set d f = refl
  members-keep m c (x ∷ ms) set d f = elim (Bool-cases (str_eq x.member m)) [
    | inl same ↦
        let one : decode x.member ≡ some c = ap decode ((str_eq_iff x.member m).0 same) ∙ d in
        ap (left m) (step_refused x c ms set one f)
    | inr other ↦
        let rest =
          members-keep m c ms (removed answers x.member set) d f
          ∙ has-removed m x.member set other in
        elim (Option-cases (decode x.member)) [
          | inl bad ↦ ap (left m) (step-none x ms set bad) ∙ rest
          | inr (k, good) ↦ elim (Bool-cases (is_success (answers.settles k))) [
            | inr refused ↦ ap (left m) (step_refused x k ms set good refused)
            | inl done ↦ elim (Bool-cases (answers.removes x.member)) [
              | inr stuck ↦ ap (left m) (step_stuck x k ms set good stuck)
              | inl gone ↦ ap (left m) (step_done x k ms set good done gone) ∙ rest
            ]
          ]
        ]
  ]

  due-none :
      (now : ℤ) (set : List Member)
      → answers.ranges ≡ false
      → settle_due decode answers now set ≡ (false, set)
  unfolding settle_due
  due-none now set e = ground arith

  due_members_settled :
      (now : ℤ) (set : List Member)
      → answers.ranges ≡ true
      → settle_due decode answers now set
        ≡ settle_members decode answers (take 100 (due_members now set)) set
  unfolding settle_due
  due_members_settled now set e = ground arith

  -- A deadline whose settlement the game server does not confirm stays in the set, whatever becomes
  -- of the other members of the round.
  pub settle_due-keeps :
      (now : ℤ) (set : List Member) (m : String) (c : DeadlineCandidate)
      → decode m ≡ some c
      → is_success (answers.settles c) ≡ false
      → has m (settle_due decode answers now set).1 ≡ has m set
  settle_due-keeps now set m c d f = elim (Bool-cases answers.ranges) [
    | inl e ↦
        ap (left m) (due_members_settled now set e)
        ∙ members-keep m c (take 100 (due_members now set)) set d f
    | inr e ↦ ap (left m) (due-none now set e)
  ]

  -- Nothing fails in the round.
  pub record AllGood : Type 0 where
    pub ranges : answers.ranges ≡ true
    pub settles : (c : DeadlineCandidate) → is_success (answers.settles c) ≡ true
    pub removes : (m : String) → answers.removes m ≡ true

  removed-good :
      (m x : String) (set : List Member)
      → AllGood
      → has m (removed answers x set) ≡ (has m set && not (str_eq x m))
  unfolding removed
  removed-good m x set good = ground (arith, good.removes x, has-remove_member m x set)

  members-clear :
      (m : String) (ms set : List Member)
      → AllGood
      → ((settle_members decode answers ms set).0 ≡ true)
        × (has m (settle_members decode answers ms set).1 ≡ (has m set && not (has m ms)))
  unfolding settle_members
  members-clear m [] set good = (refl, ground arith)
  members-clear m (x ∷ ms) set good =
      let next : settle_members decode answers (x ∷ ms) set
          ≡ settle_members decode answers ms (removed answers x.member set) =
        elim (Option-cases (decode x.member)) [
          | inl bad ↦ step-none x ms set bad
          | inr (c, e) ↦ step_done x c ms set e (good.settles c) (good.removes x.member)
        ] in
      let (ends, rest) = members-clear m ms (removed answers x.member set) good in
      let gone : has m (removed answers x.member set) ≡ (has m set && not (str_eq x.member m)) =
        removed-good m x.member set good in
      (
        ap (λ p. p.0) next ∙ ends,
        ap (left m) next
            ∙ rest
            ∙ ap (λ b. b && not (has m ms)) gone
            ∙ without_both (has m set) (str_eq x.member m) (has m ms),
      )

  -- In a round in which nothing fails, settleDue returns without an error, and exactly the first
  -- hundred of the members that are due are gone from the set: those whose score is not after the
  -- time of the round.
  pub settle_due-clears :
      (now : ℤ) (set : List Member) (m : String)
      → AllGood
      → ((settle_due decode answers now set).0 ≡ true)
        × (has m (settle_due decode answers now set).1
            ≡ (has m set && not (has m (take 100 (due_members now set)))))
        × (has m (due_members now set) ≡ is_due now m set)
  settle_due-clears now set m good =
      let same = due_members_settled now set good.ranges in
      let (ends, left_over) = members-clear m (take 100 (due_members now set)) set good in
      (ap (λ p. p.0) same ∙ ends, ap (left m) same ∙ left_over, has-due_members now m set)
