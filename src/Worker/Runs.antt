-- ===== src/Worker/Runs.antt =====
-- What a run of processOutbox of cmd/worker/main.go delivers.
use xiuxian.Base.{
  ℕ, suc, ◌≤◌, false, List, [], ◌∷◌, ◌++◌, String, if◌then◌else◌, ◌≡◌, refl, sym, ◌∙◌, ap, subst,
  arith, length,
}
use mathlib.Core.List.{append_assoc, append-nil}
use xiuxian.Worker.{DeadlineCandidate, Worker, Luck, process_outbox}
use xiuxian.Worker.Rounds.{Round, done, unlucky, idle, process_outbox-Round}
use xiuxian.Worker.Outbox.{waiting, ApartIds, is_lucky}

-- The versions of the rows stand among what is published, in their order.
pub data Carries : List (ℕ × ℕ) → List ℕ → Type 0 where
  ends : Carries [] []
  other :
      {rows : List (ℕ × ℕ)} {versions : List ℕ} (v : ℕ)
      → Carries rows versions
      → Carries rows (v ∷ versions)
  carries :
      {rows : List (ℕ × ℕ)} {versions : List ℕ} (id v : ℕ)
      → Carries rows versions
      → Carries ((id, v) ∷ rows) (v ∷ versions)

Carries-none : (versions : List ℕ) → Carries [] versions
Carries-none [] = ends
Carries-none (v ∷ versions) = other v (Carries-none versions)

Carries-append :
    {a b : List (ℕ × ℕ)} {x y : List ℕ} → Carries a x → Carries b y → Carries (a ++ b) (x ++ y)
Carries-append ends q = q
Carries-append (other v p) q = other v (Carries-append p q)
Carries-append (carries id v p) q = carries id v (Carries-append p q)

-- How many rounds succeed in every step.
unfoldable pub lucky : List Luck → ℕ
lucky [] = 0
lucky (luck ∷ lucks) = let rest = lucky lucks in if is_lucky luck then suc rest else rest

lucky_at_most : (luck : Luck) (lucks : List Luck) → lucky (luck ∷ lucks) ≤ suc (lucky lucks)
unfolding lucky
lucky_at_most luck lucks = ground arith

lucky_fails :
    (luck : Luck) (lucks : List Luck) → is_lucky luck ≡ false → lucky (luck ∷ lucks) ≡ lucky lucks
unfolding lucky
lucky_fails luck lucks e = ground arith

length-zero {ℓ} : {A : Type ℓ} (xs : List A) → length xs ≤ 0 → xs ≡ []
length-zero [] h = refl
length-zero (x ∷ xs) h = absurd (omega arith)

module _ {F : Type 0} where
  -- From one state of the worker to a later one: the rows that no longer wait were the first to
  -- wait, and their versions are among what has been published since.
  pub record Delivered (w w' : Worker F) : Type 0 where
    pub gone : List (ℕ × ℕ)
    pub versions : List ℕ
    pub waited : waiting w.db.outbox ≡ gone ++ waiting w'.db.outbox
    pub grown : w'.published ≡ w.published ++ versions
    pub carried : Carries gone versions

  Delivered-refl : (w : Worker F) → Delivered w w
  Delivered-refl w = record {
    gone = [];
    versions = [];
    waited = refl;
    grown = sym (append-nil w.published);
    carried = ends;
  }

  Delivered-trans : (w v u : Worker F) → Delivered w v → Delivered v u → Delivered w u
  Delivered-trans w v u p q = record {
    gone = p.gone ++ q.gone;
    versions = p.versions ++ q.versions;
    waited =
        p.waited
        ∙ ap (λ x. p.gone ++ x) q.waited
        ∙ sym (append_assoc p.gone q.gone (waiting u.db.outbox));
    grown =
        q.grown
        ∙ ap (λ x. x ++ q.versions) p.grown
        ∙ append_assoc w.published p.versions q.versions;
    carried = Carries-append p.carried q.carried;
  }

  abbrev round_apart :
      (luck : Luck) (w w' : Worker F)
      → ApartIds w.db.outbox
      → Round luck w w'
      → ApartIds w'.db.outbox
  round_apart luck w w' h (done id v e g a) = a
  round_apart luck w w' h (unlucky extra e g b a) = a
  round_apart luck w w' h (idle e same) =
      subst (λ (x : Worker F). ApartIds x.db.outbox) (sym same) h

  Round-Delivered : (luck : Luck) (w w' : Worker F) → Round luck w w' → Delivered w w'
  Round-Delivered luck w w' (done id v e g a) = record {
    gone = (id, v) ∷ [];
    versions = v ∷ [];
    waited = e;
    grown = g;
    carried = carries id v ends;
  }
  Round-Delivered luck w w' (unlucky extra e g b a) = record {
    gone = [];
    versions = extra;
    waited = e;
    grown = g;
    carried = Carries-none extra;
  }
  Round-Delivered luck w w' (idle e same) = subst (λ x. Delivered w x) (sym same) (Delivered-refl w)

  module _ (encode : DeadlineCandidate → String) where
    -- The rounds of a run, one for each tick of the worker.
    unfoldable pub rounds : List Luck → Worker F → Worker F
    rounds [] w = w
    rounds (luck ∷ lucks) w = rounds lucks (process_outbox encode luck w)

    -- Whatever fails in the rounds, if no two rows have the same id: the rows that no longer wait
    -- after a run are the first of those that waited, and their versions stand, in their order,
    -- among those that the run has published.
    pub rounds-Delivered :
        (lucks : List Luck) (w : Worker F) → ApartIds w.db.outbox → Delivered w (rounds lucks w)
    unfolding rounds
    rounds-Delivered [] w h = Delivered-refl w
    rounds-Delivered (luck ∷ lucks) w h =
        let r = process_outbox-Round encode luck w h in
        Delivered-trans w _ _ (Round-Delivered luck w _ r)
          (rounds-Delivered lucks _ (round_apart luck w _ h r))

    lucky_step :
        (luck : Luck) (lucks : List Luck) (w w' : Worker F)
        → Round luck w w'
        → length (waiting w.db.outbox) ≤ lucky (luck ∷ lucks)
        → length (waiting w'.db.outbox) ≤ lucky lucks
    lucky_step luck lucks w w' (done id v e g a) enough =
        omega (arith, ap length e, lucky_at_most luck lucks)
    lucky_step luck lucks w w' (unlucky extra e g b a) enough =
        omega (arith, ap length e, lucky_fails luck lucks b)
    lucky_step luck lucks w w' (idle e same) enough =
        subst (λ (x : Worker F). length (waiting x.db.outbox) ≤ lucky lucks) (sym same)
          (omega (arith, ap length e))

    lucky-rounds :
        (lucks : List Luck) (w : Worker F)
        → ApartIds w.db.outbox
        → length (waiting w.db.outbox) ≤ lucky lucks
        → waiting (rounds lucks w).db.outbox ≡ []
    unfolding rounds lucky
    lucky-rounds [] w h enough = length-zero _ enough
    lucky-rounds (luck ∷ lucks) w h enough =
        let r = process_outbox-Round encode luck w h in
        lucky-rounds lucks _ (round_apart luck w _ h r) (lucky_step luck lucks w _ r enough)

    -- If no two rows have the same id, and there are as many rounds in which nothing fails as rows
    -- that wait, then no row waits after the run, however many other rounds fail, and the versions
    -- of all the rows that waited stand, in their order, among those that the run has published.
    pub rounds-deliver :
        (lucks : List Luck) (w : Worker F)
        → ApartIds w.db.outbox
        → length (waiting w.db.outbox) ≤ lucky lucks
        → (waiting (rounds lucks w).db.outbox ≡ [])
          × (versions : List ℕ) × ((rounds lucks w).published ≡ w.published ++ versions)
          × Carries (waiting w.db.outbox) versions
    rounds-deliver lucks w h enough =
        let d = rounds-Delivered lucks w h in
        let none_left = lucky-rounds lucks w h enough in
        let all : d.gone ≡ waiting w.db.outbox =
          sym (d.waited ∙ ap (λ x. d.gone ++ x) none_left ∙ append-nil d.gone) in
        (none_left, d.versions, d.grown, subst (λ x. Carries x d.versions) all d.carried)
