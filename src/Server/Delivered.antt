-- ===== src/Server/Delivered.antt =====
-- The stream of internal/service/http.go delivers every event, once and in order.
use xiuxian.Base.{
  ℕ, zero, suc, ◌+◌, ◌*◌, ◌≤◌, false, some, List, [], ◌∷◌, ◌++◌, String, ◌≡◌, refl, sym, ◌∙◌, ap,
  arith, take, length, replicate, inl, inr, Bool-cases,
}
use xiuxian.Base.Int.{ℤ, pos, ◌≤ℤ◌, ◌<ℤ◌, leb_ℤ, leb_ℤ-true, leb_ℤ-false, lt_of_leb_ℤ}
use xiuxian.Base.Dict.{lookup}
use native.Mathlib.Numerals.{unary_clauses}
use xiuxian.World.Host.{Host}
use xiuxian.World.Model.{World, Event, Role}
use xiuxian.World.Log.{log_of}
use xiuxian.World.Action.{ok, Call, ◌>>=◌, raise_if, gets, or_raise, role_or}
use xiuxian.World.Accounts.{events, page_limit}
use xiuxian.World.Books.Pages.{later, page-take}
use xiuxian.Server.Usecase.{under_context, use_events}
use xiuxian.Server.Stream.{last_id, events_stream}

module _ (host : Host) where
  abbrev Log : Type 0
  Log = List (Event host.float.F)

  -- The numbers of a log rise, from above a bound.
  abbrev pub RisesFrom : ℤ → Log → Type 0
  RisesFrom a [] = Unit {0}
  RisesFrom a (e ∷ es) = (a <ℤ pos e.id) × RisesFrom (pos e.id) es

  drop : ℕ → Log → Log
  drop zero es = es
  drop (suc n) [] = []
  drop (suc n) (e ∷ es) = drop n es

  suc_add : (m n : ℕ) → suc m + n ≡ suc (m + n)
  suc_add m n = omega arith

  take-add : (m n : ℕ) (es : Log) → take (m + n) es ≡ take m es ++ take n (drop m es)
  unfolding drop
  take-add zero n es = ap (λ m. take m es) (omega arith)
  take-add (suc m) zero [] = simp unary_clauses
  take-add (suc m) (suc n) [] = simp unary_clauses
  take-add (suc m) n (e ∷ es) =
      ap (λ k. take k (e ∷ es)) (suc_add m n) ∙ (ap (λ l. e ∷ l) (take-add m n es))

  take-all : (n : ℕ) (es : Log) → length es ≤ n → take n es ≡ es
  take-all zero [] h = refl
  take-all zero (e ∷ es) h = absurd (omega arith)
  take-all (suc n) [] h = refl
  take-all (suc n) (e ∷ es) h = ap (λ l. e ∷ l) (take-all n es (omega arith))

  hundred_more : (n : ℕ) → 100 + n * 100 ≡ suc n * 100
  hundred_more n = omega arith

  RisesFrom-weaker : (a b : ℤ) (es : Log) → a ≤ℤ b → RisesFrom b es → RisesFrom a es
  RisesFrom-weaker a b [] h r = tt
  RisesFrom-weaker a b (e ∷ es) h r = (omega arith, r.1)

  later-all : (a : ℤ) (es : Log) → RisesFrom a es → later host a es ≡ es
  later-all a [] r = refl
  later-all a (e ∷ es) r =
      rw (leb_ℤ-false (pos e.id) a r.0)
        (ap (λ l. e ∷ l) (later-all a es (RisesFrom-weaker a (pos e.id) es (omega arith) r.1)))

  last_id-le : (a : ℤ) (n : ℕ) (es : Log) → RisesFrom a es → a ≤ℤ last_id host a (take n es)
  unfolding last_id
  last_id-le a zero es r = omega arith
  last_id-le a (suc n) [] r = omega arith
  last_id-le a (suc n) (e ∷ es) r = omega (arith, last_id-le (pos e.id) n es r.1, r.0)

  -- What is left after the last event taken.
  later-last_id :
      (a : ℤ) (n : ℕ) (es : Log)
      → RisesFrom a es
      → later host (last_id host a (take n es)) es ≡ drop n es
  unfolding last_id drop
  later-last_id a zero es r = later-all a es r
  later-last_id a (suc n) [] r = refl
  later-last_id a (suc n) (e ∷ es) r =
      rw
        (leb_ℤ-true (pos e.id) (last_id host (pos e.id) (take n es))
          (last_id-le (pos e.id) n es r.1))
        (later-last_id (pos e.id) n es r.1)

  later-RisesFrom : (a b : ℤ) (es : Log) → RisesFrom b es → RisesFrom a (later host a es)
  later-RisesFrom a b [] r = tt
  later-RisesFrom a b (e ∷ es) r = elim (Bool-cases (leb_ℤ (pos e.id) a)) [
    | inl old ↦ rw old (later-RisesFrom a (pos e.id) es r.1)
    | inr new ↦
        rw
          (
            new,
            later-all a es (
                RisesFrom-weaker a (pos e.id) es (omega (arith, lt_of_leb_ℤ (pos e.id) a new)) r.1),
          )
          (lt_of_leb_ℤ (pos e.id) a new, r.1)
  ]

  later-later : (a b : ℤ) (es : Log) → a ≤ℤ b → later host b (later host a es) ≡ later host b es
  later-later a b [] h = refl
  later-later a b (e ∷ es) h = ground (arith, later-later a b es h)

  module _ (k : String) (call : Call host.float.F) (w : World host) (role : Role)
      (present : lookup k w.roles ≡ some role) (runs : call.cancelled ≡ false) where
    log : Log
    log = log_of host k w

    -- A read answers the first hundred later events.
    read-ok :
        (after : ℤ)
        → (use_events host call k after (pos 100) w).0 ≡ ok (take 100 (later host after log))
    unfolding under_context events ◌>>=◌ raise_if role_or or_raise gets log lookup page_limit
    read-ok after = simp (runs, present) (ap ok (page-take host (pos 100) after (log_of host k w)))

    stream-take :
        (low after : ℤ) (n : ℕ)
        → RisesFrom low log
        → events_stream host k after (replicate n (call, w)) ≡ take (n * 100) (later host after log)
    unfolding events_stream
    stream-take low after zero r = refl
    stream-take low after (suc n) r =
        let found = later host after log in
        let rises = later-RisesFrom after low log r in
        let next = last_id host after (take 100 found) in
        let rest : later host next log ≡ drop 100 found =
          sym (later-later after next log (last_id-le after 100 found rises))
          ∙ later-last_id after 100 found rises in
        rw (read-ok after, events_stream)
          (ap (λ l. take 100 found ++ l) (stream-take low next n r ∙ ap (take (n * 100)) rest)
            ∙ sym (take-add 100 (n * 100) found)
            ∙ ap (λ m. take m found) (hundred_more n))

  -- The event stream of a role, over rounds in which the world stays as it is and reads are not
  -- cancelled, writes every event of the role's log with a number above `after`, each once and in
  -- order, as soon as there is a round for each hundred of them; the log's numbers rise, as those
  -- of every history do.
  pub events_stream-delivers :
      (k : String) (call : Call host.float.F) (w : World host) (role : Role) (low after : ℤ) (n : ℕ)
      → lookup k w.roles ≡ some role
      → call.cancelled ≡ false
      → RisesFrom low (log_of host k w)
      → length (later host after (log_of host k w)) ≤ n * 100
      → events_stream host k after (replicate n (call, w)) ≡ later host after (log_of host k w)
  unfolding log
  events_stream-delivers k call w role low after n present runs r h =
      stream-take k call w role present runs low after n r ∙ take-all (n * 100) _ h
