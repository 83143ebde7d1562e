-- ===== src/Worker/Tests.antt =====
-- Instances of what is proved of cmd/worker/main.go.
use xiuxian.Base.{
  ◌&&◌, not, Option, some, if◌then◌else◌, take, ℕ, Bool, true, false, none, List, [], ◌∷◌, ◌++◌,
  String, ◌≡◌, arith, refl,
}
use xiuxian.Base.Int.{ℤ, pos}
use xiuxian.Store.{OutboxRow}
use xiuxian.Base.Text.{str_eq}
use xiuxian.Worker.Deadlines.{has, is_due, settle_due-keeps, settle_due-clears}
use xiuxian.Worker.{
  Member, Answers, due_members, settle_due, is_success, DeadlineCandidate, Worker, Luck,
}
use xiuxian.Worker.Outbox.{waiting}
use xiuxian.Worker.Runs.{Carries, Delivered, rounds, rounds-Delivered, rounds-deliver, lucky}

abbrev encode : DeadlineCandidate → String
encode c = c.role_id

abbrev row : ℕ → Bool → OutboxRow
row n done = record { id = n; state_version = n; attempts = 0; completed = done }

-- Three rows, the first one completed.
abbrev worker : Worker ℤ
worker = record {
  db = record {
    snapshot = none;
    accounts = [];
    roles = [];
    lives = [];
    trajectories = [];
    opportunities = [];
    conversations = [];
    messages = [];
    events = [];
    records = [];
    outbox = row 1 true ∷ row 2 false ∷ row 3 false ∷ [];
    outbox_id = 3;
  };
  deadlines = [];
  published = [];
}

abbrev good : Luck
good = record { claims = true; reads = true; pipes = true; publishes = true; completes = true }

-- A round that publishes a row and fails to complete it, between two good ones.
abbrev lucks : List Luck
lucks = good ∷ record good { completes = false } ∷ good ∷ []

rounds-Delivered_example : Delivered worker (rounds encode lucks worker)
rounds-Delivered_example =
    rounds-Delivered encode lucks worker ((refl, (refl, tt)), ((refl, tt), (tt, tt)))

rounds-deliver_example :
    (waiting (rounds encode lucks worker).db.outbox ≡ [])
    × (versions : List ℕ) × ((rounds encode lucks worker).published ≡ [] ++ versions)
    × Carries (waiting worker.db.outbox) versions
unfolding waiting lucky
rounds-deliver_example =
    rounds-deliver encode lucks worker ((refl, (refl, tt)), ((refl, tt), (tt, tt))) (omega arith)

-- The set holds a role's deadline that is due, one that is not, and a text that is no candidate.
abbrev deadlines : List Member
deadlines =
    record { score = pos 10; member = "a" }
    ∷ record { score = pos 20; member = "?" }
    ∷ record { score = pos 30; member = "b" }
    ∷ []

abbrev decode : String → Option DeadlineCandidate
decode s = if str_eq s "?" then none else some (record { role_id = s; state_version = pos 1 })

abbrev confirming : Answers
confirming = record { ranges = true; settles = λ c. some 200; removes = λ m. true }

abbrev refusing : Answers
refusing = record confirming { settles = λ c. if str_eq c.role_id "a" then some 500 else some 200 }

settle_due-keeps_example :
    has "a" (settle_due decode refusing (pos 25) deadlines).1 ≡ has "a" deadlines
unfolding is_success
settle_due-keeps_example =
    settle_due-keeps decode refusing (pos 25) deadlines "a"
      (record { role_id = "a"; state_version = pos 1 }) refl refl

settle_due-clears_example :
    ((settle_due decode confirming (pos 25) deadlines).0 ≡ true)
    × (has "b" (settle_due decode confirming (pos 25) deadlines).1
        ≡ (has "b" deadlines && not (has "b" (take 100 (due_members (pos 25) deadlines)))))
    × (has "b" (due_members (pos 25) deadlines) ≡ is_due (pos 25) "b" deadlines)
unfolding is_success
settle_due-clears_example =
    settle_due-clears decode confirming (pos 25) deadlines "b"
      (record { ranges = refl; settles = λ c. refl; removes = λ m. refl })
