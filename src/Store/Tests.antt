-- ===== src/Store/Tests.antt =====
-- An instance of what is proved of internal/data/postgres.go.
use xiuxian.Base.{
  ap, sym, ◌∙◌, subst, arith, inl, inr, Bool-cases, true, false, Option, none, some, [], ◌∷◌,
  String, ◌≡◌, ◌⊎◌, refl, if◌then◌else◌,
}
use xiuxian.Base.Int.{ℤ, pos}
use xiuxian.Base.Text.{str_eq}
use xiuxian.World.Tests.{rich}
use xiuxian.World.Accounts.{new_role}
use xiuxian.Store.{PersistedWorld, Session}
use xiuxian.Store.Save.{save}
use xiuxian.Base.Dict.{lookup, str_eq_iff}
use xiuxian.Store.Rows.{ByTheirIds}
use xiuxian.Store.Save.{roles_of_payload}
use xiuxian.Store.Saved.{IsSaved, save_lem}
use xiuxian.Base.Order.{Ordered}
use xiuxian.Base.Text.{str_lt}
use xiuxian.Base.Dict.{Dict}
use xiuxian.World.Model.{Role}
use xiuxian.Store.Save.{changed_ids}
use xiuxian.Store.Changed.{has, differs, changed_ids-differs}
use xiuxian.Store.Succeeds.{save-succeeds}

abbrev persisted : PersistedWorld ℤ
persisted = record {
  accounts = ("account", record { password_hash = "hash"; role_id = "a" }) ∷ [];
  roles = ("a", rich "a") ∷ [];
  opportunities = [];
  conversations = [];
  events = [];
  idempotency = ("a", ("key", "answer") ∷ []) ∷ [];
}

abbrev decode : String → Option (PersistedWorld ℤ)
decode s = if str_eq s "payload" then some persisted else none

-- An empty database, and a transaction in which nothing fails.
abbrev session : Session ℤ
session = record {
  db = record {
    snapshot = none;
    accounts = [];
    roles = [];
    lives = [];
    trajectories = [];
    opportunities = [];
    conversations = [];
    messages = [];
    events = [];
    records = [];
    outbox = [];
    outbox_id = 0;
  };
  patience = none;
}

rich-ByTheirIds : (k : String) (r : Role) → lookup k (("a", rich "a") ∷ []) ≡ some r → r.id ≡ k
unfolding lookup new_role
rich-ByTheirIds k r e = elim (Bool-cases (str_eq "a" k)) [
  | inl same ↦
      let one : some (rich "a") ≡ some r = sym (rw same refl) ∙ e in
      let role : rich "a" ≡ r = cc in ap (λ (q : Role). q.id) (sym role) ∙ (str_eq_iff "a" k).0 same
  | inr other ↦ absurd (ground arith)
]

persisted-ByTheirIds : (w : PersistedWorld ℤ) → decode "payload" ≡ some w → ByTheirIds w.roles
persisted-ByTheirIds w e =
    let one : persisted ≡ w = cc in
    subst (λ (x : PersistedWorld ℤ). ByTheirIds x.roles) one (λ k r e. rich-ByTheirIds k r e)

save_lem_example :
    (save decode "payload" session ≡ (false, session.db))
    ⊎ (((save decode "payload" session).0 ≡ true)
        × IsSaved decode "payload" session.db (save decode "payload" session).1)
save_lem_example = save_lem decode "payload" session persisted-ByTheirIds

save-succeeds_example :
    ((save decode "payload" session).0 ≡ true)
    × IsSaved decode "payload" session.db (save decode "payload" session).1
unfolding roles_of_payload lookup
save-succeeds_example =
    save-succeeds decode "payload" persisted [] session refl refl refl ((rich "a", refl), tt)
      persisted-ByTheirIds

-- Between the two worlds, a has another version, b is new and c is gone.
abbrev before : Dict Role
before = ("a", rich "a") ∷ ("c", rich "c") ∷ []

abbrev after : Dict Role
after = ("b", rich "b") ∷ ("a", record (rich "a") { state_version = pos 2 }) ∷ []

changed_ids-differs_example :
    Ordered str_lt (changed_ids before after)
    × (has "a" (changed_ids before after) ≡ differs (lookup "a" before) (lookup "a" after))
unfolding lookup
changed_ids-differs_example = changed_ids-differs "a" before after (refl, (refl, tt))
