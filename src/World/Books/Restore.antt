-- ===== src/World/Books/Restore.antt =====
-- The round trip of internal/biz/snapshot.go.
use xiuxian.Base.{
  Bool, List, ◌≡◌, refl, ap, sym, ◌∙◌, inl, inr, true, false, [], ◌∷◌, ◌++◌, map, none, some,
  String, arith, Bool-cases, subst,
}
use mathlib.Core.List.{append_assoc, append-nil}
use xiuxian.Base.Int.{◌≤ℤ◌}
use xiuxian.Base.Dict.{Dict, lookup, insert, str_eq_iff, str_eq_refl}
use xiuxian.Base.Text.{str_eq}
use xiuxian.World.Host.{Host}
use xiuxian.World.Model.{
  World, Role, Session, current_rules, initial_world_max_x, Event, Value, text, whole, real, flag,
  place, conversation_status, object,
}
use xiuxian.World.Snapshot.{
  with_current_rules, hex_sessions, take_snapshot, decode_sessions, restored_max_x, restore_rest,
  restore, reread, reread_data, reread_event, reread_logs,
}

-- Every role has the rules of this version.
abbrev pub AllCurrent : Dict Role → Type 0
AllCurrent [] = Unit {0}
AllCurrent ((_, role) ∷ rest) = (role.rule_version ≡ current_rules) × AllCurrent rest

-- No key is listed twice.
abbrev pub Distinct : Dict Session → Type 0
Distinct [] = Unit {0}
Distinct ((k, _) ∷ rest) = (lookup k rest ≡ none) × Distinct rest

current-same : (roles : Dict Role) → AllCurrent roles → map with_current_rules roles ≡ roles
unfolding with_current_rules
current-same [] h = refl
current-same ((k, role) ∷ rest) h =
    ap (λ v. (k, record role { rule_version = v }) ∷ map with_current_rules rest) (sym h.0)
    ∙ ap (λ l. (k, role) ∷ l) (current-same rest h.1)

insert-new :
    (k : String) (v : Session) (m : Dict Session)
    → lookup k m ≡ none
    → insert k v m ≡ m ++ (k, v) ∷ []
unfolding lookup insert
insert-new k v [] h = refl
insert-new k v ((j, w) ∷ m) h = ground (arith, insert-new k v m)

str_eq_sym : (j k : String) → str_eq k j ≡ false → str_eq j k ≡ false
str_eq_sym j k h = elim (Bool-cases (str_eq j k)) [
  | inl t ↦ cc ((str_eq_iff j k).0 t, str_eq_refl j)
  | inr f ↦ f
]

lookup-middle :
    (j k : String) (v : Session) (xs ys : Dict Session)
    → lookup j (xs ++ (k, v) ∷ ys) ≡ none
    → str_eq k j ≡ false
unfolding lookup
lookup-middle j k v [] ys h = ground arith
lookup-middle j k v ((i, w) ∷ xs) ys h = ground (arith, lookup-middle j k v xs ys)

middle-new :
    (k : String) (v : Session) (xs ys : Dict Session)
    → Distinct (xs ++ (k, v) ∷ ys)
    → lookup k xs ≡ none
unfolding lookup
middle-new k v [] ys d = refl
middle-new k v ((j, w) ∷ xs) ys d =
    rw (str_eq_sym j k (lookup-middle j k v xs ys d.0), lookup) (middle-new k v xs ys d.1)

module _ (host : Host) (inverse : (h : String) → host.unhex (host.hex h) ≡ some h) where
  decode-hex :
      (rest done : Dict Session)
      → Distinct (done ++ rest)
      → decode_sessions host (hex_sessions host rest) done ≡ (true, done ++ rest)
  unfolding decode_sessions hex_sessions
  decode-hex [] done d = ap (λ l. (true, l)) (sym (append-nil done))
  decode-hex ((k, v) ∷ rest) done d =
      let moved = append_assoc done ((k, v) ∷ []) rest in
      rw (inverse k, decode_sessions, insert-new k v done (middle-new k v done rest d))
        (decode-hex rest (done ++ (k, v) ∷ []) (subst Distinct (sym moved) d)
          ∙ ap (λ l. (true, l)) moved)

  kept_max_x :
      (s : World host)
      → initial_world_max_x ≤ℤ s.max_x
      → restored_max_x host (take_snapshot host s) ≡ s.max_x
  unfolding restored_max_x take_snapshot
  kept_max_x s h = ground arith

  restored :
      (s t : World host)
      → Distinct s.sessions
      → AllCurrent s.roles
      → initial_world_max_x ≤ℤ s.max_x
      → restore host (some (take_snapshot host s)) t
        ≡ (true, record s { events = reread_logs host s.events; entropy = t.entropy })
  unfolding restore restore_rest take_snapshot
  restored s t d c m =
      rw (decode-hex s.sessions [] d, kept_max_x s m, current-same s.roles c, restore) refl

  reread-twice : (v : Value host.float.F) → reread host (reread host v) ≡ reread host v
  unfolding reread
  reread-twice (text s) = refl
  reread-twice (whole n) = refl
  reread-twice (real x) = refl
  reread-twice (flag b) = refl
  reread-twice (place p) = refl
  reread-twice (conversation_status status) = refl
  reread-twice (object fields) = refl

  payload-twice :
      (l : Dict (Value host.float.F)) → reread_data host (reread_data host l) ≡ reread_data host l
  unfolding reread_data
  payload-twice [] = refl
  payload-twice ((k, v) ∷ l) = rw (reread-twice v, payload-twice l) refl

  events-twice :
      (l : List (Event host.float.F))
      → map (reread_event host) (map (reread_event host) l) ≡ map (reread_event host) l
  unfolding reread_event
  events-twice [] = refl
  events-twice (e ∷ l) = rw (payload-twice e.payload, events-twice l) refl

  logs-twice :
      (l : Dict (List (Event host.float.F)))
      → reread_logs host (reread_logs host l) ≡ reread_logs host l
  unfolding reread_logs
  logs-twice [] = refl
  logs-twice ((k, es) ∷ l) = rw (events-twice es, logs-twice l) refl

  -- The snapshot of a world, restored into any service, gives that world back, all of it but what
  -- the random source delivers and the data of events, which JSON gives back as texts, numbers, truth
  -- values and objects; and a world that has been restored is given back exactly from then on. For
  -- that, decoding must invert encoding of session hashes, no session be listed twice, every role
  -- have the rules of this version, and the world not be the single point that old snapshots start
  -- with.
  pub restore-take_snapshot :
      (s t u : World host)
      → Distinct s.sessions
      → AllCurrent s.roles
      → initial_world_max_x ≤ℤ s.max_x
      → let r = (restore host (some (take_snapshot host s)) t).1 in
        (restore host (some (take_snapshot host s)) t
          ≡ (true, record s { events = reread_logs host s.events; entropy = t.entropy }))
        × (restore host (some (take_snapshot host r)) u ≡ (true, record r { entropy = u.entropy }))
  restore-take_snapshot s t u d c m =
      let first = restored s t d c m in
      let r : World host = record s { events = reread_logs host s.events; entropy = t.entropy } in
      (
        first,
        subst
            (λ (w : World host).
              restore host (some (take_snapshot host w)) u
              ≡ (true, record w { entropy = u.entropy }))
            (sym (ap (λ (x : Bool × World host). x.1) first))
            (restored r u d c m
              ∙ ap (λ l. (true, record r { events = l; entropy = u.entropy }))
                  (logs-twice s.events)),
      )
