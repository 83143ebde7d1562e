-- ===== src/World/Accounts.antt =====
-- Accounts, sessions and API keys, and the reads of a role's state, of internal/biz/core.go.
use xiuxian.Base.{
  ℕ, ◌+◌, Bool, true, false, ◌||◌, not, Option, none, some, List, [], ◌∷◌, String, if◌then◌else◌,
  ltb, length, ◌++◌, ◌==◌,
}
use xiuxian.Base.Int.{ℤ, pos, pos_part, ◌+ℤ◌, ltb_ℤ, leb_ℤ, eqb_ℤ}
use xiuxian.Base.Dict.{Dict, lookup, insert, erase}
use xiuxian.Base.Text.{trim_space, str_eq, str_len, ◌⊕◌, decimal}
use xiuxian.Rules.Units.{Time, origin, nanos_per_hour, coordinate_units}
use xiuxian.World.Host.{Host}
use xiuxian.World.Model.{
  World, Role, alive, Account, Session, State, Event, invalid, conflict, unauthenticated, not_found,
  hash_failure, token_failure, nil_dereference, cancelled_call, initial_world_max_x, current_rules,
}
use xiuxian.World.Log.{update_role, append_event, authoritative_now, log_of}
use xiuxian.World.Fate.{first_life}
use xiuxian.World.Bond.{is_alive}
use xiuxian.World.Action.{
  Action, ok, err, Call, ◌>>=◌, ◌>>◌, pure, raise_if, gets, modify, or_raise, role_or, now_for,
  settle, save,
}
use Prim.Native.Nat.{◌*◌}

abbrev pub session_time : ℤ
session_time = pos (24 * nanos_per_hour)

unfoldable pub new_role : String → String → String → Time → Role
new_role id account name now = record {
  id = id;
  account = account;
  name = name;
  life_number = pos 1;
  status = alive;
  life_started_at = now;
  cultivation_base = pos 0;
  cultivation_at = now;
  last_settled_at = now;
  position = origin;
  trajectory = none;
  trajectory_cultivation = pos 0;
  state_version = pos 1;
  rule_version = current_rules;
  next_death_at = now +ℤ first_life;
  last_scan_at = pos 0;
  mcp_key_hash = "";
  bound_opportunity_id = "";
}

-- The checks of a registration, on trimmed names. Lengths are in bytes.
unfoldable pub bad_registration : String → String → String → Bool
bad_registration account password role_name =
    str_eq account ""
    || str_eq role_name ""
    || ltb (str_len password) 12
    || ltb 128 (str_len account)
    || ltb 64 (str_len role_name)

pub record Bounds (F : Type 0) : Type 0 where
  pub min_x : F
  pub max_x : F
  pub min_y : F
  pub max_y : F

module _ (host : Host) where
  unfoldable pub has_key {ℓ} : {V : Type ℓ} → String → Dict V → Bool
  has_key k m = elim (lookup k m) [ none ↦ false | some _ ↦ true ]

  -- NewService, with what crypto/rand will deliver.
  unfoldable pub new_service : List (Option ℕ) → World host
  new_service entropy = record {
    accounts = [];
    role_names = [];
    roles = [];
    sessions = [];
    idempotency = [];
    events = [];
    opportunities = [];
    conversations = [];
    conversation_results = [];
    event_sequence = 0;
    min_x = pos 0;
    max_x = initial_world_max_x;
    min_y = pos 0;
    max_y = pos 0;
    next_id = 0;
    entropy = entropy;
  }

  -- The account, the name and the role of a registration.
  unfoldable pub enrol : String → String → String → Time → World host → World host
  enrol account hash name now s =
      let id = "role_" ⊕ decimal (s.next_id + 1) in
      record s {
        next_id = s.next_id + 1;
        accounts = insert account (record { password_hash = hash; role_id = id }) s.accounts;
        role_names = insert name id s.role_names;
        roles = insert id (new_role id account name now) s.roles;
      }

  unfoldable pub start_session : String → String → Time → World host → World host
  start_session token k now s = record s {
    sessions =
        insert (host.sha256 token) (record { role_id = k; expires_at = now +ℤ session_time })
          s.sessions;
  }

  -- `salt` is bcrypt's, and `fresh` the token that newToken makes, if it makes one.
  unfoldable pub register :
      Call host.float.F
      → String
      → Option String
      → String
      → String
      → String
      → Action host (String × State host.float.F)
  register call salt fresh account_name password role_name = do
    let account = trim_space account_name
    let name = trim_space role_name
    raise_if (bad_registration account password name) invalid
    hash ← or_raise (host.bcrypt salt password) hash_failure
    taken ← gets (λ s. has_key account s.accounts)
    raise_if taken conflict
    named ← gets (λ s. has_key name s.role_names)
    raise_if named conflict
    let now = authoritative_now call.reading none
    id ← gets (λ s. "role_" ⊕ decimal (s.next_id + 1))
    modify (enrol account hash name now)
    token ← or_raise fresh token_failure
    modify (start_session token id now)
    state ← settle host id now
    save host call
    pure (token, state)

  unfoldable pub password_matches : Option Account → String → Bool
  password_matches none password = false
  password_matches (some a) password = host.bcrypt_matches a.password_hash password

  unfoldable pub login :
      Call host.float.F
      → Option String
      → String
      → String
      → Action host (String × State host.float.F)
  login call fresh account_name password = do
    entry ← gets (λ s. lookup (trim_space account_name) s.accounts)
    raise_if (not (password_matches entry password)) unauthenticated
    account ← or_raise entry unauthenticated
    token ← or_raise fresh token_failure
    now ← now_for host call account.role_id
    modify (start_session token account.role_id now)
    state ← settle host account.role_id now
    save host call
    pure (token, state)

  unfoldable pub live_session : Option Session → Time → Option String
  live_session none now = none
  live_session (some v) now = if ltb_ℤ now v.expires_at then some v.role_id else none

  unfoldable pub authenticate_session : Call host.float.F → String → Action host String
  authenticate_session call token s =
      let hash = host.sha256 token in
      if call.cancelled
      then (err cancelled_call, s)
      else if str_eq token ""
      then (err unauthenticated, s)
      else elim (live_session (lookup hash s.sessions) call.reading.clock_now) [
        | none ↦ (err unauthenticated, record s { sessions = erase hash s.sessions })
        | some k ↦ (ok k, s)
      ]

  unfoldable pub logout : Call host.float.F → String → Action host (Unit {0})
  logout call token = do
    modify (λ s. record s { sessions = erase (host.sha256 token) s.sessions })
    save host call

  unfoldable pub role_with_key : String → Dict Role → Option String
  role_with_key hash [] = none
  role_with_key hash ((k, role) ∷ roles) =
      let rest = role_with_key hash roles in if str_eq role.mcp_key_hash hash then some k else rest

  unfoldable pub authenticate_api_key : Call host.float.F → String → Action host String
  authenticate_api_key call key = do
    raise_if call.cancelled cancelled_call
    raise_if (str_eq key "") unauthenticated
    found ← gets (λ s. role_with_key (host.sha256 key) s.roles)
    or_raise found unauthenticated

  unfoldable pub set_key_hash : String → Role → Role
  set_key_hash hash role = record role {
    mcp_key_hash = hash;
    state_version = role.state_version +ℤ pos 1;
  }

  unfoldable pub rotate_mcp_key : Call host.float.F → Option String → String → Action host String
  rotate_mcp_key call fresh k = do
    role_or host k unauthenticated
    token ← or_raise fresh token_failure
    let key = "xiu_" ⊕ token
    modify (update_role host k (set_key_hash (host.sha256 key)))
    now ← now_for host call k
    modify (append_event host k now "mcp_key_rotated" "MCP API Key 已轮换" [])
    save host call
    pure key

  unfoldable pub revoke_mcp_key : Call host.float.F → String → Action host (Unit {0})
  revoke_mcp_key call k = do
    role_or host k unauthenticated
    modify (update_role host k (set_key_hash ""))
    now ← now_for host call k
    modify (append_event host k now "mcp_key_revoked" "MCP API Key 已撤销" [])
    save host call

  unfoldable pub state : Call host.float.F → String → Action host (State host.float.F)
  state call k = do
    role_or host k unauthenticated
    now ← now_for host call k
    result ← settle host k now
    save host call
    pure result

  unfoldable pub settle_now : Call host.float.F → String → ℤ → Action host Bool
  settle_now call k before = do
    now ← now_for host call k
    settle host k now
    save host call
    role ← role_or host k nil_dereference
    pure (ltb_ℤ before role.life_number)

  unfoldable pub settle_deadline : Call host.float.F → String → ℤ → Action host Bool
  settle_deadline call k expected = do
    role ← role_or host k not_found
    let stale = not (eqb_ℤ role.state_version expected) || not (is_alive role.status)
    if stale then pure false else settle_now call k role.life_number

  -- limit <= 0 || limit > 100
  unfoldable pub page_limit : ℤ → ℕ
  page_limit limit = if leb_ℤ limit (pos 0) || ltb_ℤ (pos 100) limit then 50 else pos_part limit

  -- The loop of Events: what is taken so far, then the rest of the log.
  unfoldable pub page :
      ℕ → ℤ → List (Event host.float.F) → List (Event host.float.F) → List (Event host.float.F)
  page limit after taken [] = taken
  page limit after taken (e ∷ es) =
      let skip = page limit after taken es in
      let more = page limit after (taken ++ e ∷ []) es in
      if leb_ℤ (pos e.id) after
      then skip
      else if length (taken ++ e ∷ []) == limit
      then taken ++ e ∷ []
      else more

  unfoldable pub events :
      Call host.float.F → String → ℤ → ℤ → Action host (List (Event host.float.F))
  events call k after limit = do
    raise_if call.cancelled cancelled_call
    role_or host k unauthenticated
    gets (λ s. page (page_limit limit) after [] (log_of host k s))

  unfoldable pub bounds : Call host.float.F → Action host (Bounds host.float.F)
  bounds call = do
    raise_if call.cancelled cancelled_call
    gets (λ s. record {
      min_x = coordinate_units host.float s.min_x;
      max_x = coordinate_units host.float s.max_x;
      min_y = coordinate_units host.float s.min_y;
      max_y = coordinate_units host.float s.max_y;
    })

-- The definitions of this file together, for a test that runs them.
unfoldable pub open_accounts : Unit {0}
unfolding new_role bad_registration has_key new_service enrol start_session register
    password_matches login live_session authenticate_session logout role_with_key
    authenticate_api_key set_key_hash rotate_mcp_key revoke_mcp_key state settle_now settle_deadline
    page_limit page events bounds
open_accounts = tt
