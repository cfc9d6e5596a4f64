-- ===== src/Cloud/Login.antt =====
-- worker/src/index.ts: the throttle of logins. The keys are the SHA-256 texts of the user name and of
-- the client's address; the two kinds have different prefixes, so each has its own table. The check
-- of the password and of the account's status is an argument of a login, and so is what others do to the
-- tables while it awaits.
pub mod Guesses
use excel_sync.Base.{
  ℕ, String, Bool, true, false, ◌&&◌, ◌||◌, not, Option, none, some, ◌==◌, string_eq, leb, ltb, ◌+◌,
  ◌-◌, ◌*◌, max, if◌then◌else◌,
}

abbrev pub user_failure_limit : ℕ
user_failure_limit = 6

abbrev pub ip_failure_limit : ℕ
ip_failure_limit = 30

abbrev pub login_window_ms : ℕ
login_window_ms = 900000

abbrev pub login_block_ms : ℕ
login_block_ms = 900000

pub record LoginThrottleState : Type 0 where
  pub failures : ℕ
  pub window_started_at : ℕ
  pub blocked_until : Option ℕ

-- What a row of app_settings holds: a state, or a text that is none.
pub data Entry : Type 0 where
  stored : LoginThrottleState → Entry
  corrupt : Entry

pub record Throttles : Type 0 where
  pub users : String → Option Entry
  pub ips : String → Option Entry

abbrev pub blocked_at : Option ℕ → ℕ
blocked_at none = 0
blocked_at (some t) = t

-- `now - started > LOGIN_WINDOW_MS && (!blocked || blocked <= now)`
abbrev pub is_over : ℕ → LoginThrottleState → Bool
is_over now s =
    ltb login_window_ms (now - s.window_started_at) && leb (blocked_at s.blocked_until) now

unfoldable pub load_entry : ℕ → Option Entry → Option LoginThrottleState
load_entry now none = none
load_entry now (some corrupt) = none
load_entry now (some (stored s)) = if is_over now s then none else some s

abbrev pub entry_of : Option LoginThrottleState → Option Entry
entry_of none = none
entry_of (some s) = some (stored s)

abbrev pub blocked_state : Option LoginThrottleState → ℕ
blocked_state none = 0
blocked_state (some s) = blocked_at s.blocked_until

abbrev blocked_when : ℕ → ℕ → ℕ → Option ℕ
blocked_when now limit failures = if leb limit failures then some (now + login_block_ms) else none

abbrev state_after : ℕ → ℕ → ℕ → ℕ → LoginThrottleState
state_after now limit started failures = record {
  failures = failures;
  window_started_at = started;
  blocked_until = blocked_when now limit failures;
}

-- One round of the loop of recordLoginFailure.
unfoldable pub fail_entry : ℕ → ℕ → Option LoginThrottleState → LoginThrottleState
fail_entry now limit none = state_after now limit now 1
fail_entry now limit (some s) =
    if leb (now - s.window_started_at) login_window_ms
    then state_after now limit s.window_started_at (s.failures + 1)
    else state_after now limit now 1

abbrev pub set_entry : String → Option Entry → (String → Option Entry) → String → Option Entry
set_entry key e table k = if k == key then e else table k

abbrev is_set : Option ℕ → Bool
is_set none = false
is_set (some t) = true

-- The answers of a login: status 429 before the password is looked at, 429 or 401 after it, and a
-- session.
pub data LoginOutcome : Type 0 where
  throttled blocked rejected accepted : LoginOutcome

-- Where a login awaits the database or the hashing of the password, others may run. The first four are in
-- assertLoginNotThrottled and after it, the rest in recordLoginFailure; a `found` stands between
-- reading a row and deleting it.
pub data Point : Type 0 where
  user_found user_loaded ip_found verifying : Point
  failed_user_found failed_user_loaded user_stored failed_ip_found failed_ip_loaded : Point

-- What others make of the tables at each of these points, and the time at which recordLoginFailure starts.
pub record Others : Type 0 where
  pub at_point : Point → Throttles → Throttles
  pub failed_at : ℕ

-- loadLoginThrottle deletes a row that is over or corrupt.
abbrev pub is_dropped : ℕ → Option Entry → Bool
is_dropped now none = false
is_dropped now (some corrupt) = true
is_dropped now (some (stored s)) = is_over now s

abbrev pub set_user : String → Option Entry → Throttles → Throttles
set_user user e t = record { users = set_entry user e t.users; ips = t.ips }

abbrev pub set_ip : String → Option Entry → Throttles → Throttles
set_ip ip e t = record { users = t.users; ips = set_entry ip e t.ips }

unfoldable pub load_user : Others → Point → String → ℕ → Throttles → Throttles
load_user o p user now t =
    if is_dropped now (t.users user) then set_user user none (o.at_point p t) else t

unfoldable pub load_ip : Others → Point → String → ℕ → Throttles → Throttles
load_ip o p ip now t = if is_dropped now (t.ips ip) then set_ip ip none (o.at_point p t) else t

abbrev pub answer : LoginThrottleState → LoginThrottleState → LoginOutcome
answer u i = if is_set u.blocked_until || is_set i.blocked_until then blocked else rejected

-- The second round of the loop: the client's address.
unfoldable pub fail_ip : String → Others → LoginThrottleState → Throttles → LoginOutcome × Throttles
fail_ip ip o u t =
    let i = fail_entry o.failed_at ip_failure_limit (load_entry o.failed_at (t.ips ip)) in
    (
      answer u i,
      set_ip ip (some (stored i))
          (o.at_point failed_ip_loaded (load_ip o failed_ip_found ip o.failed_at t)),
    )

unfoldable pub record_login_failure :
    String → String → Others → Throttles → LoginOutcome × Throttles
record_login_failure user ip o t =
    let u = fail_entry o.failed_at user_failure_limit (load_entry o.failed_at (t.users user)) in
    fail_ip ip o u (
      o.at_point user_stored (
        set_user user (some (stored u))
          (o.at_point failed_user_loaded (load_user o failed_user_found user o.failed_at t))))

abbrev pub is_throttled : ℕ → Option LoginThrottleState → Option LoginThrottleState → Bool
is_throttled now u i = ltb now (max (blocked_state u) (blocked_state i))

abbrev clear_successful : String → Throttles → Throttles
clear_successful user t = set_user user none t

-- What follows once the user's row, with the state `u`, was loaded.
unfoldable pub check_ip :
    String
    → String
    → ℕ
    → Bool
    → Others
    → Option LoginThrottleState
    → Throttles
    → LoginOutcome × Throttles
check_ip user ip now verified o u t =
    let loaded = load_ip o ip_found ip now t in
    if is_throttled now u (load_entry now (t.ips ip))
    then (throttled, loaded)
    else if verified
    then (accepted, clear_successful user (o.at_point verifying loaded))
    else record_login_failure user ip o (o.at_point verifying loaded)

unfoldable pub handle_login :
    String → String → ℕ → Bool → Others → Throttles → LoginOutcome × Throttles
handle_login user ip now verified o t =
    check_ip user ip now verified o (load_entry now (t.users user))
      (o.at_point user_loaded (load_user o user_found user now t))
