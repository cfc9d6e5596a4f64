-- ===== src/Cloud/Login/Guesses.antt =====
-- How many passwords of a user can be tried while a window lasts.
use excel_sync.Base.{
  ℕ, zero, suc, String, true, false, Option, some, List, [], ◌∷◌, ◌≡◌, refl, ap, sym, ◌∙◌, ◌≤◌, ◌<◌,
  ◌+◌, ◌-◌, string_eq, leb, ltb, max, ◌⊎◌, inl, inr, Bool-cases, arith, ==_refl, All,
}
use excel_sync.Cloud.Login.{
  Throttles, Entry, stored, LoginThrottleState, LoginOutcome, throttled, handle_login, is_throttled,
  is_dropped, Others, Point, user_found, user_loaded, ip_found, verifying, user_stored,
  failed_user_found, failed_user_loaded, ip_failure_limit, failed_ip_found, failed_ip_loaded,
  load_user, load_ip, fail_ip, check_ip, answer, load_entry, fail_entry, record_login_failure,
  set_entry, user_failure_limit, login_window_ms, blocked_at,
}

-- 1 if the password was looked at.
abbrev checked : LoginOutcome → ℕ
checked throttled = 0
checked _ = 1

-- A login with a wrong password: the client's address, the time, and what others do meanwhile.
pub record Guess : Type 0 where
  pub ip : String
  pub time : ℕ
  pub others : Others

-- How many of the guesses are compared with the user's password.
unfoldable pub checks : String → List Guess → Throttles → ℕ
checks user [] t = 0
checks user (g ∷ gs) t =
    let r = handle_login user g.ip g.time false g.others t in checked r.0 + checks user gs r.1

-- Meanwhile nobody else writes the user's row.
abbrev pub Alone : String → Others → Type 0
Alone user o = (p : Point) (t : Throttles) → (o.at_point p t).users user ≡ t.users user

-- The window of the user started at `s`: `left` checks are left in it, or the user is blocked to its
-- end.
record Counted (user : String) (s left : ℕ) (t : Throttles) : Type 0 where
  state : LoginThrottleState
  entry : t.users user ≡ some (stored state)
  started : state.window_started_at ≡ s
  counted :
      ((left + state.failures ≡ 6) × (1 ≤ left))
      ⊎ (s + login_window_ms ≤ blocked_at state.blocked_until)

-- The guess starts within the window, and so does the count of its failure.
abbrev pub InWindow : String → ℕ → Guess → Type 0
InWindow user s g =
    (s ≤ g.time)
    × (g.time < s + login_window_ms)
    × (s ≤ g.others.failed_at)
    × (g.others.failed_at < s + login_window_ms)
    × Alone user g.others

in_window :
    (now s started : ℕ)
    → started ≡ s
    → now < s + login_window_ms
    → ltb login_window_ms (now - started) ≡ false
in_window now s started e h = ground arith

load_in_window :
    (now s : ℕ) (st : LoginThrottleState)
    → st.window_started_at ≡ s
    → now < s + login_window_ms
    → load_entry now (some (stored st)) ≡ some st
unfolding load_entry
load_in_window now s st e h = rw (in_window now s st.window_started_at e h) refl

load-Counted :
    (user : String) (s left now : ℕ) (t : Throttles) (c : Counted user s left t)
    → now < s + login_window_ms
    → load_entry now (t.users user) ≡ some c.state
load-Counted user s left now t c h = rw c.entry (load_in_window now s c.state c.started h)

set-get :
    (key : String) (e : Option Entry) (table : String → Option Entry)
    → set_entry key e table key ≡ e
set-get key e table = rw (==_refl key) refl

is_dropped-in_window :
    (user : String) (s left now : ℕ) (t : Throttles)
    → Counted user s left t
    → now < s + login_window_ms
    → is_dropped now (t.users user) ≡ false
is_dropped-in_window user s left now t c h =
    rw (c.entry, in_window now s c.state.window_started_at c.started h) refl

-- A row that is the same counts the same.
abbrev same-Counted :
    (user : String) (s left : ℕ) (t t' : Throttles)
    → t'.users user ≡ t.users user
    → Counted user s left t
    → Counted user s left t'
same-Counted user s left t t' e c = record {
  state = c.state;
  entry = e ∙ c.entry;
  started = c.started;
  counted = c.counted;
}

load_user-users :
    (user : String) (o : Others) (p : Point) (s left now : ℕ) (t : Throttles)
    → Counted user s left t
    → now < s + login_window_ms
    → load_user o p user now t ≡ t
unfolding load_user
load_user-users user o p s left now t c h = rw (is_dropped-in_window user s left now t c h) refl

load_ip-users :
    (user ip : String) (o : Others) (p : Point) (now : ℕ) (t : Throttles)
    → Alone user o
    → (load_ip o p ip now t).users user ≡ t.users user
unfolding load_ip
load_ip-users user ip o p now t alone = elim (Bool-cases (is_dropped now (t.ips ip))) [
  | inl e ↦ rw e (alone p t)
  | inr e ↦ rw e refl
]

less_than_max : (n a b : ℕ) → n < a → ltb n (max a b) ≡ true
less_than_max n a b h = ground arith

blocked-throttled :
    (s left now : ℕ) (st : LoginThrottleState) (i : Option LoginThrottleState)
    → now < s + login_window_ms
    → s + login_window_ms ≤ blocked_at st.blocked_until
    → is_throttled now (some st) i ≡ true
blocked-throttled s left now st i h b =
    less_than_max now (blocked_at st.blocked_until) _ (omega arith)

within :
    (now s started : ℕ)
    → started ≡ s
    → now < s + login_window_ms
    → leb (now - started) login_window_ms ≡ true
within now s started e h = ground arith

reached : (failures : ℕ) → 1 + failures ≡ 6 → leb user_failure_limit (failures + 1) ≡ true
reached failures n = ground arith

absurd_bool : {A : Type 0} → true ≡ false → A
absurd_bool e = ground arith

-- One more wrong password.
fail_entry-counted :
    (s left now : ℕ) (st : LoginThrottleState)
    → st.window_started_at ≡ s
    → s ≤ now
    → now < s + login_window_ms
    → suc left + st.failures ≡ 6
    → let after = fail_entry now user_failure_limit (some st) in
      (after.window_started_at ≡ s)
      × (((left + after.failures ≡ 6) × (1 ≤ left))
          ⊎ (s + login_window_ms ≤ blocked_at after.blocked_until))
unfolding fail_entry
fail_entry-counted s zero now st e l h n =
    rw (within now s st.window_started_at e h) (e, inr (rw (reached st.failures n) (omega arith)))
fail_entry-counted s (suc left) now st e l h n =
    rw (within now s st.window_started_at e h) (e, inl (omega arith, omega arith))

checked-answer : (u i : LoginThrottleState) → checked (answer u i) ≡ 1
checked-answer u i = ground arith

fail_ip-checked :
    (ip : String) (o : Others) (u : LoginThrottleState) (t : Throttles)
    → checked (fail_ip ip o u t).0 ≡ 1
unfolding fail_ip
fail_ip-checked ip o u t =
    checked-answer u (fail_entry o.failed_at ip_failure_limit (load_entry o.failed_at (t.ips ip)))

fail_ip-users :
    (user ip : String) (o : Others) (u : LoginThrottleState) (t : Throttles)
    → Alone user o
    → (fail_ip ip o u t).1.users user ≡ t.users user
unfolding fail_ip
fail_ip-users user ip o u t alone =
    alone failed_ip_loaded (load_ip o failed_ip_found ip o.failed_at t)
    ∙ load_ip-users user ip o failed_ip_found o.failed_at t alone

-- The row that recordLoginFailure leaves the user.
failed_row :
    (user ip : String) (o : Others) (s left : ℕ) (t : Throttles) (c : Counted user s left t)
    → Alone user o
    → o.failed_at < s + login_window_ms
    → (record_login_failure user ip o t).1.users user
      ≡ some (stored (fail_entry o.failed_at user_failure_limit (some c.state)))
unfolding record_login_failure
failed_row user ip o s left t c alone h =
    fail_ip-users user ip o _ _ alone
    ∙ alone user_stored _
    ∙ set-get user _
        (o.at_point failed_user_loaded (load_user o failed_user_found user o.failed_at t)).users
    ∙ ap (λ r. some (stored (fail_entry o.failed_at user_failure_limit r)))
        (load-Counted user s left o.failed_at t c h)

record_login_failure-checked :
    (user ip : String) (o : Others) (t : Throttles)
    → checked (record_login_failure user ip o t).0 ≡ 1
unfolding record_login_failure
record_login_failure-checked user ip o t = fail_ip-checked ip o _ _

record_login_failure-Counted :
    (user ip : String) (o : Others) (s left : ℕ) (t : Throttles) (c : Counted user s (suc left) t)
    → Alone user o
    → s ≤ o.failed_at
    → o.failed_at < s + login_window_ms
    → suc left + c.state.failures ≡ 6
    → Counted user s left (record_login_failure user ip o t).1
record_login_failure-Counted user ip o s left t c alone l h n =
    let (started, counted) = fail_entry-counted s left o.failed_at c.state c.started l h n in
    record {
      state = fail_entry o.failed_at user_failure_limit (some c.state);
      entry = failed_row user ip o s (suc left) t c alone h;
      started = started;
      counted = counted;
    }

one_check :
    (user ip : String) (o : Others) (s left : ℕ) (t : Throttles) (c : Counted user s left t)
    → Alone user o
    → s ≤ o.failed_at
    → o.failed_at < s + login_window_ms
    → left + c.state.failures ≡ 6
    → 1 ≤ left
    → let r = record_login_failure user ip o t in
      (rest : ℕ) × (checked r.0 + rest ≤ left) × Counted user s rest r.1
one_check user ip o s zero t c alone l h n m = absurd_bool (ground arith)
one_check user ip o s (suc left) t c alone l h n m = (
  left,
  rw (record_login_failure-checked user ip o t) (omega arith),
  record_login_failure-Counted user ip o s left t c alone l h n,
)

check_ip-Counted :
    (user ip : String) (now : ℕ) (o : Others) (s left : ℕ) (t : Throttles)
    (c : Counted user s left t)
    → now < s + login_window_ms
    → s ≤ o.failed_at
    → o.failed_at < s + login_window_ms
    → Alone user o
    → let r = check_ip user ip now false o (some c.state) t in
      (rest : ℕ) × (checked r.0 + rest ≤ left) × Counted user s rest r.1
unfolding check_ip
check_ip-Counted user ip now o s left t c h l m alone =
    let loaded = load_ip o ip_found ip now t in
    let same = load_ip-users user ip o ip_found now t alone in
    elim (Bool-cases (is_throttled now (some c.state) (load_entry now (t.ips ip)))) [
      | inl e ↦ rw e (left, omega arith, same-Counted user s left t loaded same c)
      | inr e ↦ elim c.counted [
        | inr b ↦
            absurd_bool
              (sym (blocked-throttled s left now c.state (load_entry now (t.ips ip)) h b) ∙ e)
        | inl (n, k) ↦ rw e (
            one_check user ip o s left (o.at_point verifying loaded)
              (same-Counted user s left t _ (alone verifying loaded ∙ same) c) alone l m n k)
      ]
    ]

-- One guess takes at most one of the checks that are left.
guess-Counted :
    (user : String) (g : Guess) (s left : ℕ) (t : Throttles)
    → InWindow user s g
    → Counted user s left t
    → let r = handle_login user g.ip g.time false g.others t in
      (rest : ℕ) × (checked r.0 + rest ≤ left) × Counted user s rest r.1
unfolding handle_login
guess-Counted user g s left t (l, h, l', h', alone) c =
    rw
      (
        load-Counted user s left g.time t c h,
        load_user-users user g.others user_found s left g.time t c h,
      )
      (check_ip-Counted user g.ip g.time g.others s left (g.others.at_point user_loaded t)
        (same-Counted user s left t _ (alone user_loaded t) c) h l' h' alone)

checks-Counted :
    (user : String) (gs : List Guess) (s left : ℕ) (t : Throttles)
    → All (InWindow user s) gs
    → Counted user s left t
    → checks user gs t ≤ left
unfolding checks
checks-Counted user [] s left t w c = omega arith
checks-Counted user (g ∷ gs) s left t (h, w) c =
    let (rest, b, d) = guess-Counted user g s left t h c in
    let ih = checks-Counted user gs s rest (handle_login user g.ip g.time false g.others t).1 w d in
    omega arith

started-Counted :
    (user : String) (t : Throttles) (st : LoginThrottleState)
    → t.users user ≡ some (stored st)
    → st.failures < user_failure_limit
    → Counted user st.window_started_at (user_failure_limit - st.failures) t
started-Counted user t st e n = record {
  state = st;
  entry = e;
  started = refl;
  counted = inl (omega arith, omega arith);
}

-- Once failed logins have opened a user's window and there are fewer than six of them, then whatever
-- wrong passwords follow one after the other within the fifteen minutes of the window, in any number and from any
-- addresses, while logins of other users may run at the same time, also from these addresses, but none of this user:
-- the failures so far and the passwords that are still compared are at most six together.
pub checks-bounded :
    (user : String) (gs : List Guess) (t : Throttles) (st : LoginThrottleState)
    → t.users user ≡ some (stored st)
    → st.failures < user_failure_limit
    → All (InWindow user st.window_started_at) gs
    → st.failures + checks user gs t ≤ user_failure_limit
checks-bounded user gs t st e n w =
    let b =
      checks-Counted user gs st.window_started_at (user_failure_limit - st.failures) t w
        (started-Counted user t st e n) in
    omega arith
