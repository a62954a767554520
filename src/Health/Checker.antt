-- ===== src/Health/Checker.antt =====
-- internal/health/checker.go, its operations one after another; Atomics.antt has the two atomic flags in
-- small steps. `url.Parse` and the HTTP client are parameters. A nil checker is `none`.
use go_mini_gateway.Common.{
  ℕ, ◌==◌, ℤ, pos, pos_part, leb_ℤ, ltb, leb, Bool, true, false, ◌&&◌, ◌||◌, not, Option, none,
  some, [], ◌++◌, Text, Time, codes, is_empty, has_prefix, itoa, if◌then◌else◌,
}
use go_mini_gateway.Url.{Url}

pub record Options : Type 0 where
  pub name : Text
  pub target : Text
  pub path : Text
  pub interval : ℤ
  pub timeout : ℤ

-- `done` tells whether the channel is closed; `looping`, whether the goroutine `loop` runs.
pub record Checker : Type 0 where
  pub name : Text
  pub target : Url
  pub path : Text
  pub interval : ℕ
  pub timeout : ℕ
  pub checked : Bool
  pub healthy : Bool
  pub last_check_at : Time
  pub last_reason : Text
  pub done : Bool
  pub looping : Bool

pub data CheckerError : Type 0 where
  name_required invalid_target target_incomplete interval_not_positive timeout_not_positive :
      CheckerError

pub data Result : Type 0 where
  ok : Checker → Result
  err : CheckerError → Result

-- The default path, and the slash in front of a path that lacks it.
unfoldable pub fix_path : Text → Text
unfolding has_prefix
fix_path path =
    let p = if is_empty path then codes "/health" else path in
    if not (has_prefix p (codes "/")) then codes "/" ++ p else p

abbrev with_target : Options → Url → Result
with_target options url =
    if is_empty url.scheme || is_empty url.host
    then err target_incomplete
    else if leb_ℤ options.interval (pos 0)
    then err interval_not_positive
    else if leb_ℤ options.timeout (pos 0)
    then err timeout_not_positive
    else ok (record {
      name = options.name;
      target = url;
      path = fix_path options.path;
      interval = pos_part options.interval;
      timeout = pos_part options.timeout;
      checked = false;
      healthy = false;
      last_check_at = 0;
      last_reason = [];
      done = false;
      looping = false;
    })

abbrev parsed_target : Options → Option Url → Result
parsed_target options none = err invalid_target
parsed_target options (some url) = with_target options url

unfoldable pub new_checker : (Text → Option Url) → Options → Result
new_checker parse options =
    if is_empty options.name
    then err name_required
    else parsed_target options (parse options.target)

unfoldable pub start : Checker → Checker
start c = record c { looping = true }

-- `once.Do`: a second call finds `done` closed and changes nothing.
unfoldable pub close : Checker → Checker
close c = record c { done = true }

unfoldable pub available : Option Checker → Bool
available none = true
available (some c) = if not c.checked then true else c.healthy

unfoldable pub is_healthy : Option Checker → Bool
is_healthy none = true
is_healthy (some c) = c.healthy

unfoldable pub name : Option Checker → Text
name none = []
name (some c) = c.name

-- The target with the check's path in place of its own, and no query.
unfoldable pub health_url : Checker → Url
health_url c = record c.target { path = c.path; raw_path = []; raw_query = [] }

unfoldable pub update : Checker → Bool → Text → Time → Checker
update c healthy reason now = record c {
  last_check_at = now;
  last_reason = reason;
  healthy = healthy;
  checked = true;
}

-- What the client makes of a check: no request, no response, or a response with its status.
pub data Answer : Type 0 where
  create_failed request_failed : Text → Answer
  response : ℕ → Answer

unfoldable pub is_ok : ℕ → Bool
is_ok status = leb 200 status && ltb status 300

unfoldable pub check_once : Checker → Answer → Time → Checker
unfolding update is_ok itoa
check_once c (create_failed e) now =
    update c false (codes "create health check request failed: " ++ e) now
check_once c (request_failed e) now =
    update c false (codes "health check request failed: " ++ e) now
check_once c (response status) now =
    update c (is_ok status) (codes "health check status=" ++ itoa status) now

pub record Snapshot : Type 0 where
  pub name : Text
  pub target : Text
  pub path : Text
  pub interval : Text
  pub timeout : Text
  pub checked : Bool
  pub healthy : Bool
  pub last_checked_at : Text
  pub last_reason : Text

-- `URL.String`, `time.Time.Format` with the layout RFC3339Nano and `time.Duration.String` are parameters.
module _ (url_string : Url → Text) (format : Time → Text) (duration_string : ℕ → Text) where
  unfoldable pub snapshot : Option Checker → Snapshot
  snapshot none = record {
    name = [];
    target = [];
    path = [];
    interval = [];
    timeout = [];
    checked = true;
    healthy = true;
    last_checked_at = [];
    last_reason = [];
  }
  snapshot (some c) = record {
    name = c.name;
    target = url_string c.target;
    path = c.path;
    interval = duration_string c.interval;
    timeout = duration_string c.timeout;
    checked = c.checked;
    healthy = c.healthy;
    last_checked_at = if c.last_check_at == 0 then [] else format c.last_check_at;
    last_reason = c.last_reason;
  }
