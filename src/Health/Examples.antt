-- ===== src/Health/Examples.antt =====
-- The theorems on the health checker at a checker that is made, checked, and found unhealthy.
use go_mini_gateway.Common.{
  ◌≡◌, refl, pos, Text, Time, true, false, Option, some, List, [], ◌∷◌, codes,
}
use go_mini_gateway.Http.{reply, Handler, Cell}
use go_mini_gateway.Url.{Url}
use go_mini_gateway.Health.Checker.{
  Options, Checker, ok, new_checker, fix_path, Answer, request_failed,
}
use go_mini_gateway.Health.Atomics.{
  Flags, idle, answered, Reach, here, next, store_healthy, store_checked, read_checked,
  read_healthy, initial, HasFailed, no_false_alarm,
}

abbrev address : Url
address = record {
  scheme = codes "http";
  host = codes "a:80";
  path = [];
  raw_path = [];
  raw_query = [];
  rest = [];
}

abbrev options : Options
options = record {
  name = codes "api/a";
  target = codes "http://a:80";
  path = codes "health";
  interval = pos 5;
  timeout = pos 1;
}

abbrev parse : Text → Option Url
parse _ = some address

abbrev made : Checker
made = record {
  name = codes "api/a";
  target = address;
  path = codes "/health";
  interval = 5;
  timeout = 1;
  checked = false;
  healthy = false;
  last_check_at = 0;
  last_reason = [];
  done = false;
  looping = false;
}

made_test : new_checker parse options ≡ ok made
unfolding new_checker fix_path
made_test = refl

abbrev checks : List (Answer × Time)
checks = (request_failed (codes "refused"), 1) ∷ []

abbrev ill : Checker
ill = record made { checked = true }

-- A process whose state is the checker.
abbrev whole : Cell (Option Checker) (Option Checker)
whole = record { get = λ c. c; put = λ c _. c; get-put = λ c _. refl }

abbrev inner : Handler Unit (Option Checker)
inner _ c = (reply (record { status = 200; headers = []; body = codes "ok" }), c)

-- A failed check, and then a call of `Available`.
abbrev alarmed : Flags
alarmed = record {
  checked = true;
  healthy = false;
  results = false ∷ [];
  updater = idle;
  reader = answered false;
}

alarmed_reached : Reach initial alarmed
alarmed_reached =
    next
      (next (next (next here (store_healthy false refl)) (store_checked refl)) (read_checked refl))
      (read_healthy refl)

no_false_alarm_example : HasFailed (false ∷ [])
no_false_alarm_example = no_false_alarm alarmed alarmed_reached refl
