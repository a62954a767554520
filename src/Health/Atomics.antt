-- ===== src/Health/Atomics.antt =====
-- The flags `checked` and `healthy` of internal/health/checker.go, stored by `update` and loaded by
-- `Available` in separate atomic steps, in any interleaving. One goroutine calls `update`.
use go_mini_gateway.Common.{◌≡◌, ◌⊎◌, Bool, true, false, List, [], ◌∷◌, arith}

-- Where `update` stands: before its first store, or between the two.
pub data Updater : Type 0 where
  idle stored : Updater

-- Where a call of `Available` stands: before its first load, behind a load of `checked` that was true,
-- or returned.
pub data Reader : Type 0 where
  outside saw_checked : Reader
  answered : Bool → Reader

-- `results` are the arguments of the calls of `update`, the last one first.
pub record Flags : Type 0 where
  pub checked : Bool
  pub healthy : Bool
  pub results : List Bool
  pub updater : Updater
  pub reader : Reader

abbrev load_checked : Bool → Reader
load_checked true = saw_checked
load_checked false = answered true

pub data Step (f : Flags) : Flags → Type 0 where
  store_healthy :
      (v : Bool)
      → f.updater ≡ idle
      → Step f (record f { healthy = v; results = v ∷ f.results; updater = stored })
  store_checked : f.updater ≡ stored → Step f (record f { checked = true; updater = idle })
  call : Step f (record f { reader = outside })
  read_checked : f.reader ≡ outside → Step f (record f { reader = load_checked f.checked })
  read_healthy : f.reader ≡ saw_checked → Step f (record f { reader = answered f.healthy })

pub data Reach (s : Flags) : Flags → Type 0 where
  here : Reach s s
  next : {t u : Flags} → Reach s t → Step t u → Reach s u

abbrev pub initial : Flags
initial = record {
  checked = false;
  healthy = false;
  results = [];
  updater = idle;
  reader = outside;
}

-- Some check has failed.
abbrev pub HasFailed : List Bool → Type 0
HasFailed [] = ⊥
HasFailed (v ∷ vs) = (v ≡ false) ⊎ HasFailed vs

record Inv (f : Flags) : Type 0 where
  stored_first :
      (f.updater ≡ stored) ⊎ (f.checked ≡ true) → (f.healthy ≡ true) ⊎ HasFailed f.results
  seen : f.reader ≡ saw_checked → f.checked ≡ true
  alarm : f.reader ≡ answered false → HasFailed f.results

Step-Inv : {f g : Flags} → Step f g → Inv f → Inv g
Step-Inv (store_healthy v e) i = ground arith
Step-Inv (store_checked e) i = ground arith
Step-Inv call i = ground arith
Step-Inv (read_checked e) i = ground arith
Step-Inv (read_healthy e) i = ground arith

Reach-Inv : {f : Flags} → Reach initial f → Inv f
Reach-Inv here = ground arith
Reach-Inv (next r st) = Step-Inv st (Reach-Inv r)

-- `Available` never reports an upstream unavailable unless one of its checks has failed, also when it
-- runs between the two stores of the first `update`.
pub no_false_alarm : (f : Flags) → Reach initial f → f.reader ≡ answered false → HasFailed f.results
no_false_alarm f r e = (Reach-Inv r).alarm e
