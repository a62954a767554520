-- ===== src/Server/Reload/Laws.antt =====
-- What a reload may change: validateReloadConfig of internal/server/reload.go.
use go_mini_gateway.Common.{
  ◌≡◌, ◌↔◌, Bool, true, false, not, Option, none, some, text_eq_iff, arith,
}
use go_mini_gateway.Config.Types.{Config}
use go_mini_gateway.Config.Durations
use go_mini_gateway.Server.Reload.{
  Server, ReloadError, fail_if, ◌>>◌, eq_bool, or_no_text, new_admin_addr, validate_reload_config,
}

-- The fields that need a restart are in the configuration what the server was started with.
pub record KeepsFixed (s : Server) (c : Config) : Type 0 where
  pub addr : Durations.addr c ≡ s.http_addr
  pub shutdown_timeout : c.server.shutdown_timeout ≡ s.current_config.server.shutdown_timeout
  pub admin_enabled : c.admin.enabled ≡ s.admin_enabled
  pub admin_addr : new_admin_addr c ≡ or_no_text s.admin_http_addr
  pub admin_token : c.admin.token ≡ s.admin_token
  pub metrics_require_token : c.admin.metrics_require_token ≡ s.metrics_require_token
  pub pprof_enabled : c.admin.pprof_enabled ≡ s.pprof_enabled

step :
    (b : Bool) (e : ReloadError) (k : Option ReloadError)
    → ((fail_if (not b) e >> k) ≡ none) ↔ ((b ≡ true) × (k ≡ none))
step b e none = ground arith
step b e (some x) = ground arith

last : (b : Bool) (e : ReloadError) → (fail_if (not b) e ≡ none) ↔ (b ≡ true)
last b e = ground arith

eq_bool_iff : (a b : Bool) → (eq_bool a b ≡ true) ↔ (a ≡ b)
eq_bool_iff true b = ground arith
eq_bool_iff false b = ground arith

pub validate_reload_config_iff :
    (s : Server) (c : Config) → (validate_reload_config s c ≡ none) ↔ KeepsFixed s c
unfolding validate_reload_config
validate_reload_config_iff s c = (
  λ h.
      let (a1, h1) = (step _ _ _).0 h in
      let (a2, h2) = (step _ _ _).0 h1 in
      let (a3, h3) = (step _ _ _).0 h2 in
      let (a4, h4) = (step _ _ _).0 h3 in
      let (a5, h5) = (step _ _ _).0 h4 in
      let (a6, h6) = (step _ _ _).0 h5 in
      record {
        addr = (text_eq_iff _ _).0 a1;
        shutdown_timeout = (text_eq_iff _ _).0 a2;
        admin_enabled = (eq_bool_iff _ _).0 a3;
        admin_addr = (text_eq_iff _ _).0 a4;
        admin_token = (text_eq_iff _ _).0 a5;
        metrics_require_token = (eq_bool_iff _ _).0 a6;
        pprof_enabled = (eq_bool_iff _ _).0 ((last _ _).0 h6);
      },
  λ k. (step _ _ _).1 (
    (text_eq_iff _ _).1 k.addr,
    (step _ _ _).1 (
      (text_eq_iff _ _).1 k.shutdown_timeout,
      (step _ _ _).1 (
        (eq_bool_iff _ _).1 k.admin_enabled,
        (step _ _ _).1 (
          (text_eq_iff _ _).1 k.admin_addr,
          (step _ _ _).1 (
            (text_eq_iff _ _).1 k.admin_token,
            (step _ _ _).1 (
              (eq_bool_iff _ _).1 k.metrics_require_token,
              (last _ _).1 ((eq_bool_iff _ _).1 k.pprof_enabled),
            ),
          ),
        ),
      ),
    ),
  ),
)
