-- ===== src/Url.antt =====
-- The fields of net/url's `URL` that the gateway reads or writes; `rest` stands for the others (opaque,
-- user, force query, omit host, fragment).
use go_mini_gateway.Common.{Text}

pub record Url : Type 0 where
  pub scheme : Text
  pub host : Text
  pub path : Text
  pub raw_path : Text
  pub raw_query : Text
  pub rest : Text
