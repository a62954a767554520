-- ===== src/Proxy/Handler/RewritePath.antt =====
-- The path that the upstream is asked for.
use go_mini_gateway.Common.{
  ◌≡◌, refl, ap, Text, true, false, not, [], ◌∷◌, ◌++◌, arith, codes, is_empty, has_prefix,
  drop_prefix, trim_prefix, if◌then◌else◌, ◌∙◌,
}
use go_mini_gateway.Proxy.Handler.{rewrite_path}

has_prefix-append : (s t : Text) → has_prefix (s ++ t) s ≡ true
unfolding has_prefix
has_prefix-append [] t = refl
has_prefix-append (c ∷ s) t = ground (arith, has_prefix-append s t)

drop_prefix-append : (s t : Text) → drop_prefix (s ++ t) s ≡ t
unfolding drop_prefix
drop_prefix-append [] t = refl
drop_prefix-append (c ∷ s) t = drop_prefix-append s t

pub trim_prefix-append : (s t : Text) → trim_prefix (s ++ t) s ≡ t
unfolding trim_prefix
trim_prefix-append s t = rw (has_prefix-append s t) (drop_prefix-append s t)

-- What the handler makes of the path behind the prefix.
rooted : Text → Text
rooted p =
    if is_empty p then codes "/" else if not (has_prefix p (codes "/")) then codes "/" ++ p else p

rooted-has_prefix : (p : Text) → has_prefix (rooted p) (codes "/") ≡ true
unfolding rooted has_prefix
rooted-has_prefix [] = refl
rooted-has_prefix (c ∷ p) = ground arith

rewrite_path-rooted :
    (path strip_prefix : Text)
    → rewrite_path path strip_prefix
      ≡ rooted (if not (is_empty strip_prefix) then trim_prefix path strip_prefix else path)
unfolding rewrite_path rooted
rewrite_path-rooted path strip_prefix = refl

-- The rewritten path begins with a slash, whatever the path and the prefix to strip.
rewrite_path-has_prefix :
    (path strip_prefix : Text) → has_prefix (rewrite_path path strip_prefix) (codes "/") ≡ true
rewrite_path-has_prefix path strip_prefix =
    rw (rewrite_path-rooted path strip_prefix) (rooted-has_prefix _)

trimmed :
    (strip_prefix rest : Text)
    → (if not (is_empty strip_prefix)
        then trim_prefix (strip_prefix ++ rest) strip_prefix
        else (strip_prefix ++ rest))
      ≡ rest
trimmed [] rest = refl
trimmed (c ∷ s) rest = trim_prefix-append (c ∷ s) rest

rooted_lem : (p : Text) → rooted p ≡ (if has_prefix p (codes "/") then p else codes "/" ++ p)
unfolding rooted has_prefix
rooted_lem [] = refl
rooted_lem (c ∷ p) = ground arith

rooted_slash : (rest : Text) → rooted (b'/' ∷ rest) ≡ b'/' ∷ rest
unfolding rooted has_prefix
rooted_slash rest = refl

trim_prefix_other :
    (path strip_prefix : Text)
    → has_prefix path strip_prefix ≡ false
    → (if not (is_empty strip_prefix) then trim_prefix path strip_prefix else path) ≡ path
unfolding trim_prefix
trim_prefix_other path [] h = refl
trim_prefix_other path (c ∷ s) h = rw h

-- Of a path that begins with the prefix to strip, the upstream gets what stands behind it, with a slash
-- in front if it does not begin with one, also when nothing is left.
rewrite_path-append :
    (strip_prefix rest : Text)
    → rewrite_path (strip_prefix ++ rest) strip_prefix
      ≡ (if has_prefix rest (codes "/") then rest else codes "/" ++ rest)
rewrite_path-append strip_prefix rest =
    rewrite_path-rooted (strip_prefix ++ rest) strip_prefix
    ∙ ap rooted (trimmed strip_prefix rest)
    ∙ rooted_lem rest

-- A path that begins with a slash and not with the prefix to strip is passed on as it is.
pub rewrite_path_other :
    (rest strip_prefix : Text)
    → has_prefix (b'/' ∷ rest) strip_prefix ≡ false
    → rewrite_path (b'/' ∷ rest) strip_prefix ≡ b'/' ∷ rest
rewrite_path_other rest strip_prefix h =
    rewrite_path-rooted (b'/' ∷ rest) strip_prefix
    ∙ ap rooted (trim_prefix_other (b'/' ∷ rest) strip_prefix h)
    ∙ rooted_slash rest
