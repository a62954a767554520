-- ===== src/Metrics/Prometheus/Labels.antt =====
-- Label values as the exposition format reads them.
use mathlib.Core.List.{append_assoc, append-nil}
use go_mini_gateway.Common.{
  ℕ, ◌≡◌, ◌==◌, refl, ap, ◌∙◌, Text, Bool, true, false, Option, none, some, [], ◌∷◌, ◌++◌, codes,
  arith, if◌then◌else◌,
}
use go_mini_gateway.Metrics.Prometheus.{replace_all, escape_label_value, format_label}

-- What a reader of the format makes of a code point behind a backslash.
abbrev meant : ℕ → ℕ
meant c = if c == b'n' then b'\n' else c

-- The value that a label's text begins with, behind its opening quote, and what stands behind its closing
-- quote. The last argument tells whether a backslash stands in front.
pub read_value : Text → Text → Bool → Option (Text × Text)
read_value [] value escaped = none
read_value (c ∷ s) value true = read_value s (value ++ meant c ∷ []) false
read_value (c ∷ s) value false =
    let more = read_value s (value ++ c ∷ []) false in
    let behind = read_value s value true in
    if c == b'"' then some (value, s) else if c == b'\\' then behind else more

-- One code point, escaped.
escaped_code : ℕ → Text
escaped_code c =
    if c == b'\\'
    then b'\\' ∷ b'\\' ∷ []
    else if c == b'\n'
    then b'\\' ∷ b'n' ∷ []
    else if c == b'"'
    then b'\\' ∷ b'"' ∷ []
    else c ∷ []

replace_all-append :
    (c : ℕ) (by s t : Text) → replace_all c by (s ++ t) ≡ replace_all c by s ++ replace_all c by t
unfolding replace_all
replace_all-append c by [] t = refl
replace_all-append c by (d ∷ s) t = simp (replace_all-append c by s t, append_assoc)

escape_code : (c : ℕ) → escape_label_value (c ∷ []) ≡ escaped_code c
unfolding escape_label_value escaped_code
escape_code c = ground arith

escape-append :
    (s t : Text) → escape_label_value (s ++ t) ≡ escape_label_value s ++ escape_label_value t
unfolding escape_label_value
escape-append s t = simp replace_all-append

escape-cons :
    (c : ℕ) (s : Text) → escape_label_value (c ∷ s) ≡ escaped_code c ++ escape_label_value s
escape-cons c s = escape-append (c ∷ []) s ∙ ap (λ t. t ++ escape_label_value s) (escape_code c)

read-escaped_code :
    (c : ℕ) (s value : Text)
    → read_value (escaped_code c ++ s) value false ≡ read_value s (value ++ c ∷ []) false
unfolding read_value escaped_code
read-escaped_code c s value = ground arith

escape_nothing : escape_label_value [] ≡ []
unfolding escape_label_value replace_all
escape_nothing = refl

read_value-escape :
    (v value rest : Text)
    → read_value (escape_label_value v ++ b'"' ∷ rest) value false ≡ some (value ++ v, rest)
unfolding read_value
read_value-escape [] value rest = rw (escape_nothing, append-nil) refl
read_value-escape (c ∷ v) value rest =
    rw (escape-cons c v)
      (simp (append_assoc, read-escaped_code, read_value-escape v (value ++ c ∷ []) rest))

-- A reader of the text form gets the value of a label as it was, whatever code points are in it, and goes
-- on exactly behind it: no value can end its own quotes.
pub read_value-format_label :
    (key v rest : Text)
    → (t : Text) × (format_label key v ++ rest ≡ key ++ (codes "=\"" ++ t))
      × (read_value t [] false ≡ some (v, rest))
unfolding format_label
read_value-format_label key v rest =
    (escape_label_value v ++ b'"' ∷ rest, simp append_assoc, read_value-escape v [] rest)
