-- ===== src/Server/Routes/Patterns.antt =====
-- The patterns of the routes, and when the mux takes all of them.
use go_mini_gateway.Common.{
  ℕ, ◌≡◌, ◌≢◌, ◌↔◌, ◌⊎◌, ◌==◌, inl, inr, refl, Text, Bool, true, false, not, ◌&&◌, List, [], ◌∷◌,
  ◌++◌, map, All, Bool-cases, is_empty, has_prefix, text_eq, codes, trim_suffix, arith,
}
use go_mini_gateway.Config.Types.{RouteConfig}
use go_mini_gateway.Config.Validate.{contains}
use go_mini_gateway.Config.Validate.Spec.{AllDistinct}
use go_mini_gateway.Config.Validate.Upstreams.{Fresh, Fresh-cons, All-Fresh}
use go_mini_gateway.Server.Outcome.{Outcome, panicked, done}
use go_mini_gateway.Server.Routes.{Handler, Mux, RuntimeError, route_patterns, handle_all}

-- A code point that a mux takes as it stands: no wildcard, no separator of a method, no escape.
abbrev pub IsPlain : ℕ → Type 0
IsPlain c = (c ≢ b'{') × (c ≢ b' ') × (c ≢ b'\t') × (c ≢ b'%')

-- A pattern that is a path and matches no other text than itself, or what begins with it.
abbrev pub IsLiteral : Text → Type 0
IsLiteral p = (has_prefix p (codes "/") ≡ true) × All IsPlain p

-- What net/http documents of a mux: of literal patterns it takes those that are not registered yet.
pub record IsServeMux (accepts : List Text → Text → Bool) : Type 0 where
  pub literal :
      (seen : List Text) (p : Text)
      → All IsLiteral seen
      → IsLiteral p
      → accepts seen p ≡ not (contains p seen)

abbrev pub patterns : Mux → List Text
patterns mux = map (λ e. e.0) mux

abbrev pub system_patterns : List Text
system_patterns = codes "/ping" ∷ codes "/health" ∷ codes "/version" ∷ []

-- The patterns of the routes, in the order of their registration.
abbrev pub all_route_patterns : List RouteConfig → List Text
all_route_patterns [] = []
all_route_patterns (r ∷ rs) = route_patterns r.prefix ++ all_route_patterns rs

-- Whether each pattern is new to those in front of it, and the patterns behind all of them.
abbrev pub accepted : List Text → List Text → Bool
accepted seen [] = true
accepted seen (p ∷ ps) = not (contains p seen) && accepted (p ∷ seen) ps

abbrev pub behind : List Text → List Text → List Text
behind seen [] = seen
behind seen (p ∷ ps) = behind (p ∷ seen) ps

pub behind-append : (seen ps qs : List Text) → behind seen (ps ++ qs) ≡ behind (behind seen ps) qs
behind-append seen [] qs = refl
behind-append seen (p ∷ ps) qs = behind-append (p ∷ seen) ps qs

pub accepted-append :
    (seen ps qs : List Text)
    → accepted seen (ps ++ qs) ≡ (accepted seen ps && accepted (behind seen ps) qs)
accepted-append seen [] qs = refl
accepted-append seen (p ∷ ps) qs = ground (arith, accepted-append (p ∷ seen) ps qs)

accepted_iff : (seen ps : List Text) → (accepted seen ps ≡ true) ↔ (AllDistinct ps × Fresh seen ps)
accepted_iff seen [] = (λ _. (tt, tt), λ _. refl)
accepted_iff seen (p ∷ ps) =
    let ih = accepted_iff (p ∷ seen) ps in
    let f = Fresh-cons p seen ps in
    (
      λ h.
          let a : accepted (p ∷ seen) ps ≡ true = ground (arith) in
          let n : contains p seen ≡ false = ground (arith) in
          let (d, fr) = ih.0 a in let (x, y) = f.0 fr in ((x, d), (n, y)),
      λ ((x, d), (n, y)). let a = ih.1 (d, f.1 (x, y)) in ground (arith, a, n),
    )

-- All are new exactly when no pattern stands twice.
pub AllDistinct-iff : (ps : List Text) → (accepted [] ps ≡ true) ↔ AllDistinct ps
AllDistinct-iff ps = let e = accepted_iff [] ps in (λ h. (e.0 h).0, λ d. e.1 (d, All-Fresh ps))

pub All-behind :
    (P : Text → Type 0) (seen ps : List Text) → All P seen → All P ps → All P (behind seen ps)
All-behind P seen [] a b = a
All-behind P seen (p ∷ ps) a (x, b) = All-behind P (p ∷ seen) ps (x, a) b

-- The outcome of a registration: the mux takes all patterns, which are behind the others then, or panics
-- for the first one that it has.
abbrev pub Registers :
    {A : Type 0} → Outcome RuntimeError A → (A → Mux) → List Text → List Text → Type 0
Registers {A} o mux_of seen ps =
    ((accepted seen ps ≡ true) × ((a : A) × (o ≡ done a) × (patterns (mux_of a) ≡ behind seen ps)))
    ⊎ ((accepted seen ps ≡ false) × (o ≡ panicked))

module _ (accepts : List Text → Text → Bool) (m : IsServeMux accepts) where
  pub handle_all_lem :
      (ps : List Text) (handler : Handler) (mux : Mux)
      → All IsLiteral ps
      → All IsLiteral (patterns mux)
      → Registers (handle_all accepts ps handler mux) (λ a. a) (patterns mux) ps
  unfolding handle_all
  handle_all_lem [] handler mux l ls = inl (refl, (mux, refl, refl))
  handle_all_lem (p ∷ ps) handler mux (l, l') ls =
      let ih = handle_all_lem ps handler ((p, handler) ∷ mux) l' (l, ls) in
      let e = m.literal (patterns mux) p ls l in
      elim (Bool-cases (contains p (patterns mux))) [
        | inl there ↦ inr (ground arith, ground (arith, e))
        | inr new ↦ elim ih [
          | inl (a, (b, h, q)) ↦ inl (ground (arith, a), (b, ground (arith, e, h), q))
          | inr (a, h) ↦ inr (ground (arith, a), ground (arith, e, h))
        ]
      ]

IsPlain-trim_suffix : (s : Text) (c : ℕ) → All IsPlain s → All IsPlain (trim_suffix s c)
unfolding trim_suffix
IsPlain-trim_suffix [] c a = tt
IsPlain-trim_suffix (d ∷ s) c (x, a) =
    let ih = IsPlain-trim_suffix s c a in
    elim (Bool-cases (is_empty s && d == c)) [ inl e ↦ rw e tt | inr e ↦ rw e (x, ih) ]

rooted_trim_suffix :
    (s : Text) (c : ℕ)
    → has_prefix s (codes "/") ≡ true
    → is_empty (trim_suffix s c) ≡ false
    → has_prefix (trim_suffix s c) (codes "/") ≡ true
unfolding trim_suffix has_prefix
rooted_trim_suffix [] c h n = cc
rooted_trim_suffix (d ∷ s) c h n = ground arith

-- Both patterns of a literal prefix are literal.
pub route_patterns-literal :
    (prefix : Text) → IsLiteral prefix → All IsLiteral (route_patterns prefix)
unfolding route_patterns
route_patterns-literal prefix (h, a) =
    let exact = trim_suffix prefix b'/' in
    elim (Bool-cases (not (is_empty exact) && not (text_eq exact prefix))) [
      | inl e ↦
          let n : is_empty exact ≡ false = ground arith in
          let both : All IsLiteral (prefix ∷ exact ∷ []) = (
            (h, a),
            ((rooted_trim_suffix prefix b'/' h n, IsPlain-trim_suffix prefix b'/' a), tt),
          ) in
          rw e both
      | inr e ↦ let one : All IsLiteral (prefix ∷ []) = ((h, a), tt) in rw e one
    ]

-- The same as a test.
abbrev pub plain : Text → Bool
plain [] = true
plain (c ∷ s) = not (c == b'{') && not (c == b' ') && not (c == b'\t') && not (c == b'%') && plain s

pub plain-IsPlain : (s : Text) → plain s ≡ true → All IsPlain s
plain-IsPlain [] h = tt
plain-IsPlain (c ∷ s) h = (ground arith, plain-IsPlain s (ground arith))
