-- ===== src/Http.antt =====
-- The part of net/http that the middlewares and handlers of the gateway use. A handler takes a request
-- and the state of the process to what the client is sent and the state afterwards; a panic of the
-- handler is a reply, since deferred calls run behind it.
use go_mini_gateway.Common.{ℕ, Text, List, [], ◌∷◌, ◌++◌, ◌≡◌, codes, text_eq, if◌then◌else◌}

pub record Response : Type 0 where
  pub status : ℕ
  pub headers : List (Text × Text)
  pub body : Text

pub data Reply : Type 0 where
  reply : Response → Reply
  panicked : Reply

abbrev pub Handler : Type 0 → Type 0 → Type 0
Handler R S = R → S → Reply × S

-- `Header.Set`: one value for the name, which stands in its canonical form.
unfoldable pub set_header : Text → Text → List (Text × Text) → List (Text × Text)
unfolding text_eq
set_header name value [] = (name, value) ∷ []
set_header name value ((n, v) ∷ headers) =
    if text_eq n name then (name, value) ∷ headers else (n, v) ∷ set_header name value headers

-- `http.Error`, on the headers that are set before it; the headers that it deletes are never set here.
unfoldable pub http_error : List (Text × Text) → Text → ℕ → Reply
unfolding set_header
http_error headers message status = reply (record {
  status = status;
  headers =
      set_header (codes "X-Content-Type-Options") (codes "nosniff")
        (set_header (codes "Content-Type") (codes "text/plain; charset=utf-8") headers);
  body = message ++ codes "\n";
})

-- One field of the state of the process.
pub record Cell (S A : Type 0) : Type 0 where
  pub get : S → A
  pub put : A → S → S
  pub get-put : (a : A) (s : S) → get (put a s) ≡ a
