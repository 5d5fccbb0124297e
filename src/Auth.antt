-- ===== src/Auth.antt =====
-- src/auth.rs: the signed cookie of a session, the signed state of a login at GitHub, and the gate before
-- the API. A cookie is the list of its bytes; what the libraries do is a field of `Crypto`.
pub mod Equal
pub mod Session
pub mod Gate
mod Examples
use sandboard.Prelude.{
  ℕ, ◌+◌, ◌-◌, ◌^◌, String, Option, none, some, List, [], ◌∷◌, ◌++◌, Bool, true, false, ◌&&◌, ◌||◌,
  ltb, min, ◌==◌, any, is_none, not, if◌then◌else◌,
}
use sandboard.Prelude.Result.{Result, ok, err, ◌>>=◌}
use sandboard.Prelude.Text.{trim, is_empty, str_eq, starts_with, contains, to_lowercase}
use sandboard.Prelude.Text.Parse.{split_once}
use sandboard.Auth.Equal.{constant_time_eq}

pub data SessionKind : Type 0 where
  admin github : SessionKind

pub record SessionUser : Type 0 where
  pub kind : SessionKind
  pub login : String

pub record SessionPayload : Type 0 where
  pub kind : SessionKind
  pub login : String
  pub exp : ℕ

pub record OAuthStatePayload : Type 0 where
  pub n : String
  pub exp : ℕ
  pub ru : String
  pub next : Option String

-- HMAC and hexadecimal digits, base64 for URLs, and serde for each of the two payloads; base64 with
-- `from_utf8` for the header of a request; the check of a password against its hash.
pub record Crypto : Type 0 where
  pub hmac : List ℕ → List ℕ → Result String (List ℕ)
  pub hex : List ℕ → List ℕ
  pub encode : List ℕ → List ℕ
  pub decode : List ℕ → Option (List ℕ)
  pub to_vec : SessionPayload → Result String (List ℕ)
  pub from_slice : List ℕ → Option SessionPayload
  pub state_to_vec : OAuthStatePayload → Result String (List ℕ)
  pub state_from_slice : List ℕ → Option OAuthStatePayload
  pub decode_text : String → Option String
  pub verify_password : String → String → Bool

-- `saturating_add` on u64
unfoldable pub saturating_add : ℕ → ℕ → ℕ
saturating_add a b = min (a + b) (2 ^ 64 - 1)

abbrev pub dot : ℕ
dot = 0x2E

before : ℕ → Option (List ℕ × List ℕ) → Option (List ℕ × List ℕ)
before b none = none
before b (some (head, tail)) = some (b ∷ head, tail)

-- `split_once('.')`
unfoldable pub split_dot : List ℕ → Option (List ℕ × List ℕ)
unfolding before
split_dot [] = none
split_dot (b ∷ bytes) =
    let later = split_dot bytes in if b == dot then some ([], bytes) else before b later

unfoldable pub and_then : {A B : Type 0} → Option A → (A → Option B) → Option B
and_then none f = none
and_then (some a) f = f a

-- A test that leaves the function with `None`.
unfoldable pub refuse_if : {A : Type 0} → Bool → Option A → Option A
refuse_if test rest = if test then none else rest

-- `Result::ok`
unfoldable pub to_option : {E A : Type 0} → Result E A → Option A
to_option (ok a) = some a
to_option (err _) = none

unfoldable pub sign_payload : Crypto → List ℕ → List ℕ → Result String (List ℕ)
sign_payload c key payload_b64 = c.hmac key payload_b64 >>= λ mac. ok (c.hex mac)

-- The text that is signed, a dot and the signature.
seal : Crypto → List ℕ → List ℕ → Result String (List ℕ)
unfolding sign_payload
seal c key json =
    let payload_b64 = c.encode json in
    sign_payload c key payload_b64 >>= λ sig. ok (payload_b64 ++ dot ∷ sig)

unseal : Crypto → List ℕ → List ℕ → Option (List ℕ)
unfolding split_dot and_then refuse_if to_option sign_payload constant_time_eq
unseal c key text = and_then (split_dot text) (λ parts.
    and_then (to_option (sign_payload c key parts.0))
      (λ expect. refuse_if (not (constant_time_eq parts.1 expect)) (c.decode parts.0)))

unfoldable pub encode_session : Crypto → List ℕ → SessionUser → ℕ → ℕ → Result String (List ℕ)
unfolding saturating_add seal
encode_session c key user ttl_secs now =
    c.to_vec (record { kind = user.kind; login = user.login; exp = saturating_add now ttl_secs })
    >>= λ json. seal c key json

unfoldable pub decode_session : Crypto → List ℕ → List ℕ → ℕ → Option SessionUser
unfolding unseal and_then refuse_if
decode_session c key cookie now = and_then (unseal c key cookie) (λ raw.
    and_then (c.from_slice raw) (λ payload. refuse_if (ltb payload.exp now) (
      refuse_if (is_empty (trim payload.login))
        (some (record { kind = payload.kind; login = payload.login })))))

-- Only paths of the authorization page, and none with another origin in it.
unfoldable pub sanitize_login_next : String → Option String
unfolding trim contains refuse_if
sanitize_login_next raw =
    let raw = trim raw in
    refuse_if (not (starts_with raw "/oauth/authorize")) (
      refuse_if (contains raw "://" || contains raw "\\" || contains raw "\n" || contains raw "\r")
        (some raw))

unfoldable pub encode_oauth_state :
    Crypto → List ℕ → String → String → Option String → ℕ → Result String (List ℕ)
unfolding saturating_add and_then sanitize_login_next seal
encode_oauth_state c key nonce redirect next now =
    c.state_to_vec (record {
      n = nonce;
      exp = saturating_add now 600;
      ru = redirect;
      next = and_then next sanitize_login_next;
    })
    >>= λ json. seal c key json

unfoldable pub decode_oauth_state : Crypto → List ℕ → List ℕ → ℕ → Option OAuthStatePayload
unfolding unseal and_then refuse_if
decode_oauth_state c key state now = and_then (unseal c key state) (λ raw.
    and_then (c.state_from_slice raw)
      (λ payload. refuse_if (ltb payload.exp now || is_empty (trim payload.ru)) (some payload)))

-- The username and the hash of the local admin, and the key that signs, where its text can be read.
pub record AuthBundle : Type 0 where
  pub admin_username : String
  pub password_hash : String
  pub session_key : Option (List ℕ)

-- What the gate reads of a request.
pub record Request : Type 0 where
  pub path : String
  pub cookie : Option (List ℕ)
  pub authorization : Option String

unfoldable pub path_exempt : String → Bool
path_exempt path =
    str_eq path "/healthz"
    || str_eq path "/llms.txt"
    || starts_with path "/auth/"
    || str_eq path "/auth"
    || str_eq path "/api/webhooks/github"
    || starts_with path "/.well-known/oauth-"
    || str_eq path "/oauth/register"
    || str_eq path "/oauth/token"
    || starts_with path "/oauth/authorize"

unfoldable pub eq_ignore_ascii_case : String → String → Bool
unfolding to_lowercase
eq_ignore_ascii_case s t = str_eq (to_lowercase s) (to_lowercase t)

has_login : String → List String → Bool
unfolding eq_ignore_ascii_case trim
has_login login users = any (λ u. eq_ignore_ascii_case (trim u) login) users

unfoldable pub user_in_allowlist : String → List String → Bool
unfolding has_login trim
user_in_allowlist login allowed_users =
    let login = trim login in if is_empty login then false else has_login login allowed_users

-- `org/team`, each without blanks around it
unfoldable pub parse_team : String → Option (String × String)
unfolding split_once trim contains and_then refuse_if
parse_team spec = and_then (split_once (trim spec) "/") (λ (org, team).
    let org = trim org in
    let team = trim team in
    refuse_if (is_empty org || is_empty team || contains team "/") (some (org, team)))

unfoldable pub session_from_jar : Crypto → Option AuthBundle → Request → ℕ → Option SessionUser
unfolding and_then decode_session
session_from_jar c bundle req now = and_then bundle (λ auth.
    and_then auth.session_key
      (λ key. and_then req.cookie (λ cookie. decode_session c key cookie now)))

unfoldable pub admin_from_basic : Crypto → Option AuthBundle → Request → Option SessionUser
unfolding and_then refuse_if split_once eq_ignore_ascii_case trim
admin_from_basic c bundle req = and_then bundle (λ auth. and_then req.authorization (λ value.
    and_then (split_once value " ") (λ (scheme, param).
      refuse_if (not (eq_ignore_ascii_case scheme "basic")) (
        and_then (c.decode_text (trim param)) (λ decoded.
          and_then (split_once decoded ":") (λ (username, password).
            refuse_if
              (not (eq_ignore_ascii_case (trim username) (trim auth.admin_username))
                || not (c.verify_password password auth.password_hash))
              (some (record { kind = SessionKind.admin; login = auth.admin_username }))))))))

or_else : Option SessionUser → Option SessionUser → Option SessionUser
or_else (some user) other = some user
or_else none other = other

unfoldable pub operator_from_jar_or_basic :
    Crypto → Option AuthBundle → Request → ℕ → Option SessionUser
unfolding session_from_jar admin_from_basic or_else
operator_from_jar_or_basic c bundle req now =
    or_else (session_from_jar c bundle req now) (admin_from_basic c bundle req)

-- A request runs, with the user that is put into it, or is answered with the status 401 and whether an
-- admin has still to be made.
pub data Verdict : Type 0 where
  runs : Option SessionUser → Verdict
  unauthorized : Bool → Verdict

verdict : Bool → Option SessionUser → Verdict
verdict bootstrap (some user) = Verdict.runs (some user)
verdict bootstrap none = Verdict.unauthorized bootstrap

unfoldable pub require_session : Crypto → Option AuthBundle → Request → ℕ → Verdict
unfolding path_exempt operator_from_jar_or_basic verdict
require_session c bundle req now =
    if path_exempt req.path
    then Verdict.runs none
    else if not (starts_with req.path "/api/")
    then Verdict.runs none
    else verdict (is_none bundle) (operator_from_jar_or_basic c bundle req now)
