-- ===== src/Auth/Examples.antt =====
-- src/auth.rs: a cookie and two requests under a toy cipher, which writes a byte as two letters.
use sandboard.Prelude.Text.{strip_prefix}
use sandboard.Auth.{saturating_add}
use text.Mathlib.TextEquality.{eq_iff}
use sandboard.Prelude.{
  ℕ, ◌+◌, ◌*◌, ◌-◌, ◌/◌, ◌%◌, ◌<◌, ◌≡◌, refl, sym, ◌∙◌, ap, String, Option, none, some, List, [],
  ◌∷◌, ◌++◌, true, false, ltb, ◌==◌, ◌&&◌, All, Bool-cases, inl, inr, arith, if◌then◌else◌,
}
use sandboard.Prelude.Result.{Result, ok, err}
use sandboard.Prelude.Text.{str_eq, trim}
use sandboard.Auth.{
  Crypto, SessionUser, SessionKind, SessionPayload, AuthBundle, Request, Verdict, dot, path_exempt,
  require_session, sanitize_login_next, encode_session, decode_session, parse_team,
  user_in_allowlist,
}
use sandboard.Auth.Session.{IsCrypto, AreBytes, decode_session-encode_session, ok_inj}
use sandboard.Auth.Gate.{IsOperator, require_session-IsOperator}

letters : List ℕ → List ℕ
letters [] = []
letters (b ∷ bytes) = (65 + b / 16) ∷ (65 + b % 16) ∷ letters bytes

join_byte : ℕ → ℕ → Option (List ℕ) → Option (List ℕ)
join_byte h l none = none
join_byte h l (some bytes) = some (((h - 65) * 16 + (l - 65)) ∷ bytes)

from_letters : List ℕ → Option (List ℕ)
unfolding join_byte
from_letters [] = some []
from_letters (h ∷ []) = none
from_letters (h ∷ l ∷ rest) = join_byte h l (from_letters rest)

-- Only sessions of the admin "ada" have a text: the second at which they run out.
write_session : SessionKind → String → ℕ → Result String (List ℕ)
write_session SessionKind.github login exp = err "not written"
write_session SessionKind.admin login exp =
    if str_eq login "ada" && ltb exp 256 then ok (exp ∷ []) else err "not written"

read_session : List ℕ → Option SessionPayload
read_session (exp ∷ []) = some (record { kind = SessionKind.admin; login = "ada"; exp = exp })
read_session _ = none

abbrev toy : Crypto
toy = record {
  hmac = λ key text. ok (key ++ text);
  hex = letters;
  encode = letters;
  decode = from_letters;
  to_vec = λ payload. write_session payload.kind payload.login payload.exp;
  from_slice = read_session;
  state_to_vec = λ payload. err "not written";
  state_from_slice = λ json. none;
  decode_text = λ text. some text;
  verify_password = str_eq;
}

letters_dotless : (bytes : List ℕ) → All (λ b. (b == dot) ≡ false) (letters bytes)
unfolding letters
letters_dotless [] = tt
letters_dotless (b ∷ bytes) = (ground arith, (ground arith, letters_dotless bytes))

from_letters-letters : (bytes : List ℕ) → AreBytes bytes → from_letters (letters bytes) ≡ some bytes
unfolding letters from_letters join_byte
from_letters-letters [] h = refl
from_letters-letters (b ∷ bytes) h =
    let whole : (65 + b / 16 - 65) * 16 + (65 + b % 16 - 65) ≡ b = omega arith in
    rw (from_letters-letters bytes h.1, whole) refl

written :
    (kind : SessionKind) (login : String) (exp : ℕ) (json : List ℕ)
    → write_session kind login exp ≡ ok json
    → AreBytes json × (read_session json ≡ some (record { kind = kind; login = login; exp = exp }))
unfolding write_session read_session
written SessionKind.github login exp json h = absurd cc
written SessionKind.admin login exp json h = elim (Bool-cases (str_eq login "ada" && ltb exp 256)) [
  | inl both ↦
      let ada : str_eq login "ada" ≡ true = ground arith in
      let soon : exp < 256 = ground arith in
      let name : "ada" ≡ login = sym ((eq_iff login "ada").0 ada) in
      let made : write_session SessionKind.admin login exp ≡ ok (exp ∷ []) = rw both refl in
      let same : exp ∷ [] ≡ json = ok_inj (sym made ∙ h) in
      rw (← same) (
        (soon, tt),
        ap (λ l. some (record { kind = SessionKind.admin; login = l; exp = exp })) name,
      )
  | inr other ↦
      let refused : write_session SessionKind.admin login exp ≡ err "not written" = rw other refl in
      absurd cc
]

toy-IsCrypto : IsCrypto toy
toy-IsCrypto = record {
  dotless = letters_dotless;
  decodes = from_letters-letters;
  bytes = λ payload json h. (written payload.kind payload.login payload.exp json h).0;
  reads = λ payload json h. (written payload.kind payload.login payload.exp json h).1;
}

abbrev ada : SessionUser
ada = record { kind = SessionKind.admin; login = "ada" }

-- The session that ends at second 150, with its signature under the key 7.
abbrev ada_cookie : List ℕ
ada_cookie = 74 ∷ 71 ∷ dot ∷ 65 ∷ 72 ∷ 69 ∷ 75 ∷ 69 ∷ 72 ∷ []

ada_encoded : encode_session toy (7 ∷ []) ada 50 100 ≡ ok ada_cookie
unfolding encode_session letters write_session
ada_encoded = refl

decode_session-encode_session_example : decode_session toy (7 ∷ []) ada_cookie 150 ≡ some ada
unfolding trim saturating_add
decode_session-encode_session_example =
    decode_session-encode_session toy (7 ∷ []) ada_cookie ada 50 100 150 toy-IsCrypto ada_encoded

run_out : decode_session toy (7 ∷ []) ada_cookie 151 ≡ none
unfolding decode_session letters from_letters read_session
run_out = refl

other_key : decode_session toy (8 ∷ []) ada_cookie 120 ≡ none
unfolding decode_session letters
other_key = refl

elsewhere : sanitize_login_next "/oauth/authorize?next=https://evil.example" ≡ none
unfolding sanitize_login_next
elsewhere = refl

abbrev ada_auth : AuthBundle
ada_auth = record { admin_username = "Ada"; password_hash = "engine"; session_key = some (7 ∷ []) }

abbrev api_request : Request
api_request = record { path = "/api/board"; cookie = none; authorization = some "basic ada:engine" }

abbrev ada_admin : SessionUser
ada_admin = record { kind = SessionKind.admin; login = "Ada" }

let_in_by_header : require_session toy (some ada_auth) api_request 0 ≡ Verdict.runs (some ada_admin)
unfolding require_session strip_prefix
let_in_by_header = refl

no_admin_yet : require_session toy none api_request 0 ≡ Verdict.unauthorized true
unfolding require_session
no_admin_yet = refl

require_session-IsOperator_example :
    (user : SessionUser) × (some ada_admin ≡ some user)
    × IsOperator toy (some ada_auth) api_request 0 user
unfolding path_exempt
require_session-IsOperator_example =
    require_session-IsOperator toy (some ada_auth) api_request 0 (some ada_admin) refl refl
      let_in_by_header

spaced_team : parse_team " acme / core " ≡ some ("acme", "core")
unfolding parse_team strip_prefix
spaced_team = refl

nested_team : parse_team "acme/core/web" ≡ none
unfolding parse_team strip_prefix
nested_team = refl

any_case : user_in_allowlist " Ada " ("bob" ∷ "ADA" ∷ []) ≡ true
unfolding user_in_allowlist
any_case = refl

nobody : user_in_allowlist "  " ("" ∷ []) ≡ false
unfolding user_in_allowlist
nobody = refl
