-- ===== src/Auth/Gate.antt =====
-- src/auth.rs: who is let through to the API.
use sandboard.Prelude.{
  ℕ, ◌≡◌, ◌⊎◌, refl, sym, ◌∙◌, ap, String, Option, none, some, List, [], ◌∷◌, ◌++◌, Bool, true,
  false, ◌||◌, ltb, ◌==◌, ◌≤◌, not, arith, Bool-cases, inl, inr, is_none,
}
use sandboard.Prelude.Result.{Result, ok, err}
use sandboard.Prelude.Text.{trim, is_empty, starts_with}
use sandboard.Prelude.Text.Parse.{split_once}
use sandboard.Auth.{
  Crypto, SessionUser, SessionKind, AuthBundle, Request, Verdict, dot, before, split_dot, and_then,
  refuse_if, to_option, sign_payload, unseal, decode_session, session_from_jar, admin_from_basic,
  eq_ignore_ascii_case, or_else, operator_from_jar_or_basic, verdict, path_exempt, require_session,
}
use sandboard.Auth.Equal.{constant_time_eq, constant_time_eq_iff}

-- The cookie is a text and its signature under the key, and the text is that of a session of the user which has
-- not run out.
pub record IsSession (c : Crypto) (key cookie : List ℕ) (now : ℕ) (user : SessionUser)
    : Type 0 where
  pub payload_b64 : List ℕ
  pub sig : List ℕ
  pub json : List ℕ
  pub exp : ℕ
  pub parts : cookie ≡ payload_b64 ++ dot ∷ sig
  pub signed : sign_payload c key payload_b64 ≡ ok sig
  pub decoded : c.decode payload_b64 ≡ some json
  pub read : c.from_slice json ≡ some (record { kind = user.kind; login = user.login; exp = exp })
  pub lasts : now ≤ exp
  pub named : is_empty (trim user.login) ≡ false

-- The header of the request is a Basic one whose text, decoded and cut at the first colon, names the
-- admin in front of it and has behind it a password that fits the hash.
pub record IsBasic (c : Crypto) (auth : AuthBundle) (req : Request) (user : SessionUser)
    : Type 0 where
  pub value : String
  pub scheme : String
  pub param : String
  pub text : String
  pub username : String
  pub password : String
  pub sent : req.authorization ≡ some value
  pub split : split_once value " " ≡ some (scheme, param)
  pub basic : eq_ignore_ascii_case scheme "basic" ≡ true
  pub decoded : c.decode_text (trim param) ≡ some text
  pub parted : split_once text ":" ≡ some (username, password)
  pub same_name : eq_ignore_ascii_case (trim username) (trim auth.admin_username) ≡ true
  pub verified : c.verify_password password auth.password_hash ≡ true
  pub is_admin : user ≡ record { kind = SessionKind.admin; login = auth.admin_username }

and_then-some :
    {A B : Type 0} (o : Option A) (f : A → Option B) (b : B)
    → and_then o f ≡ some b
    → (a : A) × (o ≡ some a) × (f a ≡ some b)
unfolding and_then
and_then-some none f b h = absurd cc
and_then-some (some a) f b h = (a, refl, h)

refuse_if-some :
    {A : Type 0} (test : Bool) (rest : Option A) (a : A)
    → refuse_if test rest ≡ some a
    → (test ≡ false) × (rest ≡ some a)
unfolding refuse_if
refuse_if-some true rest a h = absurd cc
refuse_if-some false rest a h = (refl, h)

some_inj : {A : Type 0} {a b : A} → ◌≡◌ {A = Option A} (some a) (some b) → a ≡ b
some_inj h = cc

before_some :
    (b : ℕ) (o : Option (List ℕ × List ℕ)) (head tail : List ℕ)
    → before b o ≡ some (head, tail)
    → (rest : List ℕ) × (b ∷ rest ≡ head) × (o ≡ some (rest, tail))
unfolding before
before_some b none head tail h = absurd cc
before_some b (some (rest, end)) head tail h =
    let same = some_inj h in
    (rest, ap (λ p. p.0) same, ap (λ t. some (rest, t)) (ap (λ p. p.1) same))

split_dot-some :
    (text head tail : List ℕ) → split_dot text ≡ some (head, tail) → text ≡ head ++ dot ∷ tail
unfolding split_dot
split_dot-some [] head tail h = absurd cc
split_dot-some (b ∷ text) head tail h = elim (Bool-cases (b == dot)) [
  | inl here ↦
      let is_dot : b ≡ dot = ground arith in
      let found : split_dot (b ∷ text) ≡ some ([], text) = rw here refl in
      let same = some_inj (sym found ∙ h) in
      ap (λ d. d ∷ text) is_dot ∙ ap (λ p. p.0 ++ dot ∷ p.1) same
  | inr later ↦
      let passed : split_dot (b ∷ text) ≡ before b (split_dot text) = rw later refl in
      let (rest, front, found) = before_some b (split_dot text) head tail (sym passed ∙ h) in
      ap (λ t. b ∷ t) (split_dot-some text rest tail found) ∙ ap (λ r. r ++ dot ∷ tail) front
]

to_option-some : {E A : Type 0} (r : Result E A) (a : A) → to_option r ≡ some a → r ≡ ok a
unfolding to_option
to_option-some (ok x) a h = ap ok (some_inj h)
to_option-some (err e) a h = absurd cc

-- A session that is read was signed under the key.
decode_session-some :
    (c : Crypto) (key cookie : List ℕ) (now : ℕ) (user : SessionUser)
    → decode_session c key cookie now ≡ some user
    → IsSession c key cookie now user
unfolding decode_session unseal
decode_session-some c key cookie now user h =
    let (raw, opened, h) = and_then-some (unseal c key cookie) _ user h in
    let (parts, parted, opened) = and_then-some (split_dot cookie) _ raw opened in
    let (expect, signs, opened) =
      and_then-some (to_option (sign_payload c key parts.0)) _ raw opened in
    let (equal, decoded) = refuse_if-some (not (constant_time_eq parts.1 expect)) _ raw opened in
    let (payload, read, h) = and_then-some (c.from_slice raw) _ user h in
    let (fresh, h) = refuse_if-some (ltb payload.exp now) _ user h in
    let (named, h) = refuse_if-some (is_empty (trim payload.login)) _ user h in
    let passed : constant_time_eq parts.1 expect ≡ true = ground arith in
    let same = (constant_time_eq_iff parts.1 expect).0 passed in
    let made = some_inj h in
    record {
      payload_b64 = parts.0;
      sig = parts.1;
      json = raw;
      exp = payload.exp;
      parts = split_dot-some cookie parts.0 parts.1 parted;
      signed = to_option-some (sign_payload c key parts.0) expect signs ∙ ap ok (sym same);
      decoded = decoded;
      read =
          read ∙ ap (λ u. some (record { kind = u.kind; login = u.login; exp = payload.exp })) made;
      lasts = ground (arith, fresh);
      named = sym (ap (λ u. is_empty (trim u.login)) made) ∙ named;
    }

admin_from_basic-some :
    (c : Crypto) (bundle : Option AuthBundle) (req : Request) (user : SessionUser)
    → admin_from_basic c bundle req ≡ some user
    → (auth : AuthBundle) × (bundle ≡ some auth) × IsBasic c auth req user
unfolding admin_from_basic
admin_from_basic-some c bundle req user h =
    let (auth, known, h) = and_then-some bundle _ user h in
    let (value, sent, h) = and_then-some req.authorization _ user h in
    let (scheme, split, h) = and_then-some (split_once value " ") _ user h in
    let (basic, h) = refuse_if-some (not (eq_ignore_ascii_case scheme.0 "basic")) _ user h in
    let (text, decoded, h) = and_then-some (c.decode_text (trim scheme.1)) _ user h in
    let (pair, parted, h) = and_then-some (split_once text ":") _ user h in
    let same_name = eq_ignore_ascii_case (trim pair.0) (trim auth.admin_username) in
    let verified = c.verify_password pair.1 auth.password_hash in
    let (fits, h) = refuse_if-some (not same_name || not verified) _ user h in
    (
      auth,
      known,
      record {
        value = value;
        scheme = scheme.0;
        param = scheme.1;
        text = text;
        username = pair.0;
        password = pair.1;
        sent = sent;
        split = split;
        basic = ground (arith, basic);
        decoded = decoded;
        parted = parted;
        same_name = ground (arith, fits);
        verified = ground (arith, fits);
        is_admin = sym (some_inj h);
      },
    )

-- The two ways to be an operator.
abbrev pub IsOperator : Crypto → Option AuthBundle → Request → ℕ → SessionUser → Type 0
IsOperator c bundle req now user =
    (auth : AuthBundle) × (bundle ≡ some auth)
    × (((key cookie : List ℕ) × (auth.session_key ≡ some key)
          × (req.cookie ≡ some cookie)
          × IsSession c key cookie now user)
        ⊎ IsBasic c auth req user)

or_else-some :
    (o other : Option SessionUser) (user : SessionUser)
    → or_else o other ≡ some user
    → (o ≡ some user) ⊎ (other ≡ some user)
unfolding or_else
or_else-some (some found) other user h = inl h
or_else-some none other user h = inr h

IsOperator-some :
    (c : Crypto) (bundle : Option AuthBundle) (req : Request) (now : ℕ) (user : SessionUser)
    → operator_from_jar_or_basic c bundle req now ≡ some user
    → IsOperator c bundle req now user
unfolding operator_from_jar_or_basic session_from_jar
IsOperator-some c bundle req now user h =
    elim (or_else-some (session_from_jar c bundle req now) (admin_from_basic c bundle req) user h) [
      | inl jar ↦
          let (auth, known, jar) = and_then-some bundle _ user jar in
          let (key, keyed, jar) = and_then-some auth.session_key _ user jar in
          let (cookie, sent, read) = and_then-some req.cookie _ user jar in
          (
            auth,
            known,
            inl (key, cookie, keyed, sent, decode_session-some c key cookie now user read),
          )
      | inr header ↦
          let (auth, known, basic) = admin_from_basic-some c bundle req user header in
          (auth, known, inr basic)
    ]

verdict-runs :
    (bootstrap : Bool) (o : Option SessionUser) (let_in : Option SessionUser)
    → verdict bootstrap o ≡ Verdict.runs let_in
    → (user : SessionUser) × (let_in ≡ some user) × (o ≡ some user)
unfolding verdict
verdict-runs bootstrap (some user) let_in h =
    let same : some user ≡ let_in = cc in (user, sym same, refl)
verdict-runs bootstrap none let_in h = absurd cc

-- A request to the API that is not exempt runs only for an operator: either its cookie is a text with the
-- signature of that text under the key of the board, and the text is a session of that user which has not run
-- out and has a login, or its Basic header, decoded, names the admin and has a password that fits the hash. A board
-- that has no admin yet lets no such request run.
pub require_session-IsOperator :
    (c : Crypto) (bundle : Option AuthBundle) (req : Request) (now : ℕ)
    (let_in : Option SessionUser)
    → path_exempt req.path ≡ false
    → starts_with req.path "/api/" ≡ true
    → require_session c bundle req now ≡ Verdict.runs let_in
    → (user : SessionUser) × (let_in ≡ some user) × IsOperator c bundle req now user
unfolding require_session
require_session-IsOperator c bundle req now let_in guarded api runs =
    let operator = operator_from_jar_or_basic c bundle req now in
    let tested : require_session c bundle req now ≡ verdict (is_none bundle) operator =
      rw (guarded, api) refl in
    let (user, same, found) = verdict-runs (is_none bundle) operator let_in (sym tested ∙ runs) in
    (user, same, IsOperator-some c bundle req now user found)
