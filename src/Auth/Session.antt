-- ===== src/Auth/Session.antt =====
-- src/auth.rs: what is sealed and opened again.
use sandboard.Prelude.{
  ℕ, ◌<◌, ◌≡◌, refl, sym, ◌∙◌, ap, none, some, List, [], ◌∷◌, ◌++◌, Bool, true, false, ◌||◌, ltb,
  ◌==◌, All, if◌then◌else◌,
}
use sandboard.Prelude.Result.{Result, ok, err, ◌>>=◌}
use sandboard.Prelude.Text.{trim, is_empty}
use sandboard.Auth.{
  Crypto, SessionUser, SessionPayload, dot, before, split_dot, and_then, refuse_if, to_option,
  sign_payload, seal, unseal, saturating_add, encode_session, decode_session,
}
use sandboard.Auth.Equal.{constant_time_eq, constant_time_eq_iff}

abbrev pub AreBytes : List ℕ → Type 0
AreBytes bytes = All (λ b. b < 256) bytes

-- What the libraries promise: base64 for URLs writes no dot, and base64 and serde read what they wrote.
pub record IsCrypto (c : Crypto) : Type 0 where
  pub dotless : (bytes : List ℕ) → All (λ b. (b == dot) ≡ false) (c.encode bytes)
  pub decodes : (bytes : List ℕ) → AreBytes bytes → c.decode (c.encode bytes) ≡ some bytes
  pub bytes :
      (payload : SessionPayload) (json : List ℕ) → c.to_vec payload ≡ ok json → AreBytes json
  pub reads :
      (payload : SessionPayload) (json : List ℕ)
      → c.to_vec payload ≡ ok json
      → c.from_slice json ≡ some payload

split_dot-append :
    (head tail : List ℕ)
    → All (λ b. (b == dot) ≡ false) head
    → split_dot (head ++ dot ∷ tail) ≡ some (head, tail)
unfolding split_dot
split_dot-append [] tail h = refl
split_dot-append (b ∷ head) tail h = rw h.0 (ap (before b) (split_dot-append head tail h.1))

bind_ok :
    {E A B : Type 0} (r : Result E A) (f : A → Result E B) (b : B)
    → (r >>= f) ≡ ok b
    → (a : A) × (r ≡ ok a) × (f a ≡ ok b)
bind_ok (ok a) f b h = (a, refl, h)
bind_ok (err e) f b h = absurd cc

pub ok_inj : {E A : Type 0} {a b : A} → ◌≡◌ {A = Result E A} (ok a) (ok b) → a ≡ b
ok_inj h = cc

either_test :
    (s t : Bool) (user : SessionUser)
    → refuse_if s (refuse_if t (some user)) ≡ (if s || t then none else some user)
unfolding refuse_if
either_test true t user = refl
either_test false t user = refl

-- What was sealed is opened again under the same key.
unseal-seal :
    (c : Crypto) (key json text : List ℕ)
    → IsCrypto c
    → AreBytes json
    → seal c key json ≡ ok text
    → unseal c key text ≡ some json
unfolding seal unseal and_then refuse_if to_option
unseal-seal c key json text h small sealed =
    let (sig, signed, made) =
      bind_ok (sign_payload c key (c.encode json)) (λ sig. ok (c.encode json ++ dot ∷ sig)) text
        sealed in
    let whole : c.encode json ++ dot ∷ sig ≡ text = ok_inj made in
    let parted : split_dot text ≡ some (c.encode json, sig) =
      sym (ap split_dot whole) ∙ split_dot-append (c.encode json) sig (h.dotless json) in
    let equal : constant_time_eq sig sig ≡ true = (constant_time_eq_iff sig sig).1 refl in
    rw (parted, signed, equal, h.decodes json small) refl

-- Where base64 and serde read what they wrote, a session that is encoded is read back, under the same
-- key, as the user that it was made for, until the time to live is over; a blank login is never read.
pub decode_session-encode_session :
    (c : Crypto) (key cookie : List ℕ) (user : SessionUser) (ttl_secs now later : ℕ)
    → IsCrypto c
    → encode_session c key user ttl_secs now ≡ ok cookie
    → decode_session c key cookie later ≡ (
        if ltb (saturating_add now ttl_secs) later || is_empty (trim user.login)
        then none
        else some user)
unfolding encode_session decode_session and_then refuse_if
decode_session-encode_session c key cookie user ttl_secs now later h encoded =
    let payload : SessionPayload = record {
      kind = user.kind;
      login = user.login;
      exp = saturating_add now ttl_secs;
    } in
    let (json, printed, sealed) = bind_ok (c.to_vec payload) (seal c key) cookie encoded in
    rw
      (
        unseal-seal c key json cookie h (h.bytes payload json printed) sealed,
        h.reads payload json printed,
      )
      (either_test (ltb payload.exp later) (is_empty (trim user.login)) user)
