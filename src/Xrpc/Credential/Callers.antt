-- ===== src/Xrpc/Credential/Callers.antt =====
-- Who passes for the administrator, and for a full session.
use manapds.Prelude.{Bool-cases, Option, Str, ap, inl, inr, none, refl, some, true, ◌↔◌, ◌∙◌, ◌≡◌}
use manapds.Prelude.Bytes.{str_eq}
use manapds.Prelude.Eq.{str_eq→eq}
use manapds.Prelude.Int.{ℤ}
use manapds.Prelude.Result.{ok_or, ok, ◌>>=◌, bind-ok}
use manapds.Crypto.{same}
use manapds.Crypto.Same.{same_iff}
use manapds.Xrpc.Auth.{
  Coding, Tokens, Scope, Access, access, full, is_among, refresh, app_password,
  privileged_app_password, signup_queued, taken_down,
}
use manapds.Xrpc.Auth.Session.{IsVouched, verify_access-IsVouched}
use manapds.Xrpc.Credential.{
  Credential, bearer, dpop, basic, from_headers, admin, check_admin, administrator, full_session,
  access_of, bearer_of, auth_missing,
}

check_admin-ok :
    (admin_password : Str) (offered : Option Credential) (u : Unit {0})
    → check_admin admin_password offered ≡ ok u
    → offered ≡ some (basic administrator admin_password)
check_admin-ok admin_password none u h = absurd (cc h)
check_admin-ok admin_password (some (bearer token)) u h = absurd (cc h)
check_admin-ok admin_password (some (dpop token)) u h = absurd (cc h)
check_admin-ok admin_password (some (basic username password)) u h =
    elim (Bool-cases (str_eq username administrator)) [
      | inr other ↦ absurd (cc (rw other at h))
      | inl named ↦ elim (Bool-cases (same password admin_password)) [
        | inr wrong ↦ absurd (cc (rw (named, wrong) at h))
        | inl right ↦
            rw (str_eq→eq username administrator named, (same_iff password admin_password).0 right)
              refl
      ]
    ]

check_admin_lem :
    (admin_password : Str)
    → check_admin admin_password (some (basic administrator admin_password)) ≡ ok tt
check_admin_lem admin_password =
    let right = (same_iff admin_password admin_password).1 refl in rw right refl

-- A request passes for the administrator exactly where its Authorization header reads as the basic
-- credential of the user `admin` with the administrator's password. This holds however base64 decodes.
pub admin_iff :
    (decode : Str → Option Str) (admin_password : Str) (header : Option (Option Str))
    → (admin decode admin_password header ≡ ok tt)
      ↔ (from_headers decode header ≡ ok (some (basic administrator admin_password)))
unfolding admin
admin_iff decode admin_password header = (
  λ passed.
      let (offered, read, checked) = bind-ok (from_headers decode header) _ passed in
      read ∙ ap ok (check_admin-ok admin_password offered tt checked),
  λ read. ap (λ m. m >>= check_admin admin_password) read ∙ check_admin_lem admin_password,
)

bearer_of-ok :
    (offered : Option Credential) (token : Str)
    → ok_or (bearer_of offered) auth_missing ≡ ok token
    → offered ≡ some (bearer token)
bearer_of-ok none token h = absurd (cc h)
bearer_of-ok (some (dpop t)) token h = absurd (cc h)
bearer_of-ok (some (basic name word)) token h = absurd (cc h)
bearer_of-ok (some (bearer t)) token h = let e : t ≡ token = cc h in rw e refl

full-access : (scope : Scope) → is_among full scope ≡ true → scope ≡ access
unfolding is_among
full-access access h = refl
full-access refresh h = absurd (cc h)
full-access app_password h = absurd (cc h)
full-access privileged_app_password h = absurd (cc h)
full-access signup_queued h = absurd (cc h)
full-access taken_down h = absurd (cc h)

-- A request that has a full session offers, as a bearer, a token that this server's secret vouches for as
-- an access token that has not run out, and the scope of the session is that of a password: no app
-- password opens one.
pub full_session-access :
    {J : Type 0} (decode : Str → Option Str) (coding : Coding J) (tokens : Tokens) (now : ℤ)
    (header : Option (Option Str)) (session : Access)
    → full_session decode coding tokens now header ≡ ok session
    → (session.scope ≡ access)
      × ((token : Str) × (from_headers decode header ≡ ok (some (bearer token)))
          × IsVouched coding tokens now full token session)
unfolding full_session access_of
full_session-access decode coding tokens now header session h =
    let (offered, read, on) = bind-ok (from_headers decode header) _ h in
    let (token, found, verified) = bind-ok (ok_or (bearer_of offered) auth_missing) _ on in
    let vouched = verify_access-IsVouched coding tokens now token full session verified in
    (
      full-access session.scope vouched.asked_for,
      (token, read ∙ ap ok (bearer_of-ok offered token found), vouched),
    )
