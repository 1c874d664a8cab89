-- ===== src/Services/Accounts/Login.antt =====
-- Registration, login and authentication together.
use portfolio_analytics_api.Memory.Entries.{get_entry-put_entry}
use portfolio_analytics_api.Services.Accounts.{
  issue_token, normalize_email, authenticate, login, register, AccessTokenService, PasswordHasher,
}
use portfolio_analytics_api.Memory.{
  users_get, users_add, users_get_by_email, InMemoryStore, entry_values, put_entry, get_entry,
}
use portfolio_analytics_api.Common.Text.{text_eq_refl, text_eq, Text}
use portfolio_analytics_api.Domain.Models.{User, Uuid}
use portfolio_analytics_api.Common.{
  ◌∙◌, sym, ap, Option-cases, inr, inl, any, ◌≡◌, find, List, arith, ◌∷◌, [], some, none, false,
  true, refl,
}
use portfolio_analytics_api.Errors.{ok}

-- The rows that do not match stay out of the search.
find-put_entry :
    (e : Text) (k : Uuid) (u : User) (d : List (Uuid × User))
    → text_eq u.email e ≡ true
    → find (λ x. text_eq x.email e) (entry_values d) ≡ none
    → find (λ x. text_eq x.email e) (entry_values (put_entry k u d)) ≡ some u
find-put_entry e k u [] same absent = ground arith
find-put_entry e k u ((j, w) ∷ d) same absent = ground (arith, find-put_entry e k u d same)

any-find :
    (e : Text) (d : List (Uuid × User))
    → find (λ x. text_eq x.email e) (entry_values d) ≡ none
    → any (λ entry. text_eq entry.1.email e) d ≡ false
any-find e [] h = refl
any-find e ((j, w) ∷ d) h = ground (arith, any-find e d)

module _ (hasher : PasswordHasher) (tokens : AccessTokenService) where
  -- The store after a successful registration finds the user under both keys.
  record IsRegistered (e : Text) (password : Text) (user : User) (s : InMemoryStore) : Type 0 where
    by_email : find (λ x. text_eq x.email e) (entry_values s.users) ≡ some user
    by_id : get_entry user.id s.users ≡ some user
    hashed : user.password_hash ≡ hasher.hash password

  register-IsRegistered :
      (email password : Text) (id : Uuid) (s s' : InMemoryStore) (user : User)
      → register hasher email password id s ≡ (ok user, s')
      → IsRegistered (normalize_email email) password user s'
  unfolding register users_get_by_email users_add
  register-IsRegistered email password id s s' user h =
      let e = normalize_email email in
      elim (Option-cases (find (λ x. text_eq x.email e) (entry_values s.users))) [
        | inr (x, found) ↦ absurd (cc)
        | inl absent ↦
            let free = any-find e s.users absent in
            let made : User = record { id = id; email = e; password_hash = hasher.hash password } in
            let stored : InMemoryStore = record s { users = put_entry id made s.users } in
            let ran : register hasher email password id s ≡ (ok made, stored) = ground arith in
            let ends : (ok made, stored) ≡ (ok user, s') = sym ran ∙ h in
            let same : (made ≡ user) × (stored ≡ s') =
              (ground (arith, ap (λ r. r.0) ends), ap (λ r. r.1) ends) in
            rw (← same.0, ← same.1)
              (record {
                by_email = find-put_entry e id made s.users (text_eq_refl e) absent;
                by_id = get_entry-put_entry id made s.users;
                hashed = refl;
              })
      ]

  -- After a registration, a login with the password and with any spelling of the address that has
  -- the same normal form returns a token, and the token authenticates the registered user. The
  -- hasher verifies the hash of a password, the token service the tokens that it issued.
  pub register-login :
      (email email' password : Text) (id : Uuid) (s s' : InMemoryStore) (user : User)
      → hasher.verify password (hasher.hash password) ≡ true
      → ((u : Uuid) → tokens.verify_token (tokens.issue u) ≡ ok u)
      → normalize_email email' ≡ normalize_email email
      → register hasher email password id s ≡ (ok user, s')
      → (login hasher tokens email' password s' ≡ (ok (issue_token tokens user), s'))
        × (authenticate tokens (issue_token tokens user).value s' ≡ (ok user, s'))
  unfolding login authenticate users_get_by_email users_get
  register-login email email' password id s s' user verified issued same h =
      let r = register-IsRegistered email password id s s' user h in
      (rw (same, r.by_email, r.hashed, verified) refl, rw (issued user.id, r.by_id) refl)
