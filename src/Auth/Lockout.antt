-- ===== src/Auth/Lockout.antt =====
-- Who gets in by `login`, and how many guesses the lockout lets through.
use cyber.Base.{
  ◌⊎◌, ℕ, ◌+◌, ◌-◌, ◌*◌, ◌≤◌, ◌≡◌, refl, max, false, Option, none, some, map_option, weaken-All,
  Bool-cases, leb→le, inl, inr, List, [], ◌∷◌, arith, ltb, leb, if◌then◌else◌, Text, All,
}
use cyber.Base.Errors.{authentication, internal, ok, err}
use cyber.Auth.Data.{
  is_ascii, User, Membership, SecuritySettings, Hasher, verify_password, load_user_by_email,
}
use cyber.Auth.Login.{
  lockout_remaining, register_failed_login, LoginOutcome, login_checked, login_user, login_unknown,
  login_found, login,
}

-- What a refused sign-in leaves of an account: the failure is counted, unless the account is locked.
abbrev pub counted : SecuritySettings → ℕ → User → User
counted s now u = if ltb 0 (lockout_remaining now u) then u else register_failed_login s now u

-- A sign-in that is refused and counted, or that ends with another exception, which leaves the account as it
-- is; the exception is possible only for a password that is not ASCII.
abbrev pub IsRefused :
    SecuritySettings → (now : ℕ) → (password : Text) → (found : Option User) → LoginOutcome → Type 0
IsRefused s now password found o =
    ((o.answer ≡ err authentication) × (o.user ≡ map_option (counted s now) found))
    ⊎ ((is_ascii password ≡ false) × (o.answer ≡ err internal) × (o.user ≡ found))

verify_plain :
    (h : Hasher) (hash password : Text)
    → h.is_encoded password ≡ false
    → (verify_password h hash password ≡ ok false)
      ⊎ ((is_ascii password ≡ false) × (verify_password h hash password ≡ err internal))
unfolding verify_password
verify_plain h hash password plain = elim (h.verify_unencoded password hash plain) [
  | inl caught ↦ inl (rw (caught, verify_password) refl)
  | inr (wide, other) ↦ inr (wide, rw (other, verify_password) refl)
]

login_found-IsRefused :
    (h : Hasher) (s : SecuritySettings) (now salt access_jti refresh_jti : ℕ)
    (dummy password : Text)
    → (members : List Membership) (found : Option User) → h.is_encoded password ≡ false
    → IsRefused s now password found
        (login_found h s now salt access_jti refresh_jti dummy password members found)
unfolding login_found login_user login_checked login_unknown
login_found-IsRefused h s now salt access_jti refresh_jti dummy password members none plain =
    elim (verify_plain h dummy password plain) [
      | inl failing ↦ inl (rw failing (refl, refl))
      | inr (wide, other) ↦ inr (wide, rw other refl, rw other refl)
    ]
login_found-IsRefused h s now salt access_jti refresh_jti dummy password members (some u) plain =
    elim (Bool-cases (ltb 0 (lockout_remaining now u))) [
      | inl locked ↦ inl (rw locked (refl, refl))
      | inr open_row ↦ elim (verify_plain h u.password_hash password plain) [
        | inl failing ↦ inl (rw (open_row, failing) (refl, refl))
        | inr (wide, other) ↦ inr (wide, rw (open_row, other) refl, rw (open_row, other) refl)
      ]
    ]

-- No password that is not itself an encoded hash signs anyone in, whatever the account, its own password
-- among them. An attempt on an account that is not locked counts as a failed one; only where the password is
-- not ASCII may the request end with another exception, and the account is then left as it is.
pub login_refuses_passwords :
    (h : Hasher) (s : SecuritySettings) (now salt access_jti refresh_jti : ℕ)
    (dummy email password : Text)
    → (members : List Membership) (users : List User) → h.is_encoded password ≡ false
    → IsRefused s now password
        (load_user_by_email email users)
        (login h s now salt access_jti refresh_jti dummy email password members users)
unfolding login
login_refuses_passwords h s now salt access_jti refresh_jti dummy email password members users
      plain =
    login_found-IsRefused h s now salt access_jti refresh_jti dummy password members
      (load_user_by_email email users) plain

module _ (s : SecuritySettings) where
  -- The row after attempts with wrong passwords at these times, and how many of them were checked
  -- against the password.
  unfoldable pub guesses : List ℕ → User → User × ℕ
  guesses [] u = (u, 0)
  guesses (now ∷ times) u =
      let locked = ltb 0 (lockout_remaining now u) in
      let (row, checked) = guesses times (if locked then u else register_failed_login s now u) in
      (row, (if locked then 0 else 1) + checked)

  -- While the lock lasts nothing is checked.
  guesses_locked :
      (times : List ℕ) (u : User) (until : ℕ)
      → u.locked_until ≡ some until
      → All (λ t. t + 1000 ≤ until) times
      → (guesses times u).1 ≡ 0
  unfolding guesses lockout_remaining
  guesses_locked [] u until locked early = refl
  guesses_locked (now ∷ times) u until locked (first, early) =
      ground (arith, locked, guesses_locked times u until locked early)

  register_locks :
      (now : ℕ) (u : User)
      → max s.login_max_attempts 1 ≤ u.failed_login_count + 1
      → (register_failed_login s now u).locked_until ≡ some (now + s.login_lockout_seconds * 1000)
  unfolding register_failed_login
  register_locks now u reached = ground arith

  register_counts :
      (now : ℕ) (u : User)
      → (register_failed_login s now u).failed_login_count ≡ u.failed_login_count + 1
  unfolding register_failed_login
  register_counts now u = ground arith

  -- However many guesses are made within the time of one lockout, less its last second, at most as
  -- many are checked against the password as failures are left before the threshold, and at least
  -- one.
  pub guesses_bounded :
      (start stop : ℕ) (times : List ℕ) (u : User)
      → stop + 1000 ≤ start + s.login_lockout_seconds * 1000
      → All (λ t. (start ≤ t) × (t ≤ stop)) times
      → (guesses times u).1 ≤ max (max s.login_max_attempts 1 - u.failed_login_count) 1
  unfolding guesses
  guesses_bounded start stop [] u window within = omega arith
  guesses_bounded start stop (now ∷ times) u window ((after, before), within) =
      let next = register_failed_login s now u in
      elim (Bool-cases (ltb 0 (lockout_remaining now u))) [
        | inl locked ↦ rw locked (omega (arith, guesses_bounded start stop times u window within))
        | inr open_row ↦
            elim (Bool-cases (leb (max s.login_max_attempts 1) (u.failed_login_count + 1))) [
              | inl reached ↦
                  let none_checked =
                    guesses_locked times next (now + s.login_lockout_seconds * 1000)
                      (register_locks now u (leb→le _ _ reached))
                      (weaken-All times (λ t bounds. omega (arith, bounds, window, after))
                        within) in
                  rw open_row (omega (arith, none_checked))
              | inr below ↦
                  let rest = guesses_bounded start stop times next window within in
                  rw open_row (ground (arith, rest, register_counts now u, below))
            ]
      ]
