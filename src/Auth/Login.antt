-- ===== src/Auth/Login.antt =====
-- Who may log in, and what session they get.
use project_sh_fms.Prelude.{
  ℕ, ◌≡◌, refl, sym, ap, true, ◌++◌, Option, none, some, Text, first, text_eq, text_eq_iff,
  and-parts, All, Memᴰ, first-mem,
}
use project_sh_fms.Js.Strings.{is_space, trim-append}
use project_sh_fms.Auth.{
  Account, Session, Browser, Platform, accounts, session_of, normalise, admits, store, login,
}

module _ (p : Platform) where
  -- What a login that succeeded has done.
  pub record Admitted (id : Option Text) (pw : Text) (at : ℕ) (b b' : Browser) (s : Session)
      (u : Account) : Type 0 where
    pub listed : Memᴰ u accounts
    pub same_id : u.id ≡ normalise p id
    pub same_pw : u.pw ≡ pw
    pub session : s ≡ session_of at u
    pub stored : b' ≡ record b { item = some (p.stringify s) }

  found :
      (id : Option Text) (pw : Text) (at : ℕ) (b : Browser) {s : Session} (o : Option Account)
      → first (admits p id pw) accounts ≡ o
      → (store p at b o).0 ≡ some s
      → (u : Account) × Admitted id pw at b (store p at b o).1 s u
  found id pw at b none e h = absurd (cc)
  found id pw at b {s} (some u) e h =
      let (m, t) = first-mem (admits p id pw) accounts e in
      let (i, k) = and-parts (text_eq u.id (normalise p id)) (text_eq u.pw pw) t in
      let r : session_of at u ≡ s = cc in
      (
        u,
        record {
          listed = m;
          same_id = (text_eq_iff u.id (normalise p id)).0 i;
          same_pw = (text_eq_iff u.pw pw).0 k;
          session = sym r;
          stored = ap (λ t. record b { item = some (p.stringify t) }) r;
        },
      )

  -- A login that returns a session does so for an account of the list whose id is the given one,
  -- trimmed and in lower case, and whose password is the given one exactly; the session carries
  -- that account's fields and is what the tab stores, and nothing else of the tab changes.
  pub login-sound :
      (id : Option Text) (pw : Text) (at : ℕ) (b : Browser) {s : Session}
      → (login p id pw at b).0 ≡ some s
      → (u : Account) × Admitted id pw at b (login p id pw at b).1 s u
  unfolding login
  login-sound id pw at b h = found id pw at b (first (admits p id pw) accounts) refl h

  -- Every account of the list gets in by its id and password, and gets its own session.
  pub login_complete :
      (id : Option Text) (at : ℕ) (b : Browser) {u : Account}
      → Memᴰ u accounts
      → u.id ≡ normalise p id
      → (login p id u.pw at b).0 ≡ some (session_of at u)
  unfolding login text_eq
  login_complete id at b (Memᴰ.head e) h = rw (← h, e)
  login_complete id at b (Memᴰ.tail (Memᴰ.head e)) h = rw (← h, e)
  login_complete id at b (Memᴰ.tail (Memᴰ.tail (Memᴰ.head e))) h = rw (← h, e)
  login_complete id at b (Memᴰ.tail (Memᴰ.tail (Memᴰ.tail m))) h = elim m [ ]

  -- A login that fails leaves the tab as it was.
  pub login_refused :
      (id : Option Text) (pw : Text) (at : ℕ) (b : Browser)
      → (login p id pw at b).0 ≡ none
      → (login p id pw at b).1 ≡ b
  unfolding login
  login_refused id pw at b h = go (first (admits p id pw) accounts) h
    where
      go : (o : Option Account) → (store p at b o).0 ≡ none → (store p at b o).1 ≡ b
      go none k = refl
      go (some u) k = absurd (cc)

  -- Space on either side of the id does not matter to a login.
  pub login-trim :
      (w id v pw : Text) (at : ℕ) (b : Browser)
      → All (λ c. is_space c ≡ true) w
      → All (λ c. is_space c ≡ true) v
      → login p (some (w ++ (id ++ v))) pw at b ≡ login p (some id) pw at b
  unfolding login normalise
  login-trim w id v pw at b h k = rw (trim-append w id v h k)
