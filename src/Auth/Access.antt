-- ===== src/Auth/Access.antt =====
-- What a tab may do: the session that it holds, the guard of a page and the right to operate.
use project_sh_fms.Prelude.{
  ℕ, ◌≡◌, refl, false, Option, none, some, Text, codes, leb, ◌++◌, Option-cases, inl, inr, ◌⊎◌,
}
use project_sh_fms.Auth.{
  Session, Browser, Platform, IsJson, login, current, can_operate, logout, guard, base,
}
use project_sh_fms.Js.Strings.{encode_uri_component, last_part}
use project_sh_fms.Auth.Login.{login-sound}

module _ (p : Platform) (j : IsJson p) where
  -- The session that is stored is the session that is read back.
  current-stored :
      (b : Browser) (s : Session) → current p (record b { item = some (p.stringify s) }) ≡ some s
  unfolding current
  current-stored b s = let (c, t, e) = j.stringify-cons s in rw (e, ← e, j.parse-stringify s)

  -- After a login that returned a session, that session is the current one, and the tab may
  -- operate exactly when the session's grade is at least 2.
  pub current-login :
      (id : Option Text) (pw : Text) (at : ℕ) (b : Browser) {s : Session}
      → (login p id pw at b).0 ≡ some s
      → let b' = (login p id pw at b).1 in (current p b' ≡ some s) × (can_operate p b' ≡ leb 2 s.lv)
  unfolding can_operate
  current-login id pw at b {s} h =
      let (u, a) = login-sound p id pw at b h in
      let e : current p (login p id pw at b).1 ≡ some s = rw (a.stored) (current-stored b s) in
      (e, rw e)

  -- After a logout there is no session, nothing may be operated, the next guard lets nobody in,
  -- and the tab is on its way to the login page.
  pub logout_locks :
      (b : Browser)
      → let b' = logout b in
        (current p b' ≡ none)
        × (can_operate p b' ≡ false)
        × ((guard p b').0 ≡ none)
        × (b'.sent_to ≡ some (base b ++ codes "login.html"))
  unfolding logout current can_operate guard
  logout_locks b = (rw (j.parse-null), rw (j.parse-null), rw (j.parse-null), refl)

module _ (p : Platform) where
  -- A guard lets a page be built when there is a session, whose owner it returns and whose tab it
  -- leaves alone; without one it returns nothing and sends the tab to the login page, naming the
  -- page that was asked for.
  pub guard_decides :
      (b : Browser)
      → ((s : Session) × (current p b ≡ some s) × (guard p b ≡ (some s, b)))
        ⊎ ((current p b ≡ none)
            × (guard p b ≡ (
              none,
              record b {
                sent_to = some (
                    base b
                    ++ (codes "login.html?redirect="
                        ++ encode_uri_component p.encode_other (last_part b'/' b.path)));
              },
            )))
  unfolding guard
  guard_decides b = elim (Option-cases (current p b)) [
    | inl e ↦ inr (e, rw e)
    | inr (s, e) ↦ inl (s, e, rw e)
  ]
