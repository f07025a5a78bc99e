-- ===== src/LoginPage.antt =====
-- login.html: the handler of the form's submit, and where it sends the tab.
use project_sh_fms.Prelude.{
  ℕ, ◌≡◌, refl, Bool, true, false, ◌&&◌, ◌||◌, [], ◌∷◌, ◌++◌, Option, none, some, Text, codes, leb,
  if◌then◌else◌, text_eq, text_eq_iff, All, ◌≢◌, arith, Bool-cases, inl, inr, ap, sym, ◌∙◌, ◌⊎◌,
  and-parts,
}
use project_sh_fms.Auth.{Session, Browser, Platform, login}
use project_sh_fms.Auth.Login.{login_refused}

abbrev pub is_letter : ℕ → Bool
is_letter c = leb b'a' c && leb c b'z'

-- What follows the letters of the pattern.
abbrev pub page_rest : Text → Bool
page_rest [] = false
page_rest (c ∷ s) = if is_letter c then page_rest s else text_eq (c ∷ s) (codes ".html")

-- `/^[a-z]+\.html$/.test(q)`
unfoldable pub is_page : Text → Bool
is_page [] = false
is_page (c ∷ s) = is_letter c && page_rest s

pub record Form : Type 0 where
  pub uid : Text
  pub upw : Text
  pub err : Text

-- `URLSearchParams.get` gives null where the key is missing.
unfoldable pub target : Option Text → Text
unfolding is_page
target none = codes "app/overview.html"
target (some q) = if is_page q then codes "app/" ++ q else codes "app/overview.html"

abbrev pub is_blank : Text → Bool
is_blank [] = true
is_blank (c ∷ s) = false

module _ (p : Platform) where
  abbrev pub answer : Form → Option Text → Option Session × Browser → Form × Browser
  answer f q (none, b) = (record f { err = codes "사번 또는 비밀번호가 올바르지 않습니다."; upw = [] }, b)
  answer f q (some s, b) = (f, record b { sent_to = some (target q) })

  unfoldable pub submit : Form → Option Text → ℕ → Browser → Form × Browser
  submit f q at b =
      if is_blank f.uid || is_blank f.upw
      then (record f { err = codes "사번과 비밀번호를 모두 입력하세요." }, b)
      else answer f q (login p (some f.uid) f.upw at b)

-- A page of the application: `app/`, some letters, `.html`.
pub record IsAppPage (t : Text) : Type 0 where
  pub word : Text
  pub letters : All (λ c. is_letter c ≡ true) word
  pub some_letter : word ≢ []
  pub spelled : t ≡ codes "app/" ++ (word ++ codes ".html")

page_rest-letters :
    (s : Text)
    → page_rest s ≡ true
    → (w : Text) × All (λ c. is_letter c ≡ true) w × (s ≡ w ++ codes ".html")
page_rest-letters [] h = absurd (cc)
page_rest-letters (c ∷ s) h = elim (Bool-cases (is_letter c)) [
  | inl e ↦ let (w, l, q) = page_rest-letters s (rw e at h) in (c ∷ w, (e, l), ap (λ t. c ∷ t) q)
  | inr e ↦ ([], tt, (text_eq_iff (c ∷ s) (codes ".html")).0 (rw e at h))
]

is_page-letters :
    (s : Text)
    → is_page s ≡ true
    → (w : Text) × All (λ c. is_letter c ≡ true) w × (w ≢ []) × (s ≡ w ++ codes ".html")
unfolding is_page
is_page-letters [] h = absurd (cc)
is_page-letters (c ∷ s) h =
    let (a, r) = and-parts (is_letter c) (page_rest s) h in
    let (w, l, q) = page_rest-letters s r in (c ∷ w, (a, l), λ e. cc, ap (λ t. c ∷ t) q)

overview-IsAppPage : IsAppPage (codes "app/overview.html")
overview-IsAppPage = record {
  word = codes "overview";
  letters = ground arith;
  some_letter = λ e. cc;
  spelled = refl;
}

-- Whatever the query of the page says, it gives a page of the application.
target-IsAppPage : (q : Option Text) → IsAppPage (target q)
unfolding target
target-IsAppPage none = overview-IsAppPage
target-IsAppPage (some q) = elim (Bool-cases (is_page q)) [
  | inl e ↦
      let (w, l, n, eq) = is_page-letters q e in
      rw e (record {
        word = w;
        letters = l;
        some_letter = n;
        spelled = ap (λ t. codes "app/" ++ t) eq;
      })
  | inr e ↦ rw e overview-IsAppPage
]

module _ (p : Platform) where
  -- The tab is left where it is, with a message in the form.
  pub record Stays (f : Form) (b : Browser) (r : Form × Browser) : Type 0 where
    pub message : r.0.err ≢ []
    pub still : r.1 ≡ b

  -- The tab is sent to a page of the application, and the login returned a session.
  pub record Goes (f : Form) (at : ℕ) (b : Browser) (r : Form × Browser) : Type 0 where
    pub session : Session
    pub granted : (login p (some f.uid) f.upw at b).0 ≡ some session
    pub page : Text
    pub sent : r.1.sent_to ≡ some page
    pub inside : IsAppPage page

  answered :
      (f : Form) (q : Option Text) (at : ℕ) (b : Browser) (o : Option Session) (b' : Browser)
      → login p (some f.uid) f.upw at b ≡ (o, b')
      → Stays f b (answer p f q (o, b')) ⊎ Goes f at b (answer p f q (o, b'))
  answered f q at b none b' e = inl (record {
    message = λ m. cc;
    still = ap (λ r. r.1) (sym e) ∙ login_refused p (some f.uid) f.upw at b (ap (λ r. r.0) e);
  })
  answered f q at b (some s) b' e = inr (record {
    session = s;
    granted = ap (λ r. r.0) e;
    page = target q;
    sent = refl;
    inside = target-IsAppPage q;
  })

  -- A submit either leaves the tab as it was and shows a message, or was granted a session and
  -- sends the tab to a page of the application: `app/`, one or more small letters, `.html`,
  -- whatever the query of the address says.
  pub submit_lands :
      (f : Form) (q : Option Text) (at : ℕ) (b : Browser)
      → Stays f b (submit p f q at b) ⊎ Goes f at b (submit p f q at b)
  unfolding submit
  submit_lands f q at b = elim (Bool-cases (is_blank f.uid || is_blank f.upw)) [
    | inl e ↦ rw e (inl (record { message = λ m. cc; still = refl }))
    | inr e ↦ rw e (
        answered f q at b (login p (some f.uid) f.upw at b).0 (login p (some f.uid) f.upw at b).1
          refl)
  ]
