-- ===== src/Auth.antt =====
-- assets/js/auth.js: the accounts, the session kept in sessionStorage, and the guard of a page.
-- A browser tab is its stored item, the path of its location and the place it was sent to.
pub mod Login
pub mod Access
use project_sh_fms.Prelude.{
  ℕ, ◌≡◌, Bool, true, false, ◌&&◌, List, [], ◌∷◌, ◌++◌, Option, none, some, Text, codes, leb,
  if◌then◌else◌, first, text_eq,
}
use project_sh_fms.Js.Strings.{
  trim, to_lower_case, contains, last_part, encode_uri_component, is_ascii,
}

pub record Account : Type 0 where
  pub id : Text
  pub pw : Text
  pub name : Text
  pub dept : Text
  pub role : Text
  pub lv : ℕ

pub record Session : Type 0 where
  pub id : Text
  pub name : Text
  pub dept : Text
  pub role : Text
  pub lv : ℕ
  pub at : ℕ

pub record Browser : Type 0 where
  pub item : Option Text  -- sessionStorage, at KEY
  pub path : Text  -- location.pathname
  pub sent_to : Option Text  -- what location.href or location.replace was given last

-- What the tab supplies: case mapping and percent encoding outside ASCII, and JSON. A text that
-- does not parse is `none`, the text of null is `some none`.
pub record Platform : Type 0 where
  pub lower_other : Text → Text
  pub encode_other : Text → Text
  pub stringify : Session → Text
  pub parse : Text → Option (Option Session)

-- JSON.parse takes back what JSON.stringify wrote, which is never the empty text.
pub record IsJson (p : Platform) : Type 0 where
  pub parse-stringify : (s : Session) → p.parse (p.stringify s) ≡ some (some s)
  pub parse-null : p.parse (codes "null") ≡ some none
  pub stringify-cons : (s : Session) → (c : ℕ) × (t : Text) × (p.stringify s ≡ c ∷ t)

abbrev pub accounts : List Account
accounts =
    record {
      id = codes "test";
      pw = codes "test";
      name = codes "남성흠";
      dept = codes "제어기술팀";
      role = codes "관제운영자";
      lv = 3;
    }
    ∷ record {
      id = codes "op02";
      pw = codes "op02";
      name = codes "강도현";
      dept = codes "생산운전2팀";
      role = codes "운전원";
      lv = 2;
    }
    ∷ record {
      id = codes "view";
      pw = codes "view";
      name = codes "방문자";
      dept = codes "-";
      role = codes "조회전용";
      lv = 1;
    }
    ∷ []

abbrev pub session_of : ℕ → Account → Session
session_of at u = record {
  id = u.id;
  name = u.name;
  dept = u.dept;
  role = u.role;
  lv = u.lv;
  at = at;
}

-- `String(id || '')`
abbrev pub or_empty : Option Text → Text
or_empty none = []
or_empty (some s) = s

-- `sessionStorage.getItem(KEY) || 'null'`
abbrev pub or_null : Option Text → Text
or_null none = codes "null"
or_null (some []) = codes "null"
or_null (some (c ∷ s)) = c ∷ s

-- `catch (e) { return null; }`
abbrev pub or_caught : Option (Option Session) → Option Session
or_caught none = none
or_caught (some s) = s

unfoldable pub base : Browser → Text
base b = if contains (codes "/app/") b.path then codes "../" else codes "./"

unfoldable pub logout : Browser → Browser
logout b = record b { item = none; sent_to = some (base b ++ codes "login.html") }

module _ (p : Platform) where
  unfoldable pub normalise : Option Text → Text
  normalise id = to_lower_case p.lower_other (trim (or_empty id))

  -- The test that `login` filters the accounts by.
  abbrev pub admits : Option Text → Text → Account → Bool
  admits id pw a = text_eq a.id (normalise id) && text_eq a.pw pw

  abbrev pub store : ℕ → Browser → Option Account → Option Session × Browser
  store at b none = (none, b)
  store at b (some u) =
      let s = session_of at u in (some s, record b { item = some (p.stringify s) })

  unfoldable pub login : Option Text → Text → ℕ → Browser → Option Session × Browser
  login id pw at b = store at b (first (admits id pw) accounts)

  unfoldable pub current : Browser → Option Session
  current b = or_caught (p.parse (or_null b.item))

  abbrev pub admit : Browser → Option Session → Option Session × Browser
  admit b (some s) = (some s, b)
  admit b none =
      let q = encode_uri_component p.encode_other (last_part b'/' b.path) in
      (none, record b { sent_to = some (base b ++ (codes "login.html?redirect=" ++ q)) })

  unfoldable pub guard : Browser → Option Session × Browser
  guard b = admit b (current b)

  abbrev pub may_operate : Option Session → Bool
  may_operate none = false
  may_operate (some s) = leb 2 s.lv

  unfoldable pub can_operate : Browser → Bool
  can_operate b = may_operate (current b)
