-- ===== src/Examples/Session.antt =====
-- A login, the pages after it, and a logout.
use project_sh_fms.Prelude.{◌≡◌, refl, ◌⊎◌, true, false, [], ◌++◌, none, some, codes, Memᴰ, text_eq}
use project_sh_fms.Js.Strings.{
  trim, trim_start, trim_end, to_lower_case, contains, last_part, encode_uri_component,
}
use project_sh_fms.Auth.{
  Account, Session, Browser, login, current, can_operate, logout, guard, base, normalise,
}
use project_sh_fms.Auth.Login.{Admitted, login-sound, login_complete}
use project_sh_fms.Auth.Access.{current-login, logout_locks}
use project_sh_fms.LoginPage.{Form, submit, submit_lands, Stays, Goes, target}
use project_sh_fms.Examples.Json.{platform, platform-IsJson}

abbrev pub fresh_tab : Browser
fresh_tab = record { item = none; path = codes "/app/alarm.html"; sent_to = none }

abbrev pub operator : Session
operator = record {
  id = codes "op02";
  name = codes "강도현";
  dept = codes "생산운전2팀";
  role = codes "운전원";
  lv = 2;
  at = 7;
}

abbrev pub operator_tab : Browser
operator_tab = record fresh_tab { item = some (platform.stringify operator) }

login_run : (login platform (some (codes " OP02 ")) (codes "op02") 7 fresh_tab).0 ≡ some operator
unfolding login normalise trim trim_start trim_end to_lower_case text_eq
login_run = refl

wrong_case_of_password : (login platform (some (codes "op02")) (codes "OP02") 7 fresh_tab).0 ≡ none
unfolding login normalise trim trim_start trim_end to_lower_case text_eq
wrong_case_of_password = refl

guard_sends_away :
    (guard platform fresh_tab).1.sent_to ≡ some (codes "../login.html?redirect=alarm.html")
unfolding guard current base contains last_part encode_uri_component
guard_sends_away = refl

login-sound_example :
    (u : Account) × Admitted platform
      (some (codes " OP02 "))
      (codes "op02")
      7
      fresh_tab
      (login platform (some (codes " OP02 ")) (codes "op02") 7 fresh_tab).1
      operator
      u
login-sound_example =
    login-sound platform (some (codes " OP02 ")) (codes "op02") 7 fresh_tab login_run

login_complete_example :
    (login platform (some (codes "View")) (codes "view") 9 fresh_tab).0
    ≡ some (record {
      id = codes "view";
      name = codes "방문자";
      dept = codes "-";
      role = codes "조회전용";
      lv = 1;
      at = 9;
    })
unfolding normalise trim trim_start trim_end to_lower_case
login_complete_example =
    login_complete platform (some (codes "View")) 9 fresh_tab
      (Memᴰ.tail (Memᴰ.tail (Memᴰ.head refl))) refl

current-login_example :
    let b' = (login platform (some (codes " OP02 ")) (codes "op02") 7 fresh_tab).1 in
    (current platform b' ≡ some operator) × (can_operate platform b' ≡ true)
current-login_example =
    current-login platform platform-IsJson (some (codes " OP02 ")) (codes "op02") 7 fresh_tab
      login_run

logout_locks_example :
    let b' = logout operator_tab in
    (current platform b' ≡ none)
    × (can_operate platform b' ≡ false)
    × ((guard platform b').0 ≡ none)
    × (b'.sent_to ≡ some (base operator_tab ++ codes "login.html"))
logout_locks_example = logout_locks platform platform-IsJson operator_tab

abbrev form : Form
form = record { uid = codes "op02"; upw = codes "op02"; err = [] }

submit_run :
    (submit platform form (some (codes "//evil.example")) 7 fresh_tab).1.sent_to
    ≡ some (codes "app/overview.html")
unfolding submit target login normalise trim trim_start trim_end to_lower_case text_eq
submit_run = refl

submit_lands_example :
    Stays platform form fresh_tab (submit platform form (some (codes "//evil.example")) 7 fresh_tab)
    ⊎ Goes platform form 7 fresh_tab
        (submit platform form (some (codes "//evil.example")) 7 fresh_tab)
submit_lands_example = submit_lands platform form (some (codes "//evil.example")) 7 fresh_tab
