-- ===== src/Shell.antt =====
-- assets/js/shell.js: what every page is framed by. `build` reads the session, the page's name and
-- the alarms, and makes the banner, the clock's text and the menu.
pub mod Frame
use project_sh_fms.Prelude.{
  ℕ, ◌+◌, Bool, true, false, not, ◌&&◌, List, [], ◌∷◌, ◌++◌, map, Option, none, some, Text, codes,
  if◌then◌else◌, ◌==◌, ltb, select, tally, length, text_eq,
}
use project_sh_fms.Js.Decimal.{decimal}
use project_sh_fms.Auth.{Session, Browser, Platform, guard}
use project_sh_fms.Mock.Alarms.{Alarm}
use project_sh_fms.Mock.Format.{Date, pad, hms, ymd}

-- An entry of MENU: a heading, or a page with whether it carries the badge.
pub data Entry : Type 0 where
  grp : Text → Entry
  page : Text → Text → Text → Text → Bool → Entry

abbrev pub menu : List Entry
menu =
    grp (codes "LEVEL 1 · 공장 개요")
    ∷ page (codes "overview") (codes "공장 전체 감시") (codes "▦") (codes "overview.html") false
    ∷ grp (codes "LEVEL 2 · 유닛")
    ∷ page (codes "line") (codes "라인 공정 미믹") (codes "▤") (codes "line.html") false
    ∷ page (codes "chemical") (codes "화학 배치 공정") (codes "⌬") (codes "chemical.html") false
    ∷ page (codes "energy") (codes "에너지 · 유틸리티") (codes "⚡") (codes "energy.html") false
    ∷ grp (codes "LEVEL 3 · 상세 · 영상")
    ∷ page (codes "cctv") (codes "CCTV 통합관제") (codes "◉") (codes "cctv.html") false
    ∷ page (codes "safety") (codes "안전 관제") (codes "⚠") (codes "safety.html") false
    ∷ grp (codes "LEVEL 4 · 진단")
    ∷ page (codes "alarm") (codes "알람 관리") (codes "◈") (codes "alarm.html") true
    ∷ page (codes "trend") (codes "트렌드 · 히스토리안") (codes "◰") (codes "trend.html") false
    ∷ []

-- The banner: quiet, or the alarm that it shows with the counts of those not acknowledged: all,
-- of priority 1, of priority 2.
pub data Banner : Type 0 where
  quiet : Banner
  ringing : Alarm → ℕ → ℕ → ℕ → Banner

-- `Mock.alarms().filter(…)` where there is a `Mock`, else `[]`.
unfoldable pub unacknowledged : Option (List Alarm) → List Alarm
unacknowledged none = []
unacknowledged (some xs) = select (λ a. not a.ack) xs

unfoldable pub banner_of : List Alarm → Banner
banner_of [] = quiet
banner_of (a ∷ xs) =
    ringing a (length (a ∷ xs)) (length (select (λ x. x.pri == 1) (a ∷ xs)))
      (length (select (λ x. x.pri == 2) (a ∷ xs)))

-- `banner.innerHTML`
unfoldable pub banner_html : Banner → Text
banner_html quiet = codes "<span class=\"msg\">활성 알람 없음 — 전 공정 정상</span>"
banner_html (ringing a n p1 p2) =
    codes "<span class=\"tag p"
    ++ (decimal a.pri
        ++ (codes "\">P"
            ++ (decimal a.pri
                ++ (codes "</span><span class=\"msg\"><b>"
                    ++ (a.tag
                        ++ (codes "</b> "
                            ++ (a.msg
                                ++ (codes " <span style=\"color:#6e7885\">· "
                                    ++ (a.at
                                        ++ (codes "</span></span><span class=\"cnt\">미확인 "
                                            ++ (decimal n
                                                ++ (codes "건 (P1 "
                                                    ++ (decimal p1
                                                        ++ (codes " / P2 "
                                                            ++ (decimal p2
                                                            ++ codes ")</span>")))))))))))))))

-- `clock.textContent`
unfoldable pub clock_text : Date → Text
clock_text d = ymd d ++ (b' ' ∷ hms d)

-- A node of the menu on screen: a heading, or a link with whether it is marked as the page that is
-- open, and the number on its badge.
pub data Node : Type 0 where
  heading : Text → Node
  link : Bool → Text → Text → Text → Option ℕ → Node

unfoldable pub node_of : Text → ℕ → Entry → Node
node_of open_page n (grp t) = heading t
node_of open_page n (page id name ic href badge) =
    link (text_eq id open_page) href ic name (if badge && ltb 0 n then some n else none)

pub record Screen : Type 0 where
  pub banner : Banner
  pub user : Session
  pub nav : List Node

module _ (p : Platform) where
  abbrev pub built : Text → Option (List Alarm) → Option Session × Browser → Option Screen × Browser
  built open_page alarms (none, b) = (none, b)
  built open_page alarms (some u, b) =
      let top = unacknowledged alarms in
      (
        some (record {
          banner = banner_of top;
          user = u;
          nav = map (node_of open_page (length top)) menu;
        }),
        b,
      )

  -- `build()`: nothing is built where the guard lets nobody in.
  unfoldable pub build : Text → Option (List Alarm) → Browser → Option Screen × Browser
  unfolding unacknowledged banner_of node_of
  build open_page alarms b = built open_page alarms (guard p b)
