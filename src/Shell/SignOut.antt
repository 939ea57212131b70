-- ===== src/Shell/SignOut.antt =====
-- The way out: what "Sign out" of the sidebar leaves behind.
use org_log.Prelude.{◌≡◌, ◌∙◌, ap, String, true, false, Option, none, List, ◌∷◌, All, arith}
use org_log.Types.{LiveLogMessage}
use org_log.Auth.{AuthApi, Session, logout, restore, initial}
use org_log.Auth.Guard.{screen}
use org_log.Live.Cleanup.{IsQuiet}
use org_log.Live.Events.{Event, run}
use org_log.Live.Silence.{IsFromBrowser, run-quiet}
use org_log.App.{App, shows_dashboard, guard, leave}
use org_log.App as App
use org_log.App.Linked.{unmounted, logout-hidden}
use org_log.Auth.Entry.{restore-logout}
use org_log.Sidebar.{signs_out}
use org_log.Shell.{Shell, in_sidebar, step}
use org_log.Shell.Calls.{calls, step-calls}
use org_log.Shell.Within.{IsWhole}
use org_log.Shell.Whole.{step-IsWhole}

module _ (ws_url : String) (parse : String → Option LiveLogMessage) (trim : String → String) where
  signed_out :
      (s : Shell)
      → IsWhole ws_url s
      → s.app.is_mounted ≡ true
      → (step ws_url parse trim (in_sidebar signs_out) s).app
        ≡ guard ws_url parse (logout s.app.session) s.app
  unfolding calls App.steps App.step
  signed_out s h m =
      step-calls ws_url parse trim (in_sidebar signs_out) s (λ k. (h.within k).seen) ∙ ground arith

  guarded :
      (t : Session) (a : App)
      → a.is_mounted ≡ true
      → shows_dashboard (screen t) ≡ false
      → ((guard ws_url parse t a).session ≡ t) × ((guard ws_url parse t a).is_mounted ≡ false)
  unfolding guard leave
  guarded t a m n = ground arith

  -- While the dashboard is shown, "Sign out" takes it away and opens the login page; it leaves no socket
  -- that listens, none open and no pending timeout, and no event that the browser may still have in
  -- store changes the live logs any more; and a page that is loaded next signs nobody in, whatever
  -- the server would answer.
  pub signs_out-IsQuiet :
      (api : AuthApi) (es : List Event) (s : Shell)
      → IsWhole ws_url s
      → s.app.is_mounted ≡ true
      → All IsFromBrowser es
      → let a = (step ws_url parse trim (in_sidebar signs_out) s).app in
        (shows_dashboard (screen a.session) ≡ false)
        × (a.session.visited ≡ "/login" ∷ s.app.session.visited)
        × IsQuiet a.live
        × (run ws_url parse es a.live ≡ a.live)
        × ((restore api (initial a.session.storage)).user ≡ none)
  unfolding logout
  signs_out-IsQuiet api es s h m b =
      let a = (step ws_url parse trim (in_sidebar signs_out) s).app in
      let e = signed_out s h m in
      let (out, gone) = guarded (logout s.app.session) s.app m (logout-hidden s.app.session) in
      let now : a.session ≡ logout s.app.session = ap (λ (c : App). c.session) e ∙ out in
      let left : a.is_mounted ≡ false = ap (λ (c : App). c.is_mounted) e ∙ gone in
      let quiet =
        unmounted ws_url parse a left
          (step-IsWhole ws_url parse trim (in_sidebar signs_out) s h).linked in
      (
        ap (λ (t : Session). shows_dashboard (screen t)) now ∙ logout-hidden s.app.session,
        ap (λ (t : Session). t.visited) now,
        quiet,
        run-quiet ws_url parse es a.live b quiet,
        ap (λ (t : Session). (restore api (initial t.storage)).user) now
            ∙ (restore-logout api s.app.session).0,
      )
