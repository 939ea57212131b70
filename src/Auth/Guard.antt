-- ===== src/Auth/Guard.antt =====
-- `DashboardGuard` of frontend/src/app/dashboard/layout.tsx: what it shows, and where it sends.
use org_log.Prelude.{
  ◌≡◌, ◌↔◌, ◌⊎◌, String, true, false, not, ◌&&◌, Option, none, some, if◌then◌else◌, arith,
}
use org_log.Browser.Storage.{Storage}
use org_log.Auth.{AuthApi, Session, is_authenticated, restore, initial}
use org_log.Auth.Laws.{restore_lem}

pub data Screen : Type 0 where
  spinner nothing dashboard : Screen

unfoldable pub screen : Session → Screen
screen s = if s.is_loading then spinner else if not (is_authenticated s) then nothing else dashboard

-- The effect: the path that is pushed, if any. It is kept apart from the pushes of the provider.
unfoldable pub redirect : Session → Option String
redirect s = if not s.is_loading && not (is_authenticated s) then some "/login" else none

-- The guard shows the dashboard exactly when the loading is over and somebody is signed in, and sends
-- to the login page exactly when the loading is over and nobody is.
pub screen-redirect :
    (s : Session)
    → ((screen s ≡ dashboard) ↔ ((s.is_loading ≡ false) × (is_authenticated s ≡ true)))
      × ((redirect s ≡ some "/login") ↔ (screen s ≡ nothing))
unfolding screen redirect
screen-redirect s = ground arith

-- Once the check on mount is over, the guard shows the dashboard and sends nowhere, or shows nothing
-- and sends to the login page: the spinner is gone on every branch.
pub screen-restore :
    (api : AuthApi) (storage : Storage)
    → let s = restore api (initial storage) in
      ((screen s ≡ dashboard) × (redirect s ≡ none))
      ⊎ ((screen s ≡ nothing) × (redirect s ≡ some "/login"))
unfolding screen redirect
screen-restore api storage = ground (arith, (restore_lem api storage).0)
