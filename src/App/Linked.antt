-- ===== src/App/Linked.antt =====
-- The live logs and the projects belong together: the invariant of the layout, and the renders that keep it.
use org_log.Prelude.{
  is_some, ◌≡◌, ◌⊎◌, inl, inr, refl, sym, subst, String, Bool, true, false, Option, none, List, [],
  ◌∷◌, arith, Bool-cases,
}
use org_log.Types.{LiveLogMessage, Project}
use org_log.Config.{auth_token_key}
use org_log.Browser.Storage.{Storage, get_item, set_item, get_item-set_item}
use org_log.Auth.{Reply, ok, fail, Session, logout, token}
use org_log.Auth.Backed.{IsBacked}
use org_log.Auth.Guard.{screen}
use org_log.Projects.{
  Projects, selected_project_key, project_id, pick, pick_first, select_project, start_fetch,
  settle_fetch, switch_project, create_project,
}
use org_log.Projects.Selected.{IsSelected}
use org_log.Live.{run_effect, mount}
use org_log.Live.Cleanup.{IsTidy, IsQuiet, cleanup_ws-IsQuiet}
use org_log.Live.Frame.{render-project_id}
use org_log.Live.Single.{initial-IsTidy, render-IsTidy}
use org_log.App.{App, shows_dashboard, leave, enter, guard, with_projects}

-- The projects' operations leave the token alone.
abbrev pub KeepsToken : Storage → Storage → Type 0
KeepsToken m n = get_item auth_token_key n ≡ get_item auth_token_key m

set-KeepsToken : (id : String) (m : Storage) → KeepsToken m (set_item selected_project_key id m)
set-KeepsToken id m = get_item-set_item selected_project_key auth_token_key id m

pick-KeepsToken :
    (found : List Project) (s : Projects) → KeepsToken s.storage (pick found s).storage
unfolding pick pick_first select_project
pick-KeepsToken [] s = ground arith
pick-KeepsToken (p ∷ ps) s = ground (arith, set-KeepsToken p.id s.storage)

pub start_fetch-KeepsToken :
    (b : Bool) (s : Projects) → KeepsToken s.storage (start_fetch b s).storage
unfolding start_fetch
start_fetch-KeepsToken b s = ground arith

pub settle_fetch-KeepsToken :
    (reply : Reply (List Project)) (s : Projects)
    → KeepsToken s.storage (settle_fetch reply s).storage
unfolding settle_fetch
settle_fetch-KeepsToken (fail d) s = refl
settle_fetch-KeepsToken (ok found) s = pick-KeepsToken found (record s { projects = found })

pub switch_project-KeepsToken :
    (id : String) (s : Projects) → KeepsToken s.storage (switch_project id s).storage
unfolding switch_project
switch_project-KeepsToken id s = ground (arith, set-KeepsToken id s.storage)

pub create_project-KeepsToken :
    (reply : Reply Project) (s : Projects) → KeepsToken s.storage (create_project reply s).1.storage
unfolding create_project select_project
create_project-KeepsToken (fail d) s = refl
create_project-KeepsToken (ok p) s = set-KeepsToken p.id s.storage

-- While the children of the guard are mounted, the live logs are tidy and at the current project,
-- which is selected; while they are not, nothing of them is left.
abbrev pub IsInside : String → Bool → App → Type 0
IsInside ws_url false a = IsQuiet a.live
IsInside ws_url true a =
    IsTidy ws_url (project_id a.projects) a.live
    × (a.live.project_id ≡ project_id a.projects)
    × IsSelected a.projects
    × (a.projects.storage ≡ a.session.storage)

pub record IsLinked (ws_url : String) (a : App) : Type 0 where
  pub guarded : a.is_mounted ≡ shows_dashboard (screen a.session)
  pub backed : IsBacked a.session
  pub fresh : (a.session.is_loading ≡ false) ⊎ (a.session.user ≡ none)
  pub awaited :
      (a.checking ≡ false) ⊎ ((a.session.is_loading ≡ true) × (is_some (token a.session) ≡ true))
  pub inside : IsInside ws_url a.is_mounted a

pub logout-hidden : (s : Session) → shows_dashboard (screen (logout s)) ≡ false
unfolding logout screen
logout-hidden s = ground arith

pub loading-hidden : (s : Session) → s.is_loading ≡ true → shows_dashboard (screen s) ≡ false
unfolding screen
loading-hidden s h = ground arith

module _ (ws_url : String) (parse : String → Option LiveLogMessage) where
  pub mounted : (a : App) → a.is_mounted ≡ true → IsLinked ws_url a → IsInside ws_url true a
  mounted a m h = subst (λ b. IsInside ws_url b a) m h.inside

  pub unmounted : (a : App) → a.is_mounted ≡ false → IsLinked ws_url a → IsQuiet a.live
  unmounted a m h = subst (λ b. IsInside ws_url b a) m h.inside

  pub inside-IsTidy :
      (a : App) → a.is_mounted ≡ true → IsLinked ws_url a → IsTidy ws_url a.live.project_id a.live
  inside-IsTidy a m h =
      let (tidy, at, old, same) = mounted a m h in subst (λ q. IsTidy ws_url q a.live) (sym at) tidy

  -- While the children are mounted no check is under way.
  pub idle : (a : App) → a.is_mounted ≡ true → IsLinked ws_url a → a.checking ≡ false
  idle a m h = elim (h.awaited) [
    | inl c ↦ c
    | inr (l, t) ↦ absurd (cc (loading-hidden a.session l, h.guarded, m))
  ]

  -- The guard renders while the children are not mounted: they are mounted now, or nothing happens.
  pub guard-outside :
      (s : Session) (a : App)
      → a.is_mounted ≡ false
      → IsQuiet a.live
      → IsBacked s
      → (s.is_loading ≡ false) ⊎ (s.user ≡ none)
      → a.checking ≡ false
      → IsLinked ws_url (guard ws_url parse s a)
  unfolding guard enter mount run_effect
  guard-outside s a m q b f c = elim (Bool-cases (shows_dashboard (screen s))) [
    | inl e ↦
        rw (e, m)
          (record {
            guarded = sym e;
            backed = b;
            fresh = f;
            awaited = inl c;
            inside = (initial-IsTidy ws_url "", refl, tt, refl);
          })
    | inr e ↦
        rw (e, m) (record { guarded = sym e; backed = b; fresh = f; awaited = inl c; inside = q })
  ]

  -- The guard renders for somebody who may not stay.
  pub guard-leaves :
      (s : Session) (a : App)
      → a.is_mounted ≡ true
      → IsLinked ws_url a
      → shows_dashboard (screen s) ≡ false
      → IsBacked s
      → (s.is_loading ≡ false) ⊎ (s.user ≡ none)
      → a.checking ≡ false
      → IsLinked ws_url (guard ws_url parse s a)
  unfolding guard leave
  guard-leaves s a m h e b f c =
      rw (e, m)
        (record {
          guarded = sym e;
          backed = b;
          fresh = f;
          awaited = inl c;
          inside = cleanup_ws-IsQuiet ws_url (project_id a.projects) a.live (mounted a m h).0;
        })

  pub with_projects-IsLinked :
      (p : Projects) (a : App)
      → a.is_mounted ≡ true
      → IsLinked ws_url a
      → IsSelected p
      → KeepsToken a.projects.storage p.storage
      → IsLinked ws_url (with_projects ws_url parse p a)
  unfolding with_projects screen
  with_projects-IsLinked p a m h sel k =
      let (tidy, at, old, same) = mounted a m h in
      let q = project_id p in
      let there = inside-IsTidy a m h in
      record {
        guarded = h.guarded;
        backed = ground (arith, h.backed);
        fresh = h.fresh;
        awaited = inl (idle a m h);
        inside =
            rw m
              (render-IsTidy ws_url q a.live there, render-project_id ws_url q a.live, sel, refl);
      }
