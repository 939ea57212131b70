-- ===== src/Shell/Within.antt =====
-- What holds of the sidebar and of the form of a page without a project while they are mounted.
use org_log.Prelude.{
  ◌≤◌, ◌≡◌, ◌⊎◌, inl, inr, refl, String, true, length, first, is_some, truthy, All, arith,
  Bool-cases,
}
use org_log.Auth.Backed.{IsBacked}
use org_log.Projects.Selected.{IsSelected}
use org_log.App.{App}
use org_log.App.Linked.{IsLinked}
use org_log.Sidebar.{Sidebar}
use org_log.Sidebar.Menus.{IsOrderly}
use org_log.NoProject.{NoProject, open_form, escape, start_create, type_name, finish_create}
use org_log.NoProject as NoProject
use org_log.Shell.{Shell, form_with, fresh_form, fresh_sidebar, sidebar_with, shows_form}
use org_log.Shell.Calls.{IsSeen}

-- At most one call of `createProject` is under way, exactly while the form is busy, with a name that is
-- not empty.
pub record IsSingle (f : NoProject) : Type 0 where
  pub one_request : length f.requests ≤ 1
  pub busy : f.creating ≡ is_some (first f.requests)
  pub named : All (λ name. truthy name ≡ true) f.requests

pub apply-IsSingle :
    (trim : String → String) (o : NoProject.Op trim) (f : NoProject)
    → IsSingle f
    → IsSingle (NoProject.apply trim o f)
unfolding NoProject.apply open_form escape start_create type_name finish_create
apply-IsSingle trim NoProject.opens_form f h = ground arith
apply-IsSingle trim NoProject.escapes f h = ground arith
apply-IsSingle trim NoProject.enters f h = ground arith
apply-IsSingle trim (NoProject.types_name v) f h = ground arith
apply-IsSingle trim (NoProject.answers reply) f h = ground arith

-- What is inside while the children are mounted: sidebar and form see what the contexts hold, each is in
-- order, and a page with a project has no form.
pub record IsWithin (s : Shell) : Type 0 where
  pub seen : IsSeen s
  pub orderly : IsOrderly s.sidebar
  pub single : IsSingle s.form
  pub hidden : (shows_form s.app ≡ true) ⊎ (s.form ≡ fresh_form s.app)

pub record IsWhole (ws_url : String) (s : Shell) : Type 0 where
  pub linked : IsLinked ws_url s.app
  pub within : s.app.is_mounted ≡ true → IsWithin s

pub fresh-IsSingle : (a : App) → IsSingle (fresh_form a)
fresh-IsSingle a = record { one_request = omega arith; busy = refl; named = tt }

fresh-IsOrderly :
    (a : App) → IsSelected a.projects → IsBacked a.session → IsOrderly (fresh_sidebar a)
fresh-IsOrderly a h k = record {
  one_menu = refl;
  one_request = omega arith;
  busy = refl;
  named = tt;
  selected = h;
  backed = k;
}

with-IsOrderly :
    (a : App) (s : Sidebar)
    → IsSelected a.projects
    → IsBacked a.session
    → IsOrderly s
    → IsOrderly (sidebar_with a s)
with-IsOrderly a s h k o = record {
  one_menu = o.one_menu;
  one_request = o.one_request;
  busy = o.busy;
  named = o.named;
  selected = h;
  backed = k;
}

pub fresh-IsWithin :
    (a : App)
    → IsSelected a.projects
    → IsBacked a.session
    → IsWithin (record { app = a; sidebar = fresh_sidebar a; form = fresh_form a })
fresh-IsWithin a h k = record {
  seen = record { projects = refl; session = refl; form = refl };
  orderly = fresh-IsOrderly a h k;
  single = fresh-IsSingle a;
  hidden = inr refl;
}

-- A render of the children that were mounted before.
pub again-IsWithin :
    (a : App) (s : Shell)
    → IsSelected a.projects
    → IsBacked a.session
    → IsOrderly s.sidebar
    → IsSingle s.form
    → IsWithin (record { app = a; sidebar = sidebar_with a s.sidebar; form = form_with a s.form })
unfolding form_with
again-IsWithin a s h k o f = elim (Bool-cases (shows_form a)) [
  | inl e ↦ record {
    seen = record { projects = refl; session = refl; form = ground arith };
    orderly = with-IsOrderly a s.sidebar h k o;
    single = ground (arith, f);
    hidden = inl e;
  }
  | inr e ↦ record {
    seen = record { projects = refl; session = refl; form = ground arith };
    orderly = with-IsOrderly a s.sidebar h k o;
    single = rw e (fresh-IsSingle a);
    hidden = inr (rw e refl);
  }
]
