-- ===== src/Sidebar/Menus.antt =====
-- What holds of the sidebar whatever the user does and the server answers.
use org_log.Prelude.{
  ◌≤◌, ◌≡◌, String, true, false, ◌&&◌, List, [], ◌∷◌, truthy, length, All, first, is_some, arith,
}
use org_log.Types.{Project}
use org_log.Auth.{Reply}
use org_log.Auth.Backed.{IsBacked, logout-IsBacked}
use org_log.Projects.Selected.{IsSelected, switch_project-IsSelected, create_project-IsSelected}
use org_log.Sidebar.{
  Sidebar, toggle, click_project_menu, click_user_menu, pick_project, sign_out, show_form,
  type_name, escape, created, finish_create, start_create, Op, toggles, clicks_project_menu,
  clicks_user_menu, signs_out, shows_form, enters, escapes, picks_project, types_name, answers,
  apply, apply_all,
}

-- At most one menu is open; at most one call of `createProject` is under way, exactly while the form
-- is busy, with a name that is not empty; and the projects and the session are as their providers
-- promise.
pub record IsOrderly (s : Sidebar) : Type 0 where
  pub one_menu : (s.project_dropdown_open && s.user_dropdown_open) ≡ false
  pub one_request : length s.requests ≤ 1
  pub busy : s.creating ≡ is_some (first s.requests)
  pub named : All (λ name. truthy name ≡ true) s.requests
  pub selected : IsSelected s.projects
  pub backed : IsBacked s.session

finish_create-IsOrderly :
    (reply : Reply Project) (s : Sidebar) → IsOrderly s → IsOrderly (finish_create reply s)
unfolding finish_create created
finish_create-IsOrderly reply s h =
    ground (arith, create_project-IsSelected reply s.projects h.selected)

module _ (trim : String → String) where
  pub apply-IsOrderly : (o : Op trim) (s : Sidebar) → IsOrderly s → IsOrderly (apply trim o s)
  unfolding apply toggle click_project_menu click_user_menu pick_project sign_out show_form
      type_name escape start_create
  apply-IsOrderly toggles s h = ground arith
  apply-IsOrderly clicks_project_menu s h = ground arith
  apply-IsOrderly clicks_user_menu s h = ground arith
  apply-IsOrderly signs_out s h = ground (arith, logout-IsBacked s.session)
  apply-IsOrderly shows_form s h = ground arith
  apply-IsOrderly enters s h = ground arith
  apply-IsOrderly escapes s h = ground arith
  apply-IsOrderly (picks_project id) s h =
      ground (arith, switch_project-IsSelected id s.projects h.selected)
  apply-IsOrderly (types_name v) s h = ground arith
  apply-IsOrderly (answers reply) s h = finish_create-IsOrderly reply s h

  -- Through any actions of the user and answers of the server, in any order, from an orderly state:
  -- the project menu and the user menu are never both open; at most one creation is under way,
  -- exactly while the form is busy, with a name that is not empty; the project shown, if any, is
  -- the remembered one and one of the list unless the list is empty; and whoever is signed in has a
  -- stored token.
  pub apply_all-IsOrderly :
      (os : List (Op trim)) (s : Sidebar) → IsOrderly s → IsOrderly (apply_all trim os s)
  unfolding apply_all
  apply_all-IsOrderly [] s h = h
  apply_all-IsOrderly (o ∷ os) s h = apply_all-IsOrderly os (apply trim o s) (apply-IsOrderly o s h)
