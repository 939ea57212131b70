-- ===== src/Projects/Selected.antt =====
-- The project that is shown is one of the list, and the one that is stored.
use org_log.Prelude.{
  ◌≡◌, ◌⊎◌, inl, inr, refl, String, Bool, true, false, Option, none, some, List, [], ◌∷◌, ◌++◌, Has,
  str_eq, arith, eq_iff, Option-cases, Bool-cases,
}
use org_log.Types.{Project}
use org_log.Browser.Storage.{Storage, get_item, set_item, get_item-set_item}
use org_log.Auth.{Reply, ok, fail}
use org_log.Projects.{
  Projects, selected_project_key, find_project, saved_id, find_saved, select_project, pick,
  pick_first, start_fetch, settle_fetch, switch_project, create_project,
}

pub find_project_sound :
    (id : String) (ps : List Project) (p : Project)
    → find_project id ps ≡ some p
    → Has p ps × (p.id ≡ id)
find_project_sound id [] p h = cc
find_project_sound id (q ∷ ps) p h = elim (Bool-cases (str_eq q.id id)) [
  | inl e ↦ ground (arith, eq_iff q.id id)
  | inr e ↦ ground (arith, find_project_sound id ps p)
]

find_saved_sound :
    (saved : Option String) (found : List Project) (p : Project)
    → find_saved saved found ≡ some p
    → Has p found × (saved ≡ some p.id)
unfolding find_saved
find_saved_sound none found p h = cc
find_saved_sound (some id) found p h = ground (arith, find_project_sound id found p)

pub Has-last : (p : Project) (ps : List Project) → Has p (ps ++ p ∷ [])
Has-last p [] = inl refl
Has-last p (q ∷ ps) = inr (Has-last p ps)

-- The project that is shown, if any, is the one that the browser remembers, and one of the list unless
-- the list is empty.
abbrev pub IsSelectedAt : Option Project → List Project → Option String → Type 0
IsSelectedAt none ps saved = Unit {0}
IsSelectedAt (some p) ps saved = (saved ≡ some p.id) × (Has p ps ⊎ (ps ≡ []))

abbrev pub IsSelected : Projects → Type 0
IsSelected s = IsSelectedAt s.current_project s.projects (saved_id s)

pub saved_set :
    (id : String) (m : Storage)
    → get_item selected_project_key (set_item selected_project_key id m) ≡ some id
saved_set id m = rw (get_item-set_item selected_project_key selected_project_key id m) refl

select_project-IsSelected :
    (p : Project) (s : Projects) → Has p s.projects → IsSelected (select_project p s)
unfolding select_project
select_project-IsSelected p s h = (saved_set p.id s.storage, inl h)

pick_first-IsSelected :
    (found : List Project) (s : Projects)
    → s.projects ≡ found
    → ((found ≡ []) → IsSelected s)
    → IsSelected (pick_first found s)
unfolding pick_first
pick_first-IsSelected [] s e h = h refl
pick_first-IsSelected (p ∷ ps) s e h = select_project-IsSelected p s (rw e (inl refl))

pick-IsSelected :
    (found : List Project) (s : Projects)
    → s.projects ≡ found
    → ((found ≡ []) → IsSelected s)
    → IsSelected (pick found s)
unfolding pick
pick-IsSelected found s e h = elim (Option-cases (find_saved (saved_id s) found)) [
  | inr (p, f) ↦
      rw (f, pick)
        (let (has, saved) = find_saved_sound (saved_id s) found p f in (saved, inl (rw e has)))
  | inl f ↦ rw (f, pick) (pick_first-IsSelected found s e h)
]

at_empty :
    (o : Option Project) (ps : List Project) (saved : Option String)
    → IsSelectedAt o ps saved
    → IsSelectedAt o [] saved
at_empty none ps saved h = tt
at_empty (some p) ps saved h = (h.0, inr refl)

pub settle_fetch-IsSelected :
    (reply : Reply (List Project)) (s : Projects) → IsSelected s → IsSelected (settle_fetch reply s)
unfolding settle_fetch
settle_fetch-IsSelected (fail d) s h = h
settle_fetch-IsSelected (ok found) s h =
    pick-IsSelected found (record s { projects = found }) refl
      (λ e. rw e (at_empty s.current_project s.projects (saved_id s) h))

pub start_fetch-IsSelected : (b : Bool) (s : Projects) → IsSelected s → IsSelected (start_fetch b s)
unfolding start_fetch
start_fetch-IsSelected true s h = h
start_fetch-IsSelected false s h = h

pub switch_project-IsSelected :
    (id : String) (s : Projects) → IsSelected s → IsSelected (switch_project id s)
unfolding switch_project
switch_project-IsSelected id s h = elim (Option-cases (find_project id s.projects)) [
  | inl e ↦ rw (e, switch_project) h
  | inr (p, e) ↦
      let (has, same) = find_project_sound id s.projects p e in
      rw (e, switch_project) (rw same (saved_set id s.storage), inl has)
]

pub create_project-IsSelected :
    (reply : Reply Project) (s : Projects) → IsSelected s → IsSelected (create_project reply s).1
unfolding create_project
create_project-IsSelected (fail d) s h = h
create_project-IsSelected (ok p) s h =
    select_project-IsSelected p (record s { projects = s.projects ++ p ∷ [] })
      (Has-last p s.projects)
