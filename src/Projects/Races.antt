-- ===== src/Projects/Races.antt =====
-- Requests whose answers come when they will: the selection, the loading, and an answer that is stale.
use org_log.Prelude.{
  ℕ, suc, zero, ◌+◌, ◌<◌, ◌≡◌, ◌⊎◌, inl, inr, refl, ap, ◌∙◌, String, Bool, true, false, none, some,
  List, [], ◌∷◌, arith,
}
use org_log.Types.{Project}
use org_log.Auth.{Reply, ok, fail}
use org_log.Projects.{
  Projects, start_fetch, settle_fetch, switch_project, create_project, find_project, find_saved,
  find_project, saved_id, select_project, pick, pick_first, saved_id, select_project, pick,
  pick_first,
}
use org_log.Projects.Selected.{
  IsSelected, settle_fetch-IsSelected, switch_project-IsSelected, create_project-IsSelected,
  saved_set,
}

-- The provider with the number of fetches that the server has not yet answered.
pub record Waiting : Type 0 where
  pub state : Projects
  pub pending : ℕ

-- What happens to the provider: a fetch is asked for or answered; the others have their answers.
pub data Op : Type 0 where
  asks : Bool → Op
  answers : Reply (List Project) → Op
  switches : String → Op
  creates : Reply Project → Op

pub answer : Reply (List Project) → ℕ → Waiting → Waiting
answer reply zero w = w
answer reply (suc n) w = record { state = settle_fetch reply w.state; pending = n }

pub apply : Op → Waiting → Waiting
unfolding answer
apply (asks true) w = record { state = start_fetch true w.state; pending = w.pending + 1 }
apply (asks false) w = record w { state = start_fetch false w.state }
apply (answers reply) w = answer reply w.pending w
apply (switches id) w = record w { state = switch_project id w.state }
apply (creates reply) w = record w { state = (create_project reply w.state).1 }

pub apply_all : List Op → Waiting → Waiting
apply_all [] w = w
apply_all (o ∷ os) w = apply_all os (apply o w)

-- The project that is shown is in order, and a fetch that is shown as running is.
pub record IsInOrder (w : Waiting) : Type 0 where
  pub selected : IsSelected w.state
  pub running : (w.state.is_loading ≡ false) ⊎ (0 < w.pending)

settle_fetch-is_loading :
    (reply : Reply (List Project)) (s : Projects) → (settle_fetch reply s).is_loading ≡ false
unfolding settle_fetch
settle_fetch-is_loading (fail d) s = refl
settle_fetch-is_loading (ok found) s = refl

switch_project-is_loading :
    (id : String) (s : Projects) → (switch_project id s).is_loading ≡ s.is_loading
unfolding switch_project
switch_project-is_loading id s = ground arith

create_project-is_loading :
    (reply : Reply Project) (s : Projects) → (create_project reply s).1.is_loading ≡ s.is_loading
unfolding create_project select_project
create_project-is_loading (ok p) s = refl
create_project-is_loading (fail d) s = refl

answer-IsInOrder :
    (reply : Reply (List Project)) (n : ℕ) (w : Waiting)
    → IsInOrder w
    → IsInOrder (answer reply n w)
unfolding answer
answer-IsInOrder reply zero w h = h
answer-IsInOrder reply (suc n) w h = record {
  selected = settle_fetch-IsSelected reply w.state h.selected;
  running = inl (settle_fetch-is_loading reply w.state);
}

apply-IsInOrder : (o : Op) (w : Waiting) → IsInOrder w → IsInOrder (apply o w)
unfolding apply start_fetch
apply-IsInOrder (asks true) w h = record { selected = h.selected; running = inr (omega arith) }
apply-IsInOrder (asks false) w h = h
apply-IsInOrder (answers reply) w h = answer-IsInOrder reply w.pending w h
apply-IsInOrder (switches id) w h = record {
  selected = switch_project-IsSelected id w.state h.selected;
  running = rw (switch_project-is_loading id w.state) h.running;
}
apply-IsInOrder (creates reply) w h = record {
  selected = create_project-IsSelected reply w.state h.selected;
  running = rw (create_project-is_loading reply w.state) h.running;
}

-- However fetches, their answers, switches and creations are interleaved, and whatever the answers
-- are: from a state in which the project that is shown, if any, is the stored one and one of the list
-- unless the list is empty, and the loading is shown only while an answer is awaited, such a state is reached.
pub apply_all-IsInOrder : (os : List Op) (w : Waiting) → IsInOrder w → IsInOrder (apply_all os w)
unfolding apply_all
apply_all-IsInOrder [] w h = h
apply_all-IsInOrder (o ∷ os) w h = apply_all-IsInOrder os (apply o w) (apply-IsInOrder o w h)

pub settle_first :
    (q : Project) (qs : List Project) (s : Projects)
    → find_saved (saved_id s) (q ∷ qs) ≡ none
    → settle_fetch (ok (q ∷ qs)) s
      ≡ record (select_project q (record s { projects = q ∷ qs })) { is_loading = false }
unfolding settle_fetch pick pick_first
settle_first q qs s h = rw (h, pick) refl

pub not_found :
    (id : String) (found : List Project)
    → find_project id found ≡ none
    → find_saved (some id) found ≡ none
unfolding find_saved
not_found id found h = ground arith

-- A list that the server has sent before it created a project, and that arrives after the project
-- was created: the project disappears, and the first of the list, which does not hold it, is shown
-- and remembered instead.
pub stale_answer :
    (p q : Project) (qs : List Project) (s : Projects)
    → find_project p.id (q ∷ qs) ≡ none
    → let before = (create_project (ok p) (start_fetch true s)).1 in
      let after = settle_fetch (ok (q ∷ qs)) before in
      (before.current_project ≡ some p)
      × (after.projects ≡ q ∷ qs)
      × (after.current_project ≡ some q)
      × (saved_id after ≡ some q.id)
unfolding create_project start_fetch select_project
stale_answer p q qs s h =
    let before = (create_project (ok p) (start_fetch true s)).1 in
    let missed =
      ap (λ id. find_saved id (q ∷ qs)) (saved_set p.id s.storage) ∙ not_found p.id _ h in
    rw (settle_first q qs before missed) (refl, refl, refl, saved_set q.id _)
