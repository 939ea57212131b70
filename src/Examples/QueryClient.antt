-- ===== src/Examples/QueryClient.antt =====
-- A query client that keeps nothing of a query once another one is observed.
use org_log.Prelude.{
  ◌≡◌, ◌≢◌, ◌⊎◌, inl, inr, refl, String, Bool, true, false, Option, none, some, List, [], ◌∷◌,
  Bool-cases, str_eq, eq_iff,
}
use native.Mathlib.Decide.{ℕ_discrete}
use org_log.Types.{LogQuery}
use org_log.Queries.{QueryKey, Query}
use org_log.Queries.Observer.{
  Result, Event, renders, settles, unmounts, current, blank, waiting, kept, given, IsPending,
  IsCached, IsSettled, own, failing, IsDocumented,
}

String-discrete : Discrete String
String-discrete s t = elim (Bool-cases (str_eq s t)) [
  | inl e ↦ yes ((eq_iff s t).0 e)
  | inr e ↦ no (λ p. cc ((eq_iff s t).1 p, e))
]

LogQuery-discrete : Discrete LogQuery
LogQuery-discrete = hlevel (String-discrete, ℕ_discrete)

QueryKey-discrete : Discrete QueryKey
QueryKey-discrete = hlevel (String-discrete, LogQuery-discrete)

watched-discrete : Discrete (Option QueryKey)
watched-discrete = hlevel QueryKey-discrete

module _ {A : Type 0} where
  abbrev pending : Bool → Query → Option A → Result A
  pending false q before = waiting q
  pending true q none = waiting q
  pending true q (some d) = kept d

  abbrev turn : {P : Type 0} → Dec P → Query → Result A → Result A
  turn (yes same) q before = before
  turn (no other) q before = pending q.options.keeps_previous q before.value

  abbrev settle : {P : Type 0} → Dec P → Option A → Result A → Result A
  settle (yes same) (some d) before = given d
  settle (yes same) none before = failing (own before)
  settle (no other) o before = before

  pub observe : List (Event A) → Result A
  observe [] = blank
  observe (renders q ∷ h) = turn (watched-discrete (current h) (some q.query_key)) q (observe h)
  observe (settles q o ∷ h) = settle (watched-discrete (current h) (some q.query_key)) o (observe h)
  observe (unmounts ∷ h) = blank

  pending-IsPending :
      (b : Bool) (q : Query) (h : List (Event A)) (before : Option A)
      → IsPending b q h before (pending b q before)
  pending-IsPending false q h before = refl
  pending-IsPending true q h none = inl refl
  pending-IsPending true q h (some d) = refl

  turn_lem :
      (q : Query) (h : List (Event A)) (r : Result A) (d : Dec (current h ≡ some q.query_key))
      → ((current h ≡ some q.query_key) × (turn d q r ≡ r))
        ⊎ ((current h ≢ some q.query_key)
            × (IsCached q h (turn d q r)
                ⊎ IsPending q.options.keeps_previous q h r.value (turn d q r)))
  turn_lem q h r (yes e) = inl (e, refl)
  turn_lem q h r (no n) = inr (n, inr (pending-IsPending q.options.keeps_previous q h r.value))

  settle_lem :
      (q : Query) (o : Option A) (h : List (Event A)) (r : Result A)
      (d : Dec (current h ≡ some q.query_key))
      → ((current h ≡ some q.query_key) × IsSettled o r (settle d o r))
        ⊎ ((current h ≢ some q.query_key) × (settle d o r ≡ r))
  settle_lem q (some x) h r (yes e) = inl (e, refl)
  settle_lem q none h r (yes e) = inl (e, refl)
  settle_lem q o h r (no n) = inr (n, refl)

  pub observe-IsDocumented : IsDocumented observe
  unfolding observe
  observe-IsDocumented = record {
    idle = refl;
    gone = λ h. refl;
    rendered = λ q h. turn_lem q h (observe h) (watched-discrete (current h) (some q.query_key));
    settled =
        λ q o h. settle_lem q o h (observe h) (watched-discrete (current h) (some q.query_key));
  }
