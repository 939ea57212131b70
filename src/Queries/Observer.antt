-- ===== src/Queries/Observer.antt =====
-- What a component sees of a `useQuery` of lib/hooks/use-logs.ts. The library behind it, react-query, is
-- a parameter: `observe` is what the hook returns after a history of events, the newest first, and
-- IsDocumented what the library's documentation says of it, while the browser is online.
use org_log.Prelude.{
  ◌≡◌, ◌≢◌, ◌⊎◌, Bool, true, false, Option, none, some, List, [], ◌∷◌, if◌then◌else◌,
}
use org_log.Queries.{QueryKey, Query}

pub record Result (A : Type 0) : Type 0 where
  pub value : Option A
  pub is_loading : Bool
  pub is_error : Bool
  pub is_placeholder_data : Bool

-- `renders`: the component calls the hook; `settles`: a query function has its answer, or has failed
-- after its last retry; `unmounts`: the component is gone.
pub data Event (A : Type 0) : Type 0 where
  renders : Query → Event A
  settles : Query → Option A → Event A
  unmounts : Event A

-- `enabled` is true where it is left out.
abbrev pub is_enabled : Query → Bool
is_enabled q = elim q.options.enabled [ none ↦ true | some b ↦ b ]

module _ {A : Type 0} where
  -- The key of the last render of the component.
  abbrev pub current : List (Event A) → Option QueryKey
  current [] = none
  current (renders q ∷ h) = some q.query_key
  current (settles q o ∷ h) = current h
  current (unmounts ∷ h) = none

  -- A query with that key was answered so.
  abbrev pub Answered : QueryKey → A → List (Event A) → Type 0
  Answered k d [] = ⊥
  Answered k d (renders q ∷ h) = Answered k d h
  Answered k d (settles q none ∷ h) = Answered k d h
  Answered k d (settles q (some e) ∷ h) = ((q.query_key ≡ k) × (e ≡ d)) ⊎ Answered k d h
  Answered k d (unmounts ∷ h) = Answered k d h

  -- That was the last answer to it.
  abbrev pub Latest : QueryKey → A → List (Event A) → Type 0
  Latest k d [] = ⊥
  Latest k d (renders q ∷ h) = Latest k d h
  Latest k d (settles q none ∷ h) = Latest k d h
  Latest k d (settles q (some e) ∷ h) =
      ((q.query_key ≡ k) × (e ≡ d)) ⊎ ((q.query_key ≢ k) × Latest k d h)
  Latest k d (unmounts ∷ h) = Latest k d h

  abbrev pub blank : Result A
  blank = record { value = none; is_loading = false; is_error = false; is_placeholder_data = false }

  -- A first fetch is under way, if the query is enabled.
  abbrev pub waiting : Query → Result A
  waiting q = record {
    value = none;
    is_loading = is_enabled q;
    is_error = false;
    is_placeholder_data = false;
  }

  abbrev pub kept : A → Result A
  kept d = record {
    value = some d;
    is_loading = false;
    is_error = false;
    is_placeholder_data = true;
  }

  abbrev pub given : A → Result A
  given d = record {
    value = some d;
    is_loading = false;
    is_error = false;
    is_placeholder_data = false;
  }

  -- A query that has no data yet: with `keepPreviousData` those of the query that was observed before
  -- stand in, if there are any.
  abbrev pub IsPending : Bool → Query → List (Event A) → Option A → Result A → Type 0
  IsPending false q h before r = r ≡ waiting q
  IsPending true q h (some d) r = r ≡ kept d
  IsPending true q h none r =
      (r ≡ waiting q) ⊎ ((k : QueryKey) × (d : A) × Answered k d h × (r ≡ kept d))

  -- The data are the last ones with which the query was answered.
  abbrev pub IsCached : Query → List (Event A) → Result A → Type 0
  IsCached q h r =
      (r.is_placeholder_data ≡ false)
      × (r.is_loading ≡ false)
      × ((d : A) × Latest q.query_key d h × (r.value ≡ some d))

  -- The data of the query that is observed, but for those that only stand in.
  abbrev pub own : Result A → Option A
  own r = if r.is_placeholder_data then none else r.value

  abbrev pub failing : Option A → Result A
  failing o = record { value = o; is_loading = false; is_error = true; is_placeholder_data = false }

  -- A failure keeps the data of the query.
  abbrev pub IsSettled : Option A → Result A → Result A → Type 0
  IsSettled (some d) before r = r ≡ given d
  IsSettled none before r = r ≡ failing (own before)

  pub record IsDocumented (observe : List (Event A) → Result A) : Type 0 where
    pub idle : observe [] ≡ blank
    pub gone : (h : List (Event A)) → observe (unmounts ∷ h) ≡ blank
    -- A render with the key of the last one changes nothing; with another key the component turns to
    -- the query of that key, which may have data in the cache.
    pub rendered :
        (q : Query) (h : List (Event A))
        → ((current h ≡ some q.query_key) × (observe (renders q ∷ h) ≡ observe h))
          ⊎ ((current h ≢ some q.query_key)
              × (IsCached q h (observe (renders q ∷ h))
                  ⊎ IsPending q.options.keeps_previous q h
                      (observe h).value
                      (observe (renders q ∷ h))))
    -- An answer, or a failure, to the query that is observed; any other changes nothing.
    pub settled :
        (q : Query) (o : Option A) (h : List (Event A))
        → ((current h ≡ some q.query_key) × IsSettled o (observe h) (observe (settles q o ∷ h)))
          ⊎ ((current h ≢ some q.query_key) × (observe (settles q o ∷ h) ≡ observe h))
