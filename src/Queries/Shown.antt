-- ===== src/Queries/Shown.antt =====
-- Whose answer a component sees, whatever it renders and in whatever order the answers come.
use org_log.Prelude.{
  ◌≡◌, ◌≢◌, ◌∙◌, inl, inr, refl, sym, ap, subst, Bool, true, false, Option, none, some, List, [],
  arith, ◌∷◌,
}
use org_log.Queries.{QueryKey, Query}
use org_log.Queries.Observer.{
  Result, Event, renders, settles, unmounts, current, Answered, Latest, waiting, kept, given, own,
  failing, IsPending, IsCached, IsDocumented,
}

-- No hook of the history keeps the data of the query before.
abbrev pub IsPlain : {A : Type 0} → List (Event A) → Type 0
IsPlain [] = Unit {0}
IsPlain (renders q ∷ h) = (q.options.keeps_previous ≡ false) × IsPlain h
IsPlain (settles q o ∷ h) = IsPlain h
IsPlain (unmounts ∷ h) = IsPlain h

-- What is shown was an answer; and, unless it only stands in, one to the query that is observed.
abbrev pub IsAnswer : {A : Type 0} → List (Event A) → Result A → Type 0
IsAnswer {A} h r =
    (d : A)
    → r.value ≡ some d
    → (k : QueryKey) × Answered k d h × (r.is_placeholder_data ≡ false → current h ≡ some k)

module _ {A : Type 0} where
  nothing-IsAnswer : (h : List (Event A)) (r : Result A) → r.value ≡ none → IsAnswer h r
  nothing-IsAnswer h r e d f = absurd (cc (e, f))

  kept-IsAnswer : (k : QueryKey) (c : A) (h : List (Event A)) → Answered k c h → IsAnswer h (kept c)
  kept-IsAnswer k c h a d e =
      let f : c ≡ d = cc e in (k, subst (λ x. Answered k x h) f a, λ p. absurd (cc p))

  Latest-Answered : (k : QueryKey) (d : A) (h : List (Event A)) → Latest k d h → Answered k d h
  Latest-Answered k d [] l = l
  Latest-Answered k d (renders q ∷ h) l = Latest-Answered k d h l
  Latest-Answered k d (settles q none ∷ h) l = Latest-Answered k d h l
  Latest-Answered k d (settles q (some e) ∷ h) (inl m) = inl m
  Latest-Answered k d (settles q (some e) ∷ h) (inr (n, l)) = inr (Latest-Answered k d h l)
  Latest-Answered k d (unmounts ∷ h) l = Latest-Answered k d h l

  pub own-some :
      (r : Result A) (d : A) → own r ≡ some d → (r.value ≡ some d) × (r.is_placeholder_data ≡ false)
  own-some r d e = ground arith

  cached-IsAnswer :
      (q : Query) (h : List (Event A)) (r : Result A) → IsCached q h r → IsAnswer (renders q ∷ h) r
  cached-IsAnswer q h r (p, l, (c, was, e)) d f =
      let same : c ≡ d = cc (e, f) in
      (
        q.query_key,
        subst (λ x. Answered q.query_key x h) same (Latest-Answered q.query_key c h was),
        λ n. refl,
      )

  pending-IsAnswer :
      (b : Bool) (q : Query) (h : List (Event A)) (before : Option A) (r : Result A)
      → ((d : A) → before ≡ some d → (k : QueryKey) × Answered k d h)
      → IsPending b q h before r
      → IsAnswer (renders q ∷ h) r
  pending-IsAnswer false q h before r a p = nothing-IsAnswer (renders q ∷ h) r (ap (λ s. s.value) p)
  pending-IsAnswer true q h (some d) r a p =
      let (k, was) = a d refl in
      subst (IsAnswer (renders q ∷ h)) (sym p) (kept-IsAnswer k d (renders q ∷ h) was)
  pending-IsAnswer true q h none r a (inl p) =
      nothing-IsAnswer (renders q ∷ h) r (ap (λ s. s.value) p)
  pending-IsAnswer true q h none r a (inr (k, d, was, p)) =
      subst (IsAnswer (renders q ∷ h)) (sym p) (kept-IsAnswer k d (renders q ∷ h) was)

  pending-plain :
      (b : Bool) (q : Query) (h : List (Event A)) (before : Option A) (r : Result A)
      → b ≡ false
      → IsPending b q h before r
      → r.is_placeholder_data ≡ false
  pending-plain false q h before r e p = ap (λ s. s.is_placeholder_data) p
  pending-plain true q h before r e p = absurd (cc e)

  pending_kept :
      (b : Bool) (q : Query) (h : List (Event A)) (before : Option A) (r : Result A) (d : A)
      → b ≡ true
      → before ≡ some d
      → IsPending b q h before r
      → r ≡ kept d
  pending_kept false q h before r d e f p = absurd (cc e)
  pending_kept true q h none r d e f p = absurd (cc f)
  pending_kept true q h (some c) r d e f p = p ∙ ap kept (cc f)

  pending_empty :
      (b : Bool) (q : Query) (h : List (Event A)) (before : Option A) (r : Result A) (d : A)
      → r.value ≡ some d
      → r.is_placeholder_data ≡ false
      → IsPending b q h before r
      → ⊥
  pending_empty false q h before r d e n p = cc (ap (λ s. s.value) p, e)
  pending_empty true q h (some c) r d e n p = cc (ap (λ s. s.is_placeholder_data) p, n)
  pending_empty true q h none r d e n (inl p) = cc (ap (λ s. s.value) p, e)
  pending_empty true q h none r d e n (inr (k, c, was, p)) =
      cc (ap (λ s. s.is_placeholder_data) p, n)

  pending_waiting :
      (b : Bool) (q : Query) (h : List (Event A)) (before : Option A) (r : Result A)
      → b ≡ false
      → IsPending b q h before r
      → r ≡ waiting q
  pending_waiting false q h before r e p = p
  pending_waiting true q h before r e p = absurd (cc e)

module _ {A : Type 0} (observe : List (Event A) → Result A) (doc : IsDocumented observe) where
  -- Whatever is rendered and answered, in any order.
  pub observe-IsAnswer : (h : List (Event A)) → IsAnswer h (observe h)
  observe-IsAnswer [] = nothing-IsAnswer [] (observe []) (ap (λ r. r.value) doc.idle)
  observe-IsAnswer (unmounts ∷ h) =
      nothing-IsAnswer (unmounts ∷ h) (observe (unmounts ∷ h)) (ap (λ r. r.value) (doc.gone h))
  observe-IsAnswer (renders q ∷ h) = elim (doc.rendered q h) [
    | inl (at, same) ↦ λ d e.
        let (k, was, own) = observe-IsAnswer h d (cc (same, e)) in
        (k, was, λ p. sym at ∙ own (cc (same, p)))
    | inr (moved, inl cached) ↦ cached-IsAnswer q h (observe (renders q ∷ h)) cached
    | inr (moved, inr pending) ↦
        pending-IsAnswer q.options.keeps_previous q h (observe h).value (observe (renders q ∷ h))
          (λ d e. let (k, was, own) = observe-IsAnswer h d e in (k, was)) pending
  ]
  observe-IsAnswer (settles q (some c) ∷ h) = elim (doc.settled q (some c) h) [
    | inl (at, r) ↦ λ d e. (q.query_key, inl (refl, cc (r, e)), λ p. at)
    | inr (moved, same) ↦ λ d e.
        let (k, was, own) = observe-IsAnswer h d (cc (same, e)) in
        (k, inr was, λ p. own (cc (same, p)))
  ]
  observe-IsAnswer (settles q none ∷ h) = elim (doc.settled q none h) [
    | inl (at, r) ↦ λ d e.
        let (value, real) = own-some (observe h) d (cc (r, e)) in
        let (k, was, mine) = observe-IsAnswer h d value in (k, was, λ p. mine real)
    | inr (moved, same) ↦ λ d e.
        let (k, was, mine) = observe-IsAnswer h d (cc (same, e)) in
        (k, was, λ p. mine (cc (same, p)))
  ]

  -- Without `keepPreviousData` nothing ever stands in.
  pub plain-observe : (h : List (Event A)) → IsPlain h → (observe h).is_placeholder_data ≡ false
  plain-observe [] p = ap (λ r. r.is_placeholder_data) doc.idle
  plain-observe (unmounts ∷ h) p = ap (λ r. r.is_placeholder_data) (doc.gone h)
  plain-observe (renders q ∷ h) (e, p) = elim (doc.rendered q h) [
    | inl (at, same) ↦ ap (λ r. r.is_placeholder_data) same ∙ plain-observe h p
    | inr (moved, inl cached) ↦ cached.0
    | inr (moved, inr pending) ↦
        pending-plain q.options.keeps_previous q h (observe h).value _ e pending
  ]
  plain-observe (settles q (some c) ∷ h) p = elim (doc.settled q (some c) h) [
    | inl (at, r) ↦ ap (λ s. s.is_placeholder_data) r
    | inr (moved, same) ↦ ap (λ r. r.is_placeholder_data) same ∙ plain-observe h p
  ]
  plain-observe (settles q none ∷ h) p = elim (doc.settled q none h) [
    | inl (at, r) ↦ ap (λ s. s.is_placeholder_data) r
    | inr (moved, same) ↦ ap (λ r. r.is_placeholder_data) same ∙ plain-observe h p
  ]

  -- The component turns to a query that has no data yet.
  pub turn-kept :
      (q : Query) (h : List (Event A)) (d : A)
      → q.options.keeps_previous ≡ true
      → (observe h).value ≡ some d
      → current h ≢ some q.query_key
      → ((e : A) → Answered q.query_key e h → ⊥)
      → observe (renders q ∷ h) ≡ kept d
  turn-kept q h d keeps value moved fresh = elim (doc.rendered q h) [
    | inl (at, same) ↦ absurd (moved at)
    | inr (m, inl (p, l, (c, was, e))) ↦ absurd (fresh c (Latest-Answered q.query_key c h was))
    | inr (m, inr pending) ↦
        pending_kept q.options.keeps_previous q h (observe h).value _ d keeps value pending
  ]

  pub turn-waiting :
      (q : Query) (h : List (Event A))
      → q.options.keeps_previous ≡ false
      → current h ≢ some q.query_key
      → ((e : A) → Answered q.query_key e h → ⊥)
      → observe (renders q ∷ h) ≡ waiting q
  turn-waiting q h keeps moved fresh = elim (doc.rendered q h) [
    | inl (at, same) ↦ absurd (moved at)
    | inr (m, inl (p, l, (c, was, e))) ↦ absurd (fresh c (Latest-Answered q.query_key c h was))
    | inr (m, inr pending) ↦
        pending_waiting q.options.keeps_previous q h (observe h).value _ keeps pending
  ]

  -- The answer to the query that is observed, and the render that it brings.
  pub settle-given :
      (q : Query) (h : List (Event A)) (d : A)
      → current h ≡ some q.query_key
      → observe (renders q ∷ settles q (some d) ∷ h) ≡ given d
  settle-given q h d at = elim (doc.rendered q (settles q (some d) ∷ h)) [
    | inr (moved, r) ↦ absurd (moved at)
    | inl (there, same) ↦ elim (doc.settled q (some d) h) [
      | inl (now, r) ↦ same ∙ r
      | inr (moved, r) ↦ absurd (moved at)
    ]
  ]

  -- A failure of the query that is observed, and the render that it brings.
  pub settle-failing :
      (q : Query) (h : List (Event A))
      → current h ≡ some q.query_key
      → observe (renders q ∷ settles q none ∷ h) ≡ failing (own (observe h))
  settle-failing q h at = elim (doc.rendered q (settles q none ∷ h)) [
    | inr (moved, r) ↦ absurd (moved at)
    | inl (there, same) ↦ elim (doc.settled q none h) [
      | inl (now, r) ↦ same ∙ r
      | inr (moved, r) ↦ absurd (moved at)
    ]
  ]

  -- Data that do not stand in are the last answer to the query that is observed.
  pub observe-Latest :
      (h : List (Event A)) (d : A)
      → (observe h).value ≡ some d
      → (observe h).is_placeholder_data ≡ false
      → (k : QueryKey) × (current h ≡ some k) × Latest k d h
  observe-Latest [] d e p = absurd (cc (ap (λ r. r.value) doc.idle, e))
  observe-Latest (unmounts ∷ h) d e p = absurd (cc (ap (λ r. r.value) (doc.gone h), e))
  observe-Latest (renders q ∷ h) d e p = elim (doc.rendered q h) [
    | inl (at, same) ↦
        let (k, now, last) = observe-Latest h d (cc (same, e)) (cc (same, p)) in
        (k, sym at ∙ now, last)
    | inr (moved, inl (r, l, (c, was, v))) ↦
        (q.query_key, refl, subst (λ x. Latest q.query_key x h) (cc (v, e)) was)
    | inr (moved, inr pending) ↦
        absurd (pending_empty q.options.keeps_previous q h (observe h).value _ d e p pending)
  ]
  observe-Latest (settles q (some c) ∷ h) d e p = elim (doc.settled q (some c) h) [
    | inl (at, r) ↦ (q.query_key, at, inl (refl, cc (r, e)))
    | inr (moved, same) ↦
        let (k, now, last) = observe-Latest h d (cc (same, e)) (cc (same, p)) in
        (k, now, inr (λ f. moved (now ∙ ap some (sym f)), last))
  ]
  observe-Latest (settles q none ∷ h) d e p = elim (doc.settled q none h) [
    | inl (at, r) ↦
        let (value, real) = own-some (observe h) d (cc (r, e)) in observe-Latest h d value real
    | inr (moved, same) ↦ observe-Latest h d (cc (same, e)) (cc (same, p))
  ]
