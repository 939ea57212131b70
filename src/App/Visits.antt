-- ===== src/App/Visits.antt =====
-- The check on mount, its answer, a fresh layout and the sign-in pages keep the invariant of the layout.
use org_log.Prelude.{
  Bool, ap, Option-cases, ◌≡◌, ◌⊎◌, inl, inr, truthy, refl, sym, subst, ◌∙◌, String, true, false,
  Option, none, ◌∷◌, arith, Bool-cases, is_some,
}
use org_log.Types.{LiveLogMessage, AuthResponse, User}
use org_log.Config.{auth_token_key}
use org_log.Browser.Storage.{set_item, get_item-set_item}
use org_log.Auth.{
  Reply, ok, fail, AuthApi, Session, is_authenticated, token, start_check, settle_check, logout,
}
use org_log.Auth as Auth
use org_log.Auth.Backed.{IsBacked}
use org_log.Auth.Guard.{screen}
use org_log.Auth.Pages.{Page}
use org_log.Auth.Submit.{IsError, IsSettled}
use org_log.App.{App, with_storage, guard, loads, check, step}
use org_log.App.Linked.{IsInside, IsLinked, loading-hidden, unmounted, guard-outside, guard-leaves}

module _ (ws_url : String) (parse : String → Option LiveLogMessage) where
  -- A sign-in page that has settled has stored a token or nothing.
  pub page-IsLinked :
      (p q : Page) (a : App)
      → a.is_mounted ≡ false
      → IsLinked ws_url a
      → p.storage ≡ a.session.storage
      → IsSettled p q
      → IsLinked ws_url (record a { session = with_storage q.storage a.session })
  unfolding screen
  page-IsLinked p q a m h e t = record {
    guarded = h.guarded;
    backed = stored t.result;
    fresh = h.fresh;
    awaited = still t.result h.awaited;
    inside = rw m (unmounted ws_url parse a m h);
  }
    where
      still :
          ((q.error ≡ Auth.message "")
              × (q.visited ≡ "/dashboard" ∷ p.visited)
              × ((r : AuthResponse) × (q.storage
                    ≡ set_item auth_token_key r.access_token p.storage)))
            ⊎ (IsError q.error × (q.visited ≡ p.visited) × (q.storage ≡ p.storage))
          → (a.checking ≡ false)
            ⊎ ((a.session.is_loading ≡ true) × (is_some (token a.session) ≡ true))
          → (a.checking ≡ false)
            ⊎ ((a.session.is_loading ≡ true)
                × (is_some (token (with_storage q.storage a.session)) ≡ true))
      still r (inl c) = inl c
      still (inl (u, v, (r, w))) (inr (l, k)) = inr (
        l,
        rw w (rw (get_item-set_item auth_token_key auth_token_key r.access_token p.storage) refl),
      )
      still (inr (u, v, w)) (inr (l, k)) =
          inr (l, subst (λ n. is_some (token (with_storage n a.session)) ≡ true) (sym (w ∙ e)) k)

      stored :
          ((q.error ≡ Auth.message "")
              × (q.visited ≡ "/dashboard" ∷ p.visited)
              × ((r : AuthResponse) × (q.storage
                    ≡ set_item auth_token_key r.access_token p.storage)))
            ⊎ (IsError q.error × (q.visited ≡ p.visited) × (q.storage ≡ p.storage))
          → IsBacked (with_storage q.storage a.session)
      stored (inl (u, v, (r, w))) = inr (
          rw w (rw (get_item-set_item auth_token_key auth_token_key r.access_token p.storage) refl))
      stored (inr (u, v, w)) =
          subst (λ n. IsBacked (with_storage n a.session)) (sym (w ∙ e)) h.backed

  asking-IsInside :
      (c b : Bool) (a : App) → IsInside ws_url b a → IsInside ws_url b (record a { checking = c })
  asking-IsInside c true a h = h
  asking-IsInside c false a h = h

  -- A layout that is mounted afresh does not wait for the check of the former one.
  unasked : (a : App) → IsLinked ws_url a → IsLinked ws_url (record a { checking = false })
  unasked a h = record {
    guarded = h.guarded;
    backed = h.backed;
    fresh = h.fresh;
    awaited = inl refl;
    inside = asking-IsInside false a.is_mounted a h.inside;
  }

  pub loads-IsLinked : (a : App) → IsLinked ws_url a → IsLinked ws_url (step ws_url parse loads a)
  unfolding step screen
  loads-IsLinked a h =
      let s = Auth.initial a.session.storage in
      let b : App = record a { checking = false } in
      elim (Bool-cases a.is_mounted) [
        | inl m ↦ guard-leaves ws_url parse s b m (unasked a h) refl (inl refl) (inr refl) refl
        | inr m ↦
            guard-outside ws_url parse s b m (unmounted ws_url parse a m h) (inl refl) (inr refl)
              refl
      ]

  -- What is known while the session loads.
  loading-outside :
      (a : App)
      → a.session.is_loading ≡ true
      → IsLinked ws_url a
      → (a.is_mounted ≡ false) × (a.session.user ≡ none)
  loading-outside a l h = (h.guarded ∙ loading-hidden a.session l, ground (arith, h.fresh))

  pub check-IsLinked :
      (a : App)
      → a.session.is_loading ≡ true
      → a.checking ≡ false
      → IsLinked ws_url a
      → IsLinked ws_url (check ws_url parse (start_check a.session) a)
  unfolding check start_check
  check-IsLinked a l c h =
      let (m, n) = loading-outside a l h in
      let over =
        guard-outside ws_url parse (record a.session { is_loading = false }) a m
          (unmounted ws_url parse a m h) (inl (rw n refl)) (inl refl) c in
      elim (Option-cases (token a.session)) [
        | inl e ↦ rw (e, check, start_check) over
        | inr (t, e) ↦ elim (Bool-cases (truthy t)) [
          | inr f ↦ rw (e, check, start_check, f) over
          | inl f ↦
              rw (e, check, start_check, f)
                (record {
                  guarded = h.guarded;
                  backed = h.backed;
                  fresh = h.fresh;
                  awaited = inr (l, ap is_some e);
                  inside = asking-IsInside true a.is_mounted a h.inside;
                })
        ]
      ]

  settle_check-IsBacked :
      (reply : Reply User) (s : Session)
      → s.user ≡ none
      → is_some (token s) ≡ true
      → IsBacked (settle_check reply s)
  unfolding settle_check
  settle_check-IsBacked (ok u) s n k = inr k
  settle_check-IsBacked (fail d) s n k = inl (rw n refl)

  settle_check-is_loading :
      (reply : Reply User) (s : Session) → (settle_check reply s).is_loading ≡ false
  unfolding settle_check
  settle_check-is_loading (ok u) s = refl
  settle_check-is_loading (fail d) s = refl

  pub checked-IsLinked :
      (reply : Reply User) (a : App)
      → a.checking ≡ true
      → IsLinked ws_url a
      → IsLinked ws_url
          (guard ws_url parse (settle_check reply a.session) (record a { checking = false }))
  checked-IsLinked reply a c h = elim (h.awaited) [
    | inl d ↦ absurd (cc)
    | inr (l, k) ↦
        let (m, n) = loading-outside a l h in
        guard-outside ws_url parse (settle_check reply a.session) (record a { checking = false }) m
          (unmounted ws_url parse a m h) (settle_check-IsBacked reply a.session n k)
          (inl (settle_check-is_loading reply a.session)) refl
  ]
