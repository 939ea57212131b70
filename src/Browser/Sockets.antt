-- ===== src/Browser/Sockets.antt =====
-- How closing and detaching a socket change the lists of those that listen and those held open.
use org_log.Prelude.{ℕ, ◌≡◌, refl, List, [], ◌∷◌, arith}
use org_log.Browser.{Socket, detach, close, finish, listening, held}

module _ (k : ℕ) where
  pub listening-detach : (cs : List Socket) → listening (detach k cs) ≡ finish k (listening cs)
  unfolding detach
  listening-detach [] = refl
  listening-detach (c ∷ cs) = ground (arith, listening-detach cs)

  pub held-close : (cs : List Socket) → held (close k cs) ≡ finish k (held cs)
  unfolding close
  held-close [] = refl
  held-close (c ∷ cs) = ground (arith, held-close cs)

  -- Closing a socket leaves its handlers, and detaching it leaves it open.
  pub listening-close_empty : (cs : List Socket) → listening cs ≡ [] → listening (close k cs) ≡ []
  unfolding close
  listening-close_empty [] h = refl
  listening-close_empty (c ∷ cs) h = ground (arith, listening-close_empty cs)

  pub held-close-detach : (cs : List Socket) → held (close k (detach k cs)) ≡ finish k (held cs)
  unfolding close detach
  held-close-detach [] = refl
  held-close-detach (c ∷ cs) = ground (arith, held-close-detach cs)

  pub listening-finish : (cs : List Socket) → listening (finish k cs) ≡ finish k (listening cs)
  listening-finish [] = refl
  listening-finish (c ∷ cs) = ground (arith, listening-finish cs)

  pub held-finish : (cs : List Socket) → held (finish k cs) ≡ finish k (held cs)
  held-finish [] = refl
  held-finish (c ∷ cs) = ground (arith, held-finish cs)
