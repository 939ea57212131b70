-- ===== src/LiveTail/Stream/Scroll.antt =====
-- The scrolling of frontend/src/components/logs/live-log-stream.tsx: the element's `scrollTop`, and the
-- effect that sets it back. The element's class is `scroll-smooth`: an assignment to `scrollTop` starts
-- an animation, whose frames move the element. The event `scroll` comes with each frame, and with each
-- move of another origin, which ends the animation.
use org_log.Prelude.{
  ℕ, ◌<◌, ◌≤◌, ◌≡◌, refl, Bool, true, false, ◌&&◌, List, [], ◌∷◌, ltb, ◌==◌, bool_eq, length,
  if◌then◌else◌, arith, none, ◌⊎◌, inl, inr, ◌∙◌, ap, suc, min, length-take, Bool-cases,
}
use org_log.Types.{LiveLogMessage}
use org_log.Live.{max_messages, push}
use org_log.Live.Buffer.{push_lem}
use org_log.LiveTail.Stream.{Stream, handle_scroll, jump_to_latest, click_row}

-- `count`: `messages.length` of the last render. `seen_count`, `seen_auto`: the dependencies with which
-- the effect ran last. `heading_up`: an animation to the top is under way.
pub record Panel : Type 0 where
  pub stream : Stream
  pub scroll_top : ℕ
  pub heading_up : Bool
  pub count : ℕ
  pub seen_count : ℕ
  pub seen_auto : Bool

-- `scrollTop = 0`, which does nothing at the top.
abbrev pub head_up : Panel → Panel
head_up p = record p { heading_up = ltb 0 p.scroll_top }

-- The effect, behind a commit.
unfoldable pub follow : Panel → Panel
follow p =
    let t = record p { seen_count = p.count; seen_auto = p.stream.auto_scroll } in
    if (p.count == p.seen_count) && bool_eq p.stream.auto_scroll p.seen_auto
    then p
    else if p.stream.auto_scroll
    then head_up t
    else t

-- `scrolls`: a move by the user or the layout; `moves`: a frame of the animation, if there is one; `jumps`:
-- a click on the button, which stands there while the stream does not follow.
pub data Op : Type 0 where
  renders scrolls moves clicks : ℕ → Op
  jumps : Op

unfoldable pub apply : Op → Panel → Panel
unfolding follow
apply (renders n) p = follow (record p { count = n })
apply (scrolls y) p =
    follow (record p { scroll_top = y; heading_up = false; stream = handle_scroll y p.stream })
apply (moves y) p =
    if p.heading_up
    then follow
        (record p { scroll_top = y; heading_up = ltb 0 y; stream = handle_scroll y p.stream })
    else p
apply (clicks i) p = follow (record p { stream = click_row i p.stream })
apply jumps p =
    if p.stream.auto_scroll
    then p
    else follow (record (head_up p) { stream = jump_to_latest p.stream })

unfoldable pub apply_all : List Op → Panel → Panel
apply_all [] p = p
apply_all (o ∷ os) p = apply_all os (apply o p)

-- A stream that does not follow is ten pixels or more from the top, one that follows less or on its way
-- up; and the effect has run for what is shown.
pub record IsFollowing (p : Panel) : Type 0 where
  pub far : p.stream.auto_scroll ≡ false → 10 ≤ p.scroll_top
  pub near : p.stream.auto_scroll ≡ true → (p.scroll_top < 10) ⊎ (p.heading_up ≡ true)
  pub counted : p.seen_count ≡ p.count
  pub settled : p.seen_auto ≡ p.stream.auto_scroll

apply-IsFollowing : (o : Op) (p : Panel) → IsFollowing p → IsFollowing (apply o p)
unfolding apply follow handle_scroll click_row jump_to_latest
apply-IsFollowing (renders n) p h = ground arith
apply-IsFollowing (scrolls y) p h = ground arith
apply-IsFollowing (moves y) p h = ground arith
apply-IsFollowing (clicks i) p h = ground arith
apply-IsFollowing jumps p h = ground arith

apply_all-IsFollowing : (os : List Op) (p : Panel) → IsFollowing p → IsFollowing (apply_all os p)
unfolding apply_all
apply_all-IsFollowing [] p h = h
apply_all-IsFollowing (o ∷ os) p h = apply_all-IsFollowing os (apply o p) (apply-IsFollowing o p h)

-- The first render, with the effect behind it.
abbrev pub mounted : ℕ → Panel
mounted n = record {
  stream = record { auto_scroll = true; expanded_index = none };
  scroll_top = 0;
  heading_up = false;
  count = n;
  seen_count = n;
  seen_auto = true;
}

length-push :
    (m : LiveLogMessage) (prev : List LiveLogMessage)
    → length (push m prev) ≡ min max_messages (suc (length prev))
length-push m prev = ap length (push_lem m prev) ∙ length-take max_messages (m ∷ prev)

-- What an arrival in a buffer of `n` messages makes of the panel `p`.
abbrev pub Arrives : ℕ → Panel → Panel → Type 0
Arrives n p q =
    (q.scroll_top ≡ p.scroll_top)
    × (q.stream ≡ p.stream)
    × (((p.stream.auto_scroll ≡ false) × (10 ≤ p.scroll_top) × (q.heading_up ≡ p.heading_up))
        ⊎ ((p.stream.auto_scroll ≡ true)
            × ((p.scroll_top < 10) ⊎ (p.heading_up ≡ true))
            × (((n < max_messages) × (q.heading_up ≡ ltb 0 p.scroll_top))
                ⊎ ((n ≡ max_messages) × (q.heading_up ≡ p.heading_up)))))

arrives :
    (m : LiveLogMessage) (prev : List LiveLogMessage) (p : Panel)
    → IsFollowing p
    → p.count ≡ length prev
    → length prev ≤ max_messages
    → Arrives (length prev) p (apply (renders (length (push m prev))) p)
unfolding apply follow
arrives m prev p h c b = (
  ground arith,
  ground arith,
  elim (Bool-cases p.stream.auto_scroll) [
    | inr f ↦ inl (f, h.far f, ground arith)
    | inl f ↦ inr (
      f,
      h.near f,
      elim (Bool-cases (ltb (length prev) max_messages)) [
        | inl l ↦ inl (ground arith, ground (arith, length-push m prev))
        | inr l ↦ inr (ground arith, ground (arith, length-push m prev))
      ],
    )
  ],
)

-- Through any renders, moves, frames and clicks, a stream with the button "Jump to latest" is ten pixels
-- or more from the top, and one without it is nearer than that or on its way up. When a message then
-- arrives in a buffer of which all messages are shown, nothing changes for a stream with the button;
-- one without it starts on its way to the top, if it is not there, except where the buffer is
-- full, so that the number of messages stays the same: then nothing changes either.
pub arrival_follows :
    (os : List Op) (n : ℕ) (m : LiveLogMessage) (prev : List LiveLogMessage)
    → (apply_all os (mounted n)).count ≡ length prev
    → length prev ≤ max_messages
    → let p = apply_all os (mounted n) in
      Arrives (length prev) p (apply (renders (length (push m prev))) p)
arrival_follows os n m prev c h =
    arrives m prev (apply_all os (mounted n))
      (apply_all-IsFollowing os (mounted n) (record {
        far = λ e. absurd (cc e);
        near = λ e. inl (omega arith);
        counted = refl;
        settled = refl;
      }))
      c h
