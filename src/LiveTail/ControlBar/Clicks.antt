-- ===== src/LiveTail/ControlBar/Clicks.antt =====
-- A click on a card of a level, and what the stream then shows.
use org_log.Prelude.{
  ℕ, ◌≡◌, ◌⊎◌, inl, inr, refl, ◌∙◌, String, true, false, List, [], ◌∷◌, length, truthy, str_eq, Has,
  Bool-cases,
}
use org_log.Types.{LiveLogMessage}
use org_log.Live.{LiveLogs}
use org_log.LiveTail.{ordered, message_stats, filtered_messages, toggle_filter}
use org_log.LiveTail.Stats.{mem-message_stats}
use org_log.LiveTail.ControlBar.{LevelCard, level_card, level_cards, control_bar}

mem-level_cards :
    (f : String) (card : LevelCard) (counts : List (String × ℕ))
    → Has card (level_cards f counts)
    → (c : String × ℕ) × Has c counts × (card ≡ level_card f c)
unfolding level_cards
mem-level_cards f card [] h = absurd h
mem-level_cards f card (c ∷ counts) (inl e) = (c, inl refl, e)
mem-level_cards f card (c ∷ counts) (inr h) =
    let (d, m, e) = mem-level_cards f card counts h in (d, inr m, e)

ordered-truthy : (level : String) → Has level ordered → truthy level ≡ true
ordered-truthy level (inl e) = rw e refl
ordered-truthy level (inr (inl e)) = rw e refl
ordered-truthy level (inr (inr (inl e))) = rw e refl
ordered-truthy level (inr (inr (inr (inl e)))) = rw e refl
ordered-truthy level (inr (inr (inr (inr (inl e))))) = rw e refl
ordered-truthy level (inr (inr (inr (inr (inr h))))) = absurd h

-- What the stream shows after a click on the card of a level with a count.
clicked :
    (f level : String) (n : ℕ) (ms : List LiveLogMessage)
    → Has (level, n) (message_stats ms)
    → ((str_eq f level ≡ true) × (filtered_messages (toggle_filter level f) ms ≡ ms))
      ⊎ ((str_eq f level ≡ false)
          × (toggle_filter level f ≡ level)
          × (length (filtered_messages (toggle_filter level f) ms) ≡ n))
unfolding toggle_filter filtered_messages
clicked f level n ms h =
    let (known, counted, positive) = (mem-message_stats level n ms).0.0 h in
    elim (Bool-cases (str_eq f level)) [
      | inl e ↦ inl (e, rw e refl)
      | inr e ↦
          let shown = (mem-message_stats level n ms).1 in
          inr (e, rw e refl, rw e (shown ∙ rw (ordered-truthy level known) counted))
    ]

-- Of each card that the bar shows: a click on the card whose level is the filter shows all messages
-- again; a click on any other makes its level the filter, and then the stream shows
-- as many messages as the card counts.
pub card_clicks :
    (f : String) (s : LiveLogs) (card : LevelCard)
    → Has card (control_bar f s).cards
    → ((card.is_chosen ≡ true) × ((control_bar card.next_filter s).stream ≡ s.messages))
      ⊎ ((card.is_chosen ≡ false)
          × (card.next_filter ≡ card.level)
          × (length (control_bar card.next_filter s).stream ≡ card.count))
unfolding control_bar level_card
card_clicks f s card h =
    let (c, m, e) = mem-level_cards f card (message_stats s.messages) h in
    rw e (clicked f c.0 c.1 s.messages m)
