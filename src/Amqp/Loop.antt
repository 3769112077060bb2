-- ===== src/Amqp/Loop.antt =====
-- An induction rule for the `select!` loop of `Connected::run`
-- (crates/reconnecting-amqp/src/connection.rs).
use tulpje.Prelude.{some, All, All-of, List, [], ◌∷◌}
use tulpje.Amqp.Types.{Conn, Channel, connected, closing_channel, Shared, Pick, Machine}
use tulpje.Amqp.Connection.{at, Flow, return, continue, pick_branch, connected_loop}

module _ (conn : Conn) (chan : Channel) (P : Shared → Type 0) (Q : Machine → Type 0) where
  abbrev pub FlowKeeps : Flow → Type 0
  FlowKeeps (return reason s) = Q (at (closing_channel conn (some chan) reason) s)
  FlowKeeps (continue s) = P s

  turn_rule :
      (ps : List Pick) (f : Flow)
      → FlowKeeps f
      → ((s : Shared) → P s → Q (connected_loop conn chan ps s))
      → Q (elim f [
        | return reason s ↦ at (closing_channel conn (some chan) reason) s
        | continue s ↦ connected_loop conn chan ps s
      ])
  turn_rule ps (return reason s) k rest = k
  turn_rule ps (continue s) k rest = rest s k

  -- `P` holds at the head of the loop, and `Q` of the machine when it waits or returns; `G` is what
  -- is assumed of each pick.
  pub connected_loop_rule_on :
      (G : Pick → Type 0)
      → ((s : Shared) → P s → Q (at (connected conn chan) s))
      → ((p : Pick) (s : Shared) → G p → P s → FlowKeeps (pick_branch p s))
      → (ps : List Pick) (s : Shared) → All G ps
      → P s
      → Q (connected_loop conn chan ps s)
  unfolding connected_loop
  connected_loop_rule_on G wait step [] s g h = wait s h
  connected_loop_rule_on G wait step (p ∷ ps) s g h =
      turn_rule ps (pick_branch p s) (step p s g.0 h)
        (λ s'. connected_loop_rule_on G wait step ps s' g.1)

  pub connected_loop_rule :
      ((s : Shared) → P s → Q (at (connected conn chan) s))
      → ((p : Pick) (s : Shared) → P s → FlowKeeps (pick_branch p s))
      → (ps : List Pick) (s : Shared) → P s
      → Q (connected_loop conn chan ps s)
  connected_loop_rule wait step ps s =
      connected_loop_rule_on (λ p. Unit {0}) wait (λ p t g. step p t) ps s
        (All-of (λ p. Unit {0}) (λ p. tt) ps)
