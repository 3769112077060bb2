-- ===== src/Amqp/WaitStart.antt =====
-- What `AmqpHandle::wait_start` answers (crates/reconnecting-amqp/src/lib.rs) after a history of the
-- connection that the handle spawned.
use tulpje.Prelude.{Bool, false, Option, some, List, [], ◌∷◌, ◌≡◌, refl, ◌⊎◌, inl, inr, arith}
use tulpje.Amqp.Types.{Error, State, finished, CloseReason, Shared, Machine}
use tulpje.Amqp.Handle.{
  AmqpHandle, ConnectionArguments, StartMessage, received, sender_dropped, Outcome, ok, err, new,
  wait_start,
}
use tulpje.Amqp.Machine.{Turn, run_turns, begin}
use tulpje.Amqp.Safety.{Returns, Returns-mono}
use tulpje.Amqp.Start.{results, Heard, run_turns-Reports}

-- The one message of the oneshot channel.
abbrev pub message : List (Option Error) → StartMessage
message [] = sender_dropped
message (r ∷ _) = received r

-- The answer to the first `wait_start` on the new handle.
abbrev pub answer : ConnectionArguments → Bool → Machine → Outcome
answer opts recv_tx m = (wait_start (message (results m.shared.log)) (new opts recv_tx).0).1

abbrev pub Answers : ConnectionArguments → Bool → Machine → Type 0
Answers opts recv_tx m =
    m.shared.start_tx ≡ false
    → (answer opts recv_tx m ≡ ok)
      ⊎ ((e : Error) × (reason : CloseReason) × (answer opts recv_tx m ≡ err e)
          × (m.state ≡ finished reason))

Reports-Answers :
    (opts : ConnectionArguments) (recv_tx : Bool) (st : State) (s : Shared)
    → Heard st s.start_tx (results s.log)
    → Answers opts recv_tx (record { state = st; shared = s })
unfolding wait_start new
Reports-Answers opts recv_tx (finished reason) s (inl h) p = ground arith
Reports-Answers opts recv_tx (finished reason) s (inr (e, h)) p =
    inr (e, reason, ground arith, refl)
Reports-Answers opts recv_tx st s h p = inl (ground arith)

-- Once the connection has reported, `wait_start` on the handle that spawned it answers with a
-- success, or else with an error, and then the connection has finished.
pub wait_start-Answers :
    (opts : ConnectionArguments) (recv_tx : Bool) (ts : List Turn) {m : Machine}
    → begin (new opts recv_tx).1 ≡ some m
    → Returns (Answers opts recv_tx) (run_turns ts m)
unfolding new
wait_start-Answers opts recv_tx ts {m} e =
    Returns-mono (run_turns ts m) (λ m' h. Reports-Answers opts recv_tx m'.state m'.shared h)
      (run_turns-Reports (new opts recv_tx).1 ts refl refl e)

abbrev pub IsErr : Outcome → Type 0
IsErr ok = ⊥
IsErr (err _) = Unit {0}

-- A second `wait_start` fails, whatever the first one was given, and changes nothing.
wait_start_twice :
    (a b : StartMessage) (h : AmqpHandle)
    → IsErr (wait_start b (wait_start a h).0).1
      × ((wait_start b (wait_start a h).0).0 ≡ (wait_start a h).0)
unfolding wait_start
wait_start_twice a b h = ground arith
