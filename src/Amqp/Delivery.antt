-- ===== src/Amqp/Delivery.antt =====
-- The send queue of the connection (crates/reconnecting-amqp/src/connection.rs) as a first-in
-- first-out channel from the library's user to the broker, over reconnections.
use tulpje.Prelude.{List, [], ◌∷◌, ◌++◌, ◌≡◌}
use tulpje.Amqp.Types.{Bytes, Effect, published, lost, accepted, requeued, Shared, Machine}

-- What was put into the queue, by the user or because the broker returned it, oldest first.
abbrev pub enqueued : List Effect → List Bytes
enqueued [] = []
enqueued (accepted b ∷ l) = enqueued l ++ (b ∷ [])
enqueued (requeued b ∷ l) = enqueued l ++ (b ∷ [])
enqueued (_ ∷ l) = enqueued l

-- What was taken out of the queue, oldest first: handed to the broker, or lost by a failed publish.
abbrev pub taken : List Effect → List Bytes
taken [] = []
taken (published _ b ∷ l) = taken l ++ (b ∷ [])
taken (lost _ b ∷ l) = taken l ++ (b ∷ [])
taken (_ ∷ l) = taken l

abbrev pub IsFifo : Shared → Type 0
IsFifo s = enqueued s.log ≡ taken s.log ++ s.send_queue

abbrev pub Delivers : Machine → Type 0
Delivers m = IsFifo m.shared
