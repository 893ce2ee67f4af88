-- ===== src/Bus/Queue.antt =====
-- bus/queue.go: the message queue of a bus subscriber, in two bands. A message is its identity and
-- whether it is a system message; what else it carries the queue does not look at.
pub mod Bands
mod Examples
use voxigo.Prelude.{ℕ, Bool, true, false, Option, none, some, List, [], ◌∷◌, ◌++◌, if◌then◌else◌}

pub record Message : Type 0 where
  pub id : ℕ
  pub is_system : Bool

-- `notify` is the channel of capacity one: whether a signal is in it.
pub record MessageQueue : Type 0 where
  pub system : List Message
  pub data_band : List Message
  pub notify : Bool

abbrev pub new_message_queue : MessageQueue
new_message_queue = record { system = []; data_band = []; notify = false }

unfoldable pub put_locked : Message → MessageQueue → MessageQueue
put_locked m q =
    if m.is_system
    then record q { system = q.system ++ m ∷ [] }
    else record q { data_band = q.data_band ++ m ∷ [] }

unfoldable pub put : Message → MessageQueue → MessageQueue
unfolding put_locked
put m q = record (put_locked m q) { notify = true }

abbrev pub get_from : List Message → List Message → MessageQueue → Option (Message × MessageQueue)
get_from (m ∷ ms) ds q = some (m, record q { system = ms })
get_from [] (m ∷ ds) q = some (m, record q { data_band = ds })
get_from [] [] q = none

unfoldable pub try_get : MessageQueue → Option (Message × MessageQueue)
try_get q = get_from q.system q.data_band q
