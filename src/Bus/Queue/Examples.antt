-- ===== src/Bus/Queue/Examples.antt =====
-- bus/queue.go: a cancel overtakes the work it calls off.
use voxigo.Prelude.{◌≡◌, true, false, [], ◌∷◌, ◌++◌, length}
use voxigo.Bus.Queue.{Message, new_message_queue}
use voxigo.Bus.Queue.Bands.{put_all, drain, systems, others, drain-put_all}

abbrev work : Message
work = record { id = 1; is_system = false }

abbrev cancel : Message
cancel = record { id = 2; is_system = true }

drain-put_all_bus_example :
    drain
      (length (work ∷ cancel ∷ work ∷ []))
      (put_all (work ∷ cancel ∷ work ∷ []) new_message_queue)
    ≡ systems (work ∷ cancel ∷ work ∷ []) ++ others (work ∷ cancel ∷ work ∷ [])
drain-put_all_bus_example = drain-put_all (work ∷ cancel ∷ work ∷ [])
