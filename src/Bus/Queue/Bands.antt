-- ===== src/Bus/Queue/Bands.antt =====
-- bus/queue.go: the order in which a subscriber gets its messages.
use mathlib.Core.List.{append_assoc, append-nil}
use voxigo.Prelude.{
  ℕ, zero, suc, ◌+◌, ◌≡◌, refl, sym, not, none, some, List, [], ◌∷◌, ◌++◌, arith, keep_if, length,
  Bool-cases, inl, inr,
}
use voxigo.Bus.Queue.{Message, MessageQueue, new_message_queue, put_locked, put, try_get}

unfoldable pub put_all : List Message → MessageQueue → MessageQueue
unfolding put
put_all [] q = q
put_all (m ∷ ms) q = put_all ms (put m q)

-- What at most `n` gets give, until there is nothing left.
unfoldable pub drain : ℕ → MessageQueue → List Message
unfolding try_get
drain zero q = []
drain (suc n) q = elim (try_get q) [ none ↦ [] | some r ↦ r.0 ∷ drain n r.1 ]

abbrev pub systems : List Message → List Message
systems ms = keep_if (λ m. m.is_system) ms

abbrev pub others : List Message → List Message
others ms = keep_if (λ m. not m.is_system) ms

drain-bands :
    (n : ℕ) (s d : List Message) (q : MessageQueue)
    → q.system ≡ s
    → q.data_band ≡ d
    → n ≡ length s + length d
    → drain n q ≡ s ++ d
unfolding drain try_get
drain-bands zero [] [] q e f l = refl
drain-bands zero (m ∷ s) d q e f l = absurd (omega arith)
drain-bands zero [] (m ∷ d) q e f l = absurd (omega arith)
drain-bands (suc n) [] [] q e f l = absurd (omega arith)
drain-bands (suc n) [] (m ∷ d) q e f l =
    let rest = drain-bands n [] d (record q { data_band = d }) e refl (omega arith) in
    let look : try_get q ≡ some (m, record q { data_band = d }) = rw (e, f) refl in
    ground (arith, look, rest)
drain-bands (suc n) (m ∷ s) d q e f l =
    let rest = drain-bands n s d (record q { system = s }) refl f (omega arith) in
    let look : try_get q ≡ some (m, record q { system = s }) = rw (e, f) refl in
    ground (arith, look, rest)

put_all-system :
    (ms : List Message) (q : MessageQueue) → (put_all ms q).system ≡ q.system ++ systems ms
unfolding put_all put put_locked
put_all-system [] q = sym (append-nil q.system)
put_all-system (m ∷ ms) q = elim (Bool-cases m.is_system) [
  | inl b ↦ ground (arith, put_all-system ms (put m q), append_assoc q.system (m ∷ []) (systems ms))
  | inr b ↦ ground (arith, put_all-system ms (put m q))
]

put_all-data :
    (ms : List Message) (q : MessageQueue) → (put_all ms q).data_band ≡ q.data_band ++ others ms
unfolding put_all put put_locked
put_all-data [] q = sym (append-nil q.data_band)
put_all-data (m ∷ ms) q = elim (Bool-cases m.is_system) [
  | inl b ↦ ground (arith, put_all-data ms (put m q))
  | inr b ↦ ground (arith, put_all-data ms (put m q), append_assoc q.data_band (m ∷ []) (others ms))
]

length-bands : (ms : List Message) → length ms ≡ length (systems ms) + length (others ms)
length-bands [] = omega arith
length-bands (m ∷ ms) = ground (arith, length-bands ms)

-- A subscriber gets the system messages before the others, each in the order they were put, and
-- gets all of them once.
pub drain-put_all :
    (ms : List Message) → drain (length ms) (put_all ms new_message_queue) ≡ systems ms ++ others ms
drain-put_all ms =
    drain-bands (length ms) (systems ms) (others ms) (put_all ms new_message_queue)
      (put_all-system ms new_message_queue) (put_all-data ms new_message_queue) (length-bands ms)
