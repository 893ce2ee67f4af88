-- ===== src/Processor/Queue/Drain.antt =====
-- processor/queue.go: what a consumer that empties the queue is handed, and what an interruption
-- leaves of it.
use voxigo.Prelude.{
  ℕ, zero, suc, ◌≡◌, refl, inl, inr, Bool, true, false, none, some, List, [], ◌∷◌, ◌++◌, arith,
  length, keep_if,
}
use voxigo.Frames.{is_uninterruptible_frame}
use voxigo.Processor.Queue.{
  Item, Queue, Tier, start_tier, system_tier, other_tier, tier, push, take, reset,
}
use voxigo.Processor.Queue.Contents.{contents, take-Takes}

unfoldable pub push_all : List Item → Queue → Queue
push_all [] q = q
push_all (it ∷ its) q = push_all its (push it q)

-- The items that `n` calls of `get` hand out, when none of them has to wait.
unfoldable pub drain : ℕ → Queue → List Item
drain zero q = []
drain (suc n) q = elim (take q) [ none ↦ [] | some (it, q') ↦ it ∷ drain n q' ]

drain-contents : (xs : List Item) (q : Queue) → contents q ≡ xs → drain (length xs) q ≡ xs
unfolding drain
drain-contents [] q e = refl
drain-contents (x ∷ xs) q e = elim (take-Takes q) [
  | inl (t, c) ↦ ground arith
  | inr (it, q', t, c) ↦
      let rest : contents q' ≡ xs = ground arith in ground (arith, drain-contents xs q' rest)
]

abbrev pub is_tier : Tier → Item → Bool
is_tier start_tier it = elim (tier it) [ start_tier ↦ true | _ ↦ false ]
is_tier system_tier it = elim (tier it) [ system_tier ↦ true | _ ↦ false ]
is_tier other_tier it = elim (tier it) [ other_tier ↦ true | _ ↦ false ]

-- Arrivals in their order within each tier, tier after tier.
abbrev pub by_tier : List Item → List Item
by_tier its =
    keep_if (is_tier start_tier) its
    ++ (keep_if (is_tier system_tier) its ++ keep_if (is_tier other_tier) its)

-- After an interruption flush the start and system frames all come off as before, and of the data
-- and control frames the uninterruptible ones, in their order.
pub drain-reset :
    (q : Queue)
    → let kept =
        q.start ++ (q.system ++ keep_if (λ it. is_uninterruptible_frame it.frame) q.rest) in
      drain (length kept) (reset q) ≡ kept
unfolding reset
drain-reset q = drain-contents _ (reset q) refl
