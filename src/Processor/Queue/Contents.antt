-- ===== src/Processor/Queue/Contents.antt =====
-- processor/queue.go as one ordered list: what comes off next stands first.
use mathlib.Core.List.{append_assoc}
use voxigo.Prelude.{
  ℕ, ◌≤◌, ◌<◌, ◌≡◌, refl, ◌⊎◌, inl, inr, sym, Bool, Option, none, some, List, [], ◌∷◌, ◌++◌, arith,
  leb, if◌then◌else◌, All, All-append, All-keep_if,
}
use voxigo.Frames.{is_uninterruptible_frame}
use voxigo.Processor.Queue.{
  Item, Queue, Tier, start_tier, system_tier, other_tier, tier, append_at, append, push, take_from,
  take, reset, new_queue, signal,
}

abbrev pub contents : Queue → List Item
contents q = q.start ++ (q.system ++ q.rest)

abbrev pub tier_rank : Tier → ℕ
tier_rank start_tier = 0
tier_rank system_tier = 1
tier_rank other_tier = 2

abbrev pub rank : Item → ℕ
rank it = tier_rank (tier it)

-- The specification of `push`: behind everything of its own tier and of the tiers before.
abbrev pub insert_by_tier : Item → List Item → List Item
insert_by_tier it [] = it ∷ []
insert_by_tier it (x ∷ xs) =
    let rest = insert_by_tier it xs in if leb (rank x) (rank it) then x ∷ rest else it ∷ x ∷ xs

-- Each list holds its own tier.
pub record IsTiered (q : Queue) : Type 0 where
  pub starts : All (λ x. tier x ≡ start_tier) q.start
  pub systems : All (λ x. tier x ≡ system_tier) q.system
  pub others : All (λ x. tier x ≡ other_tier) q.rest

pub new_queue-IsTiered : IsTiered new_queue
new_queue-IsTiered = ground arith

append_at-IsTiered :
    (t : Tier) (it : Item) (q : Queue) → tier it ≡ t → IsTiered q → IsTiered (append_at t it q)
unfolding append_at
append_at-IsTiered start_tier it q e v = record {
  starts = All-append _ q.start (it ∷ []) v.starts (e, tt);
  systems = v.systems;
  others = v.others;
}
append_at-IsTiered system_tier it q e v = record {
  starts = v.starts;
  systems = All-append _ q.system (it ∷ []) v.systems (e, tt);
  others = v.others;
}
append_at-IsTiered other_tier it q e v = record {
  starts = v.starts;
  systems = v.systems;
  others = All-append _ q.rest (it ∷ []) v.others (e, tt);
}

pub push-IsTiered : (it : Item) (q : Queue) → IsTiered q → IsTiered (push it q)
unfolding push append signal
push-IsTiered it q v =
    let w = append_at-IsTiered (tier it) it q refl v in
    record { starts = w.starts; systems = w.systems; others = w.others }

take_from-IsTiered :
    (s y o : List Item) (n : Bool) {q' : Queue} {it : Item}
    → take_from s y o (record { start = s; system = y; rest = o; notify = n }) ≡ some (it, q')
    → IsTiered (record { start = s; system = y; rest = o; notify = n })
    → IsTiered q'
unfolding take_from
take_from-IsTiered (x ∷ s) y o n h v = ground arith
take_from-IsTiered [] (x ∷ y) o n h v = ground arith
take_from-IsTiered [] [] (x ∷ o) n h v = ground arith
take_from-IsTiered [] [] [] n h v = ground arith

pub take-IsTiered :
    (q : Queue) {q' : Queue} {it : Item} → take q ≡ some (it, q') → IsTiered q → IsTiered q'
unfolding take
take-IsTiered q h v = take_from-IsTiered q.start q.system q.rest q.notify h v

pub reset-IsTiered : (q : Queue) → IsTiered q → IsTiered (reset q)
unfolding reset
reset-IsTiered q v = record {
  starts = v.starts;
  systems = v.systems;
  others = All-keep_if _ (λ it. is_uninterruptible_frame it.frame) q.rest v.others;
}

-- The insertion passes what ranks no higher and stops before what does.
insert_past :
    (it : Item) (xs ys : List Item)
    → All (λ x. rank x ≤ rank it) xs
    → insert_by_tier it (xs ++ ys) ≡ xs ++ insert_by_tier it ys
insert_past it [] ys h = refl
insert_past it (x ∷ xs) ys h = ground (arith, insert_past it xs ys h.1)

insert_before :
    (it : Item) (ys : List Item) → All (λ x. rank it < rank x) ys → insert_by_tier it ys ≡ it ∷ ys
insert_before it [] h = refl
insert_before it (y ∷ ys) h = ground arith

-- What a list of one tier is to an item.
rank_le :
    (t : Tier) (n : ℕ) (xs : List Item)
    → tier_rank t ≤ n
    → All (λ x. tier x ≡ t) xs
    → All (λ x. rank x ≤ n) xs
rank_le t n [] le h = tt
rank_le t n (x ∷ xs) le h = (rw h.0 le, rank_le t n xs le h.1)

lt_rank :
    (t : Tier) (n : ℕ) (xs : List Item)
    → n < tier_rank t
    → All (λ x. tier x ≡ t) xs
    → All (λ x. n < rank x) xs
lt_rank t n [] lt h = tt
lt_rank t n (x ∷ xs) lt h = (rw h.0 lt, lt_rank t n xs lt h.1)

insert_last :
    (it : Item) (xs : List Item)
    → All (λ x. rank x ≤ rank it) xs
    → insert_by_tier it xs ≡ xs ++ it ∷ []
insert_last it [] h = refl
insert_last it (x ∷ xs) h = ground (arith, insert_last it xs h.1)

-- Between what ranks no higher and what ranks higher.
insert_between :
    (it : Item) (xs ys : List Item)
    → All (λ x. rank x ≤ rank it) xs
    → All (λ x. rank it < rank x) ys
    → insert_by_tier it (xs ++ ys) ≡ xs ++ it ∷ ys
insert_between it xs ys h k = rw (insert_past it xs ys h, insert_before it ys k)

append_at-contents :
    (t : Tier) (it : Item) (q : Queue)
    → tier it ≡ t
    → IsTiered q
    → contents (append_at t it q) ≡ insert_by_tier it (contents q)
unfolding append_at
append_at-contents start_tier it q e v = rw (append_assoc q.start (it ∷ []) (q.system ++ q.rest)) (
    sym (
      insert_between it q.start (q.system ++ q.rest)
        (rw e (rank_le start_tier 0 q.start (omega arith) v.starts))
        (rw e (
          All-append _ q.system q.rest (lt_rank system_tier 0 q.system (omega arith) v.systems)
            (lt_rank other_tier 0 q.rest (omega arith) v.others)))))
append_at-contents system_tier it q e v =
    rw
      (
        append_assoc q.system (it ∷ []) q.rest,
        ← append_assoc q.start q.system (it ∷ q.rest),
        ← append_assoc q.start q.system q.rest,
      )
      (sym (
        insert_between it (q.start ++ q.system) q.rest
          (rw e (
            All-append _ q.start q.system (rank_le start_tier 1 q.start (omega arith) v.starts)
              (rank_le system_tier 1 q.system (omega arith) v.systems)))
          (rw e (lt_rank other_tier 1 q.rest (omega arith) v.others))))
append_at-contents other_tier it q e v =
    rw
      (
        ← append_assoc q.system q.rest (it ∷ []),
        ← append_assoc q.start (q.system ++ q.rest) (it ∷ []),
      )
      (sym (
        insert_last it (contents q) (
          rw e (
            All-append _ q.start (q.system ++ q.rest)
              (rank_le start_tier 2 q.start (omega arith) v.starts)
              (All-append _ q.system q.rest (rank_le system_tier 2 q.system (omega arith) v.systems)
                (rank_le other_tier 2 q.rest (omega arith) v.others))))))

-- A push goes behind everything of its own tier and of the tiers before it, and ahead of the rest.
pub contents-push :
    (it : Item) (q : Queue) → IsTiered q → contents (push it q) ≡ insert_by_tier it (contents q)
unfolding push append signal
contents-push it q v = append_at-contents (tier it) it q refl v

abbrev pub Takes : Queue → Option (Item × Queue) → Type 0
Takes q r =
    ((r ≡ none) × (contents q ≡ []))
    ⊎ ((it : Item) × (q' : Queue) × (r ≡ some (it, q')) × (contents q ≡ it ∷ contents q'))

take_from-Takes :
    (s y o : List Item) (n : Bool)
    → let q : Queue = record { start = s; system = y; rest = o; notify = n } in
      Takes q (take_from s y o q)
unfolding take_from
take_from-Takes (it ∷ s) y o n = inr (it, _, refl, refl)
take_from-Takes [] (it ∷ y) o n = inr (it, _, refl, refl)
take_from-Takes [] [] (it ∷ o) n = inr (it, _, refl, refl)
take_from-Takes [] [] [] n = inl (refl, refl)

-- What `get` takes is the head of the contents, and it finds nothing only when there is nothing.
pub take-Takes : (q : Queue) → Takes q (take q)
unfolding take
take-Takes q = take_from-Takes q.start q.system q.rest q.notify
