-- ===== src/Pipeline/Switcher/Updates.antt =====
-- pipeline/switcher.go: the ring of updates handed to inactive services.
use voxigo.Prelude.{
  ℕ, suc, ◌+◌, ◌<◌, ◌≤◌, ◌≡◌, Bool, true, false, List, [], ◌∷◌, ◌++◌, arith, length, length-append,
  length-drop, drop, if-cases, ◌==◌, ==_iff,
}
use voxigo.Pipeline.Switcher.{
  remember_inactive_update, consume_inactive_update, inactive_update_ring,
}

-- What happens to the ring.
pub data Act : Type 0 where
  remembers consumes : ℕ → Act

unfoldable pub act : Act → List ℕ → List ℕ
unfolding remember_inactive_update consume_inactive_update
act (remembers j) ids = remember_inactive_update j ids
act (consumes j) ids = (consume_inactive_update j ids).0

unfoldable pub acts : List Act → List ℕ → List ℕ
unfolding act
acts [] ids = ids
acts (a ∷ more) ids = acts more (act a ids)

abbrev pub count_remembered : List Act → ℕ
count_remembered [] = 0
count_remembered (remembers j ∷ more) = suc (count_remembered more)
count_remembered (consumes j ∷ more) = count_remembered more

-- No other part consumes the id.
abbrev pub Spares : ℕ → List Act → Type 0
Spares id [] = Unit
Spares id (remembers j ∷ more) = Spares id more
Spares id (consumes j ∷ more) = ((j == id) ≡ false) × Spares id more

-- The id is in the ring with at most `n` behind it.
data Held (id : ℕ) : ℕ → List ℕ → Type 0 where
  now : {n : ℕ} {ids : List ℕ} → length ids ≤ n → Held id n (id ∷ ids)
  later : {n i : ℕ} {ids : List ℕ} → Held id n ids → Held id n (i ∷ ids)

Held-append : {id n : ℕ} {ids : List ℕ} (j : ℕ) → Held id n ids → Held id (suc n) (ids ++ j ∷ [])
Held-append j (now {ids = ids} h) = now (omega (arith, length-append ids (j ∷ [])))
Held-append j (later h) = later (Held-append j h)

Held-drop : {id n : ℕ} {ids : List ℕ} → suc n < length ids → Held id n ids → Held id n (drop 1 ids)
Held-drop l (now h) = absurd (omega arith)
Held-drop l (later h) = h

length-consume : (j : ℕ) (ids : List ℕ) → length (consume_inactive_update j ids).0 ≤ length ids
unfolding consume_inactive_update
length-consume j [] = omega arith
length-consume j (i ∷ ids) = ground (arith, length-consume j ids)

Held-consume :
    {id n : ℕ} {ids : List ℕ} (j : ℕ)
    → (j == id) ≡ false
    → Held id n ids
    → Held id n (consume_inactive_update j ids).0
unfolding consume_inactive_update
Held-consume {id} {n} j e (now {ids = ids} h) =
    if-cases (λ (r : List ℕ × Bool). Held id n (r.0)) (id == j) (λ b. absurd (ground arith))
      (λ b. now (omega (arith, length-consume j ids)))
Held-consume {id} {n} j e (later {i = i} h) =
    if-cases (λ (r : List ℕ × Bool). Held id n (r.0)) (i == j) (λ b. h)
      (λ b. later (Held-consume j e h))

Held-remember :
    {id n : ℕ} {ids : List ℕ} (j : ℕ)
    → suc n < inactive_update_ring
    → Held id n ids
    → Held id (suc n) (remember_inactive_update j ids)
unfolding remember_inactive_update
Held-remember {id} {n} {ids} j l h =
    if-cases (Held id (suc n)) (length ids == inactive_update_ring)
      (λ full. Held-append j (Held-drop (ground arith) h)) (λ room. Held-append j h)

Held-more : {id n m : ℕ} {ids : List ℕ} → n ≤ m → Held id n ids → Held id m ids
Held-more l (now h) = now (omega arith)
Held-more l (later h) = later (Held-more l h)

Held-acts :
    {id : ℕ} (n : ℕ) {ids : List ℕ} (more : List Act)
    → n + count_remembered more < inactive_update_ring
    → Spares id more
    → Held id n ids
    → Held id (n + count_remembered more) (acts more ids)
unfolding acts act
Held-acts n [] l s h = Held-more (omega arith) h
Held-acts n (remembers j ∷ more) l s h =
    Held-more (omega arith)
      (Held-acts (suc n) more (omega arith) s (Held-remember j (omega arith) h))
Held-acts n (consumes j ∷ more) l s h = Held-acts n more l (s.1) (Held-consume j (s.0) h)

Held-consumed :
    {id n : ℕ} {ids : List ℕ} → Held id n ids → (consume_inactive_update id ids).1 ≡ true
unfolding consume_inactive_update
Held-consumed {id} (now h) = ground (arith, ==_iff id id)
Held-consumed {id} (later {i = i} {ids} h) = let rest = Held-consumed h in ground arith

remember-Held : (id : ℕ) (ids : List ℕ) → Held id 0 (ids ++ id ∷ [])
remember-Held id [] = now (omega arith)
remember-Held id (i ∷ ids) = later (remember-Held id ids)

length-remember :
    (id : ℕ) (ids : List ℕ)
    → length ids ≤ inactive_update_ring
    → length (remember_inactive_update id ids) ≤ inactive_update_ring
unfolding remember_inactive_update
length-remember id ids h =
    if-cases (λ (l : List ℕ). length l ≤ inactive_update_ring) (length ids == inactive_update_ring)
      (λ full. ground (arith, length-append (drop 1 ids) (id ∷ []), length-drop 1 ids))
      (λ room. ground (arith, length-append ids (id ∷ [])))

length-acts :
    (more : List Act) (ids : List ℕ)
    → length ids ≤ inactive_update_ring
    → length (acts more ids) ≤ inactive_update_ring
unfolding acts act
length-acts [] ids h = h
length-acts (remembers j ∷ more) ids h = length-acts more _ (length-remember j ids h)
length-acts (consumes j ∷ more) ids h = length-acts more _ (omega (arith, length-consume j ids))

remembered-Held : (id : ℕ) (ids : List ℕ) → Held id 0 (remember_inactive_update id ids)
unfolding remember_inactive_update
remembered-Held id ids =
    if-cases (Held id 0) (length ids == inactive_update_ring) (λ _. remember-Held id (drop 1 ids))
      (λ _. remember-Held id ids)

-- A copy handed to an inactive service is dropped on its way out: a ring of at most 64 ids stays
-- one, and an id that is remembered is found when it is consumed, whatever happens between, as
-- long as fewer than 64 others are remembered and no one else consumes it.
pub copies_are_consumed :
    (id : ℕ) (ids : List ℕ) (more : List Act)
    → length ids ≤ inactive_update_ring
    → count_remembered more < inactive_update_ring
    → Spares id more
    → (length (acts more (remember_inactive_update id ids)) ≤ inactive_update_ring)
      × ((consume_inactive_update id (acts more (remember_inactive_update id ids))).1 ≡ true)
copies_are_consumed id ids more l few s =
    let held = Held-acts 0 more (omega arith) s (remembered-Held id ids) in
    (length-acts more _ (length-remember id ids l), Held-consumed held)
