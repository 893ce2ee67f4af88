-- ===== src/Context/Summary/Answered.antt =====
-- utils/context/summarization.go: what the scan of a range keeps of each tool call.
use mathlib.Core.Path.{subst}
use voxigo.Prelude.{
  and-parts, ℕ, zero, suc, ◌+◌, ◌≤◌, ◌<◌, ◌≡◌, ◌⊎◌, inl, inr, refl, sym, ap, ◌∙◌, Bool, true, false,
  not, ◌&&◌, ◌||◌, Option, none, some, List, [], ◌∷◌, Text, text_eq, arith, Bool-cases,
  Option-cases, exists_in, lookup, insert, delete, lookup-insert, lookup-delete, get_elem?,
  if◌then◌else◌,
}
use voxigo.Context.Summary.{
  ToolCall, ToolResult, Message, Payload, Pending, is_empty, is_llm_specific, is_assistant,
  request_calls, is_pending, is_tool_result_pending, async_final, resolve_results, note_message,
  scan,
}

abbrev is_call : Text → ToolCall → Bool
is_call id c = not (is_empty c.id) && text_eq c.id id

-- Whether a message requests a tool call of this id.
abbrev pub asks : Text → Message → Bool
asks id m = not (is_llm_specific m) && (is_assistant m.role && exists_in (is_call id) m.tool_calls)

or-true : (x : Bool) → (x || true) ≡ true
or-true true = refl
or-true false = refl

-- A message of the conversation, at a place from `i` up to `j`.
abbrev pub Within : List Message → (Message → Bool) → ℕ → ℕ → Type 0
Within ms test i j =
    (k : ℕ) × (m : Message) × (i ≤ k) × (k < j) × (get_elem? ms k ≡ some m) × (test m ≡ true)

Within-widen :
    (ms : List Message) (test : Message → Bool) (i i' j : ℕ)
    → i' ≤ i
    → Within ms test i j
    → Within ms test i' j
Within-widen ms test i i' j l (k, m, lo, hi, at, e) = (k, m, omega arith, hi, at, e)

-- Where a call waits after the scan: where it did, or at a message that requests it again.
abbrev pub Waits : List Message → Text → Pending → ℕ → ℕ → ℕ → Type 0
Waits ms id p k i j =
    (v : ℕ) × (lookup id p ≡ some v)
    × ((v ≡ k)
        ⊎ ((i ≤ v) × (v < j) × ((m : Message) × (get_elem? ms v ≡ some m) × (asks id m ≡ true))))

Waits-widen :
    (ms : List Message) (id : Text) (p : Pending) (k i i' j : ℕ)
    → i' ≤ i
    → Waits ms id p k i j
    → Waits ms id p k i' j
Waits-widen ms id p k i i' j l (v, at, inl e) = (v, at, inl e)
Waits-widen ms id p k i i' j l (v, at, inr (lo, hi, asked)) = (v, at, inr (omega arith, hi, asked))

Waits-again :
    (ms : List Message) (id : Text) (p : Pending) (k i j : ℕ) (m : Message)
    → get_elem? ms i ≡ some m
    → asks id m ≡ true
    → i < j
    → Waits ms id p i (suc i) j
    → Waits ms id p k i j
Waits-again ms id p k i j m at asked l (v, found, inl e) =
    (v, found, inr (omega arith, omega arith, (m, ap (get_elem? ms) e ∙ at, asked)))
Waits-again ms id p k i j m at asked l (v, found, inr (lo, hi, again)) =
    (v, found, inr (omega arith, hi, again))

module _ (decode : Text → Option Payload) where
  abbrev is_answer : Text → ToolResult → Bool
  is_answer id r = text_eq r.id id && not (is_tool_result_pending decode r.content)

  abbrev names : Option Text → Text → Bool
  names none id = false
  names (some t) id = text_eq t id

  -- Whether a message answers the call of this id: by a result that is no placeholder, or as the
  -- final message of an async tool.
  abbrev pub answers : Text → Message → Bool
  answers id m =
      not (is_llm_specific m)
      && (exists_in (is_answer id) m.tool_results || names (async_final decode m) id)

  request_calls-lookup :
      (i : ℕ) (cs : List ToolCall) (p : Pending) (id : Text)
      → lookup id (request_calls i cs p)
        ≡ (if exists_in (is_call id) cs then some i else lookup id p)
  unfolding request_calls
  request_calls-lookup i [] p id = refl
  request_calls-lookup i (c ∷ cs) p id = elim (Bool-cases (is_empty c.id)) [
    | inl e ↦ rw e (request_calls-lookup i cs p id)
    | inr e ↦
        rw e (
          request_calls-lookup i cs (insert c.id i p) id
          ∙ ground (arith, lookup-insert c.id id i p))
  ]

  -- A call that waits goes on waiting, or is answered.
  resolve_results-lookup :
      (rs : List ToolResult) (p : Pending) (id : Text) (k : ℕ)
      → lookup id p ≡ some k
      → (exists_in (is_answer id) rs ≡ true) ⊎ (lookup id (resolve_results decode rs p) ≡ some k)
  unfolding resolve_results
  resolve_results-lookup [] p id k h = inr h
  resolve_results-lookup (r ∷ rs) p id k h =
      elim (Bool-cases (is_empty r.id || not (is_pending (lookup r.id p)))) [
        | inl skip ↦ elim (resolve_results-lookup rs p id k h) [
          | inl a ↦ inl (ground arith)
          | inr l ↦ inr (rw skip l)
        ]
        | inr goes ↦ elim (Bool-cases (is_tool_result_pending decode r.content)) [
          | inl waits ↦ elim (resolve_results-lookup rs p id k h) [
            | inl a ↦ inl (ground arith)
            | inr l ↦ inr (rw (goes, waits) l)
          ]
          | inr done ↦ elim (Bool-cases (text_eq r.id id)) [
            | inl same ↦ inl (ground arith)
            | inr other ↦
                elim (resolve_results-lookup rs (delete r.id p) id k
                  (lookup-delete r.id id p ∙ rw other h)) [
                    | inl a ↦ inl (ground arith)
                    | inr l ↦ inr (rw (goes, done) l)
                  ]
          ]
        ]
      ]

  requested : ℕ → Message → Pending → Pending
  requested i m p = if is_assistant m.role then request_calls i m.tool_calls p else p

  resolved-lookup :
      (i : ℕ) (m : Message) (p : Pending) (id : Text) (v : ℕ)
      → is_llm_specific m ≡ false
      → lookup id (requested i m p) ≡ some v
      → (answers id m ≡ true) ⊎ (lookup id (note_message decode i m p) ≡ some v)
  unfolding note_message requested
  resolved-lookup i m p id v universal h =
      elim (resolve_results-lookup m.tool_results (requested i m p) id v h) [
        | inl a ↦ inl (rw (universal, a) refl)
        | inr l ↦ elim (Option-cases (async_final decode m)) [
          | inl no_final ↦ inr (rw (universal, no_final) l)
          | inr (t, final) ↦ elim (Bool-cases (text_eq t id)) [
            | inl same ↦
                inl
                  (rw (universal, final, same) (or-true (exists_in (is_answer id) m.tool_results)))
            | inr other ↦ inr (
                rw (universal, final)
                  (lookup-delete t id (resolve_results decode m.tool_results (requested i m p))
                    ∙ rw other l))
          ]
        ]
      ]

  note_message-specific :
      (i : ℕ) (m : Message) (p : Pending) (id : Text)
      → is_llm_specific m ≡ true
      → lookup id (note_message decode i m p) ≡ lookup id p
  unfolding note_message
  note_message-specific i m p id specific = rw specific refl

  chosen :
      (i k : ℕ) (x y : Bool)
      → x ≡ y
      → (if x then some i else some k) ≡ (if y then some i else some k)
  chosen i k x y e = ap (λ b. if b then some i else some k) e

  noted :
      (i : ℕ) (m : Message) (p : Pending) (id : Text) {u v : Option ℕ}
      → u ≡ v
      → (answers id m ≡ true) ⊎ (lookup id (note_message decode i m p) ≡ v)
      → (answers id m ≡ true) ⊎ (lookup id (note_message decode i m p) ≡ u)
  noted i m p id e (inl a) = inl a
  noted i m p id e (inr l) = inr (l ∙ sym e)

  -- What a message does to a call that waits.
  note_message-lookup :
      (i : ℕ) (m : Message) (p : Pending) (id : Text) (k : ℕ)
      → lookup id p ≡ some k
      → (answers id m ≡ true)
        ⊎ (lookup id (note_message decode i m p) ≡ (if asks id m then some i else some k))
  note_message-lookup i m p id k h = elim (Bool-cases (is_llm_specific m)) [
    | inl specific ↦ inr (
        note_message-specific i m p id specific
        ∙ h
        ∙ sym (chosen i k (asks id m) false (rw specific refl)))
    | inr universal ↦ elim (Bool-cases (is_assistant m.role)) [
      | inl speaks ↦ elim (Bool-cases (exists_in (is_call id) m.tool_calls)) [
        | inl called ↦
            noted i m p id (chosen i k (asks id m) true (rw (universal, speaks, called) refl)) (
              resolved-lookup i m p id i universal (
                unfold requested in
                rw speaks (request_calls-lookup i m.tool_calls p id ∙ rw called refl)))
        | inr silent ↦
            noted i m p id (chosen i k (asks id m) false (rw (universal, speaks, silent) refl)) (
              resolved-lookup i m p id k universal (
                unfold requested in
                rw speaks (request_calls-lookup i m.tool_calls p id ∙ rw silent h)))
      ]
      | inr listens ↦
          noted i m p id (chosen i k (asks id m) false (rw (universal, listens) refl))
            (resolved-lookup i m p id k universal (unfold requested in rw listens h))
    ]
  ]

  -- A call that a message requests waits after it, unless the message answers it.
  pub note_message-asked :
      (i : ℕ) (m : Message) (p : Pending) (id : Text)
      → asks id m ≡ true
      → (answers id m ≡ true) ⊎ (lookup id (note_message decode i m p) ≡ some i)
  note_message-asked i m p id h =
      let (universal, rest) = and-parts (not (is_llm_specific m)) _ h in
      let (speaks, called) = and-parts (is_assistant m.role) _ rest in
      resolved-lookup i m p id i (ground arith)
        (unfold requested in rw speaks (request_calls-lookup i m.tool_calls p id ∙ rw called refl))

  widened :
      (ms : List Message) (n i : ℕ) (id : Text) (p : Pending) (k : ℕ)
      → Within ms (answers id) (suc i) (suc i + n) ⊎ Waits ms id p k (suc i) (suc i + n)
      → Within ms (answers id) i (i + suc n) ⊎ Waits ms id p k i (i + suc n)
  widened ms n i id p k (inl (j, r, lo, hi, found, e)) =
      inl (j, r, omega arith, omega arith, found, e)
  widened ms n i id p k (inr w) = inr (
      subst (λ e. Waits ms id p k i e) (omega arith)
        (Waits-widen ms id p k (suc i) i (suc i + n) (omega arith) w))

  -- A call that waits before a scan is answered in it, or waits after it.
  pub scan-lookup :
      (ms : List Message) (n i : ℕ) (p : Pending) (id : Text) (k : ℕ)
      → lookup id p ≡ some k
      → Within ms (answers id) i (i + n) ⊎ Waits ms id (scan decode ms n i p) k i (i + n)
  unfolding scan
  scan-lookup ms zero i p id k h = inr (k, h, inl refl)
  scan-lookup ms (suc n) i p id k h = elim (Option-cases (get_elem? ms i)) [
    | inl past ↦ rw past (widened ms n i id _ k (scan-lookup ms n (suc i) p id k h))
    | inr (m, at) ↦ elim (note_message-lookup i m p id k h) [
      | inl answered ↦ inl (i, m, omega arith, omega arith, at, answered)
      | inr waits ↦ elim (Bool-cases (asks id m)) [
        | inl asked ↦
            elim (scan-lookup ms n (suc i) (note_message decode i m p) id i
              (waits ∙ chosen i k (asks id m) true asked)) [
                | inl (j, r, lo, hi, found, e) ↦ inl (j, r, omega arith, omega arith, found, e)
                | inr w ↦ rw at (
                    inr (
                      Waits-again ms id _ k i (i + suc n) m at asked (omega arith) (
                        subst
                          (λ e.
                            Waits ms id (scan decode ms n (suc i) (note_message decode i m p)) i
                              (suc i) e)
                          (omega arith) w)))
              ]
        | inr silent ↦ rw at (
            widened ms n i id _ k (
              scan-lookup ms n (suc i) (note_message decode i m p) id k
                (waits ∙ chosen i k (asks id m) false silent)))
      ]
    ]
  ]
