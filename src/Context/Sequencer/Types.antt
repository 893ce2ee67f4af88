-- ===== src/Context/Sequencer/Types.antt =====
-- utils/context/sequencer.go: the state of the sequencer and the frames that it returns. The word
-- tracker and the sentence assembler are interfaces, records of their methods over a state.
use voxigo.Prelude.{ℕ, Bool, true, false, Option, none, some, List, [], ◌∷◌, Text}

-- WordCompletionTracker.
pub record Tracking : Type 1 where
  pub Tracker : Type 0
  -- the text to speak, the text shown, the original text
  pub new_tracker : Text → Text → Text → Tracker
  pub add_word : Text → Tracker → Tracker × Bool
  pub word_belongs_here : Text → Tracker → Bool
  pub overflow_word : Tracker → Option Text
  pub frame_word : Tracker → Option Text
  pub raw_text : Tracker → Option Text
  pub suppress : Tracker → Bool
  pub remaining_tts_text : Bool → Tracker → Text
  pub remaining_raw_text_only : Tracker → Option Text
  pub accumulated_user_facing_text : Tracker → Text
  pub remaining_user_facing_text : Bool → Tracker → Text

-- parallelAggregation.
pub record Aggregation : Type 0 where
  pub tts : Text
  pub llm : Text
  pub user_facing : Text

-- parallelSentenceAggregator, over its tokenizer.
pub record Assembling : Type 1 where
  pub Assembler : Type 0
  pub new_assembler : Assembler
  -- the text to speak, the original text, the text shown
  pub aggregate : Text → Text → Text → Assembler → Assembler × List Aggregation
  pub flush_assembler : Assembler → Option Aggregation

-- AggregatedTextFrame, the fields that the sequencer reads and writes; `pts` is 0 when unset.
pub record TextFrame : Type 0 where
  pub id : ℕ
  pub text : Text
  pub frame_raw : Text
  pub frame_context : Text
  pub append_to_context : Bool
  pub will_be_spoken : Bool
  pub destination : Text
  pub frame_pts : ℕ

-- TTSTextFrame.
pub record WordFrame : Type 0 where
  pub word : Text
  pub word_pts : ℕ
  pub word_context : Text
  pub word_raw : Text
  pub word_append : Bool
  pub inter_frame : Bool

-- AggregatedTextProgressFrame.
pub record ProgressFrame : Type 0 where
  pub sentence : ℕ
  pub progress_context : Text
  pub whole : Text
  pub accumulated : Text
  pub remaining : Text
  pub progress_pts : ℕ

-- The frames that a call returns.
pub data Out : Type 0 where
  aggregated : TextFrame → Out
  spoken_word : WordFrame → Out
  progress : ProgressFrame → Out

-- bufferedWord.
pub record BufferedWord : Type 0 where
  pub held_word : Text
  pub held_pts : ℕ
  pub held_context : Text
  pub held_inter : Bool

unfoldable pub raw_or : TextFrame → Text
raw_or f = elim f.frame_raw [ [] ↦ f.text | c ∷ cs ↦ c ∷ cs ]

abbrev pub or_empty : Option Text → Text
or_empty none = []
or_empty (some t) = t

abbrev pub is_empty : Text → Bool
is_empty [] = true
is_empty (c ∷ cs) = false

module _ (tr : Tracking) (sa : Assembling) where
  open tr use {
    Tracker, new_tracker, add_word, word_belongs_here, overflow_word, frame_word, raw_text,
    suppress, remaining_tts_text, remaining_raw_text_only, accumulated_user_facing_text,
    remaining_user_facing_text,
  }
  open sa use {Assembler, new_assembler, aggregate, flush_assembler}

  -- aggregatedFrameSlot.
  pub record Slot : Type 0 where
    pub frame : TextFrame
    pub context_id : Text
    pub spoken : Bool
    pub tracker : Option Tracker
    pub transport_destination : Text
    pub complete : Bool
    pub includes_inter_frame : Bool

  -- streamingContext.
  pub record Streaming : Type 0 where
    pub assembler : Assembler
    pub append_to_ctx : Bool
    pub build_tracker : Bool

  -- AggregatedFrameSequencer; `next_id` is the counter that new frames are numbered from.
  pub record Sequencer : Type 0 where
    pub streaming_mode : Bool
    pub slots : List Slot
    pub context_append : List (Text × Bool)
    pub streaming : List (Text × Streaming)
    pub buffered : List BufferedWord
    pub next_id : ℕ

  abbrev pub Run : Type 0
  Run = Sequencer × List Out

  abbrev pub is_some {ℓ} : {A : Type ℓ} → Option A → Bool
  is_some none = false
  is_some (some a) = true
