-- ===== src/Lib.antt =====
-- Voxigo: a framework for real-time voice agents. Frames flow through a pipeline of processors,
-- each behind a queue; what a client says is detected, transcribed and answered, and what is
-- spoken is lined up with the words as they are heard. This library models the parts whose own
-- state decides what a client hears and when, and proves what they promise.
--
-- Parts, and the files that model them:
--   Frames               frames/frames.go, processor/filter.go: the frame types that the parts below
--                        look at, with the category and the uninterruptible mark of each; any other
--                        type is `other`. A frame is its id and its type.
--   Processor.Queue      processor/queue.go: `push`, `get` (`take` is one look under the lock),
--                        `reset`, `hasFrame`. Wakeup interleaves producers, flushes and the consumer.
--   Processor.Event      processor/pause.go: the manual-reset event behind pauses.
--   Processor.Dtmf       processor/dtmf/aggregator.go: keys collected into transcriptions.
--   Pipeline.Parallel    pipeline/parallel.go: fan-out, merge and the synchronization of lifecycle
--                        frames; the branches are threads of locked passes and pushes.
--   Pipeline.Strategy    pipeline/switcher.go: `manualStrategy` and `failoverStrategy`.
--   Pipeline.Switcher    pipeline/switcher.go: `ServiceSwitcher`, which asks a strategy what to do.
--   Turns.Controller     processor/turns/controller.go, strategy.go: the user-turn state machine. The
--                        strategies are a parameter: a type of states with methods, where what a
--                        strategy does is a script that stops at each callback into the controller.
--   Turns.Starts         processor/turns/start.go: the start strategies as objects of the controller, with
--                        WakePhrase and its timer; the phrases' regular expressions are parameters.
--   Turns.Stops          processor/turns/stop.go: the stop strategies as objects of the controller, with
--                        their timers and the time; the end-of-turn model is a parameter.
--   Turns.Timers         processor/turns/strategy.go: the timers of the strategies.
--   Turns.Idle           processor/turns/idle.go: the timer that reports a silent conversation.
--   Turns.Mute           processor/turns/mute.go: the four mute strategies.
--   Vad.Machine          audio/vad/vad.go: the state machine behind a voice detector. The model that
--                        scores a frame, and the arithmetic on floating-point numbers, are parameters.
--   Vad.Controller       audio/vad/controller/controller.go: the speech reports and the idle watch.
--   Context.Sequencer    utils/context/sequencer.go: which text frames leave when, word by word. The
--                        word tracker and the sentence assembler are parameters: records of the
--                        operations that the sequencer calls.
--   Context.Matcher      utils/context/sequencematcher.go: the alignment of two sequences of words.
--   Context.Summary      utils/context/summarization.go, with the messages of frames/llm_context.go and
--                        frames/async_tool.go: which messages are summarized, the estimate of tokens
--                        and the transcript. The decoder of JSON is a parameter.
--   Audio.Companding     audio/g711/g711.go, alaw.go: both codecs, on integers in the int16 range.
--   Transport.FrameQueue transport/framequeue.go: the frames a sender has yet to pace out.
--   Transport.ClockQueue transport/clockqueue.go: frames that wait for their timestamp, with `run` as
--                        a step relation of the goroutine, the producers, an interruption and time.
--   Texts.Tags           utils/text/tags.go: which run between two tags a growing text is in.
--   Texts.Simple         utils/text/aggregator.go: text cut into sentences; the sentence tokenizer is a
--                        parameter.
--   Texts.SkipTags       utils/text/skiptags.go: the same without a cut between two tags.
--   Texts.Concatenate    utils/text/concatenate.go: pieces of text joined with the spaces they lack.
--   Bus.Queue            bus/queue.go: the two bands of a subscriber's queue.
--   Prelude              what they share: tests on numbers, lists, byte strings, maps, integers,
--                        and the runs of a step relation.
--
-- How they meet: a transport's audio goes to Vad.Controller, which asks Vad.Machine and reports
-- speech; Turns.Controller turns the reports into turns, which interrupt the bot and so flush each
-- Processor.Queue; Pipeline.Parallel carries the services that Pipeline.Switcher chooses among; the
-- text of a reply is cut by Texts.SkipTags into what a service is given to speak, the words it speaks
-- go to Context.Sequencer, and what is to be played waits in the two queues of Transport.
-- Context.Summary shortens the conversation that the turns make.
--
-- Conventions. Code under one mutex is one step. Where the code pushes a frame or calls a handler
-- after the unlock, the model lists it in the order decided under the lock, except in
-- Pipeline.Parallel and Processor.Queue.Wakeup, where the two are separate steps. Times are natural
-- numbers; a timer or a channel is its number. Log lines, metrics, contexts, and the errors of a push
-- or of a queue that is gone are left out. In the switcher a processor is its identity, which also
-- stands for its name. In the sequencer only aggregated frames carry an id.
-- In Texts and WakePhrase a text is its code points and an offset counts them, elsewhere its bytes; a
-- call of Texts that panics on a slice is `none`.
--
-- Fuel. `process_from` of Context.Sequencer.Words recurs on fuel, one more than the open spoken
-- slots, which is proved to be enough. `find_matches` of Context.Matcher takes twice the words of the
-- first sequence and one, which is proved to be enough; its extending loops take the width of their
-- span. `drain` of the two queues takes the number of gets. All else is structural recursion.
--
-- Not modelled: providers, services and the input and output of transports; the processor base with
-- its loops and pauses, the pipeline worker, flows and the message bus, which are goroutines around
-- the parts above; the word tracker, which is a parameter here; the conversation's context object;
-- the text filters; signal processing on floating-point numbers; observers, telemetry, the evaluation
-- harness, commands and examples.
pub mod Prelude
pub mod Frames
pub mod Processor
pub mod Pipeline
pub mod Turns
pub mod Vad
pub mod Context
pub mod Audio
pub mod Transport
pub mod Texts
pub mod Bus
