-- ===== src/Lib.antt =====
-- A model of the state that this QQ group bot's processes share, of the conversations that its messages
-- join, of what guards and routes the calls of its language models, and of how their answers become
-- messages, with the theorems that make them correct.
--
-- The program. Ingress writes each group message into one SQLite file. Workers poll it, each as a
-- consumer with a watermark, choose a key for each message and handle the messages of a key one
-- after another; a handler routes the message to a conversation, calls a language model with the
-- history there, within a semaphore, behind a circuit breaker and with other models to fall back on,
-- puts the answer behind the message's turn, and enqueues its reply in the outbox. The sender claims
-- outbox rows, delivers them to QQ and acknowledges the platform's message id, which
-- binds the message to its conversation and may plan a recall. Each table's operations are
-- functions of the table here, a transaction over several tables is a function of all of them, and
-- interleavings are lists of calls or events in any order.
--
-- Store: src/shared/sqlite.ts.
--   Store/Messages.antt: `messages` (insertMessage, markMessageDropped, countMessagesSince).
--   Store/Consumers.antt: `consumers` and `consumer_completed_messages` (pollMessages,
--     completeConsumerMessage, advanceWatermark, resetWatermarkIfStale, isConsumerMessageCompleted).
--   Store/Outbox.antt: `outbox` (enqueueOutbox, claimOutbox, recoverStaleSendingOutbox,
--     markOutboxSent, markOutboxFailed, discardPreparingOutbox and discardPreparingOutboxForSource).
--   Store/Recalls.antt: `message_recalls`, with Store/Recalls/Insertion.antt for insertMessageRecall.
--   Store/Delivery.antt: the transactions ackOutboxDelivery and attachOutboxContexts over the outbox,
--     the recalls, `bot_messages`, `conversation_message_context` and `conversation_turns`.
--   Store/Registry.antt: the registries of retracted messages and of tasks in flight, with
--     decideNewMessage of src/services/inflight-manager.ts.
--   Store/Numbers.antt: the range checks of durations and timestamps, and the delivery ids.
-- Runner: ConsumerRunner of src/shared/consumer-runner.ts. A promise that settles is an event; what
--   keyOf and the handler answer is part of the event.
-- Limits: LlmSemaphore of src/services/llm-semaphore.ts, GroupLock of src/services/group-lock.ts and
--   the breaker of GatewayProxy in src/services/gateway-proxy.ts, with timers, aborts and results as
--   events.
-- Participation: ParticipationPolicy of src/services/participation-policy.ts, with its scores in
--   hundredths.
-- Reply: how an answer becomes messages.
--   Reply/Options.antt: getReplyBehaviorOptions of src/persona/common-chat-behavior.ts and
--     applyReplyFormatBudget of src/utils/reply-format.ts.
--   Reply/Pieces.antt, Reply/Cleanup.antt, Reply/Format.antt: the rest of src/utils/reply-format.ts,
--     each regular expression as a function on units.
--   Reply/Lengths.antt, Reply/Numerals.antt, Reply/Plans.antt: src/utils/reply-length.ts, the requests
--     for a length, the numbers in them, and the plans that follow.
-- Conversation: src/services/conversation-context-repository.ts, which keeps the turns of each
--   conversation as a forest, a turn with its parent.
--   Conversation/Tables.antt: the tables and their lookups.
--   Conversation/Places.antt, Conversation/Saving.antt: saveMessageRoute,
--     saveExplicitReplyRoute and setActiveRoute.
--   Conversation/History.antt: getCausalTurns, getCausalTurnsBeforeTurn, trimTurns and
--     hasAssistantReplyForTurn.
--   Conversation/Words.antt, Conversation/Policy.antt, Conversation/Router.antt: the router of
--     src/services/conversation-context-router.ts in front of it.
--   Conversation/Answers.antt: appendAssistantTurn and insertMessageBinding.
-- Maintenance: MaintenanceScheduler of src/services/maintenance-scheduler.ts, with the end or failure of
--   the awaited job as an event.
-- LiveChat: LiveChatService of src/services/live-chat-service.ts; a Map is a function, with the empty
--   list where it has no entry.
-- ModelRouter: the candidates and the fallback loop of src/services/reply-model-router.ts; what becomes
--   of an attempt with a model is a parameter.
-- Base: lists over the native numbers, texts, results of code that may throw, SQL's UPDATE, and
--   tables in the order of a key.
--
-- How state and operations correspond. A table is the list of its rows in the order of their ids,
-- with the last id given out; SQLite may skip an id after a refused insert, and the model skips
-- none. A text is the list of its UTF-16 code units; lower-casing is that of ASCII, which is all that
-- the roles need. Times and ids are naturals, so where the source subtracts a duration from the clock
-- the model adds it on the other side. `Date.now()` is an argument. A call that throws returns no
-- state: its transaction is rolled back, and its caller keeps the state it had.
--
-- Bounds. An outbox row has three attempts and a recall two, as in the source. The loop of
-- completeConsumerMessage runs on fuel, one round more than there are messages, and the theorem on
-- the stored watermark shows that it ends before the fuel does; the digits of a number n are written
-- on fuel n + 1, which the round trip of delivery ids shows to be enough.
-- The loop of chunkLongSentence runs on fuel, one round more than the text has units, and the theorem
-- on what it keeps shows that this is enough for every positive length of chunks. The skill service
-- lets no length below twenty through; with a length of zero the loop of the source does not end.
-- A history has at most 256 turns, the depth that the recursive query of getCausalTurns stops at; the
-- theorems on histories hold at every depth. The identifiers of new topics and branches, which the
-- source takes from randomUUID, are arguments. The tables of Unicode (NFKC, lower case, letters, Han)
-- and encodeURIComponent are a parameter of the router, and similarities are fractions.
--
-- Not modelled: the migrations and shadow snapshots of sqlite.ts, its read-only transcript queries,
-- clearUser, clearGroup and cutoverShortTermContext of the conversation repository, which delete
-- conversations and cancel their outbox rows, the older JSON store of conversations, reminders, the
-- HTTP servers, the OneBot gateway, the calls of the language model itself, the prompts, the admin
-- console, and the JSON stores. The others are input and output, text for a model, or state that these
-- parts do not depend on. A handler is taken to call `done` before it settles.
pub mod Base
pub mod Store
pub mod Runner
pub mod Limits
pub mod Participation
pub mod Reply
pub mod Conversation
pub mod Maintenance
pub mod LiveChat
pub mod ModelRouter
