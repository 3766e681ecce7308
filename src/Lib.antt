-- ===== src/Lib.antt =====
-- VectorCore MMSC: a multimedia message service centre. A unit of the MMS protocol comes in as bytes
-- (internal/mmspdu), its recipients are routed (internal/routing), and a notification goes out as a
-- WAP push (internal/wappush) in short messages that are sent over SMPP (internal/smpp).
--
-- Files:
--   Base       what the parts share: Boolean tests, lists over the native numbers, results with an
--              error, bytes and texts, and Go's maps as association lists with their laws.
--   Mmspdu     internal/mmspdu. Types and Values, Integers, Strings and Reader are types.go and
--              fields.go, Header is header.go, ContentType is content_type.go, Multipart is
--              multipart.go, Codec is codec.go and Messages is pdu_*.go. decodeTextString is
--              decode_text_string, and so on.
--   Routing    internal/routing. Address and Peer are peer.go, Engine is engine.go. Resolve is
--              resolve, ResolveRecipients is resolve_recipients, MatchRoute is match_route.
--   Wappush    internal/wappush. Push is push.go, Sms is sms.go.
--   Smpp       internal/smpp. Pdu is pdu.go, Codec is codec.go, Upstream is the configuration of
--              client.go and its comparison in manager.go, Session is session.go, Receipt is
--              receipt.go, Submit is submit.go and Manager is manager.go with the state of client.go.
--   Message    internal/message. The expiry that every message gets is in Message.Expiry.
--   Service    what the parts below call: the repository, the store, the push sender and the reporters.
--   Queue      internal/queue/dispatcher.go. dispatchQueued is dispatch_queued, and so on.
--   Sweep      internal/sweep/sweep.go.
--   Mm1        internal/mm1. Report is origin_report.go, Retrieve is handler_mt.go and
--              Submit is handler_mo.go; Serve is server.go.
-- Modules named RoundTrip, Laws, Ends and the like stand below the module they are about; Runs and
-- ValueRuns, ClientRuns and HandlerRuns hold concrete data.
--
-- A byte, a Go byte string or a slice is a number or a list of numbers; texts are lists of bytes.
-- An encoder that appends to a buffer returns the bytes, a reader that moves its position returns what
-- is left. An error is a constructor of Base.Outcome.Error; the panic of encodeShortInteger is one
-- too. A nil pointer is none. Where the order of a Go map shows, the source sorts the keys, and so
-- does the model. An encoder that changes its argument, as SMPP's does, returns the changed record.
--
-- Loops whose rounds read a byte at least run on fuel, as much as the input is long; a model that
-- ran out would return the error of a panic. A uint64 is written with its wrap-around where the
-- source converts to it.
--
-- Case folding, upper and lower case and white space are those of ASCII: strings.ToUpper,
-- strings.EqualFold and strings.TrimSpace treat other characters too. The clock is
-- an argument where a part reads it; a relative time of a unit is an offset from it. The
-- repository's answers are arguments of routing, anew for each address. A stream is a list of
-- bytes that ends; other errors of a connection are left out.
--
-- A session of SMPP is shared by goroutines and its read loop. Each part that holds the lock is one
-- function (start_connect, set_bound, register, close and so on), which returns the new state and what
-- is done outside the lock; Smpp.Session.Steps interleaves them in any order. The channel that a
-- request waits on is a number, counted up as channels are made.
--
-- A part that handles messages is a function on the list of the calls that were made, the newest first.
-- What a call or a query returns is a parameter, the record World, and may depend on all the calls
-- before it, so that each failure may come at any point. Times are nanoseconds since 1970; an
-- earlier time stands as 1970. What a submission leaves to a goroutine is done as it returns. Log
-- lines are left out.
--
-- Not modelled: the loop of a started SMPP client, the interfaces MM3, MM4 and MM7, the
-- stores, the database, billing and the web interface.
pub mod Base
pub mod Mmspdu
pub mod Smpp
pub mod Routing
pub mod Wappush
pub mod Message
pub mod Service
pub mod Queue
pub mod Sweep
pub mod Mm1
pub mod HandlerRuns
