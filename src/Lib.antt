-- ===== src/Lib.antt =====
-- Malipo sells access to an HTTP resource for an M-Pesa payment. A payment attempt is a session, which
-- a state machine takes from CREATED over STK_PUSHED to CONFIRMED and CONSUMED, or to a failed end. This
-- library models the program's packages and what they do to the store of the sessions.
--
-- The parts, and the code that each stands for:
--   Base      integers, lists, maps and Boolean tests over the native numbers
--   Store     store/state.go, store/session.go, store/adapter.go: states, errors, records, and the
--             interface StorageAdapter as a record of operations (Store/Adapter) with its laws
--             (IsAdapter), those that an adapter keeps when its calls may fail (IsSafeAdapter in
--             Store/Safety), and those about the expiry of a session (IsResolving in Store/Expiry)
--   Memory    store/memory/memory.go: MemoryAdapter. Memory/Defs has the methods: Create, Get,
--             GetByCheckoutID, Transition, ConsumeIfConfirmed, ExpireStale, ListPending. Memory/Written
--             is about what a transition writes, Memory/Guards about their branches, Memory/Sweep about
--             the two scans, Memory/Invariant, Memory/Index and Memory/Contract about the laws, Memory/Cleanup about a tick of the cleanup goroutine,
--             Memory/Reordered and Memory/Order about the order of Go's maps. Memory/Pointers has the
--             methods again, through the pointers of the code: its PointerMemory has the address of a
--             record in each map slot, and the heap (Memory/Heap) of the records and of what their
--             pointer fields point at.
--             Pointers/Values, Spend, Scans and Methods are about each method, Pointers/Callers is what
--             callers do with the addresses they have, Pointers/Owners, Sweeps and Runs are about those
--             runs, Pointers/Sharing about what a copy shares
--   Sqlite    store/sqlite/sqlite.go with its schema and queries: the same methods as steps on a table
--             (Sqlite/Defs, Sqlite/Listing), opening and closing (Sqlite/Open), the timestamps
--             (Sqlite/Clock), the failures of the driver (Sqlite/Driver), the guards and the rows, the
--             invariant of the table (Sqlite/Invariant, Sqlite/Keeps), the laws (Sqlite/Reads,
--             Sqlite/Writes, Sqlite/Index, Sqlite/Contract), one lost reading (Sqlite/Failures), the two
--             statements of a consumption (Sqlite/Between), a tick of the cleanup goroutine
--             (Sqlite/Cleanup), the adapter over a driver that may fail in any call (Sqlite/Flaky), and a
--             payment whose push cannot be recorded (Sqlite/Unrecorded)
--   Session   session/state.go (Machine), session/phone.go (Phone), session/token.go (Token),
--             session/manager.go and session/ttl.go (Manager): the manager over any adapter.
--             Manager/Initiate and Manager/Requests are about InitiatePayment, Manager/Resolve about
--             HandleCallback, expireAfter and runRecovery, Manager/Recovery about a whole recovery
--             pass. Trace is the program as interleavings of atomic calls: Trace/Methods takes the
--             methods apart into such calls, Trace/Abstract is the machine on states
--             that the calls stand for, Trace/Safe makes a safe adapter of one that keeps all laws,
--             Trace/Expiry is about the ticks of the cleanup goroutine
--   X402      x402/scheme.go, x402/response.go, x402/x402.go: the gate before a handler
--   Callback  callback/callback.go: the handler of Safaricom's callbacks
--   Auth      auth/manager.go, auth/daraja.go: the cache of the access token (GetAccessToken), the
--             password (Auth), many callers of GetAccessToken at once (Auth/Stampede), and the three
--             Daraja calls fetchToken, SendSTKPush and QuerySTKStatus, with the TokenProvider that they
--             make (Auth/Daraja)
--   Wiring    malipo.go: New, CallbackHandler, Gate and Shutdown (Wiring), and the running program as a
--             sequence of gate requests, callbacks, timers and ticks (Wiring/Service): Service/Once and
--             Service/Reports are about when a session ID is served, Service/Payment is about a payment
--             in which all goes well, Service/Recovered about one whose callback is lost,
--             Service/Resolved about the end of any payment. Wiring/Shutdown is about the
--             goroutines of session/manager.go and session/ttl.go when Shutdown closes the database,
--             Wiring/Ending about their end
--   Tests     the theorems at concrete inputs
--
-- How they interact: the gate calls the manager's GetStatus, ConsumeIfConfirmed and InitiatePayment, the
-- callback handler its HandleCallback; the manager decides by the table of Session/Machine and writes by
-- an adapter. A method takes the store and returns it beside its result. An adapter's method is atomic,
-- by its mutex or by its one statement; ConsumeIfConfirmed of SQLite, which has two, is taken with others
-- in between in Sqlite/Between. Where a method calls the store twice, the argument `between` is
-- what other goroutines did to the store in the meantime, and `rest` what they did between
-- the two passes of a tick. Session/Trace has instead lists of calls in any order.
--
-- Parameters, for code outside the repository or at its edge: the clock and the generated ULID;
-- what net/http, encoding/json, encoding/base64 and the zone database answer during a Daraja call
-- (Outside), and what Daraja answers to the manager (TokenProvider); json.Marshal and the decoding
-- of a body; the operations on float64 (FloatOps); the formatting, parsing and comparison of
-- timestamps (TimeText, whose laws are those of RFC 3339 in whole seconds, which hold in the years
-- 0 to 9999 and in zones whose offset is a number of minutes: what is proved of SQLite is about the
-- program as long as its instants lie there); when and how the database driver fails (`io` of one
-- call, Driver for a whole run), where a failure that is reported for a statement may have left its
-- effect or not, its message is not taken for that of the primary key, and two queries of `Get` or
-- of `GetByCheckoutID` for one key fail alike unless a writing call of some goroutine comes between
-- them, which may be one that the driver refuses; the wrapped handler, of which only the fact that
-- it ran is kept.
--
-- Bounds: amounts and instants are unbounded integers, since the code compares and copies them and
-- adds only a duration. The product that gives the lifetime of a token wraps at 64 bits. Every loop
-- is structural recursion on a list, so no fuel is used. A text is a list of bytes where the code
-- reads its bytes, and a string where it only compares it. Go's order of iteration over a map, which
-- is unspecified, is here the order of entry; Memory/Order takes any two orders of a map. An allocation
-- takes the first address that is not in use.
--
-- Not modelled: logging; a context that is cancelled, but as a failure of the driver; the requests that
-- an HTTP server has under way when Shutdown is called; two goroutines at once at the source of the ULIDs,
-- which is a library's. A TokenProvider made of the auth.Manager answers by the cache as it stands when
-- the method is called.
pub mod Base
pub mod Store
pub mod Memory
pub mod Sqlite
pub mod Session
pub mod X402
pub mod Callback
pub mod Auth
pub mod Wiring
pub mod Tests
