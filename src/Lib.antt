-- ===== src/Lib.antt =====
-- Verification of the Kaspa application for Ledger devices (the C code under src/).
--
-- The application takes commands over APDU one at a time. app_main.c reads a command and gives it to
-- apdu/dispatcher.c, which checks its class and parameters and calls one of the functions of handler/.
-- They keep all state in one global context (types.h), parse the parts of a transaction
-- (transaction/), ask the user through ui/, and sign (crypto.c) the hash of a transaction (sighash.c)
-- or of a message (personal_message.c). helper/ makes the responses, address.c and import/cashaddr.c
-- the addresses.
--
-- Which file models what:
--   Prelude             the names, Boolean tests, lists and bytes that all modules share
--   Sdk                 what is not the application's own: buffer.h, write.h, cx.h and the other SDK
--                       functions, and BLAKE2b (src/import/blake2b.c, a copy of the reference code).
--                       They are records of functions; `Platform` puts them together with the
--                       constants of the Makefile. The documented behaviour that theorems need is in
--                       BufferLaws, PathLaws, WriteLaws and Blake2bLaws, each with an implementation
--   Transaction         src/transaction: Types (types.h), Deserialize, Serialize, Utils, Validate, one
--                       definition for each C function
--   Address, Cashaddr   src/address.c and src/import/cashaddr.c, with the vectors of the unit tests
--   Hashing, Sighash    src/sighash.c; Sighash.Preimage is the message that the protocol lays out
--   PersonalMessage     src/personal_message.c
--   Context             src/types.h: `GlobalCtx` is `global_ctx_t`, its union as fields side by side
--   Crypto              src/crypto.c
--   Response, Format    src/helper, src/sw.h and src/common/format_local.c
--   Display             src/ui/bagl_display.c: what a review shows and when it is refused; Flow has the
--                       steps on its screens, Nbgl the functions of src/ui/nbgl_display_*.c, Menu the
--                       menus of src/ui/menu_*.c; Shown is about the address on the screen
--   Actions             src/ui/action/validate.c, and `sign_input_and_send` of src/handler/sign_tx.c
--   Handlers            src/handler: SignTx, SignMsg, PublicKey; the others prove properties of them
--   Dispatcher          src/apdu/dispatcher.c
--   Session             src/app_main.c: commands, the user's decisions and the responses in order
--                       Chunks to Whole follow a host that sends a whole transaction, Message one that
--                       sends a message. Follows to Covers, and Shown, are about any host: what an approval
--                       is for, and what the signatures are of, with Sealed for messages and
--                       Recipient and Fee for the texts; Responses has the sizes. Late
--                       is about an output that comes after the consent
--   Debug               src/handler/debug.c and the dispatcher of a build with HAVE_DEBUG_APDU
--   Tests               runs at concrete data
--
-- How code becomes definitions: a function that changes the context takes it and returns it; what it
-- sends and the review it begins are in a `Reply`. A C function with an error code returns the code or
-- an Option beside what it leaves in memory, on the error paths too. Arrays are lists of their full
-- length, numbers are natural numbers with the reduction modulo 2 ^ w written where the C type
-- wraps. Two overruns into fields behind an array are modelled: that of the message of SIGN_MESSAGE, and
-- that of the path of GET_PUBLIC_KEY into its length. Other reads and writes out of bounds, which C
-- leaves undefined, change nothing or give a zero here, and the findings name them: the input at a
-- signing index past the array, the sums over a count past it, a hash of 40 bytes or more, and the
-- zero behind a full text. The theorems on signatures, validation, addresses and texts have the bounds
-- that keep them out. Loops are recursion on their count or list;
-- only the inner loop of `convert_bits` takes fuel, as many rounds as there are bits.
-- The input limit and the message limit are fields of `Platform`, since they depend on the device.
--
-- Not modelled: the drawing of screens, which is the SDK's, sending and receiving APDUs and its
-- failures, the wiping of keys from the stack, BLAKE2b itself (a copy of another project), the
-- constants of src/offsets.h, which nothing uses, the C unit tests, the fuzzing and the client code.
pub mod Prelude
pub mod Sdk
pub mod Transaction
pub mod Address
pub mod Cashaddr
pub mod Hashing
pub mod Sighash
pub mod Context
pub mod PersonalMessage
pub mod Crypto
pub mod Debug
pub mod Response
pub mod Format
pub mod Display
pub mod Actions
pub mod Handlers
pub mod Dispatcher
pub mod Session
pub mod Tests
