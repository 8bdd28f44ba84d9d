-- ===== src/Session.antt =====
-- app_main.c: the loop that takes a command and answers it. An exchange is a command, or none where
-- the SDK's parser refuses the bytes, with what the user decides if it begins a review, and the
-- random number of a signature. The next command is read when this one has its answer.
pub mod Answers
pub mod Approval
pub mod Sizes
pub mod Bounds
pub mod Chunks
pub mod Runs
pub mod Honest
pub mod Reviewed
pub mod Phases
pub mod Edges
pub mod Keys
pub mod Signatures
pub mod Parsed
pub mod Whole
pub mod Message
pub mod Follows
pub mod Loyal
pub mod Consent
pub mod Silence
pub mod Content
pub mod Fee
pub mod Recipient
pub mod Agreed
pub mod Sealed
pub mod Scripted
pub mod Covers
pub mod Shown
pub mod Responses
pub mod Late
use app_kaspa.Prelude.{ℕ, Bool, Option, none, some, List, [], ◌∷◌, ◌++◌}
use app_kaspa.Sdk.Platform.{Platform}
use app_kaspa.Context.{GlobalCtx, zero_context}
use app_kaspa.Response.{Response, sw_wrong_data_length}
use app_kaspa.Display.{Review, Reply, reply_sw}
use app_kaspa.Actions.{decide}
use app_kaspa.Dispatcher.{Command, apdu_dispatcher}

pub record Exchange : Type 0 where
  pub command : Option Command
  pub choice : Bool
  pub random : ℕ

module _ (p : Platform) where
  unfoldable pub answer : ℕ → Option Command → GlobalCtx → Reply
  answer random none g = reply_sw g sw_wrong_data_length
  answer random (some cmd) g = apdu_dispatcher p random cmd g

  -- The user's decision ends a review.
  unfoldable pub conclude : ℕ → Bool → Option Review → Reply → Reply
  conclude random choice none r = r
  conclude random choice (some review) r =
      let r' = decide p random choice review r.context in
      record { context = r'.context; sent = r.sent ++ r'.sent; review = none }

  unfoldable pub exchange : Exchange → GlobalCtx → Reply
  unfolding answer conclude
  exchange e g = let r = answer e.random e.command g in conclude e.random e.choice r.review r

  unfoldable pub app_main : List Exchange → GlobalCtx → GlobalCtx × List Response
  unfolding exchange
  app_main [] g = (g, [])
  app_main (e ∷ es) g =
      let r = exchange e g in let (g', rest) = app_main es r.context in (g', r.sent ++ rest)

  abbrev pub start_context : GlobalCtx
  start_context = zero_context p.max_input_count
