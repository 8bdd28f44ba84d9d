-- ===== src/Session/Shown.antt =====
-- The texts that the user saw, and the transaction that is signed.
use app_kaspa.Prelude.{◌≤◌, ◌≡◌, ◌⊎◌, true, some, ℕ, List, [], ◌∷◌, ◌++◌}
use app_kaspa.Sdk.Platform.{Platform}
use app_kaspa.Sdk.Blake2b.{Blake2bLaws}
use app_kaspa.Sdk.Write.{WriteLaws}
use app_kaspa.Context.{state_approved, GlobalCtx}
use app_kaspa.Response.{Response}
use app_kaspa.Display.{review_transaction}
use app_kaspa.Handlers.Review.{Shows}
use app_kaspa.Session.{Exchange, answer, app_main, start_context}
use app_kaspa.Session.Follows.{Incomplete, Follows}
use app_kaspa.Session.Fee.{ShowsFee}
use app_kaspa.Session.Recipient.{ShowsRecipient}
use app_kaspa.Session.Covers.{SignatureOf, Covers}

module _ (p : Platform) where
  module _ (laws : Blake2bLaws p.blake2b) (wl : WriteLaws p.write) where
    -- Among the exchanges there is one in which the user accepted a review with these texts. Unless
    -- the transaction lacked a part then, or the index is past the array, they are the texts of the
    -- transaction of `g`, and the response has the signature of it.
    abbrev pub AsShown : List Exchange → Exchange → List Response → Type 0
    AsShown es e sent =
        (g : GlobalCtx) × (g.state ≡ state_approved)
        × ((before : List Exchange) × (e' : Exchange) × (after : List Exchange) × (amount : List ℕ)
            × (fees : List ℕ) × (address : List ℕ) × (let r =
                  answer p e'.random e'.command (app_main p before (start_context p)).0 in
                (es ++ e ∷ [] ≡ before ++ e' ∷ after)
                × (e'.choice ≡ true)
                × (r.review ≡ some (review_transaction amount fees address))
                × (Incomplete r.context.tx_info
                    ⊎ (p.max_input_count ≤ g.tx_info.signing_input_index)
                    ⊎ (Shows p g amount fees address
                        × ShowsFee p g fees
                        × ShowsRecipient g address
                        × SignatureOf p laws wl e.random g sent))))
