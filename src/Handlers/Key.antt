-- ===== src/Handlers/Key.antt =====
-- The keys that GET_PUBLIC_KEY gives away.
use app_kaspa.Prelude.{◌≤◌, ◌≡◌, ◌⊎◌, Bool, none, [], arith, get_or, take, slice, All}
use app_kaspa.Sdk.Buffer.{Buffer}
use app_kaspa.Sdk.Platform.{Platform}
use app_kaspa.Context.{GlobalCtx}
use app_kaspa.Response.{Response}
use app_kaspa.Display.{Reply, ui_display_address}
use app_kaspa.Handlers.PublicKey.{handler_get_public_key}

module _ (p : Platform) where
  -- The key of a context is that of its path, which has two to five levels and begins with the
  -- purpose 44' and the coin type 111111'.
  abbrev pub OwnKey : GlobalCtx → Type 0
  OwnKey g =
      let (error, raw_pubkey, chain_code) =
        p.crypto.bip32_derive_get_pubkey_256 (take g.bip32_path_len g.bip32_path) in
      (2 ≤ g.bip32_path_len)
      × (g.bip32_path_len ≤ 5)
      × (get_or g.bip32_path 0 0 ≡ 0x8000002c)
      × (get_or g.bip32_path 1 0 ≡ 0x8001b207)
      × (error ≡ 0)
      × (g.pk_info.raw_public_key ≡ slice raw_pubkey 1 64)
      × (g.pk_info.chain_code ≡ chain_code)

  -- A reply without data and without a review.
  abbrev pub Refuses : Reply → Type 0
  Refuses r = (r.review ≡ none) × All (λ (s : Response). s.bytes ≡ []) r.sent

  pub ui_display_address-keeps :
      (g : GlobalCtx)
      → let g' = (ui_display_address p g).context in
        (g'.bip32_path ≡ g.bip32_path)
        × (g'.bip32_path_len ≡ g.bip32_path_len)
        × (g'.pk_info ≡ g.pk_info)
  unfolding ui_display_address
  ui_display_address-keeps g = ground arith

  -- GET_PUBLIC_KEY answers with a status word only, or the context has the key that the device derives
  -- for a path of the application.
  pub handler_get_public_key-OwnKey :
      (cdata : Buffer) (display : Bool) (g : GlobalCtx)
      → let r = handler_get_public_key p cdata display g in Refuses r ⊎ OwnKey r.context
  unfolding handler_get_public_key
  handler_get_public_key-OwnKey cdata display g = grind (arith, ui_display_address-keeps)
