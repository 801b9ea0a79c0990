-- ===== src/Token/Tests.antt =====
-- Runs of the model of hub/token.mjs.
use ainumbers_helm.Prelude.{◌+◌, ◌≤◌, ◌≡◌, refl, true, List, [], ◌∷◌, leb}
use ainumbers_helm.Prelude.Dict.{get, set, delete}
use ainumbers_helm.Token.{
  Stores, Call, boot, step, create_pairing, redeem_pairing, create_export, redeem_pairing_nonce,
  is_pairing_window_open,
}
use ainumbers_helm.Token.SingleUse.{
  pairing, issued, granted, run, create, redeem, ttl_ms, single_use, redeem_in_time,
  window_open_while_redeemable,
}

-- A link that is opened twice.
abbrev calls : List Call
calls =
    create_pairing "n" 1000
    ∷ redeem_pairing "n" 2000
    ∷ redeem_pairing "n" 2001
    ∷ create_export "n" 3000
    ∷ []

single_use_example : granted pairing "n" calls boot ≤ issued pairing "n" calls
single_use_example = single_use pairing "n" calls

granted_run : granted pairing "n" calls boot ≡ 1
unfolding step boot get set delete
granted_run = refl

redeem_in_time_example :
    (step
      (redeem pairing "n" 301001)
      (run (create_export "m" 3000 ∷ []) (step (create pairing "n" 1000) boot).0)).1
    ≡ leb 301001 (1000 + ttl_ms pairing)
redeem_in_time_example =
    redeem_in_time pairing "n" 1000 301001 (create_export "m" 3000 ∷ []) boot ((refl, refl), tt)

abbrev one_link : Stores
one_link = record {
  pairing_nonces = ("n", 301000) ∷ [];
  stream_tickets = [];
  export_tickets = [];
  signer_config_tickets = [];
}

one_link-redeemed : (redeem_pairing_nonce "n" 301000 one_link).1 ≡ true
unfolding redeem_pairing_nonce get
one_link-redeemed = refl

window_open_while_redeemable_example : is_pairing_window_open 301000 one_link ≡ true
window_open_while_redeemable_example =
    window_open_while_redeemable one_link "n" 301000 one_link-redeemed
