-- ===== src/Token.antt =====
-- hub/token.mjs: the single-use credentials of the pairing link, the event stream, the evidence
-- export and the signer configuration. Each kind is a Map from a random text to the millisecond at
-- which it expires; the random text is an argument, as is the clock.
pub mod SingleUse
pub mod Tests
use ainumbers_helm.Prelude.{
  ℕ, ◌+◌, ◌*◌, String, Bool, true, false, not, ◌&&◌, Option, none, some, [], ◌∷◌, leb, ◌==◌, str_eq,
  if◌then◌else◌,
}
use ainumbers_helm.Prelude.Dict.{Dict, get, set, delete}

abbrev pub Tickets : Type 0
Tickets = Dict ℕ

abbrev pub pairing_ttl_ms : ℕ
pairing_ttl_ms = 5 * 60 * 1000

abbrev pub stream_ticket_ttl_ms : ℕ
stream_ticket_ttl_ms = 15 * 1000

abbrev pub export_ticket_ttl_ms : ℕ
export_ticket_ttl_ms = 5 * 60 * 1000

abbrev pub signer_config_ticket_ttl_ms : ℕ
signer_config_ticket_ttl_ms = 5 * 60 * 1000

-- The module's four Maps.
pub record Stores : Type 0 where
  pub pairing_nonces : Tickets
  pub stream_tickets : Tickets
  pub export_tickets : Tickets
  pub signer_config_tickets : Tickets

-- The body that the four redeem functions share: the entry goes whether or not it was valid.
-- `!expiresAt` holds of undefined and of 0.
unfoldable pub redeem_at : String → ℕ → Tickets → Tickets × Bool
redeem_at t now d = (
  delete d t,
  elim (get d t) [
    | none ↦ false
    | some expires_at ↦ if expires_at == 0 then false else leb now expires_at
  ],
)

unfoldable pub create_pairing_nonce : String → ℕ → Stores → Stores
create_pairing_nonce nonce now s = record s {
  pairing_nonces = set s.pairing_nonces nonce (now + pairing_ttl_ms);
}

unfoldable pub redeem_pairing_nonce : String → ℕ → Stores → Stores × Bool
unfolding redeem_at
redeem_pairing_nonce nonce now s =
    let (d, valid) = redeem_at nonce now s.pairing_nonces in
    (record s { pairing_nonces = d }, valid)

unfoldable pub is_open_at : ℕ → Tickets → Bool
is_open_at now [] = false
is_open_at now ((t, expires_at) ∷ d) =
    let rest = is_open_at now d in if leb now expires_at then true else rest

unfoldable pub is_pairing_window_open : ℕ → Stores → Bool
unfolding is_open_at
is_pairing_window_open now s = is_open_at now s.pairing_nonces

unfoldable pub create_stream_ticket : String → ℕ → Stores → Stores
create_stream_ticket t now s = record s {
  stream_tickets = set s.stream_tickets t (now + stream_ticket_ttl_ms);
}

unfoldable pub redeem_stream_ticket : String → ℕ → Stores → Stores × Bool
unfolding redeem_at
redeem_stream_ticket t now s =
    let (d, valid) = redeem_at t now s.stream_tickets in (record s { stream_tickets = d }, valid)

unfoldable pub create_export_ticket : String → ℕ → Stores → Stores
create_export_ticket t now s = record s {
  export_tickets = set s.export_tickets t (now + export_ticket_ttl_ms);
}

unfoldable pub redeem_export_ticket : String → ℕ → Stores → Stores × Bool
unfolding redeem_at
redeem_export_ticket t now s =
    let (d, valid) = redeem_at t now s.export_tickets in (record s { export_tickets = d }, valid)

unfoldable pub create_signer_config_ticket : String → ℕ → Stores → Stores
create_signer_config_ticket t now s = record s {
  signer_config_tickets = set s.signer_config_tickets t (now + signer_config_ticket_ttl_ms);
}

unfoldable pub redeem_signer_config_ticket : String → ℕ → Stores → Stores × Bool
unfolding redeem_at
redeem_signer_config_ticket t now s =
    let (d, valid) = redeem_at t now s.signer_config_tickets in
    (record s { signer_config_tickets = d }, valid)

-- one call of the module, with the text and the clock that it meets
pub data Call : Type 0 where
  create_pairing redeem_pairing create_stream redeem_stream : String → ℕ → Call
  create_export redeem_export create_signer redeem_signer : String → ℕ → Call

-- What a call does and what it returns; a create call returns no verdict.
unfoldable pub step : Call → Stores → Stores × Bool
unfolding create_pairing_nonce redeem_pairing_nonce create_stream_ticket redeem_stream_ticket
    create_export_ticket redeem_export_ticket create_signer_config_ticket
    redeem_signer_config_ticket
step (create_pairing t now) s = (create_pairing_nonce t now s, false)
step (redeem_pairing t now) s = redeem_pairing_nonce t now s
step (create_stream t now) s = (create_stream_ticket t now s, false)
step (redeem_stream t now) s = redeem_stream_ticket t now s
step (create_export t now) s = (create_export_ticket t now s, false)
step (redeem_export t now) s = redeem_export_ticket t now s
step (create_signer t now) s = (create_signer_config_ticket t now s, false)
step (redeem_signer t now) s = redeem_signer_config_ticket t now s

unfoldable pub boot : Stores
boot = record {
  pairing_nonces = [];
  stream_tickets = [];
  export_tickets = [];
  signer_config_tickets = [];
}
