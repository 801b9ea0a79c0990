-- ===== src/Connector/Told.antt =====
-- hub/connector.mjs: what the rows of the journal tell of the requests that performEgress sends,
-- and the account of one refusal and of one answered request.
use mathlib.Core.List.{map-append, append-nil}
use ainumbers_helm.Prelude.{
  ℕ, String, true, false, Option, none, some, List, [], ◌∷◌, ◌++◌, map, keep, All, ◌≡◌, ◌⊎◌, refl,
  sym, inl, inr,
}
use ainumbers_helm.Json.{Json, str, obj, get_field, spread}
use ainumbers_helm.Journal.{Row, Journal, done, append_entry, insert_row, full_entry, assert_art12}
use ainumbers_helm.Journal.Append.{IsSound, rows-insert_row, insert_row-IsSound, new_row}
use ainumbers_helm.Connector.Addresses.{vetted, is_denied_ip, resolve_vetted_ip}
use ainumbers_helm.Connector.Egress.{
  assert_egress_allowed, decision_name, allowed, blocked, Egress, egress_request, Sent, State,
  Location, Ending, not_in_allowlist, not_vetted, Round, ended, follow, Call, World, record_egress,
  journaled, egress_of, block,
}

-- The host and the decision that a row of the journal tells.
abbrev pub told : Json → Option Json × Option Json
told (obj fs) = (get_field fs "destination_host", get_field fs "decision")
told _ = (none, none)

abbrev pub told_by : Journal → List (Option Json × Option Json)
told_by j = map (λ r. told r.entry_json) j.rows

abbrev pub tells : String → String → Option Json × Option Json
tells host decision = (some (str host), some (str decision))

abbrev pub whole_only : List Sent → List Sent
whole_only ss = keep (λ x. x.whole) ss

abbrev pub Round-cases :
    (r : Round) → ((e : Ending) × (r ≡ ended e)) ⊎ ((u : String) × (r ≡ follow u))
Round-cases (ended e) = inl (e, refl)
Round-cases (follow u) = inr (u, refl)

-- What the requests that were answered to the end put into the journal.
abbrev pub told_of : List Sent → List (Option Json × Option Json)
told_of ss = map (λ x. tells x.host "allowed") (whole_only ss)

-- What an ending puts into the journal: a refusal is told.
abbrev pub told_at_end : Round → String → List (Option Json × Option Json)
told_at_end (ended not_in_allowlist) host = tells host "blocked" ∷ []
told_at_end (ended (not_vetted why)) host = tells host "blocked" ∷ []
told_at_end _ host = []

module _ (sha256_hex : List ℕ → String) where
  record_egress_lem :
      (now : String) (e : Egress) (j : Journal)
      → record_egress sha256_hex now e j ≡ done (insert_row sha256_hex now (egress_request now e) j)
  unfolding record_egress append_entry assert_art12 egress_request get_field
  record_egress_lem now e j = refl

  told-full_entry :
      (now : String) (e : Egress)
      → told (full_entry (egress_request now e))
        ≡ tells e.destination_host (decision_name e.decision)
  unfolding full_entry egress_request get_field spread
  told-full_entry now e = refl

  told-insert_row :
      (now : String) (e : Egress) (j : Journal)
      → IsSound sha256_hex j
      → told_by (insert_row sha256_hex now (egress_request now e) j).0
        ≡ told_by j ++ tells e.destination_host (decision_name e.decision) ∷ []
  told-insert_row now e j h =
      rw
        (
          rows-insert_row sha256_hex now (egress_request now e) j h,
          map-append (λ (r : Row). told r.entry_json) j.rows
              (new_row sha256_hex now (egress_request now e) j ∷ []),
          told-full_entry now e,
        )
        refl

  module _ (body_digest : String → String) (w : World) (c : Call) where
    -- The address is the one that resolveVettedIp gave, at some hop, for the hostname of a location
    -- of this host.
    abbrev pub IsVetted : String → String → Type 0
    IsVetted host ip =
        (hop : ℕ) × (url : String) × (l : Location) × (w.new_url url ≡ some l)
        × (l.host ≡ host)
        × (resolve_vetted_ip w.is_ip (w.resolve_host_ips hop l.hostname) l.hostname ≡ vetted ip)

    -- The contract names the host and the method, and the address is known, vetted and not denied.
    abbrev pub IsGuarded : Sent → Type 0
    IsGuarded x =
        (assert_egress_allowed c.contract x.host x.method ≡ true)
        × ((ip : String) × (x.address ≡ some ip)
            × (is_denied_ip w.is_ip ip ≡ false)
            × IsVetted x.host ip)

    -- What happens between two states, at the end `r` of a round or of the call.
    pub record Accounts (r : Round) (s s' : State) : Type 0 where
      pub sent : List Sent
      pub grown : s'.sent ≡ s.sent ++ sent
      pub guarded : All IsGuarded sent
      pub host : String
      pub told_rows : told_by s'.journal ≡ told_by s.journal ++ (told_of sent ++ told_at_end r host)
      pub sound : IsSound sha256_hex s'.journal

    abbrev pub AccountsFor : State → Round × State → Type 0
    AccountsFor s o = Accounts o.0 s o.1

    journaled_lem :
        (now : String) (e : Egress) (r : Round) (s : State)
        → journaled sha256_hex (record_egress sha256_hex now e s.journal) r s ≡ (
          r,
          record s { journal = (insert_row sha256_hex now (egress_request now e) s.journal).0 },
        )
    unfolding journaled
    journaled_lem now e r s = rw (record_egress_lem now e s.journal) refl

    pub block-Accounts :
        (hop : ℕ) (url host : String) (why : Ending) (s : State)
        → told_at_end (ended why) host ≡ tells host "blocked" ∷ []
        → IsSound sha256_hex s.journal
        → AccountsFor s (block sha256_hex body_digest w c hop url host why s)
    unfolding block egress_of
    block-Accounts hop url host why s t h =
        let e : Egress = egress_of sha256_hex body_digest w c url host blocked none in
        rw (journaled_lem (w.now hop) e (ended why) s) (record {
          sent = [];
          grown = sym (append-nil s.sent);
          guarded = tt;
          host = host;
          told_rows = rw (told-insert_row (w.now hop) e s.journal h, t) refl;
          sound =
              insert_row-IsSound sha256_hex (w.now hop) (egress_request (w.now hop) e) s.journal h;
        })

    -- A request that was answered to the end is told, whatever comes next.
    pub allowed-Accounts :
        (hop : ℕ) (url host : String) (digest : Option String) (next : Round) (s : State) (x : Sent)
        → IsSound sha256_hex s.journal
        → IsGuarded x
        → x.whole ≡ true × x.host ≡ host
        → told_at_end next host ≡ []
        → AccountsFor s (
            journaled sha256_hex
              (record_egress sha256_hex
                (w.now hop)
                (egress_of sha256_hex body_digest w c url host allowed digest)
                s.journal)
              next
              (record s { sent = s.sent ++ x ∷ [] }))
    unfolding egress_of
    allowed-Accounts hop url host digest next s x h g q t =
        let e : Egress = egress_of sha256_hex body_digest w c url host allowed digest in
        rw (journaled_lem (w.now hop) e next (record s { sent = s.sent ++ x ∷ [] })) (record {
          sent = x ∷ [];
          grown = refl;
          guarded = (g, tt);
          host = host;
          told_rows = rw (told-insert_row (w.now hop) e s.journal h, t, q.0, q.1) refl;
          sound =
              insert_row-IsSound sha256_hex (w.now hop) (egress_request (w.now hop) e) s.journal h;
        })
