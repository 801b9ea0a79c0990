-- ===== src/Connector/Ends.antt =====
-- The loop of performEgress in hub/connector.mjs ends: the sixth redirect throws.
use ainumbers_helm.Prelude.{
  ℕ, zero, suc, ◌+◌, ◌≤◌, String, Bool, true, false, Option, none, some, List, ◌≡◌, ◌≢◌, refl,
  arith, Bool-cases, inl, inr,
}
use ainumbers_helm.Journal.{Journal, Appended, Outcome, done, thrown}
use ainumbers_helm.Connector.Addresses.{
  Vetting, vetted, denied_literal, lookup_failed, no_address, rebound,
}
use ainumbers_helm.Connector.Egress.{
  assert_egress_allowed, State, Location, Answer, Ending, response, not_in_allowlist, unfinished,
  Round, ended, follow, Call, World, redirect_of, is_redirect, journaled, egress_round, block,
  received, answered, after_fetch, send, vet, at_location, next_url, egress_loop, perform_egress,
}
use ainumbers_helm.Connector.Told.{Round-cases}

abbrev is_unfinished : Ending → Bool
is_unfinished unfinished = true
is_unfinished _ = false

-- A round ends the call, or it follows one of the five redirects that are allowed.
abbrev InBounds : ℕ → Round → Type 0
InBounds hop (ended e) = is_unfinished e ≡ false
InBounds hop (follow u) = suc hop ≤ 5

module _ (sha256_hex : List ℕ → String) where
  journaled-InBounds :
      (hop : ℕ) (o : Outcome (Journal × Appended)) (next : Round) (s : State)
      → InBounds hop next
      → InBounds hop (journaled sha256_hex o next s).0
  unfolding journaled
  journaled-InBounds hop (done (j, a)) next s h = h
  journaled-InBounds hop (thrown e) next s h = refl

  module _ (body_digest : String → String) (w : World) (c : Call) where
    block-InBounds :
        (hop : ℕ) (url host : String) (why : Ending) (s : State)
        → is_unfinished why ≡ false
        → InBounds hop (block sha256_hex body_digest w c hop url host why s).0
    unfolding block
    block-InBounds hop url host why s h = journaled-InBounds hop _ (ended why) s h

    next_url-InBounds :
        (hop : ℕ) (joined : Option String)
        → InBounds hop (next_url sha256_hex body_digest w c hop joined)
    unfolding next_url
    next_url-InBounds hop none = ground arith
    next_url-InBounds hop (some u) = ground arith

    received-InBounds :
        (hop : ℕ) (url host : String) (status : ℕ) (body : Option String) (s : State)
        → InBounds hop (received sha256_hex body_digest w c hop url host status body s).0
    unfolding received
    received-InBounds hop url host status none s = refl
    received-InBounds hop url host status (some body) s =
        journaled-InBounds hop _ (ended (response status body)) s refl

    answered-InBounds :
        (hop : ℕ) (url host : String) (l : Option String) (a : Answer) (s : State)
        → redirect_of (is_redirect a) ≡ l
        → InBounds hop (answered sha256_hex body_digest w c hop url host a s).0
    unfolding answered
    answered-InBounds hop url host none a s e =
        rw (answered, e) (received-InBounds hop url host a.status a.body s)
    answered-InBounds hop url host (some l) a s e =
        rw (answered, e)
          (journaled-InBounds hop _ (next_url sha256_hex body_digest w c hop (w.join_url l url)) s
            (next_url-InBounds hop (w.join_url l url)))

    after_fetch-InBounds :
        (hop : ℕ) (url host : String) (address : Option String) (a : Option Answer) (s : State)
        → InBounds hop (after_fetch sha256_hex body_digest w c hop url host address a s).0
    unfolding after_fetch
    after_fetch-InBounds hop url host address none s = refl
    after_fetch-InBounds hop url host address (some a) s =
        answered-InBounds hop url host (redirect_of (is_redirect a)) a _ refl

    vet-InBounds :
        (hop : ℕ) (url : String) (l : Location) (v : Vetting) (s : State)
        → InBounds hop (vet sha256_hex body_digest w c hop url l v s).0
    unfolding vet send
    vet-InBounds hop url l (vetted ip) s = after_fetch-InBounds hop url l.host _ _ _
    vet-InBounds hop url l denied_literal s = block-InBounds hop url l.host _ s refl
    vet-InBounds hop url l lookup_failed s = block-InBounds hop url l.host _ s refl
    vet-InBounds hop url l no_address s = block-InBounds hop url l.host _ s refl
    vet-InBounds hop url l (rebound ip) s = block-InBounds hop url l.host _ s refl

    at_location-InBounds :
        (hop : ℕ) (url : String) (l : Option Location) (s : State)
        → InBounds hop (at_location sha256_hex body_digest w c hop url l s).0
    unfolding at_location
    at_location-InBounds hop url none s = refl
    at_location-InBounds hop url (some l) s =
        elim (Bool-cases (assert_egress_allowed c.contract l.host c.method)) [
          | inl e ↦ rw (at_location, e) (vet-InBounds hop url l _ s)
          | inr e ↦ rw (at_location, e) (block-InBounds hop url l.host not_in_allowlist s refl)
        ]

    egress_loop-ends :
        (fuel hop : ℕ) (url : String) (s : State)
        → 6 ≤ fuel + hop
        → hop ≤ 5
        → is_unfinished (egress_loop sha256_hex body_digest w c fuel hop url s).0 ≡ false
    unfolding egress_loop egress_round
    egress_loop-ends zero hop url s enough small = absurd (omega arith)
    egress_loop-ends (suc fuel) hop url s enough small =
        let o : Round × State = egress_round sha256_hex body_digest w c hop url s in
        let b : InBounds hop o.0 = at_location-InBounds hop url (w.new_url url) s in
        elim (Round-cases o.0) [
          | inl (e, q) ↦ rw (egress_loop, q) (rw q at b)
          | inr (u, q) ↦
              let low : suc hop ≤ 5 = rw q at b in
              rw (egress_loop, q)
                (egress_loop-ends fuel (suc hop) u o.1 (omega (arith, enough)) low)
        ]

    -- performEgress never runs out of its six rounds, whatever the network answers: its endless
    -- loop ends with a response or with one of the errors of the code.
    pub perform_egress-ends :
        (url : String) (s : State)
        → (perform_egress sha256_hex body_digest w c url s).0 ≢ unfinished
    unfolding perform_egress
    perform_egress-ends url s e =
        let b : is_unfinished (egress_loop sha256_hex body_digest w c 6 0 url s).0 ≡ false =
          egress_loop-ends 6 0 url s (omega arith) (omega arith) in
        cc (rw e at b)
