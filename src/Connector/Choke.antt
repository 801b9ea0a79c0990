-- ===== src/Connector/Choke.antt =====
-- performEgress of hub/connector.mjs as the only way out: what is sent, what is journaled, and
-- that the loop ends.
use mathlib.Core.List.{map-append, append_assoc, append-nil}
use ainumbers_helm.Prelude.{
  ℕ, zero, suc, String, Bool, true, false, Option, none, some, List, [], ◌∷◌, ◌++◌, keep-append,
  All-append, ◌≡◌, refl, sym, arith, Bool-cases, Option-cases, inl, inr, length, str_eq_refl,
}
use ainumbers_helm.Prelude.Dict.{get, get-set}
use ainumbers_helm.Journal.Append.{IsSound}
use ainumbers_helm.Connector.Addresses.{
  Vetting, vetted, denied_literal, lookup_failed, no_address, rebound, is_denied_ip,
  resolve_vetted_ip,
}
use ainumbers_helm.Connector.Denied.{vetted-Allowed}
use ainumbers_helm.Connector.Pins.{
  Pinning, pin_host_resolution, unpin, pinned_dns_lookup, repin, lower_host, pin_key,
}
use ainumbers_helm.Connector.Egress.{
  assert_egress_allowed, Sent, State, Location, Answer, response, not_in_allowlist, Round, ended,
  follow, Call, World, redirect_of, is_redirect, sent_state, is_given, is_whole, body_failed,
  fetch_failed, Ending, egress_round, received, answered, after_fetch, send, vet, at_location,
  next_url, egress_loop, perform_egress,
}
use ainumbers_helm.Connector.Told.{
  told_by, tells, whole_only, told_of, told_at_end, Round-cases, IsGuarded, IsVetted, Accounts,
  block-Accounts, allowed-Accounts,
}

module _ (sha256_hex : List ℕ → String) where
  module _ (body_digest : String → String) (w : World) (c : Call) where
    abbrev AccountsOf : State → Round × State → Type 0
    AccountsOf s o = Accounts sha256_hex body_digest w c o.0 s o.1

    next_url-untold :
        (hop : ℕ) (joined : Option String) (host : String)
        → told_at_end (next_url sha256_hex body_digest w c hop joined) host ≡ []
    unfolding next_url
    next_url-untold hop none host = ground arith
    next_url-untold hop (some u) host = ground arith

    -- A request without its whole answer leaves no row.
    untold-Accounts :
        (s : State) (x : Sent) (e : Ending) (host : String)
        → IsSound sha256_hex s.journal
        → IsGuarded sha256_hex body_digest w c x
        → x.whole ≡ false
        → told_at_end (ended e) host ≡ []
        → AccountsOf s (ended e, record s { sent = s.sent ++ x ∷ [] })
    untold-Accounts s x e host h g q t = record {
      sent = x ∷ [];
      grown = refl;
      guarded = (g, tt);
      host = host;
      told_rows = rw (q, t) (sym (append-nil (told_by s.journal)));
      sound = h;
    }

    received-Accounts :
        (hop : ℕ) (url host : String) (status : ℕ) (body : Option String) (s : State) (x : Sent)
        → IsSound sha256_hex s.journal
        → IsGuarded sha256_hex body_digest w c x
        → x.whole ≡ is_given body × x.host ≡ host
        → AccountsOf s (
            received sha256_hex body_digest w c hop url host status body
              (record s { sent = s.sent ++ x ∷ [] }))
    unfolding received
    received-Accounts hop url host status none s x h g q =
        untold-Accounts s x body_failed host h g q.0 refl
    received-Accounts hop url host status (some body) s x h g q =
        allowed-Accounts sha256_hex body_digest w c hop url host (some (body_digest body))
          (ended (response status body)) s x h g q refl

    answered-Accounts :
        (hop : ℕ) (url host : String) (a : Answer) (s : State) (x : Sent)
        → IsSound sha256_hex s.journal
        → IsGuarded sha256_hex body_digest w c x
        → x.whole ≡ is_whole a × x.host ≡ host
        → AccountsOf s (
            answered sha256_hex body_digest w c hop url host a
              (record s { sent = s.sent ++ x ∷ [] }))
    unfolding answered is_whole
    answered-Accounts hop url host a s x h g q = elim (Option-cases (redirect_of (is_redirect a))) [
      | inl e ↦
          rw (answered, e)
            (received-Accounts hop url host a.status a.body s x h g (rw (is_whole, e) at q.0, q.1))
      | inr (l, e) ↦
          rw (answered, e)
            (allowed-Accounts sha256_hex body_digest w c hop url host none
              (next_url sha256_hex body_digest w c hop (w.join_url l url)) s x h g
              (rw (is_whole, e) at q.0, q.1) (next_url-untold hop (w.join_url l url) host))
    ]

    rebase :
        (p : Pinning) (s : State) (o : Round × State)
        → AccountsOf (record s { pinning = p }) o
        → AccountsOf s o
    rebase p s o a = record {
      sent = a.sent;
      grown = a.grown;
      guarded = a.guarded;
      host = a.host;
      told_rows = a.told_rows;
      sound = a.sound;
    }

    after_fetch-Accounts :
        (hop : ℕ) (url host : String) (address : Option String) (a : Option Answer) (s : State)
        → IsSound sha256_hex s.journal
        → ((ok : Bool)
            → IsGuarded sha256_hex body_digest w c
                (record { host = host; method = c.method; address = address; whole = ok }))
        → AccountsOf s (after_fetch sha256_hex body_digest w c hop url host address a s)
    unfolding after_fetch sent_state
    after_fetch-Accounts hop url host address none s h g =
        untold-Accounts s
          (record { host = host; method = c.method; address = address; whole = false }) fetch_failed
          host h (g false) refl refl
    after_fetch-Accounts hop url host address (some a) s h g =
        answered-Accounts hop url host a s
          (record { host = host; method = c.method; address = address; whole = is_whole a }) h
          (g (is_whole a)) (refl, refl)

    -- The lookup that fetch makes gives the address that was vetted, whatever was pinned before.
    pinned_dns_lookup-pin :
        (hostname ip : String) (p : Pinning)
        → pinned_dns_lookup (pin_host_resolution hostname ip p) hostname ≡ some ip
    unfolding pinned_dns_lookup pin_host_resolution pin_key
    pinned_dns_lookup-pin hostname ip p =
        let key : String = lower_host hostname in
        rw (pinned_dns_lookup, get-set p.pins key (repin (get p.pins key) ip) key, str_eq_refl key)
          (elim (Option-cases (get p.pins key)) [
            | inl e ↦ rw (repin, e)
            | inr (x, e) ↦ rw (repin, e)
          ])

    send-Accounts :
        (hop : ℕ) (url : String) (l : Location) (ip : String) (s : State)
        → IsSound sha256_hex s.journal
        → assert_egress_allowed c.contract l.host c.method ≡ true
        → is_denied_ip w.is_ip ip ≡ false
        → IsVetted sha256_hex body_digest w c l.host ip
        → AccountsOf s (send sha256_hex body_digest w c hop url l ip s)
    unfolding send
    send-Accounts hop url l ip s h m d v =
        let pinned : Pinning = pin_host_resolution l.hostname ip s.pinning in
        let p : Pinning = unpin (length s.pinning.handles) pinned in
        let address : Option String = pinned_dns_lookup pinned l.hostname in
        rebase p s _ (
          after_fetch-Accounts hop url l.host address (w.fetch hop url address)
            (record s { pinning = p }) h
            (λ ok. (m, (ip, pinned_dns_lookup-pin l.hostname ip s.pinning, d, v))))

    vet-Accounts :
        (hop : ℕ) (url : String) (l : Location) (v : Vetting) (s : State)
        → IsSound sha256_hex s.journal
        → assert_egress_allowed c.contract l.host c.method ≡ true
        → ((ip : String)
            → v ≡ vetted ip
            → (is_denied_ip w.is_ip ip ≡ false) × IsVetted sha256_hex body_digest w c l.host ip)
        → AccountsOf s (vet sha256_hex body_digest w c hop url l v s)
    unfolding vet
    vet-Accounts hop url l (vetted ip) s h m d =
        send-Accounts hop url l ip s h m (d ip refl).0 (d ip refl).1
    vet-Accounts hop url l denied_literal s h m d =
        block-Accounts sha256_hex body_digest w c hop url l.host _ s refl h
    vet-Accounts hop url l lookup_failed s h m d =
        block-Accounts sha256_hex body_digest w c hop url l.host _ s refl h
    vet-Accounts hop url l no_address s h m d =
        block-Accounts sha256_hex body_digest w c hop url l.host _ s refl h
    vet-Accounts hop url l (rebound ip) s h m d =
        block-Accounts sha256_hex body_digest w c hop url l.host _ s refl h

    at_location-Accounts :
        (hop : ℕ) (url : String) (l : Option Location) (s : State)
        → IsSound sha256_hex s.journal
        → w.new_url url ≡ l
        → AccountsOf s (at_location sha256_hex body_digest w c hop url l s)
    unfolding at_location
    at_location-Accounts hop url none s h u = record {
      sent = [];
      grown = sym (append-nil s.sent);
      guarded = tt;
      host = "";
      told_rows = sym (append-nil (told_by s.journal));
      sound = h;
    }
    at_location-Accounts hop url (some l) s h u =
        elim (Bool-cases (assert_egress_allowed c.contract l.host c.method)) [
          | inr e ↦
              rw (at_location, e)
                (block-Accounts sha256_hex body_digest w c hop url l.host not_in_allowlist s refl h)
          | inl e ↦
              rw (at_location, e)
                (vet-Accounts hop url l
                  (resolve_vetted_ip w.is_ip (w.resolve_host_ips hop l.hostname) l.hostname) s h e
                  (λ ip e. (
                    vetted-Allowed w.is_ip (w.resolve_host_ips hop l.hostname) l.hostname ip e,
                    (hop, url, l, u, refl, e),
                  )))
        ]

    round-Accounts :
        (hop : ℕ) (url : String) (s : State)
        → IsSound sha256_hex s.journal
        → AccountsOf s (egress_round sha256_hex body_digest w c hop url s)
    unfolding egress_round
    round-Accounts hop url s h = at_location-Accounts hop url (w.new_url url) s h refl

    told_of-append : (xs ys : List Sent) → told_of (xs ++ ys) ≡ told_of xs ++ told_of ys
    told_of-append xs ys =
        rw
          (
            keep-append (λ (x : Sent). x.whole) xs ys,
            map-append (λ (x : Sent). tells x.host "allowed") (whole_only xs) (whole_only ys),
          )
          refl

    -- A round that follows a redirect, and what comes after it.
    then-Accounts :
        (u : String) (r : Round) (s s1 s2 : State)
        → Accounts sha256_hex body_digest w c (follow u) s s1
        → Accounts sha256_hex body_digest w c r s1 s2
        → Accounts sha256_hex body_digest w c r s s2
    then-Accounts u r s s1 s2 a b = record {
      sent = a.sent ++ b.sent;
      grown = rw (b.grown, a.grown) (append_assoc s.sent a.sent b.sent);
      guarded = All-append (IsGuarded sha256_hex body_digest w c) a.sent b.sent a.guarded b.guarded;
      host = b.host;
      told_rows =
          rw (b.told_rows, a.told_rows, told_of-append a.sent b.sent)
            (simp (append_assoc, append-nil));
      sound = b.sound;
    }

    -- The loop, from any hop on and with any fuel.
    egress_loop-Accounts :
        (fuel hop : ℕ) (url : String) (s : State)
        → IsSound sha256_hex s.journal
        → Accounts sha256_hex body_digest w c
            (ended (egress_loop sha256_hex body_digest w c fuel hop url s).0)
            s
            (egress_loop sha256_hex body_digest w c fuel hop url s).1
    unfolding egress_loop
    egress_loop-Accounts zero hop url s h = record {
      sent = [];
      grown = sym (append-nil s.sent);
      guarded = tt;
      host = "";
      told_rows = sym (append-nil (told_by s.journal));
      sound = h;
    }
    egress_loop-Accounts (suc fuel) hop url s h =
        let o : Round × State = egress_round sha256_hex body_digest w c hop url s in
        let a : Accounts sha256_hex body_digest w c o.0 s o.1 = round-Accounts hop url s h in
        elim (Round-cases o.0) [
          | inl (e, q) ↦ rw (egress_loop, q) (rw q at a)
          | inr (u, q) ↦
              rw (egress_loop, q)
                (then-Accounts u _ s o.1 _ (rw q at a)
                  (egress_loop-Accounts fuel (suc hop) u o.1 a.sound))
        ]

    -- Let the journal be sound. Whatever the resolver and the network answer, performEgress sends
    -- each request to a host and with a method of the contract, and to an address that resolveVettedIp
    -- gave for a hostname of that host and that is not denied. It adds one row to the journal for each
    -- request whose answer is a redirect or has a body that could be read, in their order, and one
    -- more that tells the refusal where the allow list or the vetting ends the call. The journal stays
    -- sound.
    pub perform_egress-Accounts :
        (url : String) (s : State)
        → IsSound sha256_hex s.journal
        → Accounts sha256_hex body_digest w c
            (ended (perform_egress sha256_hex body_digest w c url s).0)
            s
            (perform_egress sha256_hex body_digest w c url s).1
    unfolding perform_egress
    perform_egress-Accounts url s h = egress_loop-Accounts 6 0 url s h
