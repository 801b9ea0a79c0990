-- ===== src/Connector/Egress.antt =====
-- hub/connector.mjs: the allow list, the journal row of an egress decision and the loop of
-- performEgress. The state is the journal, the table of pinned hostnames and, as what leaves the
-- program, the list of the requests sent. `new URL`, the resolver and fetch are parameters; the
-- resolver and fetch may answer differently at each hop.
use ainumbers_helm.Prelude.{
  ℕ, zero, suc, String, Bool, true, false, ◌&&◌, Option, none, some, List, [], ◌∷◌, ◌++◌, ltb, leb,
  str_eq, if◌then◌else◌, any, length, ◌<>◌,
}
use ainumbers_helm.Json.{Json, null, str, arr, obj, Items, nil, cons, end, field}
use ainumbers_helm.Canon.{key_lt}
use ainumbers_helm.Journal.{
  Journal, Request, Appended, append_entry, Outcome, done, thrown, Error, record_digest,
}
use ainumbers_helm.Connector.Addresses.{
  Vetting, vetted, denied_literal, lookup_failed, no_address, rebound, resolve_vetted_ip,
}
use ainumbers_helm.Connector.Pins.{Pinning, pin_host_resolution, unpin, pinned_dns_lookup}

pub record Contract : Type 0 where
  pub allowed_hosts : List String
  pub allowed_methods : List String

-- Array.prototype.includes
unfoldable pub includes : List String → String → Bool
includes xs x = any (λ y. str_eq y x) xs

unfoldable pub assert_egress_allowed : Contract → String → String → Bool
unfolding includes
assert_egress_allowed c host method =
    includes c.allowed_hosts host && includes c.allowed_methods method

pub data Decision : Type 0 where
  allowed blocked : Decision

abbrev pub decision_name : Decision → String
decision_name allowed = "allowed"
decision_name blocked = "blocked"

digest_json : Option String → Json
digest_json none = null
digest_json (some d) = str d

-- The arguments of recordEgress.
pub record Egress : Type 0 where
  pub connector_id : String
  pub destination_host : String
  pub operation : String
  pub decision : Decision
  pub request_digest : String
  pub response_digest : Option String

unfoldable pub egress_request : String → Egress → Request
unfolding digest_json
egress_request now e = record {
  stream_id = "egress:" <> e.connector_id;
  kind = "egress";
  run_id = none;
  entry = field "period_start" (str now) (
      field "period_end" (str now) (
        field "reference_db_version" (str "helm-connector-runtime@1") (
          field "triggering_input_digest" (str e.request_digest) (
            field "humans_involved" (arr nil) (
              field "connector_id" (str e.connector_id) (
                field "destination_host" (str e.destination_host) (
                  field "operation" (str e.operation) (
                    field "decision" (str (decision_name e.decision)) (
                      field "request_digest" (str e.request_digest)
                        (field "response_digest" (digest_json e.response_digest) end))))))))));
}

abbrev pub max_redirects : ℕ
max_redirects = 5

-- A request that fetch was called with, and the address that the lookup of its hostname gives at
-- that moment; `whole` is false where fetch throws, or where the body of an answer that is no
-- redirect cannot be read to its end.
pub record Sent : Type 0 where
  pub host : String
  pub method : String
  pub address : Option String
  pub whole : Bool

pub record State : Type 0 where
  pub journal : Journal
  pub pinning : Pinning
  pub sent : List Sent

pub record Location : Type 0 where
  pub host : String
  pub hostname : String

-- `body` is what `res.arrayBuffer()` gives, none where it rejects.
pub record Answer : Type 0 where
  pub status : ℕ
  pub location : Option String
  pub body : Option String

-- What performEgress returns or throws; `unfinished` is a loop that has run out of rounds.
pub data Ending : Type 0 where
  response : ℕ → String → Ending
  not_in_allowlist : Ending
  not_vetted : Vetting → Ending
  fetch_failed body_failed : Ending
  too_many_redirects : Ending
  invalid_url : Ending
  journal_failed : Error → Ending
  unfinished : Ending

-- The end of one round of the loop.
pub data Round : Type 0 where
  ended : Ending → Round
  follow : String → Round

-- The arguments of a call that do not change along it.
pub record Call : Type 0 where
  pub contract : Contract
  pub connector_id : String
  pub method : String
  pub header_names : List String

pub record World : Type 0 where
  pub is_ip : String → ℕ
  pub new_url : String → Option Location
  pub join_url : String → String → Option String
  pub resolve_host_ips : ℕ → String → Option (List String)
  pub fetch : ℕ → String → Option String → Option Answer
  pub now : ℕ → String

insert_name : String → List String → List String
insert_name n [] = n ∷ []
insert_name n (m ∷ ms) = let rest = insert_name n ms in if key_lt m n then m ∷ rest else n ∷ m ∷ ms

-- Object.keys(headers).sort()
sort_names : List String → List String
unfolding insert_name
sort_names [] = []
sort_names (n ∷ ns) = insert_name n (sort_names ns)

name_items : List String → Items
name_items [] = nil
name_items (n ∷ ns) = cons (str n) (name_items ns)

request_json : Call → String → Json
unfolding sort_names name_items
request_json c url = obj (
    field "url" (str url) (
      field "method" (str c.method)
        (field "headerNames" (arr (name_items (sort_names c.header_names))) end)))

unfoldable pub is_redirect : Answer → Option String
is_redirect a = if leb 300 a.status && ltb a.status 400 then a.location else none

-- `location` is tested for truth: an empty one is none.
unfoldable pub redirect_of : Option String → Option String
redirect_of none = none
redirect_of (some l) = if str_eq l "" then none else some l

abbrev pub is_given : Option String → Bool
is_given none = false
is_given (some b) = true

-- A redirect is whole without its body.
unfoldable pub is_whole : Answer → Bool
unfolding redirect_of is_redirect
is_whole a = elim (redirect_of (is_redirect a)) [ some l ↦ true | none ↦ is_given a.body ]

module _ (sha256_hex : List ℕ → String) where
  unfoldable pub record_egress : String → Egress → Journal → Outcome (Journal × Appended)
  unfolding egress_request
  record_egress now e j = append_entry sha256_hex now (egress_request now e) j

  -- recordEgress and what comes after it; an error of the journal ends the call.
  unfoldable pub journaled : Outcome (Journal × Appended) → Round → State → Round × State
  journaled (thrown x) next s = (ended (journal_failed x), s)
  journaled (done (j, a)) next s = (next, record s { journal = j })

  module _ (body_digest : String → String) (w : World) (c : Call) where
    unfoldable pub egress_of : String → String → Decision → Option String → Egress
    unfolding request_json
    egress_of url host decision response_digest = record {
      connector_id = c.connector_id;
      destination_host = host;
      operation = c.method;
      decision = decision;
      request_digest = "sha256:" <> record_digest sha256_hex (request_json c url);
      response_digest = response_digest;
    }

    unfoldable pub block : ℕ → String → String → Ending → State → Round × State
    block hop url host why s =
        journaled (record_egress (w.now hop) (egress_of url host blocked none) s.journal)
          (ended why) s

    unfoldable pub next_url : ℕ → Option String → Round
    next_url hop joined =
        let target : Round = elim joined [ none ↦ ended invalid_url | some u ↦ follow u ] in
        if ltb max_redirects (suc hop) then ended too_many_redirects else target

    -- The body is read first: where that throws, there is no row.
    unfoldable pub received : ℕ → String → String → ℕ → Option String → State → Round × State
    received hop url host status none s = (ended body_failed, s)
    received hop url host status (some body) s =
        journaled
          (record_egress (w.now hop) (egress_of url host allowed (some (body_digest body)))
            s.journal)
          (ended (response status body)) s

    unfoldable pub answered : ℕ → String → String → Answer → State → Round × State
    answered hop url host a s = elim (redirect_of (is_redirect a)) [
      | some l ↦
          journaled (record_egress (w.now hop) (egress_of url host allowed none) s.journal)
            (next_url hop (w.join_url l url)) s
      | none ↦ received hop url host a.status a.body s
    ]

    unfoldable pub sent_state : String → Option String → Bool → State → State
    sent_state host address ok s = record s {
      sent =
          s.sent ++ (record { host = host; method = c.method; address = address; whole = ok }) ∷ [];
    }

    unfoldable pub after_fetch :
        ℕ → String → String → Option String → Option Answer → State → Round × State
    after_fetch hop url host address none s = (ended fetch_failed, sent_state host address false s)
    after_fetch hop url host address (some a) s =
        answered hop url host a (sent_state host address (is_whole a) s)

    -- The hostname is pinned, fetch is called, and `finally` releases the pin.
    unfoldable pub send : ℕ → String → Location → String → State → Round × State
    send hop url l ip s =
        let pinned = pin_host_resolution l.hostname ip s.pinning in
        let address = pinned_dns_lookup pinned l.hostname in
        after_fetch hop url l.host address (w.fetch hop url address)
          (record s { pinning = unpin (length s.pinning.handles) pinned })

    unfoldable pub vet : ℕ → String → Location → Vetting → State → Round × State
    vet hop url l (vetted ip) s = send hop url l ip s
    vet hop url l denied_literal s = block hop url l.host (not_vetted denied_literal) s
    vet hop url l lookup_failed s = block hop url l.host (not_vetted lookup_failed) s
    vet hop url l no_address s = block hop url l.host (not_vetted no_address) s
    vet hop url l (rebound ip) s = block hop url l.host (not_vetted (rebound ip)) s

    unfoldable pub at_location : ℕ → String → Option Location → State → Round × State
    at_location hop url none s = (ended invalid_url, s)
    at_location hop url (some l) s =
        if assert_egress_allowed c.contract l.host c.method
        then vet hop url l
            (resolve_vetted_ip w.is_ip (w.resolve_host_ips hop l.hostname) l.hostname) s
        else block hop url l.host not_in_allowlist s

    -- One round of `for (;;)`.
    unfoldable pub egress_round : ℕ → String → State → Round × State
    egress_round hop url s = at_location hop url (w.new_url url) s

    unfoldable pub egress_loop : ℕ → ℕ → String → State → Ending × State
    egress_loop zero hop url s = (unfinished, s)
    egress_loop (suc fuel) hop url s =
        let (next, s') = egress_round hop url s in
        elim next [ ended e ↦ (e, s') | follow u ↦ egress_loop fuel (suc hop) u s' ]

    -- Six rounds are enough: the sixth redirect throws.
    unfoldable pub perform_egress : String → State → Ending × State
    unfolding egress_loop
    perform_egress url s = egress_loop 6 0 url s
