-- ===== src/Connector/Tests.antt =====
-- Runs of the model of hub/connector.mjs. The hash of the tests is constant.
use ainumbers_helm.Prelude.{
  ℕ, ◌+◌, ◌*◌, ◌^◌, ◌≡◌, ◌≢◌, ◌↔◌, refl, arith, String, true, false, Option, none, some, List, [],
  ◌∷◌, str_eq, if◌then◌else◌,
}
use ainumbers_helm.Prelude.Bytes.{codes}
use ainumbers_helm.Prelude.Dict.{get, set, delete}
use ainumbers_helm.Json.{get_field, spread}
use ainumbers_helm.Journal.{open_journal, append_entry, insert_row, full_entry}
use ainumbers_helm.Journal.Append.{open_journal-IsSound}
use ainumbers_helm.Connector.Addresses.{
  lower_codes, octets, is_denied_v4, is_denied_ip, ipv6_to_big_int, mapped_tail, resolve_vetted_ip,
}
use ainumbers_helm.Connector.Denied.{is_denied_v4_iff, IsInternal, mapped_address_passes}
use ainumbers_helm.Connector.Pins.{
  no_pins, unpin, pin_host_resolution, pin_key, lower_host, pinned_dns_lookup,
}
use ainumbers_helm.Connector.Pinned.{
  PinCall, pin, unpin_nth, run_pins, view_run, no_view, pin_in, address_in, pins_refine_view,
}
use ainumbers_helm.Connector.Egress.{
  State, Location, not_in_allowlist, ended, unfinished, Call, World, egress_round, at_location, vet,
  send, after_fetch, is_whole, answered, redirect_of, is_redirect, journaled, record_egress,
  next_url, block, sent_state, egress_of, egress_request, perform_egress, assert_egress_allowed,
}
use ainumbers_helm.Connector.Told.{Accounts, told_by, tells}
use ainumbers_helm.Connector.Choke.{perform_egress-Accounts}
use ainumbers_helm.Connector.Ends.{perform_egress-ends}

-- 172.31.0.9 is private and 172.32.0.9 is not.
octets_run : octets (codes "172.31.0.9") ≡ 172 ∷ 31 ∷ 0 ∷ 9 ∷ []
unfolding octets
octets_run = refl

is_denied_v4_run : is_denied_v4 (codes "172.32.0.9") ≡ false
unfolding is_denied_v4
is_denied_v4_run = refl

is_denied_v4_iff_example : is_denied_v4 (codes "172.31.0.9") ≡ true ↔ IsInternal 172 31
is_denied_v4_iff_example =
    is_denied_v4_iff (codes "172.31.0.9") 172 31 0 9 octets_run
      (omega arith, omega arith, omega arith, omega arith)

-- The IPv6 addresses of the tests are told by their colon.
abbrev kind_of : String → ℕ
kind_of s =
    if str_eq s "::ffff:7f00:1"
    then 6
    else if str_eq s "93.184.216.34"
    then 4
    else if str_eq s "10.0.0.1"
    then 4
    else 0

mapped_number_run : ipv6_to_big_int (codes "::ffff:7f00:1") ≡ 0xffff * 2 ^ 32 + 2130706433
unfolding ipv6_to_big_int
mapped_number_run = refl

not_dotted_run : mapped_tail (codes "::ffff:7f00:1") ≡ none
unfolding mapped_tail
not_dotted_run = refl

-- 127.0.0.1, with its last two octets in hexadecimal.
mapped_address_passes_example : is_denied_ip kind_of "::ffff:7f00:1" ≡ false
mapped_address_passes_example =
    mapped_address_passes kind_of "::ffff:7f00:1" 2130706433 refl not_dotted_run (omega arith)
      mapped_number_run

abbrev pin_calls : List PinCall
pin_calls =
    pin "a.example" "192.0.2.1" ∷ pin "A.example" "192.0.2.2" ∷ unpin_nth 0 ∷ unpin_nth 0 ∷ []

pins_refine_view_example :
    (get (run_pins pin_calls no_pins).pins (lower_host "A.Example")
      ≡ pin_in (view_run pin_calls no_view) (lower_host "A.Example"))
    × (pinned_dns_lookup (run_pins pin_calls no_pins) "a.EXAMPLE"
        ≡ address_in (pin_in (view_run pin_calls no_view) (lower_host "A.Example")))
unfolding lower_codes
pins_refine_view_example = pins_refine_view pin_calls "A.Example" "a.EXAMPLE" refl

-- Another spelling of the hostname finds the pin.
lookup_run : pinned_dns_lookup (run_pins pin_calls no_pins) "a.EXAMPLE" ≡ some "192.0.2.2"
unfolding get set pin_host_resolution pin_key unpin no_pins pinned_dns_lookup lower_host
lookup_run = refl

-- The second release of the same handle does nothing.
pins_run :
    get (run_pins pin_calls no_pins).pins "a.example" ≡ some (record { ip = "192.0.2.2"; refs = 1 })
unfolding get set pin_host_resolution pin_key unpin no_pins
pins_run = refl

abbrev constant : List ℕ → String
constant bs = "00"

abbrev location : String → Option Location
location url =
    if str_eq url "https://a.example/x"
    then some (record { host = "a.example"; hostname = "a.example" })
    else some (record { host = "b.example"; hostname = "b.example" })

-- Every host resolves to one address, and the first request is redirected.
abbrev world : World
world = record {
  is_ip = kind_of;
  new_url = location;
  join_url = λ l base. some l;
  resolve_host_ips = λ hop hostname. some ("93.184.216.34" ∷ []);
  fetch = λ hop url address.
      some (record { status = 302; location = some "https://b.example/y"; body = some "" });
  now = λ hop. "t";
}

abbrev call : Call
call = record {
  contract = record { allowed_hosts = "a.example" ∷ []; allowed_methods = "GET" ∷ [] };
  connector_id = "c";
  method = "GET";
  header_names = "b" ∷ "a" ∷ [];
}

abbrev before : State
before = record { journal = open_journal; pinning = no_pins; sent = [] }

-- The redirect to a host that is not in the contract is refused, and the refusal is told.
perform_egress_run :
    (perform_egress constant (λ body. "00") world call "https://a.example/x" before).0
    ≡ not_in_allowlist
unfolding perform_egress egress_round at_location assert_egress_allowed vet resolve_vetted_ip
    is_denied_ip send after_fetch is_whole answered redirect_of is_redirect journaled record_egress
    next_url block sent_state pinned_dns_lookup pin_host_resolution pin_key unpin open_journal
    append_entry get set delete get_field no_pins
perform_egress_run = refl

told_by_run :
    told_by
      (perform_egress constant (λ body. "00") world call "https://a.example/x" before).1.journal
    ≡ tells "a.example" "allowed" ∷ tells "b.example" "blocked" ∷ []
unfolding perform_egress egress_round at_location assert_egress_allowed vet resolve_vetted_ip
    is_denied_ip send after_fetch is_whole answered redirect_of is_redirect journaled record_egress
    next_url block sent_state pinned_dns_lookup pin_host_resolution pin_key unpin open_journal
    append_entry get set delete get_field no_pins egress_of insert_row full_entry spread
    egress_request
told_by_run = refl

perform_egress-Accounts_example :
    Accounts constant
      (λ body. "00")
      world
      call
      (ended (perform_egress constant (λ body. "00") world call "https://a.example/x" before).0)
      before
      (perform_egress constant (λ body. "00") world call "https://a.example/x" before).1
perform_egress-Accounts_example =
    perform_egress-Accounts constant (λ body. "00") world call "https://a.example/x" before
      (open_journal-IsSound constant)

perform_egress-ends_example :
    (perform_egress constant (λ body. "00") world call "https://a.example/x" before).0 ≢ unfinished
perform_egress-ends_example =
    perform_egress-ends constant (λ body. "00") world call "https://a.example/x" before
