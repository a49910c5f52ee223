-- ===== src/Network/Examples.antt =====
-- Tests of the network capture, and its theorems at concrete inputs.
use open_webbridge.Base.{
  number_keys, ◌≡◌, refl, lit, text_eq, contains, lookup, insert, add, List, [], ◌∷◌, none, some,
  arith,
}
use open_webbridge.Network.{
  Capture, request_will_be_sent, response_received, on_event, start_capture,
}
use open_webbridge.Network.Buffer.{IsBounded, Action, event, begin, run, run-IsBounded}

abbrev nothing : Capture
nothing = record { buffers = []; capturing = [] }

nothing-IsBounded : IsBounded nothing
unfolding lookup
nothing-IsBounded tab = omega arith

abbrev one_request : List Action
one_request =
    begin 3
    ∷ event (some 3) (request_will_be_sent (lit "r1") (lit "https://a/") (lit "GET") none)
    ∷ event (some 3) (response_received (lit "r1") 200 (lit "text/html"))
    ∷ event (some 4) (response_received (lit "r1") 404 (lit "text/html"))
    ∷ []

captured_test :
    lookup 3 (run nothing one_request).buffers
    ≡ some (
        record {
          request_id = lit "r1";
          url = lit "https://a/";
          method = lit "GET";
          kind = none;
          status = some 200;
          mime_type = some (lit "text/html");
        }
        ∷ [])
unfolding run on_event start_capture lookup insert add contains text_eq
captured_test = refl

run-IsBounded_example : IsBounded (run nothing one_request)
run-IsBounded_example = run-IsBounded one_request nothing nothing-IsBounded
