-- ===== src/WsClient/Examples.antt =====
-- The theorems on the link at concrete inputs.
use open_webbridge.Base.{
  ◌≡◌, refl, Text, number_keys, lit, text_eq, contains, add, true, none, some, List, [], ◌∷◌, ◌++◌,
}
use open_webbridge.WsClient.{
  connected, connecting, hello, Ws, Event, open_event, close_event, disconnect_call,
  disconnect_store, timer_event, alarm_event, ping_message, step, run, fresh, connect_called,
  connect_stored, opened,
}
use open_webbridge.WsClient.Links.{connects, connect_opens, rejection, rejection-retried}
use open_webbridge.WsClient.Down.{IsDown, is_passive, all_passive, disconnect-IsDown}

abbrev daemon : Text
daemon = lit "ws://127.0.0.1:10086"

abbrev linked : Ws
linked = record fresh {
  socket = some 0;
  state = connected;
  current_url = daemon;
  should_reconnect = true;
  saved_url = daemon;
  saved_reconnect = true;
  created = 1;
  live = 0 ∷ [];
  ready = 0 ∷ [];
  sent = (0, hello 2) ∷ [];
}

linked_test : run fresh (connects daemon 0) ≡ linked
unfolding run opened contains connect_stored add connect_called text_eq
linked_test = refl

connect_opens_example :
    ((run fresh (connects daemon 0)).state ≡ connected)
    × ((run fresh (connects daemon 0)).current_url ≡ daemon)
    × ((run fresh (connects daemon 0)).socket ≡ some 0)
    × ((run fresh (connects daemon 0)).timer ≡ none)
    × ((run fresh (connects daemon 0)).next_reconnect_ms ≡ 5000)
    × ((run fresh (connects daemon 0)).sent ≡ [] ++ (0, hello 2) ∷ [])
connect_opens_example = connect_opens daemon fresh refl refl

rejection-retried_example :
    ((run linked (rejection (lit "busy") 0)).timer ≡ some 30000)
    × ((run linked (rejection (lit "busy") 0)).next_reconnect_ms ≡ 5000)
    × ((step timer_event (run linked (rejection (lit "busy") 0))).state ≡ connecting)
    × ((step timer_event (run linked (rejection (lit "busy") 0))).current_url ≡ daemon)
rejection-retried_example = rejection-retried (lit "busy") 0 linked refl refl refl

abbrev later : List Event
later = timer_event ∷ close_event 0 ∷ alarm_event ∷ ping_message ∷ open_event 0 ∷ []

disconnect-IsDown_example :
    IsDown (run linked (disconnect_call ∷ disconnect_store ∷ later))
    × ((run linked (disconnect_call ∷ disconnect_store ∷ later)).sent ≡ (0, hello 2) ∷ [])
unfolding all_passive is_passive
disconnect-IsDown_example = disconnect-IsDown 0 later linked refl refl refl
