-- ===== src/Dialogs/Examples.antt =====
-- The theorems on dialogs at concrete inputs.
use open_webbridge.Base.{
  ◌≡◌, refl, lit, text_eq, number_keys, lookup, none, some, List, [], ◌∷◌, arith,
}
use open_webbridge.Dialogs.{Dialog, Reply, on_dialog, list_dialogs}
use open_webbridge.Dialogs.Policy.{
  Event, opens, configures, run, fresh, last_word, IsShort, on_dialog_by_policy,
}

abbrev leave_page : Dialog
leave_page = record {
  kind = lit "confirm";
  message = lit "Leave?";
  url = lit "https://a/";
  default_prompt = none;
}

abbrev history : List Event
history =
    opens (some 2) leave_page
    ∷ configures 2 (lit "accept") none
    ∷ configures 5 (lit "dismiss") none
    ∷ []

last_word_test : last_word 2 [] history ≡ lit "accept"
unfolding last_word
last_word_test = refl

on_dialog_by_policy_example :
    (r : Reply) × ((on_dialog (some 2) leave_page (run fresh history)).0 ≡ some r)
    × (r.tab ≡ 2)
    × (r.accepts ≡ text_eq (last_word 2 [] history) (lit "accept"))
on_dialog_by_policy_example = on_dialog_by_policy 2 leave_page history

fresh-IsShort : IsShort fresh
unfolding list_dialogs lookup
fresh-IsShort tab = omega arith
