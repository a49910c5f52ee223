-- ===== src/Mode/Examples.antt =====
-- The theorems on the annotation mode at concrete inputs.
use open_webbridge.Base.{
  ℕ, ◌≡◌, refl, Text, lit, number_keys, contains, is_some, true, false, ◌&&◌, Option, some, List,
  [], ◌∷◌,
}
use open_webbridge.Mode.{Mode, wake, restore, handle_tab_removed}
use open_webbridge.Mode.Saved.{Action, starts, stops, removed, announced, listed, run}
use open_webbridge.Mode.Replayed.{marks_of, replay, run-refines}
use open_webbridge.Mode.Woken.{removed-forgets_all}

abbrev page : ℕ → Option Text
page t = some (lit "https://a/")

abbrev one_tab : Mode
one_tab = record { active = 3 ∷ []; frames = []; restored = true; saved = some (3 ∷ []); told = [] }

abbrev history : List Action
history =
    starts page true 4
    ∷ announced 4 0 (lit "https://a/")
    ∷ removed 3
    ∷ starts page false 5
    ∷ stops 5
    ∷ listed page
    ∷ []

run-refines_example :
    (contains 4 (run one_tab history).active ≡ replay history (marks_of one_tab) 4)
    × (contains 4 (restore true page (wake (run one_tab history))).active
        ≡ replay history (marks_of one_tab) 4 && is_some (page 4))
run-refines_example =
    run-refines history one_tab page 4 (tt, (tt, (tt, (tt, (tt, ((λ t e. e), tt))))))
      (refl, λ t e. refl)

removed-forgets_all_example :
    ((handle_tab_removed true 9 (wake one_tab)).saved ≡ some [])
    × (contains 3 (restore true page (handle_tab_removed true 9 (wake one_tab))).active ≡ false)
removed-forgets_all_example = removed-forgets_all one_tab 9 3 page
