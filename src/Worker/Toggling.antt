-- ===== src/Worker/Toggling.antt =====
-- Switching the annotation mode with the shortcut or the popup (background.js).
use open_webbridge.Base.{
  ℕ, ◌≡◌, refl, sym, subst, ap, ◌∙◌, Text, erase, Result, ok, err, number_keys, beq_refl, contains,
  contains-add, contains-delete, add, delete, ◌==◌, ==_iff, Bool, true, false, not, Bool-cases, inl,
  inr, if_cases, some, if◌then◌else◌, arith,
}
use open_webbridge.Mode.{
  Mode, restore, persist_modes, is_active, StartError, is_annotatable, start, stop,
}
use open_webbridge.Annotate.{Desk, World}
use open_webbridge.Annotate.Pages.{started_at, start_mode}
use open_webbridge.Annotate.Shown.{mode-sync}
use open_webbridge.Worker.{toggled, begun, toggle}

-- The tab shows a page that the mode can be started on, and the script gets in.
abbrev pub IsOpenPage : World → ℕ → Type 0
IsOpenPage w t =
    ((url : Text) × (w.tabs t ≡ some url) × (is_annotatable url ≡ true)) × (w.injected ≡ true)

-- The memory was read back, and the mode is on exactly for these tabs.
abbrev pub Holds : Mode → (ℕ → Bool) → Type 0
Holds m marks = (m.restored ≡ true) × ((u : ℕ) → contains u m.active ≡ marks u)

abbrev pub switched : ℕ → Bool → (ℕ → Bool) → ℕ → Bool
switched t on marks u = if t == u then on else marks u

abbrev pub marks_of : Mode → ℕ → Bool
marks_of m u = contains u m.active

module _ (w : World) (t : ℕ) (m : Mode) (h : m.restored ≡ true) where
  restored-same : restore w.readable w.tabs m ≡ m
  unfolding restore
  restored-same = rw h refl

  persist-Holds :
      (k : Mode) (marks : ℕ → Bool) → Holds k marks → Holds (persist_modes w.modes_written k) marks
  unfolding persist_modes
  persist-Holds k marks held =
      if_cases (λ (r : Mode). Holds r marks) w.modes_written (λ _. held) (λ _. held)

  stop-Holds : Holds (stop w.readable w.tabs w.modes_written t m).1 (switched t false (marks_of m))
  unfolding stop
  stop-Holds = rw restored-same (
      persist-Holds (record m { active = delete t m.active; frames = erase t m.frames })
        (switched t false (marks_of m)) (h, λ u. contains-delete t u m.active))

  start-Holds :
      IsOpenPage w t
      → ((start w.readable w.tabs w.modes_written w.injected t m).0 ≡ ok tt)
        × Holds
            (start w.readable w.tabs w.modes_written w.injected t m).1
            (switched t true (marks_of m))
  unfolding start
  start-Holds ((url, here, fits), inside) =
      rw (start, here, fits, inside, restored-same)
        (
          refl,
          persist-Holds (record m { active = add t m.active }) (switched t true (marks_of m))
              (h, λ u. contains-add t u m.active),
        )

module _ {F : Type 0} (w : World) (t : ℕ) (d : Desk F) (h : d.mode.restored ≡ true) where
  toggle-off :
      contains t d.mode.active ≡ true
      → ((toggle w t d).0 ≡ toggled false)
        × Holds (toggle w t d).1.mode (switched t false (marks_of d.mode))
  unfolding toggle is_active
  toggle-off on = rw (toggle, restored-same w t d.mode h, on) (refl, stop-Holds w t d.mode h)

  begun-ok :
      (r : Result StartError (Unit {0}) × Mode) (marks : ℕ → Bool)
      → r.0 ≡ ok tt
      → Holds r.1 marks
      → ((begun (started_at w t d r)).0 ≡ toggled true)
        × Holds (begun (started_at w t d r)).1.mode marks
  begun-ok (ok u, m) marks started held =
      (refl, subst (λ (k : Mode). Holds k marks) (sym (mode-sync w t (record d { mode = m }))) held)
  begun-ok (err why, m) marks started held = cc

  toggle-on :
      IsOpenPage w t
      → contains t d.mode.active ≡ false
      → ((toggle w t d).0 ≡ toggled true)
        × Holds (toggle w t d).1.mode (switched t true (marks_of d.mode))
  unfolding toggle is_active start_mode
  toggle-on page off =
      let (started, held) = start-Holds w t d.mode h page in
      rw (toggle, restored-same w t d.mode h, off)
        (begun-ok (start w.readable w.tabs w.modes_written w.injected t d.mode)
          (switched t true (marks_of d.mode)) started held)

  toggle-marks :
      IsOpenPage w t
      → ((toggle w t d).0 ≡ toggled (not (contains t d.mode.active)))
        × Holds
            (toggle w t d).1.mode
            (switched t (not (contains t d.mode.active)) (marks_of d.mode))
  toggle-marks page = elim (Bool-cases (contains t d.mode.active)) [
    | inl on ↦ rw on (toggle-off on)
    | inr off ↦ rw off (toggle-on page off)
  ]

-- Switching the mode in an open page, with the memory read back, answers whether it is now on, and a
-- second time answers the opposite and leaves exactly the tabs in the mode that were in it before.
pub toggle_twice :
    {F : Type 0} (w : World) (t : ℕ) (d : Desk F)
    → d.mode.restored ≡ true
    → IsOpenPage w t
    → ((toggle w t d).0 ≡ toggled (not (contains t d.mode.active)))
      × ((toggle w t (toggle w t d).1).0 ≡ toggled (contains t d.mode.active))
      × ((u : ℕ)
          → contains u (toggle w t (toggle w t d).1).1.mode.active ≡ contains u d.mode.active)
toggle_twice w t d h page =
    let (first, (back, marks)) = toggle-marks w t d h page in
    let after = (toggle w t d).1 in
    let (second, (again, marks')) = toggle-marks w t after back page in
    let here : contains t after.mode.active ≡ not (contains t d.mode.active) =
      marks t ∙ rw (beq_refl t) refl in
    let twice : not (contains t after.mode.active) ≡ contains t d.mode.active =
      ground (arith, here) in
    (
      first,
      second ∙ ap toggled twice,
      λ u. elim (Bool-cases (t == u)) [
        | inl e ↦
            let same : contains t d.mode.active ≡ contains u d.mode.active =
              ap (λ v. contains v d.mode.active) ((==_iff t u).0 e) in
            marks' u ∙ rw e (twice ∙ same)
        | inr e ↦ marks' u ∙ rw e (marks u ∙ rw e refl)
      ],
    )
