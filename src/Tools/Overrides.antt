-- ===== src/Tools/Overrides.antt =====
-- Clearing the overrides of a tab (emulate.js).
use open_webbridge.Base.{
  ℕ, ◌≡◌, refl, ap, ◌∙◌, Text, text_keys, true, false, Option, none, some, List, [], ◌∷◌, ◌++◌, In,
  here, there, ok,
}
use open_webbridge.Cdp.{Target, tab}
use open_webbridge.Sessions.{session_of}
use open_webbridge.Tools.Page.{
  Device, Location, Command, set_agent, clear_device, clear_location, object, Debugger, Env, go_on,
}
use open_webbridge.Tools.Emulate.{Applied, Rounding, clear_all, emulate}
use open_webbridge.Tools.Runs.{
  opened, active_tab_of-ok, Attaches, Acknowledges, Sends, give-Sends, then-Sends, dropped-Sends,
}

-- The three commands that clear the overrides of a tab.
abbrev pub clearing : {F : Type 0} → Target → List (Target × Command F)
clearing t = (t, clear_device) ∷ (t, clear_location) ∷ (t, set_agent []) ∷ []

module _ {F W : Type 0} (debugger : Debugger F W) where
  clear_all-Sends :
      (t : Target)
      → Attaches debugger
      → ((c : Command F) → In (t, c) (clearing t) → Acknowledges debugger c)
      → Sends (clear_all debugger t) (clearing t)
  unfolding clear_all
  clear_all-Sends t attaches heard =
      then-Sends _ _ ((t, clear_device) ∷ []) _
        (dropped-Sends debugger t clear_device (object none) attaches (heard _ (here refl)))
        (then-Sends _ _ ((t, clear_location) ∷ []) _
          (dropped-Sends debugger t clear_location (object none) attaches
            (heard _ (there (here refl))))
          (then-Sends _ _ ((t, set_agent []) ∷ []) []
            (dropped-Sends debugger t (set_agent []) (object none) attaches
              (heard _ (there (there (here refl)))))
            (give-Sends (record { device = false; agent = false; location = false }))))

  -- If the debugger attaches and acknowledges the three commands, by an answer or an error, clearing the
  -- overrides of a session with an open tab returns, and has sent to that tab exactly the commands that
  -- clear the device, the location and the user agent, in this order.
  pub emulate_clears :
      (rounding : Rounding F) (session agent : Text) (device : Option (Device F))
      (location : Option (Location F)) (n : ℕ) (e : Env F W)
      → Attaches debugger
      → ((c : Command F) → In (tab n, c) (clearing (tab n)) → Acknowledges debugger c)
      → (session_of session e.bridge).active_tab ≡ some n
      → (a : Applied) × (e' : Env F W) × (emulate debugger rounding session true device agent
            location e
          ≡ (ok a, e'))
        × (e'.log ≡ e.log ++ clearing (tab n))
  unfolding emulate
  emulate_clears rounding session agent device location n e attaches heard open_tab =
      let (a, e', returns, sent) = clear_all-Sends (tab n) attaches heard (opened session e) in
      (a, e', ap (go_on _) (active_tab_of-ok session n e open_tab) ∙ returns, sent)
