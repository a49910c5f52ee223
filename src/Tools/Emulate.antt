-- ===== src/Tools/Emulate.antt =====
-- open-webbridge-extension/src/tools/emulate.js: the overrides of a tab.
use open_webbridge.Base.{
  Text, lit, is_empty, Bool, true, false, not, ◌||◌, Option, none, some, or_else, is_some, [],
  if◌then◌else◌,
}
use open_webbridge.Cdp.{Target, tab}
use open_webbridge.Tools.Page.{
  Device, Location, Command, set_device, set_agent, set_location, clear_device, clear_location,
  Reply, object, Debugger, bad_arguments, Tool, ◌>>=◌, ◌>>◌, give, throw, catch, active_tab_of, ask,
}

-- `Math.round`, and the values that stand in for a scale factor and an accuracy that are missing.
pub record Rounding (F : Type 0) : Type 0 where
  pub whole : F → F
  pub no_factor : F
  pub usual_accuracy : F

-- What was applied: a device, a user agent, a location.
pub record Applied : Type 0 where
  pub device : Bool
  pub agent : Bool
  pub location : Bool

module _ {F W : Type 0} (debugger : Debugger F W) where
  -- `cdp.send(...).catch(() => {})`
  abbrev pub try : Target → Command F → Tool F W (Reply F)
  try t c = catch (ask debugger t c) (give (object none))

  unfoldable pub clear_all : Target → Tool F W Applied
  unfolding ask
  clear_all t = do
    try t clear_device
    try t clear_location
    try t (set_agent [])
    give (record { device = false; agent = false; location = false })

  module _ (rounding : Rounding F) where
    unfoldable pub apply_device : Target → Option (Device F) → Tool F W Bool
    unfolding ask
    apply_device t none = give false
    apply_device t (some d) = elim d.width [
      | none ↦ throw (bad_arguments (lit "device requires width and height"))
      | some width ↦ elim d.height [
        | none ↦ throw (bad_arguments (lit "device requires width and height"))
        | some height ↦
            ask debugger t (
              set_device (record {
                width = some (rounding.whole width);
                height = some (rounding.whole height);
                scale_factor = some (or_else d.scale_factor rounding.no_factor);
                mobile = d.mobile;
              }))
            >> give true
      ]
    ]

    unfoldable pub apply_agent : Target → Text → Tool F W Bool
    unfolding ask
    apply_agent t agent =
        if is_empty agent then give false else ask debugger t (set_agent agent) >> give true

    unfoldable pub apply_location : Target → Option (Location F) → Tool F W Bool
    unfolding ask
    apply_location t none = give false
    apply_location t (some g) =
        if not (is_some g.latitude) || not (is_some g.longitude)
        then throw (bad_arguments (lit "geolocation requires latitude and longitude"))
        else ask debugger t (
            set_location
              (record g { accuracy = some (or_else g.accuracy rounding.usual_accuracy) }))
          >> give true

    unfoldable pub apply_all :
        Target → Option (Device F) → Text → Option (Location F) → Tool F W Applied
    unfolding apply_device apply_agent apply_location
    apply_all t device agent location = do
      d ← apply_device t device
      a ← apply_agent t agent
      g ← apply_location t location
      if d || a || g
          then give (record { device = d; agent = a; location = g })
          else throw (
              bad_arguments
                (lit "emulate needs one of: device, userAgent, geolocation, or clear:true"))

    unfoldable pub emulate :
        Text → Bool → Option (Device F) → Text → Option (Location F) → Tool F W Applied
    unfolding active_tab_of clear_all apply_all
    emulate session clear device agent location = do
      n ← active_tab_of session
      if clear then clear_all (tab n) else apply_all (tab n) device agent location
