-- ===== src/Ui/Enumerate.antt =====
-- `handleSims` and `handleApps` of internal/ui/hub.go, over the enumerators that SetControl was given;
-- `none` stands for one that was not. The text of an error is an argument.
use proxysim.Prelude.{List, Option, none, some, Text}
use proxysim.Sim.{Bench, Device, Error, Result, ok, failed}
use proxysim.Sim.Apps.{App}
use proxysim.Ui.Detail.{Answer, http_error, document}
use proxysim.Ui.Control.{disabled}

module _ (text : Error → Text) where
  -- what a handler answers to a listing
  unfoldable pub answer_listing : {A : Type 0} → Result (List A) → Answer (List A)
  answer_listing (failed e) = http_error 502 (text e)
  answer_listing (ok items) = document items

  module _ {Sys : Type 0} where
    -- The wire form of a device has the device's fields.
    unfoldable pub handle_sims :
        Option (Bench Sys → Bench Sys × Result (List Device))
        → Bench Sys
        → Bench Sys × Answer (List Device)
    unfolding answer_listing
    handle_sims none b = (b, disabled)
    handle_sims (some list_sims) b = let (b', r) = list_sims b in (b', answer_listing r)

    unfoldable pub handle_apps :
        Option (Text → Bench Sys → Bench Sys × Result (List App))
        → Text
        → Bench Sys
        → Bench Sys × Answer (List App)
    unfolding answer_listing
    handle_apps none udid b = (b, disabled)
    handle_apps (some list_apps) udid b = let (b', r) = list_apps udid b in (b', answer_listing r)
