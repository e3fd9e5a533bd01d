-- ===== src/Tests/MachineTests.antt =====
-- session/state.go and session/phone.go.
use malipo.Base.{◌≤◌, ◌≡◌, refl, inl, List, [], ◌∷◌, ◌++◌}
use malipo.Base.Lists.{codes}
use malipo.Store.State.{created}
use malipo.Store.Session.{Bytes}
use malipo.Store.Error.{ok}
use malipo.Session.Machine.{Event, stk_accepted, callback_success, callback_failed, consumed_event}
use malipo.Session.Machine.Paths.{accepted, budget, accepted_bounded}
use malipo.Session.Phone.{normalize_phone, is_digit}
use malipo.Session.Phone.Switch.{IsSubscriber, e164}
use malipo.Session.Phone.E164.{normalize_formats, normalize-IsSubscriber}
use malipo.Tests.Fixtures.{subscriber}

abbrev payment_events : List Event
payment_events = stk_accepted ∷ callback_success ∷ callback_failed ∷ consumed_event ∷ []

accepted_bounded_example : accepted created payment_events ≤ budget created
accepted_bounded_example = accepted_bounded created payment_events

subscriber-IsSubscriber : IsSubscriber subscriber
unfolding is_digit
subscriber-IsSubscriber = record {
  nine = refl;
  digits = (refl, (refl, (refl, (refl, (refl, (refl, (refl, (refl, (refl, tt)))))))));
  mobile = inl refl;
}

normalize_formats_example :
    (normalize_phone subscriber ≡ ok (e164 subscriber))
    × (normalize_phone (b'0' ∷ subscriber) ≡ ok (e164 subscriber))
    × (normalize_phone (codes "254" ++ subscriber) ≡ ok (e164 subscriber))
    × (normalize_phone (codes "+254" ++ subscriber) ≡ ok (e164 subscriber))
normalize_formats_example = normalize_formats subscriber subscriber-IsSubscriber

normalize-IsSubscriber_example : (q : Bytes) × IsSubscriber q × (codes "+254712345678" ≡ e164 q)
unfolding normalize_phone
normalize-IsSubscriber_example = normalize-IsSubscriber (codes "0712 345-678") refl
