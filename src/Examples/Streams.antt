-- ===== src/Examples/Streams.antt =====
-- internal/ui/hub.go with a browser that joins, reads and leaves while two flows are emitted.
use proxysim.Prelude.{
  length, arith, ◌+◌, ◌%◌, ◌≤◌, ◌⊎◌, ◌^◌, ◌≡◌, refl, true, false, List, [], ◌∷◌, Option, some, Text,
}
use proxysim.Flow.{Flow}
use proxysim.Ui.{client_buffer}
use proxysim.Ui.Live.{
  Live, live, registered, Act, enters, sends, joins, takes, writes, removes, act, acts, join,
}
use proxysim.Ui.Live.Stream.{stream_at}
use proxysim.Ui.Live.Sends.{times, pending, dropped_at}
use proxysim.Ui.Live.Accounts.{due, acts_accounts}
use proxysim.Ui.Live.Honest.{AllHonest, acts-AllHonest}
use proxysim.Ui.Live.Order.{Begins, stream_at-acts}
use proxysim.Ui.Live.Ending.{left, emit_ends}
use proxysim.Examples.Data.{flow_numbered}

abbrev id_text : Flow → Option Text
id_text f = some (f.id ∷ [])

-- the second flow is sent before the first, to a browser that has left by then
abbrev trace : List Act
trace =
    enters (flow_numbered 1)
    ∷ joins true
    ∷ enters (flow_numbered 2)
    ∷ enters (flow_numbered 3)
    ∷ sends 2 0
    ∷ takes 0
    ∷ writes false 0
    ∷ removes 0
    ∷ sends 1 0
    ∷ enters (flow_numbered 4)
    ∷ []

acts_accounts_example :
    let l = acts id_text trace (live 2) in
    (lost : List Text) × ((x : Text)
      → times x (stream_at 0 l.browsers) + times x lost + pending x 0 l.sending
        ≡ times x (due 0 id_text trace (live 2)))
    × (dropped_at 0 l.browsers ≡ length lost % 2 ^ 64)
    × ((lost ≡ []) ⊎ (client_buffer ≤ length (stream_at 0 l.browsers)))
acts_accounts_example = acts_accounts id_text 2 trace 0

both_due : due 0 id_text trace (live 2) ≡ (2 ∷ []) ∷ (3 ∷ []) ∷ []
unfolding due acts act live registered join
both_due = refl

acts-AllHonest_example : AllHonest (acts id_text trace (live 2)).browsers
unfolding live
acts-AllHonest_example = acts-AllHonest id_text trace (live 2) tt

-- an emission to one browser, which another emission and a read come between
abbrev under_way : Live
under_way = acts id_text (joins true ∷ enters (flow_numbered 1) ∷ []) (live 2)

one_target : (length under_way.sending ≡ 1) × (left 0 under_way.sending ≡ 1)
unfolding acts act live join registered left
one_target = (refl, refl)

emit_ends_example :
    left 0
      (acts id_text
        (enters (flow_numbered 2) ∷ sends 1 0 ∷ takes 0 ∷ sends 0 0 ∷ [])
        under_way).sending
    ≡ 0
emit_ends_example =
    emit_ends id_text 0 (enters (flow_numbered 2) ∷ sends 1 0 ∷ takes 0 ∷ sends 0 0 ∷ []) under_way
      (omega (arith, one_target.0)) (omega (arith, one_target.1))

stream_at-acts_example :
    Begins
      (stream_at 0 under_way.browsers)
      (stream_at 0 (acts id_text (sends 0 0 ∷ takes 0 ∷ []) under_way).browsers)
stream_at-acts_example = stream_at-acts id_text 0 (sends 0 0 ∷ takes 0 ∷ []) under_way
