-- ===== src/Examples/Sinks.antt =====
-- internal/flow/async.go with one place, and a wrapped sink that lists what it gets.
use proxysim.Prelude.{◌≡◌, refl, true, false, List, [], ◌∷◌, ◌++◌, arith}
use proxysim.Flow.{Flow}
use proxysim.Flow.Async.{AsyncSink, new, emit, close, Reaches, here, next, emits}
use proxysim.Flow.Async.Delivery.{Accounts, pending, reached-Accounts}
use proxysim.Flow.Async.Closing.{run_drainer, close_drains}
use proxysim.Examples.Data.{flow_numbered}

abbrev push_back : Flow → List Flow → List Flow
push_back f fs = fs ++ f ∷ []

abbrev one : Flow
one = flow_numbered 1

abbrev two : Flow
two = flow_numbered 2

abbrev start : AsyncSink (List Flow)
unfolding new
start = new [] 1

-- the second flow finds the only place taken
abbrev full : AsyncSink (List Flow)
unfolding new emit
full = emit false two (emit false one start)

full_reached : Reaches push_back (new [] 1) (one ∷ two ∷ []) full
unfolding new emit
full_reached =
    next (next here (emits start false one refl)) (emits (emit false one start) false two refl)

reached-Accounts_example : Accounts push_back [] 1 (one ∷ two ∷ []) full
reached-Accounts_example = reached-Accounts push_back full_reached

close_drains_example :
    let b = run_drainer push_back 4 (close push_back full) in
    (b.done ≡ true) × (pending b ≡ []) × Accounts push_back [] 1 (one ∷ two ∷ []) b
unfolding full
close_drains_example = close_drains push_back [] 1 4 full_reached refl (omega arith)
