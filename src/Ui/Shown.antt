-- ===== src/Ui/Shown.antt =====
-- From the proxy to the browser: the flows of interleaved handlers, recorded by the hub, and asked
-- for by their numbers.
use mathlib.Core.List.{Permᴰ}
use proxysim.Prelude.{
  sym, refl, ℕ, zero, suc, ◌+◌, ◌-◌, ◌^◌, ◌<◌, ◌≤◌, ◌≡◌, ap, ◌∙◌, List, [], ◌∷◌, ◌++◌, Option, some,
  Text, length, drop, ltb, ◌==◌, if◌then◌else◌, arith, Bool-cases, inl, inr,
}
use proxysim.Strings.Decimal.{decimal, parse_uint-decimal}
use proxysim.Flow.{Flow}
use proxysim.Flow.Decode.{Codecs}
use proxysim.Proxy.Server.{Server, World}
use proxysim.Proxy.Programs.{Incoming, begin, interleave}
use proxysim.Proxy.Programs.Distinct.{
  count, IsNumbered, interleave-IsNumbered, last_id-interleave, count-append,
}
use proxysim.Ui.{Op, emits, find, lookup}
use proxysim.Ui.Live.{Act, live, acts}
use proxysim.Ui.Live.Atomic.{arrivals, hub_of, ring-atomic}
use proxysim.Ui.Ring.{last_of, recorded, ring-eq-last}
use proxysim.Ui.Detail.{document, build_detail, handle_detail}

-- the flows that reach the hub
abbrev pub arriving : List Op → List Flow
arriving [] = []
arriving (emits f ∷ ops) = f ∷ arriving ops
arriving (_ ∷ ops) = arriving ops

count-recorded :
    (marshal : Flow → Option Text) (id : ℕ) (ops : List Op)
    → count id (recorded marshal ops) ≤ count id (arriving ops)
unfolding count
count-recorded marshal id [] = omega arith
count-recorded marshal id (emits f ∷ ops) = ground (arith, count-recorded marshal id ops)
count-recorded marshal id (Op.connects key ∷ ops) = count-recorded marshal id ops
count-recorded marshal id (Op.disconnects key ∷ ops) = count-recorded marshal id ops
count-recorded marshal id (Op.receives key ∷ ops) = count-recorded marshal id ops

-- the order of flows does not matter
count-perm : (id : ℕ) {fs gs : List Flow} → Permᴰ fs gs → count id fs ≡ count id gs
unfolding count
count-perm id Permᴰ.nil = refl
count-perm id (Permᴰ.cons e p) =
    omega (arith, ap {B = ℕ} (λ f. if f.id == id then 1 else 0) e, count-perm id p)
count-perm id (Permᴰ.swap e f) = omega (
  arith,
  ap {B = ℕ} (λ f. if f.id == id then 1 else 0) e,
  ap {B = ℕ} (λ f. if f.id == id then 1 else 0) f,
)
count-perm id (Permᴰ.trans p q) = count-perm id p ∙ count-perm id q

count-drop : (id k : ℕ) (fs : List Flow) → count id (drop k fs) ≤ count id fs
unfolding count
count-drop id zero fs = omega arith
count-drop id (suc k) [] = omega arith
count-drop id (suc k) (f ∷ fs) = omega (arith, count-drop id k fs)

-- a flow whose id no other has is the one that is found
find-only :
    (f : Flow) (before after : List Flow)
    → count f.id (before ++ f ∷ after) ≤ 1
    → find f.id (before ++ f ∷ after) ≡ some f
unfolding find count
find-only f [] after h = ground arith
find-only f (g ∷ before) after h = elim (Bool-cases (g.id == f.id)) [
  | inl e ↦ ground (arith, e, h, count-append f.id before (f ∷ after))
  | inr e ↦ rw e (find-only f before after (omega (arith, h)))
]

count-member : (f : Flow) (before after : List Flow) → 1 ≤ count f.id (before ++ f ∷ after)
unfolding count
count-member f before after = ground (arith, count-append f.id before (f ∷ after))

-- However handlers interleave, and however the emitters' sends and the browsers interleave with them,
-- each flow that the ring still holds is shown in full to whoever asks for its number, and not another
-- flow. The flows reach the hub in any order, and the counter starts and stays below 2^64.
pub shown :
    (resolve_tcp : Text → Option Text) (s : Server) (xs : List Incoming) (ns : List ℕ) (w : World)
    (c : Codecs) (marshal : Flow → Option Text) (history : ℕ) (trace : List Act) (f : Flow)
    (before after : List Flow)
    → IsNumbered w
    → w.last_id + length ns < 2 ^ 64
    → Permᴰ (arriving (arrivals trace)) (interleave ns (begin resolve_tcp s xs) w).0.emitted
    → (acts marshal trace (live history)).ring ≡ before ++ f ∷ after
    → handle_detail c (hub_of (acts marshal trace (live history))) (decimal f.id)
      ≡ document (build_detail c f)
unfolding handle_detail lookup
shown resolve_tcp s xs ns w c marshal history trace f before after numbered b order held =
    let w' : World = (interleave ns (begin resolve_tcp s xs) w).0 in
    let numbered' : IsNumbered w' = interleave-IsNumbered resolve_tcp s xs ns w numbered b in
    let all = recorded marshal (arrivals trace) in
    let cap : ℕ = if ltb history 1 then 1 else history in
    let kept : last_of cap all ≡ before ++ f ∷ after =
      sym (ring-atomic marshal history trace ∙ ring-eq-last marshal history (arrivals trace))
      ∙ held in
    let most : count f.id (before ++ f ∷ after) ≤ count f.id w'.emitted = omega (
      arith,
      ap (count f.id) kept,
      count-perm f.id order,
      count-drop f.id (length all - cap) all,
      count-recorded marshal f.id (arrivals trace),
    ) in
    let small : f.id < 2 ^ 64 = ground (
      arith,
      most,
      count-member f before after,
      numbered'.above f.id,
      last_id-interleave resolve_tcp s xs ns w numbered b,
      b,
    ) in
    let found : find f.id (acts marshal trace (live history)).ring ≡ some f =
      ap (find f.id) held ∙ find-only f before after (omega (arith, most, numbered'.once f.id)) in
    rw (handle_detail, parse_uint-decimal f.id small, found) refl
