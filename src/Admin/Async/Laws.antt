-- ===== src/Admin/Async/Laws.antt =====
-- Lemmas about what a component that loads data shows.
-- Code: apps/admin-ui/src/App.tsx
use pgapp.Common.{
  ℕ, suc, ◌+◌, ◌<◌, ◌≡◌, refl, sym, ap, ◌∙◌, subst, Bool, true, false, List, [], ◌∷◌, ◌++◌, length,
  ◌==◌, if◌then◌else◌, ◌&&◌, not, All, arith,
}
use pgapp.Common.Result.{Result}
use pgapp.Admin.Async.{
  LoadState, loading, failed, settled, Run, Hook, initial, Event, effect, settle, unmount,
  cancel_newest, is_live, settle_runs, step, run_events,
}

-- A page that remembers how many effects there were and whether it awaits the newest one.
pub record Page (T : Type 0) : Type 0 where
  pub shown : LoadState T
  pub effects : ℕ
  pub awaits : Bool

-- Whether `id` is the newest of `n` effects.
abbrev pub is_newest : ℕ → ℕ → Bool
is_newest id n = suc id == n

abbrev pub turn : {T : Type 0} → Event T → Page T → Page T
turn (effect enabled) page = record {
  shown = if enabled then loading else failed "Admin token required";
  effects = suc page.effects;
  awaits = enabled;
}
turn (settle id outcome) page = record {
  shown = if is_newest id page.effects && page.awaits then settled outcome else page.shown;
  effects = page.effects;
  awaits = if is_newest id page.effects then false else page.awaits;
}
turn unmount page = record { shown = page.shown; effects = page.effects; awaits = false }

abbrev pub turns : {T : Type 0} → List (Event T) → Page T → Page T
turns [] page = page
turns (event ∷ events) page = turns events (turn event page)

abbrev pub blank : {T : Type 0} → Page T
blank = record { shown = loading; effects = 0; awaits = false }

-- A run below `n` that is cancelled.
abbrev IsOld : ℕ → Run → Type 0
IsOld n run = (run.id < n) × (run.cancelled ≡ true)

-- The runs are those of `n` effects, all but the newest cancelled, and the newest awaited as said.
abbrev AreRuns : List Run → ℕ → Bool → Type 0
AreRuns [] n awaits = (n ≡ 0) × (awaits ≡ false)
AreRuns (run ∷ runs) n awaits =
    (suc run.id ≡ n)
    × (length runs ≡ run.id)
    × ((run.pending && not run.cancelled) ≡ awaits)
    × All (IsOld run.id) runs

record Follows {T : Type 0} (hook : Hook T) (page : Page T) : Type 0 where
  state : hook.state ≡ page.shown
  runs : AreRuns hook.runs page.effects page.awaits

length-AreRuns : (runs : List Run) (n : ℕ) (awaits : Bool) → AreRuns runs n awaits → length runs ≡ n
length-AreRuns [] n awaits h = omega (arith, h.0)
length-AreRuns (run ∷ runs) n awaits h = omega (arith, h.0, h.1)

length-cancel_newest : (runs : List Run) → length (cancel_newest runs) ≡ length runs
unfolding cancel_newest
length-cancel_newest [] = refl
length-cancel_newest (run ∷ runs) = refl

-- Cancelling leaves only old runs.
All-weaken : (m n : ℕ) → m < n → (runs : List Run) → All (IsOld m) runs → All (IsOld n) runs
All-weaken m n h [] a = tt
All-weaken m n h (run ∷ runs) ((below, c), a) = ((omega arith, c), All-weaken m n h runs a)

cancel_newest-Old :
    (runs : List Run) (n : ℕ) (awaits : Bool)
    → AreRuns runs n awaits
    → All (IsOld n) (cancel_newest runs)
unfolding cancel_newest
cancel_newest-Old [] n awaits h = tt
cancel_newest-Old (run ∷ runs) n awaits (e, l, w, old) =
    ((omega arith, refl), All-weaken run.id n (omega arith) runs old)

is_live-old : (id n : ℕ) (runs : List Run) → All (IsOld n) runs → is_live id runs ≡ false
unfolding is_live
is_live-old id n [] old = refl
is_live-old id n (run ∷ runs) ((below, c), old) = ground (arith, is_live-old id n runs old)

is_live-AreRuns :
    (id : ℕ) (runs : List Run) (n : ℕ) (awaits : Bool)
    → AreRuns runs n awaits
    → is_live id runs ≡ (is_newest id n && awaits)
unfolding is_live
is_live-AreRuns id [] n awaits (e, w) = ground arith
is_live-AreRuns id (run ∷ runs) n awaits (e, l, w, old) =
    ground (arith, is_live-old id run.id runs old)

length-settle_runs : (id : ℕ) (runs : List Run) → length (settle_runs id runs) ≡ length runs
unfolding settle_runs
length-settle_runs id [] = refl
length-settle_runs id (run ∷ runs) = ap suc (length-settle_runs id runs)

settle_runs-Old :
    (id n : ℕ) (runs : List Run) → All (IsOld n) runs → All (IsOld n) (settle_runs id runs)
unfolding settle_runs
settle_runs-Old id n [] old = tt
settle_runs-Old id n (run ∷ runs) (h, old) = (h, settle_runs-Old id n runs old)

settle_runs-AreRuns :
    (id : ℕ) (runs : List Run) (n : ℕ) (awaits : Bool)
    → AreRuns runs n awaits
    → AreRuns (settle_runs id runs) n (if is_newest id n then false else awaits)
unfolding settle_runs
settle_runs-AreRuns id [] n awaits (e, w) = (e, ground arith)
settle_runs-AreRuns id (run ∷ runs) n awaits (e, l, w, old) =
    (e, omega (arith, length-settle_runs id runs), ground arith, settle_runs-Old id run.id runs old)

cancel_newest-AreRuns :
    (runs : List Run) (n : ℕ) (awaits : Bool)
    → AreRuns runs n awaits
    → AreRuns (cancel_newest runs) n false
unfolding cancel_newest
cancel_newest-AreRuns [] n awaits (e, w) = (e, refl)
cancel_newest-AreRuns (run ∷ runs) n awaits (e, l, w, old) = (e, l, ground arith, old)

step-Follows :
    {T : Type 0} (event : Event T) (hook : Hook T) (page : Page T)
    → Follows hook page
    → Follows (step event hook) (turn event page)
unfolding step
step-Follows (effect enabled) hook page h =
    let count = length-AreRuns hook.runs page.effects page.awaits h.runs in
    record {
      state = refl;
      runs = (
        ap suc count,
        length-cancel_newest hook.runs,
        ground arith,
        subst (λ n. All (IsOld n) (cancel_newest hook.runs)) (sym count)
            (cancel_newest-Old hook.runs page.effects page.awaits h.runs),
      );
    }
step-Follows (settle id outcome) hook page h = record {
  state = rw (is_live-AreRuns id hook.runs page.effects page.awaits h.runs, h.state) refl;
  runs = settle_runs-AreRuns id hook.runs page.effects page.awaits h.runs;
}
step-Follows unmount hook page h = record {
  state = h.state;
  runs = cancel_newest-AreRuns hook.runs page.effects page.awaits h.runs;
}

run_events-Follows :
    {T : Type 0} (events : List (Event T)) (hook : Hook T) (page : Page T)
    → Follows hook page
    → Follows (run_events events hook) (turns events page)
unfolding run_events
run_events-Follows [] hook page h = h
run_events-Follows (event ∷ events) hook page h =
    run_events-Follows events (step event hook) (turn event page) (step-Follows event hook page h)

-- After any sequence of events what the component shows is what a page shows that knows only the
-- number of effects and whether it awaits the newest: results of earlier effects, results that come
-- after the component is unmounted, and second results are ignored.
pub run_events-turns :
    {T : Type 0} (events : List (Event T))
    → (run_events events initial).state ≡ (turns events blank).shown
run_events-turns events =
    (run_events-Follows events initial blank (record { state = refl; runs = (refl, refl) })).state

-- A promise settles.
abbrev pub IsSettlement : {T : Type 0} → Event T → Type 0
IsSettlement (effect enabled) = ⊥
IsSettlement (settle id outcome) = Unit
IsSettlement unmount = ⊥

-- The promise of a run before the newest of `n` settles.
abbrev pub IsOlder : {T : Type 0} → ℕ → Event T → Type 0
IsOlder n (effect enabled) = ⊥
IsOlder n (settle id outcome) = suc id < n
IsOlder n unmount = ⊥

turns-append :
    {T : Type 0} (first second : List (Event T)) (page : Page T)
    → turns (first ++ second) page ≡ turns second (turns first page)
turns-append [] second page = refl
turns-append (event ∷ first) second page = turns-append first second (turn event page)

turn_settle-idle :
    {T : Type 0} (id : ℕ) (outcome : Result T) (page : Page T)
    → page.awaits ≡ false
    → ((turn (settle id outcome) page).shown ≡ page.shown)
      × ((turn (settle id outcome) page).awaits ≡ false)
turn_settle-idle id outcome page e = (ground arith, ground arith)

turn_settle-newest :
    {T : Type 0} (id : ℕ) (outcome : Result T) (page : Page T)
    → suc id ≡ page.effects
    → page.awaits ≡ true
    → ((turn (settle id outcome) page).shown ≡ settled outcome)
      × ((turn (settle id outcome) page).awaits ≡ false)
turn_settle-newest id outcome page n e = (ground arith, ground arith)

turns-settled :
    {T : Type 0} (events : List (Event T)) (page : Page T)
    → All IsSettlement events
    → page.awaits ≡ false
    → (turns events page).shown ≡ page.shown
turns-settled [] page h e = refl
turns-settled (settle id outcome ∷ events) page (h, hs) e =
    let idle = turn_settle-idle id outcome page e in
    turns-settled events (turn (settle id outcome) page) hs idle.1 ∙ idle.0
turns-settled (effect enabled ∷ events) page (h, hs) e = absurd h
turns-settled (unmount ∷ events) page (h, hs) e = absurd h

turns-older :
    {T : Type 0} (events : List (Event T)) (page : Page T)
    → All (IsOlder page.effects) events
    → page.awaits ≡ true
    → ((turns events page).awaits ≡ true) × ((turns events page).effects ≡ page.effects)
turns-older [] page h e = (e, refl)
turns-older (settle id outcome ∷ events) page (h, hs) e =
    turns-older events (turn (settle id outcome) page) hs (ground arith)
turns-older (effect enabled ∷ events) page (h, hs) e = absurd h
turns-older (unmount ∷ events) page (h, hs) e = absurd h

-- The number of effects among the events.
abbrev pub effects_of : {T : Type 0} → List (Event T) → ℕ
effects_of [] = 0
effects_of (effect enabled ∷ events) = suc (effects_of events)
effects_of (settle id outcome ∷ events) = effects_of events
effects_of (unmount ∷ events) = effects_of events

turns-effects :
    {T : Type 0} (events : List (Event T)) (page : Page T)
    → (turns events page).effects ≡ page.effects + effects_of events
turns-effects [] page = omega arith
turns-effects (effect enabled ∷ events) page =
    omega (arith, turns-effects events (turn (effect enabled) page))
turns-effects (settle id outcome ∷ events) page =
    turns-effects events (turn (settle id outcome) page)
turns-effects (unmount ∷ events) page = turns-effects events (turn unmount page)

-- Whatever happened before, once an enabled effect has run, the result of its promise is what the
-- component shows: results of older effects that come before it, and all results that come after it,
-- change nothing.
pub newest_result :
    {T : Type 0} (before older after : List (Event T)) (outcome : Result T)
    → All (IsOlder (suc (effects_of before))) older
    → All IsSettlement after
    → (run_events
        (before ++ (effect true ∷ (older ++ (settle (effects_of before) outcome ∷ after))))
        initial).state
      ≡ settled outcome
newest_result before older after outcome old rest =
    let later = settle (effects_of before) outcome ∷ after in
    let page = turns before blank in
    let started = turn (effect true) page in
    let count : page.effects ≡ effects_of before = omega (arith, turns-effects before blank) in
    let waits =
      turns-older older started (subst (λ n. All (IsOlder (suc n)) older) (sym count) old) refl in
    let waiting = turns older started in
    let settling =
      turn_settle-newest (effects_of before) outcome waiting (omega (arith, count, waits.1))
        waits.0 in
    run_events-turns (before ++ (effect true ∷ (older ++ later)))
    ∙ ap (λ p. p.shown) (turns-append before (effect true ∷ (older ++ later)) blank)
    ∙ ap (λ p. p.shown) (turns-append older later started)
    ∙ turns-settled after (turn (settle (effects_of before) outcome) waiting) rest settling.1
    ∙ settling.0
