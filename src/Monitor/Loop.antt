-- ===== src/Monitor/Loop.antt =====
-- `Run` of internal/monitor/monitor.go: a poll at once and one at each tick, until the context is done.
-- The instants of the ticks that come before that are a list.
use dcm_kcli_provider.Prelude.{
  ℕ, ◌≡◌, ◌↔◌, ◌∙◌, if◌then◌else◌, refl, sym, ap, true, Option, none, some, List, [], ◌∷◌, arith,
}
use dcm_kcli_provider.Text.{is_positive}
use dcm_kcli_provider.Store.Entry.{StateStore}
use dcm_kcli_provider.Kweb.Api.{KwebClient}
use dcm_kcli_provider.Monitor.Publishing.{Debounce, flush_pending}
use dcm_kcli_provider.Monitor.{Config, Monitor, orphan_count, poll}
use dcm_kcli_provider.Monitor.Safety.{IsDown, poll_down}

module _ {S K : Type 0} (St : StateStore S) (Kw : KwebClient K) (config : Config) where
  unfoldable pub poll_loop : List ℕ → Monitor S K → Monitor S K
  poll_loop [] m = m
  poll_loop (now ∷ ticks) m = poll_loop ticks (poll St Kw config now m)

  -- time.NewTicker panics where its interval is not positive: `none`.
  unfoldable pub run : ℕ → List ℕ → Monitor S K → Option (Monitor S K)
  unfolding poll_loop
  run now ticks m =
      let m' = poll_loop ticks (poll St Kw config now m) in
      if is_positive config.poll_interval then some m' else none

  -- Flushes at these instants.
  pub flushes : List ℕ → Debounce → Debounce
  flushes [] d = d
  flushes (now ∷ ticks) d = flushes ticks (flush_pending config.debounce_window now d)

  poll_loop_down :
      (ticks : List ℕ) (m : Monitor S K)
      → IsDown Kw
      → let m' = poll_loop ticks m in
        (m'.store ≡ m.store)
        × (m'.managed ≡ m.managed)
        × (m'.orphan_counter ≡ m.orphan_counter)
        × (m'.debounce ≡ flushes ticks m.debounce)
  unfolding poll_loop flushes
  poll_loop_down [] m h = (refl, refl, refl, refl)
  poll_loop_down (now ∷ ticks) m h =
      let (s, g, o, d) = poll_down St Kw config now m h in
      let (s', g', o', d') = poll_loop_down ticks (poll St Kw config now m) h in
      (s' ∙ s, g' ∙ g, o' ∙ o, d' ∙ ap (flushes ticks) d)

  -- While kweb can list neither VMs nor clusters, a monitor that runs through any number of polls
  -- leaves the store, the gauge and the orphan counter as they were, and does to the events only
  -- what flushes of the pending ones at those instants do.
  pub run_down :
      (now : ℕ) (ticks : List ℕ) (m m' : Monitor S K)
      → IsDown Kw
      → run now ticks m ≡ some m'
      → (m'.store ≡ m.store)
        × (m'.managed ≡ m.managed)
        × (orphan_count m' ≡ orphan_count m)
        × (m'.debounce ≡ flushes (now ∷ ticks) m.debounce)
  unfolding run poll_loop
  run_down now ticks m m' h r =
      let e : poll_loop (now ∷ ticks) m ≡ m' = ground arith in
      let (s, g, o, d) = poll_loop_down (now ∷ ticks) m h in
      (
        sym (ap Monitor.store e) ∙ s,
        sym (ap Monitor.managed e) ∙ g,
        sym (ap Monitor.orphan_counter e) ∙ o,
        sym (ap Monitor.debounce e) ∙ d,
      )

  poll_loop_polled :
      (ticks : List ℕ) (m : Monitor S K)
      → m.first_poll_done ≡ true
      → (poll_loop ticks m).first_poll_done ≡ true
  unfolding poll_loop poll
  poll_loop_polled [] m h = h
  poll_loop_polled (now ∷ ticks) m h = poll_loop_polled ticks (poll St Kw config now m) refl

  -- The interval decides whether the loop runs at all, and then the first poll is done.
  pub run_starts :
      (now : ℕ) (ticks : List ℕ) (m : Monitor S K)
      → (is_positive config.poll_interval ≡ true)
        ↔ ((m' : Monitor S K) × (run now ticks m ≡ some m') × (m'.first_poll_done ≡ true))
  unfolding run poll
  run_starts now ticks m =
      let m₁ = poll St Kw config now m in
      (
        λ p. (poll_loop ticks m₁, rw p refl, poll_loop_polled ticks m₁ refl),
        λ (m', r, d). ground arith,
      )
