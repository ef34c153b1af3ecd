-- ===== src/Monitor/Publishing/Converging.antt =====
-- What subscribers know of a resource in the end: the debounce may drop an event, but never the last.
use dcm_kcli_provider.Prelude.{
  ℕ, String, ◌≡◌, refl, ◌∙◌, ap, sym, true, Option, none, some, List, [], ◌∷◌, ◌==◌, if◌then◌else◌,
  arith, eq_iff, Bool-cases, Option-cases, inl, inr,
}
use dcm_kcli_provider.Prelude.Dict.{Dict, lookup, lookup-remove}
use dcm_kcli_provider.Events.{Published, event_of}
use dcm_kcli_provider.Monitor.Publishing.{
  PendingEvent, Debounce, event_at, stamp, publish_event, due, extracted, publish_extracted,
  publish_with_debounce, flush_round, flush_pending, forget,
}
use dcm_kcli_provider.Monitor.Publishing.Laws.{
  scheduled, publish_due, publish_held, flush_fused, flush_pending-fused, flush_pending-due,
  flush_pending_untouched,
}
use dcm_kcli_provider.Monitor.Publishing.Spacing.{Op, publish, flush, drop, apply, run, Keeps}

-- The status in the newest event of an id.
abbrev pub newest : String → List Published → Option String
newest id [] = none
newest id (p ∷ ps) =
    let rest = newest id ps in if (event_of p).id == id then some (event_of p).status else rest

abbrev pub or_newest : Option PendingEvent → Option String → Option String
or_newest none s = s
or_newest (some pe) s = some pe.status

-- The status that an id's subscribers have, or that waits to be published to them.
abbrev pub reported : String → Debounce → Option String
reported id d = or_newest (lookup id d.pending) (newest id d.published)

-- The status that the last publish of an id asks for, or an earlier one.
abbrev pub requested : String → Option String → List (ℕ × Op) → Option String
requested id before [] = before
requested id before ((now, publish j kind status message) ∷ ops) =
    requested id (if j == id then some status else before) ops
requested id before ((now, flush) ∷ ops) = requested id before ops
requested id before ((now, drop j) ∷ ops) = requested id before ops

module _ (window : ℕ) (id : String) where
  newest-event_at :
      (now : ℕ) (j : String) (pe : PendingEvent) (ps : List Published)
      → newest id (event_at now j pe ∷ ps) ≡ (if j == id then some pe.status else newest id ps)
  unfolding event_at
  newest-event_at now j pe ps = ground arith

  reported-of :
      (d : Debounce) (p : Option PendingEvent) (ps : List Published)
      → lookup id d.pending ≡ p
      → d.published ≡ ps
      → reported id d ≡ or_newest p (newest id ps)
  reported-of d p ps h k = rw (h, k) refl

  round-reported :
      (now : ℕ) (j : String) (d : Debounce)
      → reported id (publish_extracted j (flush_round window now j d)) ≡ reported id d
  unfolding flush_round extracted publish_event event_at
  round-reported now j d = elim (Option-cases (lookup j d.pending)) [
    | inl n ↦ ground arith
    | inr (pe, p) ↦ ground (arith, lookup-remove j id d.pending, eq_iff j id)
  ]

  flush_fused-reported :
      (now : ℕ) (ids : Dict PendingEvent) (d : Debounce)
      → reported id (flush_fused window now ids d) ≡ reported id d
  unfolding flush_fused
  flush_fused-reported now [] d = refl
  flush_fused-reported now ((j, _) ∷ ids) d =
      flush_fused-reported now ids (publish_extracted j (flush_round window now j d))
      ∙ round-reported now j d

  publish-reported :
      (now : ℕ) (j kind status message : String) (d : Debounce)
      → reported id (publish_with_debounce window now j kind status message d)
        ≡ (if j == id then some status else reported id d)
  publish-reported now j kind status message d = elim (Bool-cases (due window now j d)) [
    | inl t ↦
        let (p, q, _) = publish_due window now j kind status message d id t in
        reported-of (publish_with_debounce window now j kind status message d) _ _ q p
        ∙ ground (
          arith,
          newest-event_at (stamp d) j (scheduled window now j kind status message d) d.published,
        )
    | inr f ↦
        let (p, q, _) = publish_held window now j kind status message d id f in
        reported-of (publish_with_debounce window now j kind status message d) _ _ q p
        ∙ ground arith
  ]

  -- Over operations that do not drop the resource, what is reported is what was last asked for.
  pub run-reported :
      (ops : List (ℕ × Op)) (d : Debounce)
      → Keeps id ops
      → reported id (run window ops d) ≡ requested id (reported id d) ops
  unfolding run apply forget
  run-reported [] d k = refl
  run-reported ((now, publish j kind status message) ∷ ops) d k =
      run-reported ops (publish_with_debounce window now j kind status message d) k
      ∙ ap (λ s. requested id s ops) (publish-reported now j kind status message d)
  run-reported ((now, flush) ∷ ops) d k =
      run-reported ops (flush_pending window now d) k
      ∙ ap (λ s. requested id s ops)
          (rw (flush_pending-fused window now d) (flush_fused-reported now d.pending d))
  run-reported ((now, drop j) ∷ ops) d k =
      run-reported ops (forget j d) k.1
      ∙ ap (λ s. requested id s ops) (ground (arith, lookup-remove j id d.pending, k.0))

  flushed-pending :
      (now : ℕ) (d : Debounce)
      → due window now id d ≡ true
      → lookup id (flush_pending window now d).pending ≡ none
  flushed-pending now d t = elim (Option-cases (lookup id d.pending)) [
    | inl n ↦ (flush_pending_untouched window now id d (inr n)).0 ∙ n
    | inr (pe, p) ↦ (flush_pending-due window now id pe d p t).0
  ]

  -- Where the resource is not dropped, a flush after the window of its last event has published an
  -- event with the status that was last asked for, whatever events the debounce has dropped before.
  pub flush-newest :
      (ops : List (ℕ × Op)) (now : ℕ) (d : Debounce)
      → Keeps id ops
      → due window now id (run window ops d) ≡ true
      → newest id (flush_pending window now (run window ops d)).published
        ≡ requested id (reported id d) ops
  flush-newest ops now d k t =
      let e = run window ops d in
      let e' = flush_pending window now e in
      sym (reported-of e' none e'.published (flushed-pending now e t) refl)
      ∙ rw (flush_pending-fused window now e) (flush_fused-reported now e.pending e)
      ∙ run-reported ops d k
