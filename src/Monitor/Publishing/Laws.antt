-- ===== src/Monitor/Publishing/Laws.antt =====
-- What one call of `publishWithDebounce` and of `flushPending` does.
use dcm_kcli_provider.Prelude.{
  ℕ, String, ◌≡◌, refl, ◌∙◌, ap, ◌⊎◌, inl, inr, true, false, ◌&&◌, Option, none, some, [], ◌∷◌,
  ◌==◌, if◌then◌else◌, arith, eq_iff, eq_refl, Bool-cases, Member,
}
use dcm_kcli_provider.Prelude.Dict.{Dict, lookup, insert, lookup-insert, lookup-remove}
use dcm_kcli_provider.Events.{Published}
use dcm_kcli_provider.Monitor.Publishing.{
  PendingEvent, Debounce, event_at, stamp, publish_event, due_since, due, extracted,
  publish_extracted, publish_with_debounce, flush_round, flush_collected, flush_loop, publish_all,
  flush_pending, forget,
}

module _ (window now : ℕ) (id kind status message : String) (d : Debounce) where
  abbrev pub scheduled : PendingEvent
  scheduled = record {
    resource_type = kind;
    status = status;
    message = message;
    scheduled_at = now;
  }

  abbrev after : Debounce
  after = publish_with_debounce window now id kind status message d

  -- With no publish of the id in the window, the event is published at once, nothing stays pending
  -- for the id, and the window starts anew; other ids are untouched.
  pub publish_due :
      (j : String)
      → due window now id d ≡ true
      → (after.published ≡ event_at (stamp d) id scheduled ∷ d.published)
        × (lookup j after.pending ≡ (if id == j then none else lookup j d.pending))
        × (lookup j after.last_publish ≡ (if id == j then some now else lookup j d.last_publish))
  unfolding publish_with_debounce extracted
  publish_due j h = ground (
    arith,
    lookup-insert id id scheduled d.pending,
    lookup-insert id j scheduled d.pending,
    lookup-remove id j (insert id scheduled d.pending),
    lookup-insert id j now d.last_publish,
    eq_refl id,
  )

  -- Within the window nothing is published: the event waits, in place of the one that waited.
  pub publish_held :
      (j : String)
      → due window now id d ≡ false
      → (after.published ≡ d.published)
        × (lookup j after.pending ≡ (if id == j then some scheduled else lookup j d.pending))
        × (after.last_publish ≡ d.last_publish)
  unfolding publish_with_debounce
  publish_held j h = ground (arith, lookup-insert id j scheduled d.pending)

  -- The instants that are stamped.
  pub publish_due-taken : due window now id d ≡ true → after.taken ≡ (id, now) ∷ d.taken
  unfolding publish_with_debounce extracted
  publish_due-taken h = ground (arith, lookup-insert id id scheduled d.pending, eq_refl id)

  pub publish_held-taken : due window now id d ≡ false → after.taken ≡ d.taken
  unfolding publish_with_debounce
  publish_held-taken h = ground arith

-- `flushPending` with each event published in its own round.
unfoldable pub flush_fused : ℕ → ℕ → Dict PendingEvent → Debounce → Debounce
flush_fused window now [] d = d
flush_fused window now ((id, _) ∷ ids) d =
    flush_fused window now ids (publish_extracted id (flush_round window now id d))

abbrev publish_before :
    String → PendingEvent → Debounce × Option PendingEvent → Debounce × Option PendingEvent
publish_before id pe (d, o) = (publish_event id pe d, o)

module _ (window now : ℕ) where
  -- A round does not look at what has been published.
  flush_round-publish :
      (j id : String) (pe : PendingEvent) (d : Debounce)
      → flush_round window now j (publish_event id pe d)
        ≡ publish_before id pe (flush_round window now j d)
  unfolding flush_round publish_event extracted
  flush_round-publish j id pe d = ground arith

  flush_loop-publish :
      (ids : Dict PendingEvent) (id : String) (pe : PendingEvent) (d : Debounce)
      → flush_loop window now ids (publish_event id pe d)
        ≡ (publish_event id pe (flush_loop window now ids d).0, (flush_loop window now ids d).1)
  unfolding flush_loop
  flush_loop-publish [] id pe d = refl
  flush_loop-publish ((j, _) ∷ ids) id pe d =
      rw (flush_round-publish j id pe d)
        (rw (flush_loop-publish ids id pe (flush_round window now j d).0) refl)

  publish_all-flush_loop :
      (ids : Dict PendingEvent) (d : Debounce)
      → publish_all (flush_loop window now ids d).1 (flush_loop window now ids d).0
        ≡ flush_fused window now ids d
  unfolding flush_loop publish_all flush_fused
  publish_all-flush_loop [] d = refl
  publish_all-flush_loop ((j, _) ∷ ids) d =
      let (d', o) = flush_round window now j d in later d' o (publish_all-flush_loop ids)
    where
      later :
          (d' : Debounce) (o : Option PendingEvent)
          → ((e : Debounce)
              → publish_all (flush_loop window now ids e).1 (flush_loop window now ids e).0
                ≡ flush_fused window now ids e)
          → publish_all
              (flush_collected j o (flush_loop window now ids d').1)
              (flush_loop window now ids d').0
            ≡ flush_fused window now ids (publish_extracted j (d', o))
      later d' none ih = ih d'
      later d' (some pe) ih =
          rw (← ih (publish_event j pe d')) (rw (flush_loop-publish ids j pe d') refl)

  pub flush_pending-fused :
      (d : Debounce) → flush_pending window now d ≡ flush_fused window now d.pending d
  unfolding flush_pending
  flush_pending-fused d = publish_all-flush_loop d.pending d

  -- One round at an id: what is due is published and taken out, and the window starts anew.
  flush_round-pending :
      (id j : String) (d : Debounce)
      → lookup j (publish_extracted id (flush_round window now id d)).pending
        ≡ (if id == j && due window now j d then none else lookup j d.pending)
  unfolding flush_round extracted publish_event
  flush_round-pending id j d = ground (arith, lookup-remove id j d.pending, eq_iff id j)

  flush_round-last_publish :
      (id j : String) (d : Debounce) (pe : PendingEvent)
      → lookup j d.pending ≡ some pe
      → lookup j (publish_extracted id (flush_round window now id d)).last_publish
        ≡ (if id == j && due window now j d then some now else lookup j d.last_publish)
  unfolding flush_round extracted publish_event
  flush_round-last_publish id j d pe h =
      ground (arith, lookup-insert id j now d.last_publish, eq_iff id j)

  abbrev round : String → Debounce → Debounce
  round id d = publish_extracted id (flush_round window now id d)

  -- A round leaves an id alone that is not due, or that has no event.
  round_untouched :
      (id j : String) (d : Debounce)
      → (due window now j d ≡ false) ⊎ (lookup j d.pending ≡ none)
      → (lookup j (round id d).pending ≡ lookup j d.pending)
        × (lookup j (round id d).last_publish ≡ lookup j d.last_publish)
  unfolding flush_round extracted publish_event
  round_untouched id j d h =
      ground
        (arith, lookup-remove id j d.pending, lookup-insert id j now d.last_publish, eq_iff id j)

  due_of_last :
      (j : String) (d e : Debounce)
      → lookup j e.last_publish ≡ lookup j d.last_publish
      → due window now j e ≡ due window now j d
  unfolding due
  due_of_last j d e h = ap (due_since window now) h

  flush_fused_untouched :
      (ids : Dict PendingEvent) (j : String) (d : Debounce)
      → (due window now j d ≡ false) ⊎ (lookup j d.pending ≡ none)
      → (lookup j (flush_fused window now ids d).pending ≡ lookup j d.pending)
        × (lookup j (flush_fused window now ids d).last_publish ≡ lookup j d.last_publish)
  unfolding flush_fused
  flush_fused_untouched [] j d h = (refl, refl)
  flush_fused_untouched ((i, _) ∷ ids) j d h =
      let (p, l) = round_untouched i j d h in
      let (p', l') =
        flush_fused_untouched ids j (round i d) (ground (arith, due_of_last j d (round i d) l)) in
      (p' ∙ p, l' ∙ l)

  -- What was published stays published.
  flush_fused-published :
      (ids : Dict PendingEvent) (e : Published) (d : Debounce)
      → Member e d.published
      → Member e (flush_fused window now ids d).published
  unfolding flush_fused
  flush_fused-published [] e d m = m
  flush_fused-published ((i, _) ∷ ids) e d m =
      flush_fused-published ids e (round i d)
        (unfold flush_round extracted publish_event in ground arith)

  -- A round at an id that is due.
  round-due :
      (j : String) (d : Debounce) (pe : PendingEvent)
      → lookup j d.pending ≡ some pe
      → due window now j d ≡ true
      → (lookup j (round j d).pending ≡ none)
        × (lookup j (round j d).last_publish ≡ some now)
        × Member (event_at (stamp d) j pe) (round j d).published
  unfolding flush_round extracted publish_event
  round-due j d pe h t =
      ground (arith, lookup-remove j j d.pending, lookup-insert j j now d.last_publish, eq_refl j)

  -- A round at another id.
  round_other :
      (i j : String) (d : Debounce)
      → (i == j) ≡ false
      → (lookup j (round i d).pending ≡ lookup j d.pending)
        × (lookup j (round i d).last_publish ≡ lookup j d.last_publish)
  unfolding flush_round extracted publish_event
  round_other i j d h =
      ground (arith, lookup-remove i j d.pending, lookup-insert i j now d.last_publish)

  flush_fused-due :
      (ids : Dict PendingEvent) (j : String) (d : Debounce) (x pe : PendingEvent)
      → lookup j ids ≡ some x
      → lookup j d.pending ≡ some pe
      → due window now j d ≡ true
      → (lookup j (flush_fused window now ids d).pending ≡ none)
        × (lookup j (flush_fused window now ids d).last_publish ≡ some now)
        × ((t : ℕ) × Member (event_at t j pe) (flush_fused window now ids d).published)
  unfolding flush_fused
  flush_fused-due [] j d x pe k h t = unfold lookup in ground arith
  flush_fused-due ((i, y) ∷ ids) j d x pe k h t = elim (Bool-cases (i == j)) [
    | inl here ↦
        let at : i ≡ j = (eq_iff i j).0 here in
        let (p, l, m) = round-due j d pe h t in
        let (p', l') = flush_fused_untouched ids j (round j d) (inr p) in
        rw at (
          p' ∙ p,
          l' ∙ l,
          (stamp d, flush_fused-published ids (event_at (stamp d) j pe) (round j d) m),
        )
    | inr other ↦
        let (p, l) = round_other i j d other in
        flush_fused-due ids j (round i d) x pe (unfold lookup in ground arith) (p ∙ h)
          (due_of_last j d (round i d) l ∙ t)
  ]

  -- A flush after the window of an id's last publish publishes the id's pending event, records the
  -- instant as its last publish, and leaves nothing pending for it.
  pub flush_pending-due :
      (j : String) (pe : PendingEvent) (d : Debounce)
      → lookup j d.pending ≡ some pe
      → due window now j d ≡ true
      → let d' = flush_pending window now d in
        (lookup j d'.pending ≡ none)
        × (lookup j d'.last_publish ≡ some now)
        × ((t : ℕ) × Member (event_at t j pe) d'.published)
  flush_pending-due j pe d h t = rw flush_pending-fused (flush_fused-due d.pending j d pe pe h h t)

  -- A flush leaves an id alone that is not due, or that has no event.
  pub flush_pending_untouched :
      (j : String) (d : Debounce)
      → (due window now j d ≡ false) ⊎ (lookup j d.pending ≡ none)
      → let d' = flush_pending window now d in
        (lookup j d'.pending ≡ lookup j d.pending)
        × (lookup j d'.last_publish ≡ lookup j d.last_publish)
  flush_pending_untouched j d h = rw flush_pending-fused (flush_fused_untouched d.pending j d h)

  -- A flush within the window of an id's last publish keeps the id's pending event and its last
  -- publish.
  pub flush_pending_held :
      (j : String) (pe : PendingEvent) (d : Debounce)
      → lookup j d.pending ≡ some pe
      → due window now j d ≡ false
      → let d' = flush_pending window now d in
        (lookup j d'.pending ≡ some pe) × (lookup j d'.last_publish ≡ lookup j d.last_publish)
  flush_pending_held j pe d h f =
      rw flush_pending-fused
        (let (p, l) = flush_fused_untouched d.pending j d (inl f) in (p ∙ h, l))

-- Forgetting an id publishes nothing and leaves nothing pending for it; other ids are untouched.
pub forget_lem :
    (id j : String) (d : Debounce)
    → ((forget id d).published ≡ d.published)
      × (lookup j (forget id d).pending ≡ (if id == j then none else lookup j d.pending))
      × (lookup j (forget id d).last_publish ≡ (if id == j then none else lookup j d.last_publish))
unfolding forget
forget_lem id j d = (refl, lookup-remove id j d.pending, lookup-remove id j d.last_publish)
