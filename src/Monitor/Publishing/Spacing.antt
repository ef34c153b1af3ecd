-- ===== src/Monitor/Publishing/Spacing.antt =====
-- The instants at which the events of one resource are taken to be published.
use dcm_kcli_provider.Prelude.{
  map, ◌∙◌, ℕ, ◌+◌, ◌≤◌, String, ◌≡◌, refl, ap, true, false, Option, none, some, List, [], ◌∷◌,
  ◌==◌, if◌then◌else◌, arith, eq_iff, Bool-cases, Option-cases, ◌⊎◌, inl, inr,
}
use dcm_kcli_provider.Prelude.Dict.{Dict, lookup, lookup-insert, lookup-remove}
use dcm_kcli_provider.Events.{event_of}
use dcm_kcli_provider.Monitor.Publishing.{
  stamp, PendingEvent, Debounce, event_at, publish_event, due_since, due, extracted,
  extract_pending, publish_extracted, publish_with_debounce, flush_round, flush_pending, forget,
}
use dcm_kcli_provider.Monitor.Publishing.Laws.{
  publish_due, publish_held, publish_due-taken, publish_held-taken, flush_fused,
  flush_pending-fused,
}

-- When the events of an id were taken to be published, the latest first.
abbrev pub times : String → List (String × ℕ) → List ℕ
times id [] = []
times id ((j, t) ∷ ps) = let rest = times id ps in if j == id then t ∷ rest else rest

abbrev Gap : ℕ → ℕ → List ℕ → Type 0
Gap window t [] = Unit
Gap window t (u ∷ us) = u + window ≤ t

-- Neighbouring times lie a window apart.
abbrev pub Spaced : ℕ → List ℕ → Type 0
Spaced window [] = Unit
Spaced window (t ∷ ts) = Gap window t ts × Spaced window ts

-- What the monitor does to its events.
pub data Op : Type 0 where
  publish : String → String → String → String → Op
  flush : Op
  drop : String → Op

unfoldable pub apply : ℕ → ℕ → Op → Debounce → Debounce
apply window now (publish id kind status message) d =
    publish_with_debounce window now id kind status message d
apply window now flush d = flush_pending window now d
apply window now (drop id) d = forget id d

-- Operations, each with the instant at which it is made.
unfoldable pub run : ℕ → List (ℕ × Op) → Debounce → Debounce
run window [] d = d
run window ((now, op) ∷ ops) d = run window ops (apply window now op d)

-- `id` is not dropped.
abbrev pub Keeps : String → List (ℕ × Op) → Type 0
Keeps id [] = Unit
Keeps id ((now, drop j) ∷ ops) = ((j == id) ≡ false) × Keeps id ops
Keeps id ((now, _) ∷ ops) = Keeps id ops

abbrev Latest : Option ℕ → List ℕ → Type 0
Latest last [] = Unit
Latest last (t ∷ ts) = last ≡ some t

abbrev pub idle : (ℕ → ℕ) → Debounce
idle clock = record {
  last_publish = [];
  pending = [];
  published = [];
  status_changes = 0;
  clock = clock;
  taken = [];
}

module _ (window : ℕ) (id : String) where
  -- Spaced so far, and `lastPublish` knows the latest.
  pub record IsSpaced (d : Debounce) : Type 0 where
    pub spaced : Spaced window (times id d.taken)
    pub latest : Latest (lookup id d.last_publish) (times id d.taken)

  Spaced-cons :
      (now : ℕ) (last : Option ℕ) (ts : List ℕ)
      → Latest last ts
      → Spaced window ts
      → due_since window now last ≡ true
      → Spaced window (now ∷ ts)
  Spaced-cons now last [] l s h = (tt, tt)
  Spaced-cons now last (t ∷ ts) l s h = (ground arith, s)

  -- Publishing an event of an id that is due.
  published-IsSpaced :
      (now : ℕ) (j : String) (d e : Debounce)
      → IsSpaced d
      → due window now j d ≡ true
      → e.taken ≡ (j, now) ∷ d.taken
      → lookup id e.last_publish ≡ (if j == id then some now else lookup id d.last_publish)
      → IsSpaced e
  unfolding due
  published-IsSpaced now j d e v h p l = elim (Bool-cases (j == id)) [
    | inl here ↦
        let at : j ≡ id = (eq_iff j id).0 here in
        let ts : times id e.taken ≡ now ∷ times id d.taken = ground arith in
        let last : lookup id e.last_publish ≡ some now = ground arith in
        record {
          spaced = rw ts (
              Spaced-cons now (lookup id d.last_publish) (times id d.taken) v.latest v.spaced
                (ground arith));
          latest = rw ts last;
        }
    | inr other ↦
        let ts : times id e.taken ≡ times id d.taken = ground arith in
        let last : lookup id e.last_publish ≡ lookup id d.last_publish = ground arith in
        record { spaced = rw ts v.spaced; latest = rw (ts, last) v.latest }
  ]

  -- Changes of other fields do not matter.
  same-IsSpaced :
      (d e : Debounce)
      → IsSpaced d
      → e.taken ≡ d.taken
      → lookup id e.last_publish ≡ lookup id d.last_publish
      → IsSpaced e
  same-IsSpaced d e v p l = record { spaced = rw p v.spaced; latest = rw (p, l) v.latest }

  round-IsSpaced :
      (now : ℕ) (j : String) (d : Debounce)
      → IsSpaced d
      → IsSpaced (publish_extracted j (flush_round window now j d))
  unfolding flush_round
  round-IsSpaced now j d v =
      by_tests (Bool-cases (due window now j d)) (Option-cases (lookup j d.pending))
    where
      by_tests :
          (due window now j d ≡ true) ⊎ (due window now j d ≡ false)
          → (lookup j d.pending ≡ none) ⊎ ((pe : PendingEvent) × (lookup j d.pending ≡ some pe))
          → IsSpaced (publish_extracted j (flush_round window now j d))
      by_tests (inr f) o = rw (f, flush_round) v
      by_tests (inl t) (inl n) = rw (t, n, flush_round, extract_pending) v
      by_tests (inl t) (inr (pe, p)) =
          rw (t, p, flush_round, extract_pending)
            (published-IsSpaced now j d (publish_event j pe (extracted now j d)) v t
              (unfold publish_event extracted in refl)
              (unfold publish_event extracted in lookup-insert j id now d.last_publish))

  flush_fused-IsSpaced :
      (now : ℕ) (ids : Dict PendingEvent) (d : Debounce)
      → IsSpaced d
      → IsSpaced (flush_fused window now ids d)
  unfolding flush_fused
  flush_fused-IsSpaced now [] d v = v
  flush_fused-IsSpaced now ((j, _) ∷ ids) d v =
      flush_fused-IsSpaced now ids (publish_extracted j (flush_round window now j d))
        (round-IsSpaced now j d v)

  publish-IsSpaced :
      (now : ℕ) (j kind status message : String) (d : Debounce)
      → IsSpaced d
      → IsSpaced (publish_with_debounce window now j kind status message d)
  publish-IsSpaced now j kind status message d v = elim (Bool-cases (due window now j d)) [
    | inl t ↦
        published-IsSpaced now j d (publish_with_debounce window now j kind status message d) v t
          (publish_due-taken window now j kind status message d t)
          (publish_due window now j kind status message d id t).2
    | inr f ↦
        let (_, _, l) = publish_held window now j kind status message d j f in
        same-IsSpaced d (publish_with_debounce window now j kind status message d) v
          (publish_held-taken window now j kind status message d f) (ap (lookup id) l)
  ]

  -- Over any operations that do not drop the resource, made at any instants, the times at which its
  -- events were taken lie a window apart.
  run-IsSpaced :
      (ops : List (ℕ × Op)) (d : Debounce) → Keeps id ops → IsSpaced d → IsSpaced (run window ops d)
  unfolding run apply forget
  run-IsSpaced [] d k v = v
  run-IsSpaced ((now, publish j kind status message) ∷ ops) d k v =
      run-IsSpaced ops (publish_with_debounce window now j kind status message d) k
        (publish-IsSpaced now j kind status message d v)
  run-IsSpaced ((now, flush) ∷ ops) d k v =
      run-IsSpaced ops (flush_pending window now d) k
        (rw (flush_pending-fused window now d) (flush_fused-IsSpaced now d.pending d v))
  run-IsSpaced ((now, drop j) ∷ ops) d k v =
      run-IsSpaced ops (forget j d) k.1 (
        same-IsSpaced d (forget j d) v refl
          (ground (arith, lookup-remove j id d.last_publish, k.0)))

  -- From a new monitor's empty state, over any sequence of publishes, flushes and drops at any
  -- instants that does not drop a resource, the instants at which its events were taken to be
  -- published lie a debounce window apart.
  pub events-Spaced :
      (clock : ℕ → ℕ) (ops : List (ℕ × Op))
      → Keeps id ops
      → Spaced window (times id (run window ops (idle clock)).taken)
  events-Spaced clock ops k =
      (run-IsSpaced ops (idle clock) k (record { spaced = tt; latest = tt })).spaced

-- Every event that is published was taken first, in the same order.
abbrev pub IsMatched : Debounce → Type 0
IsMatched d = map (λ p. (event_of p).id) d.published ≡ map (λ t. t.0) d.taken

module _ (window : ℕ) where
  round-IsMatched :
      (now : ℕ) (j : String) (d : Debounce)
      → IsMatched d
      → IsMatched (publish_extracted j (flush_round window now j d))
  unfolding flush_round extract_pending extracted publish_event event_at
  round-IsMatched now j d h = elim (Bool-cases (due window now j d)) [
    | inr f ↦ rw (f, flush_round) h
    | inl t ↦ elim (Option-cases (lookup j d.pending)) [
      | inl n ↦ rw (t, n, flush_round, extract_pending) h
      | inr (pe, p) ↦
          rw (t, p, flush_round, extract_pending)
            (ap (λ i. i ∷ map (λ e. (event_of e).id) d.published) (event_at-id (stamp d) j pe)
              ∙ ap (λ l. j ∷ l) h)
    ]
  ]
    where
      event_at-id : (t : ℕ) (j : String) (pe : PendingEvent) → (event_of (event_at t j pe)).id ≡ j
      event_at-id t j pe = unfold event_at in ground arith

  fused-IsMatched :
      (now : ℕ) (ids : Dict PendingEvent) (d : Debounce)
      → IsMatched d
      → IsMatched (flush_fused window now ids d)
  unfolding flush_fused
  fused-IsMatched now [] d h = h
  fused-IsMatched now ((j, _) ∷ ids) d h =
      fused-IsMatched now ids (publish_extracted j (flush_round window now j d))
        (round-IsMatched now j d h)

  publish-IsMatched :
      (now : ℕ) (j kind status message : String) (d : Debounce)
      → IsMatched d
      → IsMatched (publish_with_debounce window now j kind status message d)
  unfolding event_at
  publish-IsMatched now j kind status message d h = elim (Bool-cases (due window now j d)) [
    | inl t ↦
        let (p, _, _) = publish_due window now j kind status message d j t in
        rw (p, publish_due-taken window now j kind status message d t) (ground (arith, h))
    | inr f ↦
        let (p, _, _) = publish_held window now j kind status message d j f in
        rw (p, publish_held-taken window now j kind status message d f) h
  ]

  pub run-IsMatched :
      (ops : List (ℕ × Op)) (d : Debounce) → IsMatched d → IsMatched (run window ops d)
  unfolding run apply forget
  run-IsMatched [] d h = h
  run-IsMatched ((now, publish j kind status message) ∷ ops) d h =
      run-IsMatched ops (publish_with_debounce window now j kind status message d)
        (publish-IsMatched now j kind status message d h)
  run-IsMatched ((now, flush) ∷ ops) d h =
      run-IsMatched ops (flush_pending window now d)
        (rw (flush_pending-fused window now d) (fused-IsMatched now d.pending d h))
  run-IsMatched ((now, drop j) ∷ ops) d h = run-IsMatched ops (forget j d) h
