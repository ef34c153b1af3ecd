-- ===== src/Store/Listing.antt =====
-- `List` of internal/store/store.go and its pre-filter on the raw bytes.
use dcm_kcli_provider.Prelude.{
  String, ◌≡◌, refl, ◌∙◌, ◌↔◌, inl, inr, Option, none, some, List, [], ◌∷◌, arith, ◌==◌, eq_iff,
  if◌then◌else◌, Bool, Bool-cases, true, false, Member,
}
use mathlib.Core.Path.{subst}
use dcm_kcli_provider.Prelude.Result.{ok}
use dcm_kcli_provider.Store.Entry.{ResourceEntry}
use dcm_kcli_provider.Store.Backend.{Bolt, BoltLaws, Json, JsonLaws}
use dcm_kcli_provider.Store.{
  Store, tag_skips, type_tag, list_loop, list, put_tx, put, get, delete_tx, delete,
  update_status_tx, update_status,
}
use dcm_kcli_provider.Store.Laws.{update_ok, put_tx_ok, delete_tx_ok, update_status_tx_ok}

module _ (B : Bolt) (J : Json) where
  abbrev pub Encodes : String → String → ResourceEntry → Type 0
  Encodes k payload e = (J.marshal e ≡ ok payload) × (e.id ≡ k)

  -- Every key of the resources bucket holds the encoding of an entry with that id.
  abbrev pub IsCanonical : Store B → Type 0
  IsCanonical s =
      (k payload : String)
      → B.get s.db.resources k ≡ some payload
      → (e : ResourceEntry) × Encodes k payload e

module _ (B : Bolt) (J : Json) (L : BoltLaws B) (K : JsonLaws J) where
  -- The bytes of an entry of a wanted type are never skipped.
  tag_keeps :
      (kind payload : String) (e : ResourceEntry)
      → J.marshal e ≡ ok payload
      → (e.kind == kind) ≡ true
      → tag_skips B J (type_tag kind) payload ≡ false
  unfolding tag_skips
  tag_keeps kind payload e m w = ground (
    arith,
    K.tag_vm e payload m,
    K.tag_cluster e payload m,
    eq_iff e.kind kind,
    eq_iff kind "vm",
    eq_iff kind "cluster",
    eq_iff e.kind "vm",
    eq_iff e.kind "cluster",
  )

  module _ (wanted : ResourceEntry → Bool) (tag : Option String)
      (keeps : (payload : String) (e : ResourceEntry)
        → J.marshal e ≡ ok payload
        → wanted e ≡ true
        → tag_skips B J tag payload ≡ false) where
    abbrev Found : List (String × String) → ResourceEntry → Type 0
    Found pairs e =
        (payload : String) × Member (e.id, payload) pairs
        × (J.marshal e ≡ ok payload)
        × (wanted e ≡ true)

    abbrev Lists : List (String × String) → List ResourceEntry → Type 0
    Lists pairs es =
        ((e : ResourceEntry) → Member e es → Found pairs e)
        × ((e : ResourceEntry) → Found pairs e → Member e es)

    -- One more pair in front, for each outcome of the tests on it.
    Lists-cons :
        (k payload : String) (pairs : List (String × String)) (e₀ : ResourceEntry)
        (es : List ResourceEntry)
        → Encodes B J k payload e₀
        → Lists pairs es
        → Lists ((k, payload) ∷ pairs) (if wanted e₀ then e₀ ∷ es else es)
    Lists-cons k payload pairs e₀ es (m₀, k₀) (sound, complete) = elim (Bool-cases (wanted e₀)) [
      | inl w ↦ rw w (
        (λ e m. elim m [
          | inl same ↦ (payload, inl (ground arith), ground arith, ground arith)
          | inr later ↦ let (p, at, me, we) = sound e later in (p, inr at, me, we)
        ]),
        λ e f.
            let (p, at, me, we) = f in
            elim at [
              | inl same ↦ inl (same_entry e p me same)
              | inr later ↦ inr (complete e (p, later, me, we))
            ],
      )
      | inr w ↦ rw w (
        (λ e m. let (p, at, me, we) = sound e m in (p, inr at, me, we)),
        λ e f.
            let (p, at, me, we) = f in
            elim at [
              | inl same ↦ absurd (let q = same_entry e p me same in ground arith)
              | inr later ↦ complete e (p, later, me, we)
            ],
      )
    ]
      where
        same_entry :
            (e : ResourceEntry) (p : String)
            → J.marshal e ≡ ok p
            → ◌≡◌ {A = String × String} (e.id, p) (k, payload)
            → e ≡ e₀
        same_entry e p me same =
            ground (arith, K.unmarshal-marshal e p me, K.unmarshal-marshal e₀ payload m₀)

    -- The loop over well-encoded pairs succeeds, with exactly the wanted entries among them.
    list_loop_lem :
        (pairs : List (String × String))
        → ((k payload : String)
            → Member (k, payload) pairs
            → (e : ResourceEntry) × Encodes B J k payload e)
        → (es : List ResourceEntry) × (list_loop B J wanted tag pairs ≡ ok es) × Lists pairs es
    unfolding list_loop
    list_loop_lem [] enc = ([], refl, ((λ e m. absurd m), λ e f. absurd f.1))
    list_loop_lem ((k, payload) ∷ pairs) enc =
        let (es, r, ls) = list_loop_lem pairs (λ j p m. enc j p (inr m)) in
        let (e₀, en) = enc k payload (inl refl) in
        let cons = Lists-cons k payload pairs e₀ es en ls in
        elim (Bool-cases (tag_skips B J tag payload)) [
          | inl skip ↦ (
            es,
            ground arith,
            subst (Lists ((k, payload) ∷ pairs)) (ground (arith, keeps payload e₀ en.0)) cons,
          )
          | inr keep ↦ (
            if wanted e₀ then e₀ ∷ es else es,
            ground (arith, K.unmarshal-marshal e₀ payload en.0),
            cons,
          )
        ]

  -- What `Get` returns is encoded under its own id.
  canonical_get :
      (id : String) (e : ResourceEntry) (s : Store B)
      → IsCanonical B J s
      → get B J id s ≡ ok e
      → (payload : String) × (B.get s.db.resources id ≡ some payload) × Encodes B J id payload e
  unfolding get
  canonical_get id e s c g = at_key (B.get s.db.resources id) refl
    where
      at_key :
          (o : Option String)
          → B.get s.db.resources id ≡ o
          → (payload : String) × (B.get s.db.resources id ≡ some payload) × Encodes B J id payload e
      at_key none b = absurd (ground arith)
      at_key (some p) b =
          let (e₀, enc) = c id p b in
          let same : e₀ ≡ e = ground (arith, K.unmarshal-marshal e₀ p enc.0) in
          (p, b, subst (Encodes B J id p) same enc)

  -- On a store whose every key holds the encoding of an entry with that id, List of a type succeeds
  -- and returns exactly the stored entries of that type: the pre-filter on the raw bytes loses none.
  pub list_exact :
      (kind : String) (s : Store B)
      → IsCanonical B J s
      → (es : List ResourceEntry) × (list B J kind s ≡ ok es)
        × ((e : ResourceEntry) → Member e es ↔ ((get B J e.id s ≡ ok e) × (e.kind ≡ kind)))
  unfolding list get
  list_exact kind s c =
      let (es, r, (sound, complete)) =
        list_loop_lem (λ e. e.kind == kind) (type_tag kind) (tag_keeps kind)
          (B.pairs s.db.resources) (λ k p m. c k p ((L.mem-pairs s.db.resources k p).0 m)) in
      (
        es,
        r,
        λ e. (
          (λ m.
              let (p, at, me, w) = sound e m in
              (
                ground
                    (arith, (L.mem-pairs s.db.resources e.id p).0 at, K.unmarshal-marshal e p me),
                (eq_iff e.kind kind).0 w,
              )),
          λ h. complete e (stored e h),
        ),
      )
    where
      stored :
          (e : ResourceEntry)
          → (get B J e.id s ≡ ok e) × (e.kind ≡ kind)
          → (payload : String) × Member (e.id, payload) (B.pairs s.db.resources)
            × (J.marshal e ≡ ok payload)
            × ((e.kind == kind) ≡ true)
      stored e (g, k) =
          let (p, b, enc) = canonical_get e.id e s c g in
          (p, (L.mem-pairs s.db.resources e.id p).1 b, enc.0, (eq_iff e.kind kind).1 k)

  -- Each write keeps the store canonical.
  pub put-IsCanonical :
      (entry : ResourceEntry) (s s' : Store B)
      → put B J entry s ≡ (ok tt, s')
      → IsCanonical B J s
      → IsCanonical B J s'
  unfolding put
  put-IsCanonical entry s s' h c k payload g =
      let (p, m, q, _, _) =
        put_tx_ok B J L K entry s.db s'.db (update_ok B (put_tx B J entry) s s' h) in
      let at = L.get-put s.db.resources s'.db.resources entry.id p k q in
      elim (Bool-cases (entry.id == k)) [
        | inl same ↦ (entry, (ground arith, (eq_iff entry.id k).0 same))
        | inr other ↦ c k payload (ground arith)
      ]

  pub delete-IsCanonical :
      (id : String) (s s' : Store B)
      → delete B J id s ≡ (ok tt, s')
      → IsCanonical B J s
      → IsCanonical B J s'
  unfolding delete
  delete-IsCanonical id s s' h c k payload g =
      let (q, _, _) = delete_tx_ok B J L K id s.db s'.db (update_ok B (delete_tx B J id) s s' h) in
      c k payload (ground (arith, L.get-delete s.db.resources s'.db.resources id k q))

  pub update_status-IsCanonical :
      (id status : String) (s s' : Store B)
      → update_status B J id status s ≡ (ok tt, s')
      → IsCanonical B J s
      → IsCanonical B J s'
  unfolding update_status get
  update_status-IsCanonical id status s s' h c k payload g =
      let (entry, p, old, m, q, _, _) =
        update_status_tx_ok B J L K id status s s'.db
          (update_ok B (update_status_tx B J id status) s s' h) in
      let at = L.get-put s.db.resources s'.db.resources id p k q in
      elim (Bool-cases (id == k)) [
        | inl same ↦
            let (_, _, enc) = canonical_get id entry s c old in
            (record entry { status = status }, (ground arith, enc.1 ∙ (eq_iff id k).0 same))
        | inr other ↦ c k payload (ground arith)
      ]
