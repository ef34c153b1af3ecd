-- ===== src/Api/Vms/Delete.antt =====
-- What `DeleteVM` does on its branches, over any store that keeps the store's laws.
use dcm_kcli_provider.Prelude.{
  ℕ, String, ◌≡◌, refl, ◌∙◌, sym, ap, inl, inr, Bool, false, ◌∷◌, ◌==◌, ◌<>◌, ◌||◌, arith, eq_iff,
  eq_refl, if◌then◌else◌, Bool-cases,
}
use dcm_kcli_provider.Prelude.Result.{Result, ok, err}
use dcm_kcli_provider.Metrics.{dec}
use dcm_kcli_provider.Events.{Published, vm_event}
use dcm_kcli_provider.Store.Entry.{ResourceEntry, StoreError, not_found, StateStore}
use dcm_kcli_provider.Store.Contract.{StateStoreLaws}
use dcm_kcli_provider.Kweb.Api.{
  KwebError, unreachable, conflict, http_error, other_error, KwebClient,
}
use dcm_kcli_provider.Api.Types.{Vm, no_content, problem_response, http_status}
use dcm_kcli_provider.Api.Server.{Server, delete_problem, with_store}
use dcm_kcli_provider.Api.Vms.{not_found_vm, delete_in_kweb, delete_vm, get_vm}

-- An entry that is not on its way out.
abbrev pub is_leaving : ResourceEntry → Bool
is_leaving entry = (entry.status == "DELETING") || (entry.status == "DELETED")

abbrev pub deleted_event : ℕ → String → ResourceEntry → Published
deleted_event now id entry = vm_event (record {
  id = id;
  status = "DELETED";
  message = "VM " <> entry.kcli_name <> " deleted";
  timestamp = now;
})

-- The status of the answer to a delete that kweb refuses.
abbrev pub refused_status : KwebError → ℕ
refused_status unreachable = 502
refused_status conflict = 500
refused_status KwebError.not_found = 500
refused_status (http_error _ _) = 500
refused_status (other_error _) = 500

delete_problem-status : (e : KwebError) → http_status (delete_problem {A = Vm} e) ≡ refused_status e
unfolding delete_problem problem_response
delete_problem-status unreachable = refl
delete_problem-status conflict = refl
delete_problem-status KwebError.not_found = refl
delete_problem-status (http_error _ _) = refl
delete_problem-status (other_error _) = refl

status_set :
    {S : Type 0} (St : StateStore S)
    → StateStoreLaws St
    → (id status : String) (entry : ResourceEntry) (s s' : S) (j : String) → St.get id s ≡ ok entry
    → St.update_status id status s ≡ (ok tt, s')
    → St.get j s' ≡ (if id == j then ok (record entry { status = status }) else St.get j s)
status_set St L id status entry s s' j found set =
    let (e, had, got) = L.get-update_status id status s s' j set in
    let same : e ≡ entry = ground arith in
    got
    ∙ ap (λ (x : ResourceEntry). if id == j then ok (record x { status = status }) else St.get j s)
        same

restored_answers :
    {S : Type 0} (St : StateStore S)
    → StateStoreLaws St
    → (id status : String) (entry : ResourceEntry) (s s₁ s₂ : S) (j : String)
    → St.get id s ≡ ok entry
    → St.update_status id status s ≡ (ok tt, s₁)
    → St.update_status id entry.status s₁ ≡ (ok tt, s₂)
    → St.get j s₂ ≡ St.get j s
restored_answers St L id status entry s s₁ s₂ j found set back =
    let marked = status_set St L id status entry s s₁ id found set ∙ rw (eq_refl id) refl in
    let other = status_set St L id status entry s s₁ j found set in
    let again =
      status_set St L id entry.status (record entry { status = status }) s₁ s₂ j marked back in
    elim (Bool-cases (id == j)) [
      | inl same ↦ again ∙ rw (same) (sym found) ∙ ap (λ x. St.get x s) ((eq_iff id j).0 same)
      | inr differ ↦ again ∙ rw (differ) (other ∙ rw (differ) refl)
    ]

pub removed_answers :
    {S : Type 0} (St : StateStore S)
    → StateStoreLaws St
    → (id status : String) (entry : ResourceEntry) (s s₁ s₂ : S) (j : String)
    → St.get id s ≡ ok entry
    → St.update_status id status s ≡ (ok tt, s₁)
    → St.delete id s₁ ≡ (ok tt, s₂)
    → St.get j s₂ ≡ (if id == j then err not_found else St.get j s)
removed_answers St L id status entry s s₁ s₂ j found set removed =
    let other = status_set St L id status entry s s₁ j found set in
    let last = L.get-delete id s₁ s₂ j removed in
    elim (Bool-cases (id == j)) [
      | inl same ↦ last ∙ rw (same) refl
      | inr differ ↦ last ∙ rw (differ) (other ∙ rw (differ) refl)
    ]

get_missing :
    {S K : Type 0} (St : StateStore S) (Kw : KwebClient K) (id : String) (w : Server S K)
    → St.get id w.store ≡ err not_found
    → (get_vm St Kw id w).0 ≡ problem_response 404 ("VM '" <> id <> "' not found")
unfolding get_vm not_found_vm
get_missing St Kw id w missing = rw (missing, get_vm) refl

module _ {S K : Type 0} (St : StateStore S) (Kw : KwebClient K) where
  leaving_stays :
      (now : ℕ) (id : String) (e : ResourceEntry) (w : Server S K)
      → St.get id w.store ≡ ok e
      → e.status ≡ "DELETING"
      → delete_vm St Kw now id w ≡ (no_content, w)
  unfolding delete_vm
  leaving_stays now id e w found leaving = rw (found, delete_vm) (rw (leaving) refl)

module _ {S K : Type 0} (St : StateStore S) (Kw : KwebClient K) (now : ℕ) (id : String)
    (entry : ResourceEntry) (w : Server S K) where
  -- the store after `UpdateStatus(vmID, "DELETING")`
  abbrev marked : S
  marked = (St.update_status id "DELETING" w.store).1

  abbrev kweb_delete : Result KwebError (Unit {0}) × K
  kweb_delete = Kw.delete_vm entry.kcli_name w.kweb

  live_delete :
      St.get id w.store ≡ ok entry
      → is_leaving entry ≡ false
      → delete_vm St Kw now id w ≡ delete_in_kweb St Kw now id entry (with_store marked w)
  unfolding delete_vm
  live_delete found live = rw (found, delete_vm) (rw (live) refl)

  -- Where the VM is stored and kweb deletes it: the answer is 204, one DELETED event of the VM goes
  -- out, the gauge goes down, and what the store then does is its `Delete` of the marked entry.
  deleted :
      St.get id w.store ≡ ok entry
      → is_leaving entry ≡ false
      → kweb_delete.0 ≡ ok tt
      → let (r, w') = delete_vm St Kw now id w in
        (r ≡ no_content)
        × (w'.managed ≡ dec "vm" ∷ w.managed)
        × (w'.published ≡ deleted_event now id entry ∷ w.published)
        × (w'.store ≡ (St.delete id marked).1)
  deleted found live gone = rw (live_delete found live) (
      unfold delete_in_kweb in
      (
        rw (gone, delete_in_kweb) refl,
        rw (gone, delete_in_kweb) refl,
        rw (gone, delete_in_kweb) refl,
        rw (gone, delete_in_kweb) refl,
      ))

  -- Where kweb refuses to delete a stored VM: nothing is published or counted, the answer's status is
  -- 502 for an unreachable kweb and 500 for any other error, and the store is marked and restored.
  refused :
      (e : KwebError)
      → St.get id w.store ≡ ok entry
      → is_leaving entry ≡ false
      → kweb_delete.0 ≡ err e
      → let (r, w') = delete_vm St Kw now id w in
        (r ≡ delete_problem e)
        × (w'.managed ≡ w.managed)
        × (w'.published ≡ w.published)
        × (w'.store ≡ (St.update_status id entry.status marked).1)
  refused e found live failed = rw (live_delete found live) (
      unfold delete_in_kweb in
      (
        rw (failed, delete_in_kweb) refl,
        rw (failed, delete_in_kweb) refl,
        rw (failed, delete_in_kweb) refl,
        rw (failed, delete_in_kweb) refl,
      ))

  -- Where the VM is stored and live and kweb and the store delete it, DeleteVM answers 204,
  -- publishes one DELETED event, counts the gauge down, GetVM of the id then answers 404, and the
  -- store answers other ids as before.
  pub delete_vm_ok :
      (s₁ s₂ : S) (j : String)
      → StateStoreLaws St
      → St.get id w.store ≡ ok entry
      → is_leaving entry ≡ false
      → kweb_delete.0 ≡ ok tt
      → St.update_status id "DELETING" w.store ≡ (ok tt, s₁)
      → St.delete id s₁ ≡ (ok tt, s₂)
      → let (r, w') = delete_vm St Kw now id w in
        (r ≡ no_content)
        × (w'.managed ≡ dec "vm" ∷ w.managed)
        × (w'.published ≡ deleted_event now id entry ∷ w.published)
        × ((get_vm St Kw id w').0 ≡ problem_response 404 ("VM '" <> id <> "' not found"))
        × (St.get j w'.store ≡ (if id == j then err not_found else St.get j w.store))
  delete_vm_ok s₁ s₂ j L found live gone marked_ok removed =
      let (r, managed, published, stored) = deleted found live gone in
      let left : (delete_vm St Kw now id w).1.store ≡ s₂ =
        stored ∙ ap (λ s. (St.delete id s).1) (ap (λ p. p.1) marked_ok) ∙ ap (λ p. p.1) removed in
      (
        r,
        managed,
        published,
        get_missing St Kw id (delete_vm St Kw now id w).1
            (ap (St.get id) left ∙ L.get-delete id s₁ s₂ id removed ∙ rw (eq_refl id) refl),
        ap (St.get j) left
            ∙ removed_answers St L id "DELETING" entry w.store s₁ s₂ j found marked_ok removed,
      )

  -- Where kweb refuses to delete a stored live VM and the store takes both status changes, nothing
  -- is published or counted, the store answers every id as before the call, and the answer's status
  -- is 502 for an unreachable kweb and 500 for any other error.
  pub delete_vm_refused :
      (e : KwebError) (s₁ s₂ : S) (j : String)
      → StateStoreLaws St
      → St.get id w.store ≡ ok entry
      → is_leaving entry ≡ false
      → kweb_delete.0 ≡ err e
      → St.update_status id "DELETING" w.store ≡ (ok tt, s₁)
      → St.update_status id entry.status s₁ ≡ (ok tt, s₂)
      → let (r, w') = delete_vm St Kw now id w in
        (w'.managed ≡ w.managed)
        × (w'.published ≡ w.published)
        × (St.get j w'.store ≡ St.get j w.store)
        × (http_status r ≡ refused_status e)
  delete_vm_refused e s₁ s₂ j L found live failed marked_ok restored =
      let (r, managed, published, stored) = refused e found live failed in
      let left : (delete_vm St Kw now id w).1.store ≡ s₂ =
        stored
        ∙ ap (λ s. (St.update_status id entry.status s).1) (ap (λ p. p.1) marked_ok)
        ∙ ap (λ p. p.1) restored in
      (
        managed,
        published,
        ap (St.get j) left
            ∙ restored_answers St L id "DELETING" entry w.store s₁ s₂ j found marked_ok restored,
        ap http_status r ∙ delete_problem-status e,
      )

  -- Where kweb deletes a stored live VM and the store fails to delete the marked entry, DeleteVM
  -- answers 204 and counts the gauge down, the store still answers the entry as DELETING, and a
  -- second DeleteVM answers 204 and changes nothing.
  pub delete_vm_stranded :
      (e : StoreError) (now' : ℕ) (s₁ s₂ : S)
      → StateStoreLaws St
      → St.get id w.store ≡ ok entry
      → is_leaving entry ≡ false
      → kweb_delete.0 ≡ ok tt
      → St.update_status id "DELETING" w.store ≡ (ok tt, s₁)
      → St.delete id s₁ ≡ (err e, s₂)
      → let (r, w') = delete_vm St Kw now id w in
        (r ≡ no_content)
        × (w'.managed ≡ dec "vm" ∷ w.managed)
        × (St.get id w'.store ≡ ok (record entry { status = "DELETING" }))
        × (delete_vm St Kw now' id w' ≡ (no_content, w'))
  delete_vm_stranded e now' s₁ s₂ L found live gone marked_ok failed =
      let (r, managed, _, stored) = deleted found live gone in
      let left : (delete_vm St Kw now id w).1.store ≡ s₂ =
        stored ∙ ap (λ s. (St.delete id s).1) (ap (λ p. p.1) marked_ok) ∙ ap (λ p. p.1) failed in
      let kept =
        ap (St.get id) left
        ∙ L.get-delete_failed id s₁ s₂ e id failed
        ∙ status_set St L id "DELETING" entry w.store s₁ id found marked_ok
        ∙ rw (eq_refl id) refl in
      (
        r,
        managed,
        kept,
        leaving_stays St Kw now' id (record entry { status = "DELETING" })
            (delete_vm St Kw now id w).1 kept refl,
      )
