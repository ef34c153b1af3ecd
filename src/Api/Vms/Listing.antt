-- ===== src/Api/Vms/Listing.antt =====
-- A client that lists all VMs through `ListVMs` of internal/api/server/vm_handlers.go.
use dcm_kcli_provider.Prelude.{
  ℕ, ◌<◌, ◌≡◌, ◌∙◌, refl, Option, none, List, [], length, arith, length-map,
}
use dcm_kcli_provider.Prelude.Result.{Result, ok, err}
use dcm_kcli_provider.Text.{int_limit}
use dcm_kcli_provider.Store.Entry.{ResourceEntry, StateStore}
use dcm_kcli_provider.Kweb.Api.{
  KwebError, unreachable, conflict, not_found, http_error, other_error, VmInfo, KwebClient,
}
use dcm_kcli_provider.Monitor.{slice_of}
use dcm_kcli_provider.Api.Types.{ListParams, problem_response}
use dcm_kcli_provider.Api.Server.{Server, sort_entries}
use dcm_kcli_provider.Api.Sorting.{length-sort}
use dcm_kcli_provider.Api.Paging.Client.{paged, list_pages, list_pages_complete}
use dcm_kcli_provider.Api.Vms.{vm_results, vm_page, listed, list_vms}

-- The VMs that an answer of kweb names.
abbrev pub known_vms : Result KwebError (Option (List VmInfo)) → List VmInfo
known_vms (ok vms) = slice_of vms
known_vms (err _) = []

module _ {S K : Type 0} (St : StateStore S) (Kw : KwebClient K) where
  length-vm_results :
      (entries : List ResourceEntry) (kweb_vms : List VmInfo)
      → length (vm_results St Kw entries kweb_vms) ≡ length entries
  unfolding vm_results
  length-vm_results entries kweb_vms = length-map _ (sort_entries entries) ∙ length-sort entries

  -- Only an unreachable kweb fails the list.
  listed-page :
      (params : ListParams) (start : ℕ) (entries : List ResourceEntry)
      (r : Result KwebError (Option (List VmInfo)))
      → ¬ (r ≡ err unreachable)
      → listed St Kw params start entries r ≡ vm_page St Kw params start entries (known_vms r)
  unfolding listed
  listed-page params start entries (ok l) h = refl
  listed-page params start entries (err unreachable) h = absurd (h refl)
  listed-page params start entries (err conflict) h = refl
  listed-page params start entries (err not_found) h = refl
  listed-page params start entries (err (http_error _ _)) h = refl
  listed-page params start entries (err (other_error _)) h = refl

  module _ (P : K → Type 0) (r : Result KwebError (Option (List VmInfo)))
      (entries : List ResourceEntry) where
    -- The state of a server whose VMs are listed.
    IsListed : Server S K → Type 0
    IsListed w = (St.list "vm" w.store ≡ ok entries) × P w.kweb

    -- Where kweb gives the same answer to every list of the VMs, other than that it cannot be
    -- reached, and the store lists fewer entries than the largest int, a client with fuel for one
    -- page of each entry that calls ListVMs with any page size, from the first page on and each time
    -- with the token of the page before, collects exactly the VMs of all the entries, in the
    -- listings' order, with what kweb says of them.
    pub list_vms_complete :
        (fuel : ℕ) (size : Option ℕ) (w : Server S K)
        → ((k : K) → P k → ((Kw.list_vms k).0 ≡ r) × P (Kw.list_vms k).1)
        → ¬ (r ≡ err unreachable)
        → P w.kweb
        → St.list "vm" w.store ≡ ok entries
        → length entries < int_limit
        → length entries < fuel
        → list_pages (list_vms St Kw) fuel size none w ≡ vm_results St Kw entries (known_vms r)
    unfolding IsListed list_vms vm_page paged problem_response
    list_vms_complete fuel size w steady reached p listing h l =
        let n = length-vm_results entries (known_vms r) in
        list_pages_complete (list_vms St Kw) IsListed size (vm_results St Kw entries (known_vms r))
          (λ token start v e q.
            rw (e, list_vms)
              (rw (q.0) (
                rw ((steady v.kweb q.1).0) (
                  rw (listed-page _ start entries r reached)
                    (refl, (q.0, (steady v.kweb q.1).1))))))
          (λ token v e. rw (e, list_vms) refl) fuel w (listing, p) (omega (arith, n))
          (omega (arith, n))
