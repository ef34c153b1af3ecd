-- ===== src/Monitor/Status.antt =====
-- internal/monitor/status.go: kweb's statuses as those of DCM.
use Prim.Native.Char.{code}
use dcm_kcli_provider.Prelude.{
  ℕ, ◌+◌, ◌≤◌, String, ◌≡◌, refl, ◌⊎◌, Bool, true, false, ◌&&◌, ◌||◌, arith, leb, eqb, since_lt,
  since_gt, if◌then◌else◌,
}

-- 10 minutes, in nanoseconds
abbrev pub provisioning_threshold : ℕ
provisioning_threshold = 600_000_000_000

-- The class of a code point under Unicode's simple folding, as far as it can equal an ASCII one:
-- a capital letter folds to its small one, U+017F to `s` and the Kelvin sign U+212A to `k`.
unfoldable pub fold : ℕ → ℕ
fold c =
    if leb b'A' c && leb c b'Z'
    then c + 32
    else if eqb c 0x17f
    then b's'
    else if eqb c 0x212a
    then b'k'
    else c

-- strings.EqualFold, where one of the texts is ASCII
unfoldable pub eqf : String → String → Bool
eqf String.[] String.[] = true
eqf String.[] (String.◌∷◌ d t) = false
eqf (String.◌∷◌ c s) String.[] = false
eqf (String.◌∷◌ c s) (String.◌∷◌ d t) = eqb (fold (code c)) (fold (code d)) && eqf s t

-- `now` is what `time.Since` reads
unfoldable pub map_vm_status : String → ℕ → ℕ → String
map_vm_status kweb_status created_at now =
    if eqf kweb_status "up" || eqf kweb_status "running"
    then "RUNNING"
    else if eqf kweb_status "down" || eqf kweb_status "shutoff"
    then (if since_lt now created_at provisioning_threshold then "PROVISIONING" else "STOPPED")
    else if eqf kweb_status "paused" || eqf kweb_status "suspended"
    then "PAUSED"
    else if eqf kweb_status "error"
        || eqf kweb_status "crashed"
        || eqf kweb_status "nostate"
        || eqf kweb_status "fault"
    then "ERROR"
    else if eqf kweb_status "shuttingdown"
        || eqf kweb_status "stopping"
        || eqf kweb_status "powering-off"
    then "STOPPING"
    else "ERROR"

unfoldable pub map_cluster_status : Bool → ℕ → ℕ → ℕ → String
map_cluster_status has_nodes created_at cluster_create_timeout now =
    if has_nodes
    then "ACTIVE"
    else if since_gt now created_at cluster_create_timeout
    then "ERROR"
    else "CREATING"

eqf_trans : (s t u : String) → eqf s t ≡ true → eqf s u ≡ eqf t u
unfolding eqf
eqf_trans String.[] String.[] u h = refl
eqf_trans String.[] (String.◌∷◌ d t) u h = ground arith
eqf_trans (String.◌∷◌ c s) String.[] u h = ground arith
eqf_trans (String.◌∷◌ c s) (String.◌∷◌ d t) String.[] h = refl
eqf_trans (String.◌∷◌ c s) (String.◌∷◌ d t) (String.◌∷◌ e u) h = ground (arith, eqf_trans s t u)

-- Two spellings of a kweb status that are equal under case folding have the same DCM status.
pub map_vm_status_fold :
    (s t : String) (created_at now : ℕ)
    → eqf s t ≡ true
    → map_vm_status s created_at now ≡ map_vm_status t created_at now
unfolding map_vm_status
map_vm_status_fold s t created_at now h =
    rw
      (
        eqf_trans s t "up" h,
        eqf_trans s t "running" h,
        eqf_trans s t "down" h,
        eqf_trans s t "shutoff" h,
        eqf_trans s t "paused" h,
        eqf_trans s t "suspended" h,
        eqf_trans s t "error" h,
        eqf_trans s t "crashed" h,
        eqf_trans s t "nostate" h,
        eqf_trans s t "fault" h,
        eqf_trans s t "shuttingdown" h,
        eqf_trans s t "stopping" h,
        eqf_trans s t "powering-off" h,
      )
      refl

-- As time passes and kweb's status stays, a VM's DCM status either stays or goes from PROVISIONING
-- to STOPPED.
pub map_vm_status_later :
    (s : String) (created_at now later : ℕ)
    → now ≤ later
    → (map_vm_status s created_at later ≡ map_vm_status s created_at now)
      ⊎ ((map_vm_status s created_at now ≡ "PROVISIONING")
          × (map_vm_status s created_at later ≡ "STOPPED"))
unfolding map_vm_status
map_vm_status_later s created_at now later h = ground arith
