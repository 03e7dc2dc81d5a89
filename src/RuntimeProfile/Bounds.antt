-- ===== src/RuntimeProfile/Bounds.antt =====
-- The profiles that resolve_runtime_profile of vps/runtime_profile.py can return.
use kui_local_multi_exit.Prelude.{◌≤◌, ◌≡◌, String, ◌⊎◌, refl}
use kui_local_multi_exit.Prelude.Text.{lower}
use kui_local_multi_exit.Prelude.Exec.{Outcome, returned, raised}
use kui_local_multi_exit.RuntimeProfile.{
  Limits, auto_profile, env_text, Env, RuntimeProfile, MemoryFiles, max_proxy_connections,
  detect_memory_limit, ◌>>=◌,
}
use kui_local_multi_exit.SlotConfig.{max_slot_count}

-- A variable that is unset, empty or blank.
abbrev pub IsUnset : String → Env → Type 0
IsUnset name env = env_text name env ≡ ""

-- The slot count is left to the memory: the variable is unset, or says so.
abbrev pub IsAutomatic : Env → Type 0
IsAutomatic env = IsUnset "KUI_SLOT_COUNT" env ⊎ (lower (env_text "KUI_SLOT_COUNT" env) ≡ "auto")

pub record ProfileBounds (env : Env) (fs : MemoryFiles) (p : RuntimeProfile) : Type 0 where
  pub slots : (1 ≤ p.slot_count) × (p.slot_count ≤ max_slot_count)
  pub workers : (1 ≤ p.dial_workers) × (p.dial_workers ≤ max_slot_count)
  pub connections : (1 ≤ p.max_connections) × (p.max_connections ≤ max_proxy_connections)
  pub automatic_slots :
      IsAutomatic env → p.slot_count ≡ (auto_profile (detect_memory_limit fs).0).slots
  pub workers_fit :
      (p.dial_workers ≤ p.slot_count)
      ⊎ (IsUnset "KUI_DIAL_WORKERS" env
          × (IsAutomatic env → ⊥)
          × (p.dial_workers ≡ (auto_profile (detect_memory_limit fs).0).workers))

pub bind_returned :
    {A B : Type 0} (m : Outcome A) (f : A → Outcome B) (b : B)
    → (m >>= f) ≡ returned b
    → (a : A) × (m ≡ returned a) × (f a ≡ returned b)
bind_returned (returned a) f b h = (a, refl, h)
bind_returned (raised e) f b h = cc

module _ (env : Env) (fs : MemoryFiles) (p : RuntimeProfile) where
  abbrev pub automatic : Limits
  automatic = auto_profile (detect_memory_limit fs).0
