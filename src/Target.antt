-- ===== src/Target.antt =====
-- src/backend/DebuggerTypes.h: the parts of a session snapshot that the models read, and the lookups
-- of regions and modules in src/app and src/backend/lldb.
use mydbg.Base.{
  ℕ, ◌+◌, ◌-◌, ◌^◌, Bool, true, false, not, ◌&&◌, ◌||◌, Option, none, some, List, [], ◌∷◌, leb, ltb,
  if◌then◌else◌, find?,
}
use mydbg.Base.Bytes.{Bytes, equal}

pub data SessionState : Type 0 where
  initializing no_target target_loaded launching connecting : SessionState
  running stopped exited error shutting_down : SessionState

unfoldable pub is_stopped : SessionState → Bool
is_stopped stopped = true
is_stopped _ = false

pub record MemoryRegionInfo : Type 0 where
  pub start : ℕ
  pub end : ℕ
  pub readable : Bool
  pub writable : Bool
  pub executable : Bool

pub record ModuleInfo : Type 0 where
  pub base : ℕ
  pub end : ℕ
  pub load_bias : ℕ
  pub has_load_bias : Bool
  pub path : Bytes

pub record SessionSnapshot : Type 0 where
  pub state : SessionState
  pub generation : ℕ
  pub memory_base : ℕ
  pub memory : Bytes
  pub byte_order : Bytes
  pub address_byte_size : ℕ
  pub memory_regions : List MemoryRegionInfo
  pub modules : List ModuleInfo

abbrev pub any {ℓ} : {A : Type ℓ} → (A → Bool) → List A → Bool
any p [] = false
any p (x ∷ xs) = p x || any p xs

-- `address >= start && address < end`
abbrev pub contains : ℕ → MemoryRegionInfo → Bool
contains address region = leb region.start address && ltb address region.end

-- `region_containing`: the first region that holds the address
abbrev pub region_containing : List MemoryRegionInfo → ℕ → Option MemoryRegionInfo
region_containing regions address = find? (contains address) regions

-- `app_navigation_address_is_code` and `debugger_memory_address_is_code`
unfoldable pub address_is_code : List MemoryRegionInfo → ℕ → Bool
address_is_code regions address =
    any (λ region. region.executable && (leb region.start address && ltb address region.end))
      regions

unfoldable pub navigable_address : List MemoryRegionInfo → ℕ → Bool
navigable_address regions address =
    any (λ region. contains address region && (region.readable || region.executable)) regions

abbrev pub permission : Bool → ℕ → ℕ
permission flag letter = if flag then letter else b'-'

unfoldable pub permission_text : MemoryRegionInfo → Bytes
permission_text region =
    permission region.readable b'r'
    ∷ permission region.writable b'w'
    ∷ permission region.executable b'x'
    ∷ []

unfoldable pub module_for_address : List ModuleInfo → ℕ → Option ModuleInfo
module_for_address modules address =
    find? (λ entry. leb entry.base address && ltb address entry.end) modules

abbrev u64_max : ℕ
u64_max = 2 ^ 64 - 1

abbrev loaded_at : List MemoryRegionInfo → ℕ → Option ModuleInfo → Option ℕ
loaded_at regions file_address none = none
loaded_at regions file_address (some m) =
    if not m.has_load_bias || ltb (u64_max - m.load_bias) file_address
    then none
    else if navigable_address regions (file_address + m.load_bias)
    then some (file_address + m.load_bias)
    else none

unfoldable pub load_address_for_file : SessionSnapshot → Bytes → ℕ → Option ℕ
unfolding navigable_address equal
load_address_for_file snapshot module_path file_address =
    loaded_at snapshot.memory_regions file_address
      (find? (λ entry. equal entry.path module_path) snapshot.modules)
