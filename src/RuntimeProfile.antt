-- ===== src/RuntimeProfile.antt =====
-- vps/runtime_profile.py: the limits of a running instance, from the memory that it sees and from
-- environment overrides. A file is the text that it holds, or `none` where reading it raises
-- OSError; an environment is the dictionary of its variables. `int` reads an optional sign and
-- digits.
pub mod Bounds
use kui_local_multi_exit.Prelude.{
  ℕ, ◌+◌, ◌*◌, ◌/◌, ◌^◌, ◌-◌, String, ◌<>◌, Bool, true, false, not, ◌&&◌, ◌||◌, Option, none, some,
  List, [], ◌∷◌, ◌==◌, ltb, leb, map, if◌then◌else◌,
}
use kui_local_multi_exit.Prelude.Dict
use kui_local_multi_exit.Prelude.Dict.{Dict}
use kui_local_multi_exit.Prelude.Exec.{Outcome, returned, raised, value_error}
use kui_local_multi_exit.Prelude.Int.{ℤ, pos, negsuc}
use kui_local_multi_exit.Prelude.Text.{decimal, lower, strip, split, lines, int}
use kui_local_multi_exit.SlotConfig.{max_slot_count}

abbrev pub gib : ℕ
gib = 1024 ^ 3

abbrev pub max_proxy_connections : ℕ
max_proxy_connections = 4096

abbrev pub unlimited_cgroup_limit : ℕ
unlimited_cgroup_limit = 2 ^ 60

abbrev pub File : Type 0
File = Option String

-- `_read_memory_limit`
unfoldable pub read_memory_limit : File → Option ℕ
unfolding int strip
read_memory_limit none = none
read_memory_limit (some content) =
    let raw = strip content in
    if raw == "" || raw == "max" then none else elim (int raw) [
      | some (pos limit) ↦
          if ltb 0 limit && ltb limit unlimited_cgroup_limit then some limit else none
      | _ ↦ none
    ]

-- The value of the first "MemTotal:" line that has one.
unfoldable pub memtotal_line : List (List String) → Option ℕ
unfolding int
memtotal_line [] = none
memtotal_line ((label ∷ value ∷ rest) ∷ ls) =
    let others = memtotal_line ls in
    if label == "MemTotal:"
    then elim (int value) [
      | some (pos kib) ↦ if ltb 0 kib then some (kib * 1024) else none
      | _ ↦ none
    ]
    else others
memtotal_line (_ ∷ ls) = memtotal_line ls

-- `_read_memtotal`
unfoldable pub read_memtotal : File → Option ℕ
unfolding memtotal_line split lines
read_memtotal none = none
read_memtotal (some content) = memtotal_line (map split (lines content))

-- The files that `detect_memory_limit` looks at, in its order.
pub record MemoryFiles : Type 0 where
  pub cgroup_v2 : File
  pub cgroup_v1 : File
  pub cgroup_v1_root : File
  pub meminfo : File

abbrev or_next {ℓ} :
    {A : Type ℓ} → Option A → (A → Option A × String) → Option A × String → Option A × String
or_next none f rest = rest
or_next (some a) f rest = f a

unfoldable pub detect_memory_limit : MemoryFiles → Option ℕ × String
unfolding read_memory_limit read_memtotal
detect_memory_limit fs =
    or_next (read_memory_limit fs.cgroup_v2) (λ m. (some m, "cgroup-v2"))
      (or_next (read_memory_limit fs.cgroup_v1) (λ m. (some m, "cgroup-v1"))
        (or_next (read_memory_limit fs.cgroup_v1_root) (λ m. (some m, "cgroup-v1"))
          (or_next (read_memtotal fs.meminfo) (λ m. (some m, "meminfo")) (none, "unknown"))))

-- Slots, dial workers and connections.
pub record Limits : Type 0 where
  pub slots : ℕ
  pub workers : ℕ
  pub connections : ℕ

abbrev limits : ℕ → ℕ → ℕ → Limits
limits s w c = record { slots = s; workers = w; connections = c }

unfoldable pub auto_profile : Option ℕ → Limits
auto_profile none = limits 4 2 64
auto_profile (some bytes) =
    if leb bytes (3 * gib / 2)
    then limits 2 1 32
    else if leb bytes (5 * gib / 2)
    then limits 4 2 64
    else if leb bytes (4 * gib)
    then limits 8 2 128
    else limits max_slot_count 4 256

abbrev pub Env : Type 0
Env = Dict String

-- environ.get(name, "").strip()
unfoldable pub env_text : String → Env → String
unfolding strip Dict.get
env_text name env = elim (Dict.get name env) [ none ↦ "" | some v ↦ strip v ]

abbrev range_text : ℕ → ℕ → String
range_text minimum maximum = decimal minimum <> (" and " <> decimal maximum)

-- An integer of the range, or ValueError: with the first text if it is no integer, else the second.
unfoldable pub bounded : String → String → ℕ → ℕ → Option ℤ → Outcome ℕ
bounded not_integer outside minimum maximum none = raised (value_error not_integer)
bounded not_integer outside minimum maximum (some (negsuc n)) = raised (value_error outside)
bounded not_integer outside minimum maximum (some (pos value)) =
    if leb minimum value && leb value maximum then returned value else raised (value_error outside)

abbrev some_value : Outcome ℕ → Outcome (Option ℕ)
some_value (returned v) = returned (some v)
some_value (raised e) = raised e

unfoldable pub parse_override : Env → String → ℕ → ℕ → Outcome (Option ℕ)
parse_override env name minimum maximum =
    let raw = env_text name env in
    if raw == ""
    then returned none
    else some_value (
        bounded (name <> (" must be an integer between " <> range_text minimum maximum))
          (name <> (" must be between " <> range_text minimum maximum)) minimum maximum (int raw))

pub record RuntimeProfile : Type 0 where
  pub slot_count : ℕ
  pub dial_workers : ℕ
  pub max_connections : ℕ
  pub memory_bytes : Option ℕ
  pub memory_source : String

unfoldable pub slot_count_setting : Env → ℕ → Outcome ℕ
slot_count_setting env auto =
    let raw = env_text "KUI_SLOT_COUNT" env in
    if raw == "" || lower raw == "auto"
    then returned auto
    else bounded
        ("KUI_SLOT_COUNT must be an integer between "
          <> (range_text 1 max_slot_count <> ", or auto"))
        ("KUI_SLOT_COUNT must be between " <> range_text 1 max_slot_count) 1 max_slot_count
        (int raw)

abbrev pub default_to : ℕ → Option ℕ → ℕ
default_to d none = d
default_to d (some v) = v

infixl 10 ◌>>=◌
abbrev pub ◌>>=◌ {ℓ κ} : {A : Type ℓ} {B : Type κ} → Outcome A → (A → Outcome B) → Outcome B
returned a >>= k = k a
raised e >>= k = raised e

unfoldable pub resolve_runtime_profile : Env → MemoryFiles → Outcome RuntimeProfile
resolve_runtime_profile env fs = do
  let memory = detect_memory_limit fs
  let auto = auto_profile memory.0
  slot_count ← slot_count_setting env auto.slots
  workers ← parse_override env "KUI_DIAL_WORKERS" 1 slot_count
  connections ← parse_override env "PROXY_MAX_CONNECTIONS" 1 max_proxy_connections
  returned (record {
    slot_count = slot_count;
    dial_workers = default_to auto.workers workers;
    max_connections = default_to auto.connections connections;
    memory_bytes = memory.0;
    memory_source = memory.1;
  })
