-- ===== src/Benchmark/ProcessMetrics.antt =====
-- internal/benchmark/process_metrics_linux_parse.go. A scanner is the lines that it finds, and
-- whether it fails behind them.
use flashgate_mcp.Base.{
  ℕ, zero, suc, ◌*◌, ◌/◌, ◌%◌, ◌^◌, Bool, not, ◌||◌, Option, none, some, List, [], ◌∷◌, ◌++◌, ◌==◌,
  leb, if◌then◌else◌, String, Text, codes, text_eq, is_space,
}
use flashgate_mcp.Base.Result.{Result, ok, err}
use flashgate_mcp.Version.SemVer.{all_digits, numeral}

pub record LinuxMemoryMetrics : Type 0 where
  pub working_set_bytes : Option ℕ
  pub peak_working_set_bytes : Option ℕ
  pub unsupported : List String

pub record LinuxCpuMetrics : Type 0 where
  pub user_cpu_ns : Option ℕ
  pub system_cpu_ns : Option ℕ
  pub unsupported : List String

pub data ParseError : Type 0 where
  read_status invalid_tick_rate invalid_stat_format omitted_cpu_fields : ParseError
  -- with the metrics that are returned beside the error
  invalid_cpu_fields : LinuxCpuMetrics → ParseError

-- `uint64`
abbrev pub wrap : ℕ → ℕ
wrap n = n % 2 ^ 64

-- `strconv.ParseUint(s, 10, 64)`
unfoldable pub parse_uint : Text → Option ℕ
unfolding all_digits numeral text_eq
parse_uint s =
    if text_eq s [] || not (all_digits s)
    then none
    else if leb (2 ^ 64) (numeral 0 s)
    then none
    else some (numeral 0 s)

-- `strings.Fields`: the pieces between spaces that are not empty.
pieces : Text → Text × List Text
unfolding is_space
pieces [] = ([], [])
pieces (c ∷ s) =
    let (word, words) = pieces s in if is_space c then ([], word ∷ words) else (c ∷ word, words)

non_empty : List Text → List Text
non_empty [] = []
non_empty ([] ∷ words) = non_empty words
non_empty ((c ∷ word) ∷ words) = (c ∷ word) ∷ non_empty words

unfoldable pub fields : Text → List Text
unfolding pieces non_empty
fields s = let (word, words) = pieces s in non_empty (word ∷ words)

-- The value of a line in bytes, where it is a number.
status_value : LinuxMemoryMetrics → Text → Option ℕ → LinuxMemoryMetrics
unfolding text_eq
status_value m name none = m
status_value m name (some value) =
    if text_eq name (codes "VmRSS:")
    then record m { working_set_bytes = some (wrap (value * 1024)) }
    else if text_eq name (codes "VmHWM:")
    then record m { peak_working_set_bytes = some (wrap (value * 1024)) }
    else m

status_fields : LinuxMemoryMetrics → List Text → LinuxMemoryMetrics
unfolding status_value parse_uint
status_fields m (name ∷ value ∷ rest) = status_value m name (parse_uint value)
status_fields m _ = m

status_lines : LinuxMemoryMetrics → List Text → LinuxMemoryMetrics
unfolding status_fields fields
status_lines m [] = m
status_lines m (l ∷ ls) = status_lines (status_fields m (fields l)) ls

-- The name of a metric that was not found.
lacking : Option ℕ → String → List String
lacking none name = name ∷ []
lacking (some v) name = []

with_unsupported : LinuxMemoryMetrics → LinuxMemoryMetrics
unfolding lacking
with_unsupported m = record m {
  unsupported =
      m.unsupported
      ++ lacking m.working_set_bytes "idle_working_set_bytes"
      ++ lacking m.peak_working_set_bytes "peak_working_set_bytes";
}

-- `parseLinuxStatus`
unfoldable pub parse_linux_status : List Text → Bool → Result ParseError LinuxMemoryMetrics
unfolding status_lines with_unsupported
parse_linux_status lines failed =
    let none_yet : LinuxMemoryMetrics = record {
      working_set_bytes = none;
      peak_working_set_bytes = none;
      unsupported = [];
    } in
    if failed then err read_status else ok (with_unsupported (status_lines none_yet lines))

-- What is behind the last closing parenthesis.
behind_parenthesis : Text → Option Text
behind_parenthesis [] = none
behind_parenthesis (c ∷ s) = elim (behind_parenthesis s) [
  | some t ↦ some t
  | none ↦ if c == b')' then some s else none
]

field_at : List Text → ℕ → Option Text
field_at [] i = none
field_at (f ∷ fs) zero = some f
field_at (f ∷ fs) (suc i) = field_at fs i

-- `ticks * 1_000_000_000 / ticksPerSecond`
unfoldable pub nanoseconds : ℕ → ℕ → ℕ
nanoseconds ticks_per_second ticks = wrap (ticks * 1000000000) / ticks_per_second

cpu_time : ℕ → Option Text → Option ℕ
unfolding parse_uint nanoseconds
cpu_time ticks_per_second none = none
cpu_time ticks_per_second (some f) = elim (parse_uint f) [
  | none ↦ none
  | some ticks ↦ some (nanoseconds ticks_per_second ticks)
]

cpu_metrics : Option ℕ → Option ℕ → LinuxCpuMetrics
unfolding lacking
cpu_metrics user system = record {
  user_cpu_ns = user;
  system_cpu_ns = system;
  unsupported = lacking user "user_cpu_ns" ++ lacking system "system_cpu_ns";
}

cpu_result : Option ℕ → Option ℕ → Result ParseError LinuxCpuMetrics
unfolding cpu_metrics
cpu_result none none = err (invalid_cpu_fields (cpu_metrics none none))
cpu_result user system = ok (cpu_metrics user system)

cpu_fields : ℕ → List Text → Result ParseError LinuxCpuMetrics
unfolding cpu_result cpu_time field_at
cpu_fields ticks_per_second fs = elim (field_at fs 11) [
  | none ↦ err omitted_cpu_fields
  | some user ↦
      cpu_result (cpu_time ticks_per_second (some user))
        (cpu_time ticks_per_second (field_at fs 12))
]

stat_fields : ℕ → Option Text → Result ParseError LinuxCpuMetrics
unfolding cpu_fields fields
stat_fields ticks_per_second (some (space ∷ c ∷ s)) = cpu_fields ticks_per_second (fields (c ∷ s))
stat_fields ticks_per_second _ = err invalid_stat_format

-- `parseLinuxStat`
unfoldable pub parse_linux_stat : Text → ℕ → Result ParseError LinuxCpuMetrics
unfolding stat_fields behind_parenthesis
parse_linux_stat data_text ticks_per_second =
    if ticks_per_second == 0
    then err invalid_tick_rate
    else stat_fields ticks_per_second (behind_parenthesis data_text)
