-- ===== src/Runtime/Slots.antt =====
-- acquireStream (dynamic_authority.go), acquireParse and availableParseMemory
-- (dynamic_runtime_state.go): the slots for streams and for parses. The channels that count them
-- are numbers of permits taken; a send that would wait takes the default branch. What a caller
-- releases under its once is a function of its own.
mod Examples
pub mod Leases
use emby_panel.Prelude.{
  ℕ, ◌+◌, ◌-◌, Bool, true, false, not, ◌&&◌, ◌||◌, leb, ltb, min, if◌then◌else◌,
}
use emby_panel.Prelude.Int.{ℤ, pos, pos_part, leb_ℤ, ltb_ℤ}
use emby_panel.Runtime.{World}

abbrev pub global_dynamic_max_streams : ℕ
global_dynamic_max_streams = 1024

abbrev pub global_dynamic_max_concurrent_parses : ℕ
global_dynamic_max_concurrent_parses = 8

abbrev pub global_dynamic_max_site_concurrent_parses : ℕ
global_dynamic_max_site_concurrent_parses = 2

-- 256 << 20 and 64 << 20.
abbrev pub global_dynamic_max_parse_memory_bytes : ℕ
global_dynamic_max_parse_memory_bytes = 268435456

abbrev pub global_dynamic_max_site_parse_memory_bytes : ℕ
global_dynamic_max_site_parse_memory_bytes = 67108864

-- Whether the caller got the slot.
pub acquire_stream : World → World × Bool
acquire_stream w =
    if not (ltb w.runtime.streams global_dynamic_max_streams)
    then (w, false)
    else if not (ltb w.site.streams w.site.limits.max_streams)
    then (w, false)
    else (
      record {
        runtime = record w.runtime { streams = w.runtime.streams + 1 };
        site = record w.site { streams = w.site.streams + 1 };
      },
      true,
    )

pub release_stream : World → World
release_stream w = record {
  runtime = record w.runtime { streams = w.runtime.streams - 1 };
  site = record w.site { streams = w.site.streams - 1 };
}

-- No permit and no memory is kept by a call that is refused.
pub acquire_parse : ℤ → World → World × Bool
acquire_parse memory w =
    let n = pos_part memory in
    if leb_ℤ memory (pos 0) || ltb_ℤ (pos global_dynamic_max_site_parse_memory_bytes) memory
    then (w, false)
    else if not (ltb w.runtime.parses global_dynamic_max_concurrent_parses)
    then (w, false)
    else if not (ltb w.site.parses global_dynamic_max_site_concurrent_parses)
    then (w, false)
    else if ltb global_dynamic_max_parse_memory_bytes (w.runtime.parse_memory + n)
        || ltb global_dynamic_max_site_parse_memory_bytes (w.site.parse_memory + n)
    then (w, false)
    else (
      record {
        runtime = record w.runtime {
          parses = w.runtime.parses + 1;
          parse_memory = w.runtime.parse_memory + n;
        };
        site = record w.site { parses = w.site.parses + 1; parse_memory = w.site.parse_memory + n };
      },
      true,
    )

pub release_parse : ℕ → World → World
release_parse n w = record {
  runtime = record w.runtime {
    parses = w.runtime.parses - 1;
    parse_memory = w.runtime.parse_memory - n;
  };
  site = record w.site { parses = w.site.parses - 1; parse_memory = w.site.parse_memory - n };
}

-- A difference that is 0 or less gives 0.
pub available_parse_memory : World → ℕ
available_parse_memory w =
    min (global_dynamic_max_site_parse_memory_bytes - w.site.parse_memory)
      (global_dynamic_max_parse_memory_bytes - w.runtime.parse_memory)
