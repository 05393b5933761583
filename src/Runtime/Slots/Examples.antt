-- ===== src/Runtime/Slots/Examples.antt =====
-- A site with room for one stream, in a process where other sites hold slots.
use emby_panel.Prelude.{◌≤◌, ◌<◌, ◌≡◌, ◌↔◌, refl, true, [], ◌∷◌, arith, if◌then◌else◌}
use emby_panel.Prelude.Int.{pos, pos_part}
use emby_panel.Runtime.{World}
use emby_panel.Runtime.Slots.{acquire_parse, available_parse_memory}
use emby_panel.Runtime.Slots.Leases.{
  Held, takes_parse, here, next, Inv, slots_exact, acquire_parse_exact,
}

abbrev world : World
world = record {
  runtime = record {
    authorities = [];
    new_authorities = [];
    active_capabilities = 0;
    capability_memory = 0;
    last_capability_prune = 0;
    streams = 3;
    parses = 1;
    parse_memory = 500;
  };
  site = record {
    limits = record {
      max_authorities = 256;
      max_active_capabilities = 4096;
      max_new_authorities_per_minute = 60;
      max_streams = 1;
      idle_expiry_seconds = 1800;
    };
    authorities = [];
    new_authorities = [];
    capabilities = [];
    capability_by_target = [];
    capability_memory = 0;
    streams = 0;
    parses = 0;
    parse_memory = 0;
    open_reservations = [];
    next_id = 0;
  };
}

abbrev idle : Held
idle = record { world = world; streams = 0; parses = [] }

idle-Inv : Inv 3 1 500 idle
idle-Inv = record {
  site_streams = refl;
  all_streams = refl;
  site_parses = refl;
  all_parses = refl;
  site_memory = refl;
  all_memory = refl;
  streams_bound = ground arith;
  all_streams_bound = ground arith;
  parses_bound = ground arith;
  all_parses_bound = ground arith;
  memory_bound = ground arith;
  all_memory_bound = ground arith;
}

abbrev parsing : Held
parsing =
    let (w, got) = acquire_parse (pos 4096) idle.world in
    record {
      world = w;
      streams = idle.streams;
      parses = if got then pos_part (pos 4096) ∷ idle.parses else idle.parses;
    }

slots_exact_example : Inv 3 1 500 parsing
slots_exact_example =
    slots_exact 3 1 500 idle parsing idle-Inv (next here (takes_parse (pos 4096) refl))

acquire_parse_exact_example :
    ((acquire_parse (pos 4096) world).1 ≡ true)
    ↔ ((0 < 4096) × (4096 ≤ available_parse_memory world))
acquire_parse_exact_example = acquire_parse_exact 4096 world (ground arith) (ground arith)
