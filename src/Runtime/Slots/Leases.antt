-- ===== src/Runtime/Slots/Leases.antt =====
-- Slots are counted exactly and stay within their limits.
use emby_panel.Prelude.{
  ℕ, ◌+◌, ◌-◌, ◌≤◌, ◌<◌, ◌≡◌, ◌↔◌, refl, ap, ◌∙◌, true, ◌||◌, List, [], ◌∷◌, ◌++◌, arith,
  Bool-cases, inl, inr, ltb, length, if◌then◌else◌,
}
use emby_panel.Prelude.Int.{ℤ, pos, pos_part, leb_ℤ, ltb_ℤ}
use emby_panel.Runtime.{World}
use emby_panel.Runtime.Slots.{
  global_dynamic_max_streams, global_dynamic_max_concurrent_parses,
  global_dynamic_max_site_concurrent_parses, global_dynamic_max_parse_memory_bytes,
  global_dynamic_max_site_parse_memory_bytes, acquire_stream, release_stream, acquire_parse,
  release_parse, available_parse_memory,
}

-- The slots that callers of the site hold: streams, and parses with their memory.
pub record Held : Type 0 where
  pub world : World
  pub streams : ℕ
  pub parses : List ℕ

abbrev pub sum : List ℕ → ℕ
sum [] = 0
sum (n ∷ ns) = n + sum ns

pub data Step (h : Held) (k : Held) : Type 0 where
  takes_stream :
      k ≡ (
        let (w, got) = acquire_stream h.world in
        record { world = w; streams = if got then h.streams + 1 else h.streams; parses = h.parses })
      → Step h k
  frees_stream :
      0 < h.streams
      → k ≡ record { world = release_stream h.world; streams = h.streams - 1; parses = h.parses }
      → Step h k
  takes_parse :
      (memory : ℤ)
      → k ≡ (
          let (w, got) = acquire_parse memory h.world in
          record {
            world = w;
            streams = h.streams;
            parses = if got then pos_part memory ∷ h.parses else h.parses;
          })
      → Step h k
  frees_parse :
      (before : List ℕ) (n : ℕ) (after : List ℕ)
      → h.parses ≡ before ++ n ∷ after
      → k
        ≡ record { world = release_parse n h.world; streams = h.streams; parses = before ++ after }
      → Step h k

pub data Reach (h : Held) : Held → Type 0 where
  here : Reach h h
  next : {u m : Held} → Reach h u → Step u m → Reach h m

-- `streams`, `parses` and `memory` are what the other sites hold.
pub record Inv (streams parses memory : ℕ) (h : Held) : Type 0 where
  pub site_streams : h.world.site.streams ≡ h.streams
  pub all_streams : h.world.runtime.streams ≡ streams + h.streams
  pub site_parses : h.world.site.parses ≡ length h.parses
  pub all_parses : h.world.runtime.parses ≡ parses + length h.parses
  pub site_memory : h.world.site.parse_memory ≡ sum h.parses
  pub all_memory : h.world.runtime.parse_memory ≡ memory + sum h.parses
  pub streams_bound : h.streams ≤ h.world.site.limits.max_streams
  pub all_streams_bound : streams + h.streams ≤ global_dynamic_max_streams
  pub parses_bound : length h.parses ≤ global_dynamic_max_site_concurrent_parses
  pub all_parses_bound : parses + length h.parses ≤ global_dynamic_max_concurrent_parses
  pub memory_bound : sum h.parses ≤ global_dynamic_max_site_parse_memory_bytes
  pub all_memory_bound : memory + sum h.parses ≤ global_dynamic_max_parse_memory_bytes

sum-append :
    (before : List ℕ) (n : ℕ) (after : List ℕ)
    → (sum (before ++ n ∷ after) ≡ n + sum (before ++ after))
      × (length (before ++ n ∷ after) ≡ 1 + length (before ++ after))
sum-append [] n after = (refl, omega arith)
sum-append (b ∷ before) n after =
    let (s, l) = sum-append before n after in (omega (arith, s), omega (arith, l))

module _ (streams parses memory : ℕ) where
  takes_stream-Inv :
      (h : Held)
      → Inv streams parses memory h
      → let (w, got) = acquire_stream h.world in
        Inv streams parses memory (record {
          world = w;
          streams = if got then h.streams + 1 else h.streams;
          parses = h.parses;
        })
  unfolding acquire_stream
  takes_stream-Inv h v =
      elim (Bool-cases (ltb h.world.runtime.streams global_dynamic_max_streams)) [
        | inr full ↦ rw full v
        | inl room ↦ elim (Bool-cases (ltb h.world.site.streams h.world.site.limits.max_streams)) [
          | inr site_full ↦ rw (room, site_full) v
          | inl site_room ↦
              rw (room, site_room)
                (record {
                  site_streams = omega (arith, v.site_streams);
                  all_streams = omega (arith, v.all_streams);
                  site_parses = v.site_parses;
                  all_parses = v.all_parses;
                  site_memory = v.site_memory;
                  all_memory = v.all_memory;
                  streams_bound = ground (arith, v.site_streams);
                  all_streams_bound = ground (arith, v.all_streams);
                  parses_bound = v.parses_bound;
                  all_parses_bound = v.all_parses_bound;
                  memory_bound = v.memory_bound;
                  all_memory_bound = v.all_memory_bound;
                })
        ]
      ]

  takes_parse-Inv :
      (n : ℤ) (h : Held)
      → Inv streams parses memory h
      → let (w, got) = acquire_parse n h.world in
        Inv streams parses memory (record {
          world = w;
          streams = h.streams;
          parses = if got then pos_part n ∷ h.parses else h.parses;
        })
  unfolding acquire_parse
  takes_parse-Inv z h v =
      let n = pos_part z in
      let r = h.world.runtime in
      let s = h.world.site in
      elim (Bool-cases
        (leb_ℤ z (pos 0) || ltb_ℤ (pos global_dynamic_max_site_parse_memory_bytes) z)) [
          | inl bad ↦ rw bad v
          | inr good ↦ elim (Bool-cases (ltb r.parses global_dynamic_max_concurrent_parses)) [
            | inr full ↦ rw (good, full) v
            | inl room ↦
                elim (Bool-cases (ltb s.parses global_dynamic_max_site_concurrent_parses)) [
                  | inr site_full ↦ rw (good, room, site_full) v
                  | inl site_room ↦
                      elim (Bool-cases (
                        ltb global_dynamic_max_parse_memory_bytes (r.parse_memory + n)
                        || ltb global_dynamic_max_site_parse_memory_bytes (s.parse_memory + n))) [
                          | inl too_much ↦ rw (good, room, site_room, too_much) v
                          | inr enough ↦
                              rw (good, room, site_room, enough)
                                (record {
                                  site_streams = v.site_streams;
                                  all_streams = v.all_streams;
                                  site_parses = omega (arith, v.site_parses);
                                  all_parses = omega (arith, v.all_parses);
                                  site_memory = omega (arith, v.site_memory);
                                  all_memory = omega (arith, v.all_memory);
                                  streams_bound = v.streams_bound;
                                  all_streams_bound = v.all_streams_bound;
                                  parses_bound = ground (arith, v.site_parses);
                                  all_parses_bound = ground (arith, v.all_parses);
                                  memory_bound = ground (arith, v.site_memory);
                                  all_memory_bound = ground (arith, v.all_memory);
                                })
                        ]
                ]
          ]
        ]

  Step-Inv : {h k : Held} → Step h k → Inv streams parses memory h → Inv streams parses memory k
  unfolding release_stream release_parse
  Step-Inv {h} (takes_stream e) v = rw e (takes_stream-Inv h v)
  Step-Inv {h} (takes_parse n e) v = rw e (takes_parse-Inv n h v)
  Step-Inv {h} (frees_stream some_held e) v = rw e (record {
    site_streams = omega (arith, v.site_streams);
    all_streams = omega (arith, v.all_streams, some_held);
    site_parses = v.site_parses;
    all_parses = v.all_parses;
    site_memory = v.site_memory;
    all_memory = v.all_memory;
    streams_bound = omega (arith, v.streams_bound);
    all_streams_bound = omega (arith, v.all_streams_bound);
    parses_bound = v.parses_bound;
    all_parses_bound = v.all_parses_bound;
    memory_bound = v.memory_bound;
    all_memory_bound = v.all_memory_bound;
  })
  Step-Inv {h} (frees_parse before n after whole e) v =
      let (s, l) = sum-append before n after in
      let total = ap sum whole ∙ s in
      let count = ap length whole ∙ l in
      rw e (record {
        site_streams = v.site_streams;
        all_streams = v.all_streams;
        site_parses = omega (arith, v.site_parses, count);
        all_parses = omega (arith, v.all_parses, count);
        site_memory = omega (arith, v.site_memory, total);
        all_memory = omega (arith, v.all_memory, total);
        streams_bound = v.streams_bound;
        all_streams_bound = v.all_streams_bound;
        parses_bound = omega (arith, v.parses_bound, count);
        all_parses_bound = omega (arith, v.all_parses_bound, count);
        memory_bound = omega (arith, v.memory_bound, total);
        all_memory_bound = omega (arith, v.all_memory_bound, total);
      })

-- However streams and parses are taken, refused and given back, each slot once: the site's and the
-- runtime's counts of slots and of memory are exactly what is held, and every limit is kept.
pub slots_exact :
    (streams parses memory : ℕ) (h k : Held)
    → Inv streams parses memory h
    → Reach h k
    → Inv streams parses memory k
slots_exact streams parses memory h k v here = v
slots_exact streams parses memory h k v (next {u} r s) =
    Step-Inv streams parses memory s (slots_exact streams parses memory h u v r)

-- While a parse slot is free for the site and for the runtime, acquireParse grants exactly the
-- positive amounts that availableParseMemory still offers.
pub acquire_parse_exact :
    (n : ℕ) (w : World)
    → w.runtime.parses < global_dynamic_max_concurrent_parses
    → w.site.parses < global_dynamic_max_site_concurrent_parses
    → ((acquire_parse (pos n) w).1 ≡ true) ↔ ((0 < n) × (n ≤ available_parse_memory w))
unfolding acquire_parse available_parse_memory
acquire_parse_exact n w room site_room = (λ h. (ground arith, ground arith), λ h. ground arith)
