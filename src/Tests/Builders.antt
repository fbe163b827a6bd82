-- ===== src/Tests/Builders.antt =====
-- The theorem on the guard's builder at a concrete chain of calls.
use wide_log.Prelude.{ℕ, ◌≡◌, refl, none, some, List, [], ◌∷◌, Str, chars, inl, arith}
use wide_log.Value.{Value, WideEvent, u64, str}
use wide_log.Event.Lookup.{PathUpdate}
use wide_log.Guard.Built.{Defaulted, after_preset}
use wide_log.Session.{returned, World, WideLogGuard}
use wide_log.Session.Builder.{
  Setter, with_timezone, with_preset, with_id_str, with_uuid, with_emit, new_builder, chain,
  build_from,
}
use wide_log.Session.Builder.Chains.{chain-build_from, last_of}
use wide_log.Tests.{Field, request, count, id, site, site-Observes, whole}
use wide_log.Tests.Sessions.{start}

-- Zones and emit functions by number; a reading is a number too.
abbrev setters : List (Setter ℕ ℕ ℕ)
setters =
    with_id_str (chars "fixed")
    ∷ with_timezone 3
    ∷ with_preset (λ e. none)
    ∷ with_uuid
    ∷ with_emit 8
    ∷ with_preset (λ e. some e)
    ∷ with_timezone 4
    ∷ []

abbrev ulid : ℕ → Str
ulid r = chars "ulid"

abbrev uuid : ℕ → Str
uuid r = b'u' ∷ r ∷ []

abbrev literals : List (List Field × Value)
literals = (request ∷ [], u64 1) ∷ (count ∷ [], u64 2) ∷ []

-- The last zone, emit function, id function and preset are the ones that count.
chain-build_from_example :
    (g : WideLogGuard) × (w' : World) × (begin e : WideEvent) × (build_from site whole literals 7
        (chain 0 1 ulid uuid setters (new_builder 0 1 ulid uuid))
        b'x'
        start
      ≡ returned (record { guard = g; tz = 4; emit_fn = 8 }, w'))
    × (g.inner ≡ 0)
    × (g.prev ≡ none)
    × (w'.current_event ≡ some g.inner)
    × (w'.events g.inner ≡ some e)
    × Defaulted site literals begin
    × PathUpdate site
        (λ o. some (str (chars "ux")))
        (id ∷ [])
        (after_preset (some (λ e. e)) begin)
        e
unfolding last_of
chain-build_from_example =
    chain-build_from site site-Observes whole literals 7 0 1 ulid uuid setters (some (λ e. e)) b'x'
      start refl (tt, (tt, tt)) ((inl (omega arith), tt), (tt, tt)) tt
