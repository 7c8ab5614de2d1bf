-- ===== src/Limits/Windows/Eviction.antt =====
-- What setBoundedMapEntry leaves in the map.
use zadper.Common.{
  ℕ, ◌≤◌, ◌<◌, String, ◌≡◌, refl, Option, none, some, [], ◌∷◌, length, ◌===◌, if◌then◌else◌, eq_iff,
  holds_of, ok, arith,
}
use zadper.Limits.Maps.{
  Entries, get, delete, set, get-set, get-delete, length-set_new, length-delete-le, Distinct,
  delete-Distinct,
}
use zadper.Limits.Windows.{evict_oldest, set_bounded_map_entry}

module _ {ℓ} {V : Type ℓ} (maximum_entries : ℕ) where
  get-evict_oldest :
      (j : String) (m : Entries V)
      → Distinct m
      → get j ((evict_oldest maximum_entries m).1) ≡ (
          if holds_of ((evict_oldest maximum_entries m).0) (λ entry. entry.0 === j)
          then none
          else get j m)
  unfolding evict_oldest get
  get-evict_oldest j [] d = refl
  get-evict_oldest j ((k, v) ∷ m) d = ground (arith, eq_iff k j)

  length-evict_oldest :
      (m : Entries V)
      → 0 < maximum_entries
      → length m ≤ maximum_entries
      → length ((evict_oldest maximum_entries m).1) < maximum_entries
  unfolding evict_oldest
  length-evict_oldest [] p h = omega arith
  length-evict_oldest (e ∷ m) p h = ground arith

  set_bounded-eq-ok :
      (key : String) (value : V) (m : Entries V) {evicted : Option (String × V)} {after : Entries V}
      → set_bounded_map_entry m key value maximum_entries ≡ ok (evicted, after)
      → (0 < maximum_entries)
        × (evicted ≡ (evict_oldest maximum_entries (delete key m)).0)
        × (after ≡ set key value ((evict_oldest maximum_entries (delete key m)).1))
  unfolding set_bounded_map_entry
  set_bounded-eq-ok key value m e = ground arith

  -- In a map in which each key stands once and that has at most the capacity of entries: after the
  -- entry is set, the map still has at most that many; the key has its value, the key of the
  -- entry that is returned as evicted has none, and every other key has what it had.
  pub set_bounded_map_entry-get :
      (key j : String) (value : V) (m : Entries V)
      → {evicted : Option (String × V)} {after : Entries V} → Distinct m
      → length m ≤ maximum_entries
      → set_bounded_map_entry m key value maximum_entries ≡ ok (evicted, after)
      → (length after ≤ maximum_entries)
        × (get j after ≡ (
            if key === j
            then some value
            else if holds_of evicted (λ entry. entry.0 === j)
            then none
            else get j m))
  set_bounded_map_entry-get key j value m d h e =
      let kept : Entries V = delete key m in
      let done = set_bounded-eq-ok key value m e in
      let fits = length-evict_oldest kept done.0 (omega (arith, length-delete-le key m)) in
      let room : Entries V = (evict_oldest maximum_entries kept).1 in
      rw (done.1, done.2)
        (
          omega (arith, length-set_new key value room, fits),
          ground (
            arith,
            eq_iff key j,
            get-set key j value room,
            get-evict_oldest j kept (delete-Distinct key m d),
            get-delete key j m,
          ),
        )
