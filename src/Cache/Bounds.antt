-- ===== src/Cache/Bounds.antt =====
-- src/main/version-cache.ts: what the cache is after it was pruned.
use excel_sync.Base.{
  ℕ, false, List, [], ◌∷◌, ◌-◌, ◌≤◌, ◌≡◌, refl, All, arith, leb, remove, inl, inr, Bool-cases,
  leb→le,
}
use excel_sync.Cache.{
  CacheEntry, cache_max_bytes, is_expired, insert_entry, sort_entries, total_size, evict,
  prune_version_preview_cache,
}

evict-fits :
    (total : ℕ) (es : List CacheEntry)
    → total ≡ total_size es
    → total_size (evict total es) ≤ cache_max_bytes
unfolding evict total_size
evict-fits total [] h = omega arith
evict-fits total (e ∷ es) h = elim (Bool-cases (leb total cache_max_bytes)) [
  | inl t ↦ rw t (let b = leb→le total cache_max_bytes t in omega arith)
  | inr t ↦ rw t (evict-fits (total - e.size) es (omega arith))
]

insert_entry-All :
    (P : CacheEntry → Type 0) (e : CacheEntry) (es : List CacheEntry)
    → P e
    → All P es
    → All P (insert_entry e es)
unfolding insert_entry
insert_entry-All P e [] h k = (h, tt)
insert_entry-All P e (f ∷ fs) h (kf, k) = elim (Bool-cases (leb e.mtime_ms f.mtime_ms)) [
  | inl t ↦ rw t (h, (kf, k))
  | inr t ↦ rw t (kf, insert_entry-All P e fs h k)
]

sort_entries-All :
    (P : CacheEntry → Type 0) (es : List CacheEntry) → All P es → All P (sort_entries es)
unfolding sort_entries
sort_entries-All P [] h = tt
sort_entries-All P (e ∷ es) (h, k) =
    insert_entry-All P e (sort_entries es) h (sort_entries-All P es k)

evict-All :
    (P : CacheEntry → Type 0) (total : ℕ) (es : List CacheEntry) → All P es → All P (evict total es)
unfolding evict
evict-All P total [] h = tt
evict-All P total (e ∷ es) (h, k) = elim (Bool-cases (leb total cache_max_bytes)) [
  | inl t ↦ rw t (h, k)
  | inr t ↦ rw t (evict-All P (total - e.size) es k)
]

remove-fresh :
    (now : ℕ) (es : List CacheEntry)
    → All (λ e. is_expired now e ≡ false) (remove (is_expired now) es)
remove-fresh now [] = tt
remove-fresh now (e ∷ es) = elim (Bool-cases (is_expired now e)) [
  | inl t ↦ rw t (remove-fresh now es)
  | inr t ↦ rw t (t, remove-fresh now es)
]

-- After the cache was pruned its files are at most 512 MiB together, and none is older than a day.
pub prune_version_preview_cache-fits :
    (now : ℕ) (entries : List CacheEntry)
    → (total_size (prune_version_preview_cache now entries) ≤ cache_max_bytes)
      × All (λ e. is_expired now e ≡ false) (prune_version_preview_cache now entries)
unfolding prune_version_preview_cache
prune_version_preview_cache-fits now entries =
    let P = λ (e : CacheEntry). is_expired now e ≡ false in
    let remaining = sort_entries (remove (is_expired now) entries) in
    (
      evict-fits (total_size remaining) remaining refl,
      evict-All P (total_size remaining) remaining
          (sort_entries-All P (remove (is_expired now) entries) (remove-fresh now entries)),
    )
