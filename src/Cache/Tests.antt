-- ===== src/Cache/Tests.antt =====
-- The cache at concrete files.
use excel_sync.Base.{[], ◌∷◌, ◌≤◌, ◌≡◌, All, false}
use excel_sync.Base.{refl}
use excel_sync.Cache.{
  sort_entries, insert_entry, evict, CacheEntry, cache_max_bytes, is_expired, total_size,
  prune_version_preview_cache,
}
use excel_sync.Cache.Bounds.{prune_version_preview_cache-fits}

abbrev a_large_file : CacheEntry
a_large_file = record { path = "a"; size = 500000000; mtime_ms = 5 }

abbrev a_new_file : CacheEntry
a_new_file = record { path = "b"; size = 100000000; mtime_ms = 9 }

prune_version_preview_cache-fits_example :
    (total_size (prune_version_preview_cache 10 (a_new_file ∷ a_large_file ∷ [])) ≤ cache_max_bytes)
    × All
        (λ e. is_expired 10 e ≡ false)
        (prune_version_preview_cache 10 (a_new_file ∷ a_large_file ∷ []))
prune_version_preview_cache-fits_example =
    prune_version_preview_cache-fits 10 (a_new_file ∷ a_large_file ∷ [])

the_older_file_goes :
    prune_version_preview_cache 10 (a_new_file ∷ a_large_file ∷ []) ≡ a_new_file ∷ []
unfolding prune_version_preview_cache sort_entries insert_entry total_size evict
the_older_file_goes = refl
