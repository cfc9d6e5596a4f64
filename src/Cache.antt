-- ===== src/Cache.antt =====
-- src/main/version-cache.ts: pruneVersionPreviewCache. The cache is the list of its files as collectFiles
-- finds them; removing a file succeeds.
mod Tests
pub mod Bounds
use excel_sync.Base.{ℕ, String, Bool, List, [], ◌∷◌, ◌+◌, ◌-◌, ltb, leb, remove, if◌then◌else◌}

pub record CacheEntry : Type 0 where
  pub path : String
  pub size : ℕ
  pub mtime_ms : ℕ

abbrev pub cache_ttl_ms : ℕ
cache_ttl_ms = 86400000

abbrev pub cache_max_bytes : ℕ
cache_max_bytes = 536870912

-- `now - entry.mtimeMs > CACHE_TTL_MS`; a file from the future has no age.
abbrev pub is_expired : ℕ → CacheEntry → Bool
is_expired now e = ltb cache_ttl_ms (now - e.mtime_ms)

-- `sort((a, b) => a.mtimeMs - b.mtimeMs)`, which is stable
unfoldable pub insert_entry : CacheEntry → List CacheEntry → List CacheEntry
insert_entry e [] = e ∷ []
insert_entry e (f ∷ fs) =
    let rest = insert_entry e fs in if leb e.mtime_ms f.mtime_ms then e ∷ f ∷ fs else f ∷ rest

unfoldable pub sort_entries : List CacheEntry → List CacheEntry
sort_entries [] = []
sort_entries (e ∷ es) = insert_entry e (sort_entries es)

unfoldable pub total_size : List CacheEntry → ℕ
total_size [] = 0
total_size (e ∷ es) = e.size + total_size es

-- The files that stay when the oldest are removed until the rest fits.
unfoldable pub evict : ℕ → List CacheEntry → List CacheEntry
evict total [] = []
evict total (e ∷ es) =
    let rest = evict (total - e.size) es in if leb total cache_max_bytes then e ∷ es else rest

unfoldable pub prune_version_preview_cache : ℕ → List CacheEntry → List CacheEntry
prune_version_preview_cache now entries =
    let remaining = sort_entries (remove (is_expired now) entries) in
    evict (total_size remaining) remaining
